-- ===== src/Issuer/Skip.antt =====
-- simple/issuer.py: the elements that a predicate mask skips.
use native.Mathlib.Nat.{
  div-le_self, div-div-eq-div-mul, add-mul-div_left, mul_assoc, one-le-pow, pow-succ',
}
use libresoc_soc.Common.{
  ℕ, zero, suc, ◌+◌, ◌-◌, ◌*◌, ◌/◌, ◌%◌, ◌^◌, ◌≤◌, ◌<◌, ◌≡◌, sym, ap, subst, ◌∙◌, arith, true,
  false, ◌==◌, if◌then◌else◌, Bool-cases, inl, inr, bit, ltb,
}
use libresoc_soc.Issuer.Issue.{priority_encoder, delta_of}

pow_add : (s j : ℕ) → 2 ^ (s + j) ≡ 2 ^ s * 2 ^ j
pow_add zero j =
    ap (λ k. 2 ^ k) (let e : zero + j ≡ j = omega arith in e)
    ∙ (let f : 2 ^ j ≡ 1 * 2 ^ j = omega arith in f)
pow_add (suc s) j =
    ap (λ k. 2 ^ k) (let e : suc s + j ≡ suc (s + j) = omega arith in e)
    ∙ pow-succ' 2 (s + j)
    ∙ ap (λ k. 2 * k) (pow_add s j)
    ∙ sym (mul_assoc 2 (2 ^ s) (2 ^ j))
    ∙ ap (λ k. k * 2 ^ j) (sym (pow-succ' 2 s))

pub bit-half : (i j : ℕ) → bit (i / 2) j ≡ bit i (suc j)
bit-half i j =
    ap (λ k. k % 2 == 1) (div-div-eq-div-mul i 2 (2 ^ j) ∙ ap (λ k. i / k) (sym (pow-succ' 2 j)))

-- The bits below the place that is found are clear, and the one there is set, if there is one.
priority_encoder-clear : (n i j : ℕ) → j < priority_encoder n i → bit i j ≡ false
unfolding priority_encoder
priority_encoder-clear zero i j h = ground (arith, h)
priority_encoder-clear (suc n) i j h = elim (Bool-cases (bit i 0)) [
  | inl e ↦
      (let l : j < (if true then 0 else suc (priority_encoder n (i / 2))) =
          subst (λ k. j < (if k then 0 else suc (priority_encoder n (i / 2)))) e h in
        ground (arith, l))
  | inr e ↦
      (let l : j < suc (priority_encoder n (i / 2)) =
          subst (λ k. j < (if k then 0 else suc (priority_encoder n (i / 2)))) e h in
        below j l e (priority_encoder-clear n (i / 2)))
]
  where
    below :
        (j : ℕ)
        → j < suc (priority_encoder n (i / 2))
        → bit i 0 ≡ false
        → ((k : ℕ) → k < priority_encoder n (i / 2) → bit (i / 2) k ≡ false)
        → bit i j ≡ false
    below zero l e f = e
    below (suc j) l e f = sym (bit-half i j) ∙ f j (omega (arith, l))

priority_encoder-set : (n i : ℕ) → priority_encoder n i < n → bit i (priority_encoder n i) ≡ true
unfolding priority_encoder
priority_encoder-set zero i h = ground (arith, h)
priority_encoder-set (suc n) i h = elim (Bool-cases (bit i 0)) [
  | inl e ↦ ap (λ k. bit i (if k then 0 else suc (priority_encoder n (i / 2)))) e ∙ e
  | inr e ↦
      (let l : suc (priority_encoder n (i / 2)) < suc n =
          subst (λ k. (if k then 0 else suc (priority_encoder n (i / 2))) < suc n) e h in
        ap (λ k. bit i (if k then 0 else suc (priority_encoder n (i / 2)))) e
        ∙ sym (bit-half i (priority_encoder n (i / 2)))
        ∙ priority_encoder-set n (i / 2) (omega (arith, l)))
]

-- A mask with the bit above it.
guard-low : (m j : ℕ) → j < 64 → bit (m + 2 ^ 64) j ≡ bit m j
guard-low m j h =
    ap (λ k. (m + k) / 2 ^ j % 2 == 1) split
    ∙ ap (λ k. k % 2 == 1) (add-mul-div_left m (2 * 2 ^ (63 - j)) (one-le-pow j 2 (omega arith)))
    ∙ even (m / 2 ^ j) (2 ^ (63 - j))
  where
    even : (a k : ℕ) → ((a + 2 * k) % 2 == 1) ≡ (a % 2 == 1)
    even a k = ground arith

    split : 2 ^ 64 ≡ 2 ^ j * (2 * 2 ^ (63 - j))
    split =
        ap (λ k. 2 ^ k) (let e : 64 ≡ j + suc (63 - j) = omega (arith, h) in e)
        ∙ pow_add j (suc (63 - j))
        ∙ ap (λ k. 2 ^ j * k) (pow-succ' 2 (63 - j))

guard-top : (m : ℕ) → m < 2 ^ 64 → bit (m + 2 ^ 64) 64 ≡ true
guard-top m h = ground (arith, h)

-- What the place of the next element is.
guarded : (m : ℕ) → m < 2 ^ 64 → priority_encoder 65 (m + 2 ^ 64) ≤ 64
guarded m h = elim (Bool-cases (ltb 64 (priority_encoder 65 (m + 2 ^ 64)))) [
  | inl e ↦
      (let l : 64 < priority_encoder 65 (m + 2 ^ 64) = ground (arith, e) in
        let c : true ≡ false = sym (guard-top m h) ∙ priority_encoder-clear 65 (m + 2 ^ 64) 64 l in
        ground (arith, c))
  | inr e ↦ ground (arith, e)
]

pub delta-clear : (m j : ℕ) → m < 2 ^ 64 → j < delta_of false m → bit m j ≡ false
unfolding delta_of
delta-clear m j h l =
    let g : priority_encoder 65 (m + 2 ^ 64) ≤ 64 = guarded m h in
    sym (guard-low m j (omega (arith, g, l))) ∙ priority_encoder-clear 65 (m + 2 ^ 64) j l

pub delta-set : (m : ℕ) → m < 2 ^ 64 → delta_of false m < 64 → bit m (delta_of false m) ≡ true
unfolding delta_of
delta-set m h l =
    sym (guard-low m (priority_encoder 65 (m + 2 ^ 64)) l)
    ∙ priority_encoder-set 65 (m + 2 ^ 64) (omega (arith, l))

pub delta-le : (m : ℕ) → m < 2 ^ 64 → delta_of false m ≤ 64
unfolding delta_of
delta-le m h = guarded m h

-- A bit of a mask of which the bits of the elements before are shifted out.
pub bit-shifted : (m s j : ℕ) → bit (m / 2 ^ s) j ≡ bit m (s + j)
bit-shifted m s j =
    ap (λ k. k % 2 == 1)
      (div-div-eq-div-mul m (2 ^ s) (2 ^ j) ∙ ap (λ k. m / k) (sym (pow_add s j)))

-- The mask without the elements up to the next one.
pub shifted-on : (m s d : ℕ) → m / 2 ^ s / 2 ^ (d + 1) ≡ m / 2 ^ (s + d + 1)
shifted-on m s d =
    div-div-eq-div-mul m (2 ^ s) (2 ^ (d + 1))
    ∙ ap (λ k. m / k)
        (sym (pow_add s (d + 1))
          ∙ ap (λ k. 2 ^ k) (let e : s + (d + 1) ≡ s + d + 1 = omega arith in e))

pub shifted-lt : (m s : ℕ) → m < 2 ^ 64 → m / 2 ^ s < 2 ^ 64
shifted-lt m s h = (let l : m / 2 ^ s ≤ m = div-le_self m (2 ^ s) in omega (arith, l, h))
