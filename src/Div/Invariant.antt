-- ===== src/Div/Invariant.antt =====
-- The quotient bits that the divider of fu/div/fsm.py has found after k rounds.
use native.Mathlib.Nat.{mul-le-mul_right}
use libresoc_soc.Common.{ℕ, suc, ◌+◌, ◌-◌, ◌*◌, ◌^◌, ◌≤◌, ◌<◌, ◌≡◌, ap, refl, inl, inr, ◌∙◌}
use libresoc_soc.Common.{arith, leb, Bool-cases, leb→le, leb-false→lt}
use libresoc_soc.Div.{DivState, div_state_next, div_state_init}
use libresoc_soc.Div.Step.{pow-split}
use libresoc_soc.Div.Round.{next_large, next_small}

-- After k rounds `dividend_quotient` holds the k quotient bits below what is left of the dividend.
pub record IsRound (w d dividend k : ℕ) (s : DivState) : Type 0 where
  pub known : s.q_bits_known ≡ k
  pub rest : ℕ
  pub quo : ℕ
  pub packed : s.dividend_quotient ≡ rest * 2 ^ k + quo
  pub quo_fits : quo < 2 ^ k
  pub sum : rest + quo * (d * 2 ^ (w - k)) ≡ dividend
  pub rest_fits : rest < d * 2 ^ (w - k)

-- One round on numbers: e is 2 ^ k and f is 2 ^ (w - k - 1).
module _ (d e f rest quo : ℕ) (quo_fits : quo < e) (rest_fits : rest < d * (2 * f)) where
  rest_times : (r : ℕ) → r < d * (2 * f) → r * e + e ≤ d * (2 * f) * e
  rest_times r h = omega (arith, mul-le-mul_right e h)

  below_top : rest * e + quo < d * (f * e) + d * (f * e)
  below_top = omega (arith, rest_times rest rest_fits)

  large_iff : d * (f * e) ≤ rest * e + quo → d * f ≤ rest
  large_iff h = elim (Bool-cases (leb (d * f) rest)) [
    | inl p ↦ leb→le _ _ p
    | inr p ↦ absurd (omega (arith, mul-le-mul_right e (leb-false→lt (d * f) rest p)))
  ]

  small_iff : rest * e + quo < d * (f * e) → rest < d * f
  small_iff h = elim (Bool-cases (leb (d * f) rest)) [
    | inr p ↦ leb-false→lt _ _ p
    | inl p ↦ absurd (omega (arith, mul-le-mul_right e (leb→le (d * f) rest p)))
  ]

  packed_large :
      d * f ≤ rest
      → 1 + (rest * e + quo - d * (f * e)) * 2 ≡ (rest - d * f) * (2 * e) + (1 + 2 * quo)
  packed_large h =
      let r = rest - d * f in
      let eq : rest ≡ r + d * f = omega arith in omega (arith, ap (λ (t : ℕ). t * e) eq)

  sum_large : d * f ≤ rest → (rest - d * f) + (1 + 2 * quo) * (d * f) ≡ rest + quo * (d * (2 * f))
  sum_large h = omega arith

-- The powers of two of round k.
module _ (w k : ℕ) (more : k < w) where
  pow_left : 2 ^ (w - k) ≡ 2 * 2 ^ (w - suc k)
  pow_left =
      let e : w - k ≡ 1 + (w - suc k) = omega arith in
      ap (λ (t : ℕ). 2 ^ t) e ∙ pow-split 1 (w - suc k)

  pow_top : 2 ^ (w - 1) ≡ 2 ^ (w - suc k) * 2 ^ k
  pow_top =
      let e : w - 1 ≡ (w - suc k) + k = omega arith in
      ap (λ (t : ℕ). 2 ^ t) e ∙ pow-split (w - suc k) k

  pow_next : 2 ^ suc k ≡ 2 * 2 ^ k
  pow_next = let e : suc k ≡ 1 + k = omega arith in ap (λ (t : ℕ). 2 ^ t) e ∙ pow-split 1 k

-- The shifted divisor fits below the top bit.
shifted_fits : (w d : ℕ) → 0 < w → d < 2 ^ w → d * 2 ^ (w - 1) ≤ 2 ^ (w * 2 - 1)
shifted_fits w d pos narrow =
    let e : w * 2 - 1 ≡ w + (w - 1) = omega arith in
    let p : 2 ^ (w * 2 - 1) ≡ 2 ^ w * 2 ^ (w - 1) = ap (λ (t : ℕ). 2 ^ t) e ∙ pow-split w (w - 1) in
    rw p (mul-le-mul_right (2 ^ (w - 1)) (omega arith))

module _ (w d dividend k : ℕ) (s : DivState) (more : k < w) (narrow : d < 2 ^ w)
    (r : IsRound w d dividend k s) where
  abbrev e : ℕ
  e = 2 ^ k

  abbrev f : ℕ
  f = 2 ^ (w - suc k)

  top : d * 2 ^ (w - 1) ≡ d * (f * e)
  top = ap (λ (t : ℕ). d * t) (pow_top w k more)

  left : d * 2 ^ (w - k) ≡ d * (2 * f)
  left = ap (λ (t : ℕ). d * t) (pow_left w k more)

  rest_left : r.rest < d * (2 * f)
  rest_left = omega (arith, left)

  near : s.dividend_quotient < d * 2 ^ (w - 1) + 2 ^ (w * 2 - 1)
  near = omega (
    arith,
    top,
    below_top d e f r.rest r.quo r.quo_fits rest_left,
    shifted_fits w d (omega arith) narrow,
  )

  IsRound-large :
      d * 2 ^ (w - 1) ≤ s.dividend_quotient → IsRound w d dividend (suc k) (div_state_next w d s)
  IsRound-large h =
      let below : d * f ≤ r.rest =
        large_iff d e f r.rest r.quo r.quo_fits rest_left (omega (arith, top)) in
      rw
        (next_large w d (omega arith) s (omega arith) (shifted_fits w d (omega arith) narrow) h
          near)
        (record {
          known = omega arith;
          rest = r.rest - d * f;
          quo = 1 + 2 * r.quo;
          packed = omega (
            arith,
            top,
            packed_large d e f r.rest r.quo r.quo_fits rest_left below,
            ap (λ (t : ℕ). (r.rest - d * f) * t) (pow_next w k more),
          );
          quo_fits = omega (arith, pow_next w k more);
          sum = omega (
            arith,
            sum_large d e f r.rest r.quo r.quo_fits rest_left below,
            ap (λ (t : ℕ). r.quo * t) left,
          );
          rest_fits = omega (arith, rest_left);
        })

  IsRound-small :
      s.dividend_quotient < d * 2 ^ (w - 1) → IsRound w d dividend (suc k) (div_state_next w d s)
  IsRound-small h =
      rw (next_small w d (omega arith) s (omega arith) (shifted_fits w d (omega arith) narrow) h)
        (record {
          known = omega arith;
          rest = r.rest;
          quo = 2 * r.quo;
          packed = omega (arith, ap (λ (t : ℕ). r.rest * t) (pow_next w k more));
          quo_fits = omega (arith, pow_next w k more);
          sum = omega (arith, ap (λ (t : ℕ). r.quo * t) left);
          rest_fits = small_iff d e f r.rest r.quo r.quo_fits rest_left (omega (arith, top));
        })

-- A round that is not the last finds one more bit and keeps the sum.
pub IsRound-next :
    (w d dividend k : ℕ) (s : DivState)
    → k < w
    → d < 2 ^ w
    → IsRound w d dividend k s
    → IsRound w d dividend (suc k) (div_state_next w d s)
IsRound-next w d dividend k s more narrow r =
    elim (Bool-cases (leb (d * 2 ^ (w - 1)) s.dividend_quotient)) [
      | inl p ↦ IsRound-large w d dividend k s more narrow r (leb→le _ _ p)
      | inr p ↦ IsRound-small w d dividend k s more narrow r (leb-false→lt _ _ p)
    ]

w_minus : (w : ℕ) → w - 0 ≡ w
w_minus w = omega arith

pub IsRound-init :
    (w d dividend : ℕ) → dividend < d * 2 ^ w → IsRound w d dividend 0 (div_state_init w dividend)
unfolding div_state_init
IsRound-init w d dividend h = record {
  known = refl;
  rest = dividend;
  quo = 0;
  packed = omega arith;
  quo_fits = omega arith;
  sum = omega arith;
  rest_fits = omega (arith, ap (λ (t : ℕ). d * 2 ^ t) (w_minus w));
}
