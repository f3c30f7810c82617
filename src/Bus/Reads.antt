-- ===== src/Bus/Reads.antt =====
-- What a read through the converter of bus/wb_downconvert.py collects in its shift register.
use libresoc_soc.Common.{
  ℕ, suc, ◌+◌, ◌-◌, ◌*◌, ◌/◌, ◌^◌, ◌%◌, ◌<◌, ◌≡◌, refl, sym, ap, ap₂, ◌∙◌, arith,
}
use libresoc_soc.Common.{true, false, List, [], ◌∷◌, if◌then◌else◌}
use libresoc_soc.Bus.Downconvert.{Widths, ratio, read, Converter, BusInput, shift_reg}
use libresoc_soc.Div.Step.{pow-split}
use native.Mathlib.Nat.{
  mod-eq_of_lt, mul-div_cancel, add-mul, suc-mul, mul-lt-mul_of_pos_right, mul-le-mul_right,
  mul_assoc, one-le-pow,
}

-- The master holds its read, and the slave's data has the width w.
pub record Reads (w : ℕ) (x : BusInput) : Type 0 where
  pub stb : x.stb ≡ true
  pub cyc : x.cyc ≡ true
  pub we : x.we ≡ false
  pub narrow : x.dat_r < 2 ^ w

pub data AllRead (w : ℕ) : List BusInput → Type 0 where
  none_left : AllRead w []
  one_more : {x : BusInput} {xs : List BusInput} → Reads w x → AllRead w xs → AllRead w (x ∷ xs)

-- The acknowledged data side by side, the first at fragment k.
unfoldable pub word_from : ℕ → ℕ → List BusInput → ℕ
word_from w k [] = 0
word_from w k (x ∷ xs) =
    if x.ack then x.dat_r * 2 ^ (k * w) + word_from w (k + 1) xs else word_from w k xs

pub word_from-skips :
    (w k : ℕ) (x : BusInput) (xs : List BusInput)
    → x.ack ≡ false
    → word_from w k (x ∷ xs) ≡ word_from w k xs
unfolding word_from
word_from-skips w k x xs a = rw a refl

pub word_from-takes :
    (w k : ℕ) (x : BusInput) (xs : List BusInput)
    → x.ack ≡ true
    → word_from w k (x ∷ xs) ≡ x.dat_r * 2 ^ (k * w) + word_from w (k + 1) xs
unfolding word_from
word_from-takes w k x xs a = rw a refl

-- One shift: the collected part moves down by a fragment and the new fragment comes on top.
shifted :
    (b l r t acc d : ℕ)
    → 0 < b
    → 0 < r
    → t ≡ l * r
    → acc < l
    → acc * (r * b) / b % t + d * t ≡ (acc + d * l) * r
shifted b l r t acc d hb hr e h =
    let assoc : acc * (r * b) ≡ acc * r * b = sym (mul_assoc acc r b) in
    let down : acc * (r * b) / b ≡ acc * r = ap (λ m. m / b) assoc ∙ mul-div_cancel (acc * r) hb in
    let less : acc * r < t = (rw e (mul-lt-mul_of_pos_right h hr)) in
    ap (λ m. m % t + d * t) down ∙ ap (λ m. m + d * t) (mod-eq_of_lt less) ∙ sum_of
  where
    sum_of : acc * r + d * t ≡ (acc + d * l) * r
    sum_of = omega (arith, add-mul acc (d * l) r, mul_assoc d l r, ap (λ m. d * m) e)

widths : (w k j n : ℕ) → k + suc j ≡ n → n * w - w ≡ k * w + j * w
widths w k j n e = omega (arith, ap (λ m. m * w) e, add-mul k (suc j) w, suc-mul j w)

pub grows : (l b acc d : ℕ) → acc < l → d < b → acc + d * l < b * l
grows l b acc d h h' = omega (arith, suc-mul d l, mul-le-mul_right l h')

pub pos_pow : (m : ℕ) → 0 < 2 ^ m
pos_pow m = one-le-pow m 2 (omega arith)

-- The converter in a read that has k fragments, acc side by side, and waits for j more.
pub record IsReading (c : Widths) (k j acc : ℕ) (s : Converter) : Type 0 where
  pub fsm : s.fsm ≡ read
  pub counter : s.counter ≡ k
  pub all : k + j ≡ ratio c
  pub cached : s.cached_data ≡ acc * 2 ^ (j * c.dw_to)
  pub fits : acc < 2 ^ (k * c.dw_to)

module _ (c : Widths) (exact : c.dw_from ≡ ratio c * c.dw_to) where
  pub shift_reg-collects :
      (k j acc : ℕ) (s : Converter) (x : BusInput)
      → IsReading c k (suc j) acc s
      → shift_reg c s x ≡ (acc + x.dat_r * 2 ^ (k * c.dw_to)) * 2 ^ (j * c.dw_to)
  unfolding shift_reg
  shift_reg-collects k j acc s x r =
      (rw r.cached (
        ap₂ (λ p e. acc * p / 2 ^ c.dw_to % 2 ^ e + x.dat_r * 2 ^ e) high top
        ∙ shifted (2 ^ c.dw_to) (2 ^ (k * c.dw_to)) (2 ^ (j * c.dw_to))
            (2 ^ (k * c.dw_to + j * c.dw_to)) acc x.dat_r (pos_pow c.dw_to) (pos_pow (j * c.dw_to))
            (pow-split (k * c.dw_to) (j * c.dw_to)) r.fits))
    where
      high : 2 ^ (suc j * c.dw_to) ≡ 2 ^ (j * c.dw_to) * 2 ^ c.dw_to
      high = ap (λ m. 2 ^ m) (suc-mul j c.dw_to) ∙ pow-split (j * c.dw_to) c.dw_to

      top : c.dw_from - c.dw_to ≡ k * c.dw_to + j * c.dw_to
      top = ap (λ m. m - c.dw_to) exact ∙ widths c.dw_to k j (ratio c) r.all
