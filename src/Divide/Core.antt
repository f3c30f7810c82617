-- ===== src/Divide/Core.antt =====
-- What the setup stage of fu/div hands to the core, and the overflow test behind it, in terms of the
-- operands as numbers.
use libresoc_soc.Common.{ℕ, ◌*◌, ◌/◌, ◌%◌, ◌^◌, ◌≤◌, ◌<◌, ◌≡◌, refl, ap, ap₂, ◌∙◌, arith, inl, inr}
use libresoc_soc.Common.{
  Bool, true, false, not, ◌&&◌, ◌||◌, xor, ◌==◌, leb, bit, slice, if◌then◌else◌, Bool-cases,
}
use libresoc_soc.Mul.Types.{Eq32}
use libresoc_soc.Mul.Product.{IsEq32, halved}
use libresoc_soc.Divide.Types.{DivInsn, op_div, op_mod, op_dive, op_other, DivOperands, CoreOutput}
use libresoc_soc.Divide.Stages.{is_dive, magnitude_of, dividend_of, div_setup, quotient_65, div_ov}
use libresoc_soc.Divide.Signed.{fits, with_sign, ov_64, ov_32}
use libresoc_soc.Divide.Numbers.{
  width, scale, scaled_small, scaled_big, size, magnitude_of-lt, magnitude_of-size,
}

module _ (eq32 : Eq32) (is : IsEq32 eq32) where
  dividend_of-scale :
      (n : DivInsn) (b : Bool) (m : ℕ)
      → m < 2 ^ 64
      → dividend_of eq32 n b m
        ≡ (if b then m % 2 ^ 32 else m) * scale n (2 ^ (if b then 32 else 64))
  unfolding dividend_of
  dividend_of-scale op_div b m h = halved eq32 is b m h ∙ omega arith
  dividend_of-scale op_mod b m h = halved eq32 is b m h ∙ omega arith
  dividend_of-scale op_dive true m h = omega arith
  dividend_of-scale op_dive false m h = omega arith
  dividend_of-scale op_other b m h = omega arith

  module _ (i : DivOperands) (ha : i.a < 2 ^ 64) (hb : i.b < 2 ^ 64) where
    pub setup-divisor : (div_setup eq32 i).divisor_radicand ≡ size i.op i.b
    unfolding div_setup
    setup-divisor =
        halved eq32 is i.op.is_32bit (magnitude_of i.op i.b) (magnitude_of-lt i.op i.b hb)
        ∙ magnitude_of-size i.op i.b hb

    pub setup-dividend :
        (div_setup eq32 i).dividend ≡ size i.op i.a * scale i.op.insn_type (2 ^ width i.op)
    unfolding div_setup
    setup-dividend =
        dividend_of-scale i.op.insn_type i.op.is_32bit (magnitude_of i.op i.a)
          (magnitude_of-lt i.op i.a ha)
        ∙ ap (λ m. m * scale i.op.insn_type (2 ^ width i.op)) (magnitude_of-size i.op i.a ha)

    halves :
        (b v : Bool) (x y : ℕ)
        → (if b then leb (slice x 0 32) (slice y 0 32) && v else leb x y && v)
          ≡ (leb (if b then x % 2 ^ 32 else x) (if b then y % 2 ^ 32 else y) && v)
    halves true v x y = ground arith
    halves false v x y = refl

    pub setup-abs_ov :
        (let c = (div_setup eq32 i).ctx in
          if i.op.is_32bit then c.dive_abs_ov32 else c.dive_abs_ov64)
        ≡ (leb (size i.op i.b) (size i.op i.a) && is_dive i.op.insn_type)
    unfolding div_setup
    setup-abs_ov =
        halves i.op.is_32bit (is_dive i.op.insn_type) (magnitude_of i.op i.b)
          (magnitude_of i.op i.a)
        ∙ ap₂ (λ x y. leb x y && is_dive i.op.insn_type) (magnitude_of-size i.op i.b hb)
            (magnitude_of-size i.op i.a ha)

-- The overflow test of the output stage, with the flag of the operation's width.
abbrev pub ov_of : Bool → Bool → Bool → Bool → ℕ → Bool
ov_of zero_divisor b s abs_ov q =
    if zero_divisor
    then true
    else if not b
    then abs_ov || (s && xor (bit q 64) (bit q 63))
    else if s
    then abs_ov || xor (bit q 32) (bit q 31)
    else abs_ov

pub div_ov-of :
    (y : CoreOutput)
    → div_ov y
      ≡ ov_of y.base.div_by_zero y.base.op.is_32bit y.base.op.is_signed
          (if y.base.op.is_32bit then y.base.dive_abs_ov32 else y.base.dive_abs_ov64)
          (quotient_65 y)
unfolding div_ov
div_ov-of y = ground arith

-- What the flag says of the quotient Q, and the core's quotient q where it is unset.
pub record Flags (abs_ov : Bool) (p q Q : ℕ) : Type 0 where
  pub large : abs_ov ≡ true → p ≤ Q
  pub exact : abs_ov ≡ false → (q < p) × (q ≡ Q)

Flags-of :
    (n : DivInsn) (m d p q : ℕ)
    → 0 < d
    → m < p
    → (m * scale n p / d < p → q ≡ m * scale n p / d)
    → Flags (leb d m && is_dive n) p q (m * scale n p / d)
Flags-of n m d p q h small core = record {
  large = λ e. dive_large n e;
  exact = λ e.
      let l = scaled_small n m d p h small (exclusive (is_dive n) (leb d m) e) in
      (omega (arith, l, core l), core l);
}
  where
    exclusive : (u v : Bool) → (v && u) ≡ false → (u && v) ≡ false
    exclusive u v e = ground arith

    dive_large : (n : DivInsn) → (leb d m && is_dive n) ≡ true → p ≤ m * scale n p / d
    dive_large op_dive e = scaled_big m d p h (ground arith)
    dive_large op_div e = ground arith
    dive_large op_mod e = ground arith
    dive_large op_other e = ground arith

flagged_64 :
    (abs_ov s neg : Bool) (q Q : ℕ)
    → Flags abs_ov (2 ^ 64) q Q
    → (abs_ov || (s && xor (bit (with_sign neg q) 64) (bit (with_sign neg q) 63)))
      ≡ not (fits 64 s neg Q)
flagged_64 true s neg q Q f = let l = f.large refl in ground arith
flagged_64 false s neg q Q f =
    let e = f.exact refl in ov_64 s neg q e.0 ∙ ap (λ m. not (fits 64 s neg m)) e.1

flagged_32 :
    (abs_ov s neg : Bool) (q Q : ℕ)
    → Flags abs_ov (2 ^ 32) q Q
    → (if s then abs_ov || xor (bit (with_sign neg q) 32) (bit (with_sign neg q) 31) else abs_ov)
      ≡ not (fits 32 s neg Q)
flagged_32 true s neg q Q f = let l = f.large refl in ground arith
flagged_32 false true neg q Q f =
    let e = f.exact refl in ov_32 neg q e.0 ∙ ap (λ m. not (fits 32 true neg m)) e.1
flagged_32 false false neg q Q f = let e = f.exact refl in ground arith

-- The overflow test is that of the numbers.
pub ov_of-fits :
    (b s neg : Bool) (n : DivInsn) (m d q : ℕ)
    → m < 2 ^ (if b then 32 else 64)
    → (0 < d
        → m * scale n (2 ^ (if b then 32 else 64)) / d < 2 ^ (if b then 32 else 64)
        → q ≡ m * scale n (2 ^ (if b then 32 else 64)) / d)
    → ov_of (d == 0) b s (leb d m && is_dive n) (with_sign neg q) ≡ (
        d == 0
        || not (fits (if b then 32 else 64) s neg (m * scale n (2 ^ (if b then 32 else 64)) / d)))
ov_of-fits b s neg n m d q small core = elim (Bool-cases (d == 0)) [
  | inl z ↦ rw z refl
  | inr z ↦ rw z (by_width b (ground arith) small (core (ground arith)))
]
  where
    by_width :
        (b : Bool)
        → 0 < d
        → m < 2 ^ (if b then 32 else 64)
        → (m * scale n (2 ^ (if b then 32 else 64)) / d < 2 ^ (if b then 32 else 64)
            → q ≡ m * scale n (2 ^ (if b then 32 else 64)) / d)
        → ov_of false b s (leb d m && is_dive n) (with_sign neg q)
          ≡ not (fits (if b then 32 else 64) s neg (m * scale n (2 ^ (if b then 32 else 64)) / d))
    by_width true h small core =
        flagged_32 (leb d m && is_dive n) s neg q _ (Flags-of n m d (2 ^ 32) q h small core)
    by_width false h small core =
        flagged_64 (leb d m && is_dive n) s neg q _ (Flags-of n m d (2 ^ 64) q h small core)
