-- ===== src/Divide/Result.antt =====
-- The result and the overflow of the divider pipeline, for a core that divides.
use libresoc_soc.Common.{ℕ, ◌+◌, ◌-◌, ◌*◌, ◌/◌, ◌%◌, ◌^◌, ◌≤◌, ◌<◌, ◌≡◌, refl, ap, ap₂, ◌∙◌, arith}
use libresoc_soc.Common.{
  Bool, true, false, not, ◌&&◌, ◌||◌, xor, ◌==◌, leb, b2n, slice, trunc, sub, if◌then◌else◌,
}
use libresoc_soc.Alu.Types.{record_of}
use libresoc_soc.Mul.Types.{Eq32}
use libresoc_soc.Mul.Product.{IsEq32}
use libresoc_soc.Div.Fsm.{CoreInputData}
use libresoc_soc.Divide.Types.{
  DivInsn, op_div, op_mod, op_dive, op_other, DivOp, DivOperands, CoreBase, CoreOutput,
}
use libresoc_soc.Divide.Stages.{
  is_dive, div_setup, quotient_65, remainder_64, div_ov, div_o, div_output, s32_as_s64,
}
use libresoc_soc.Divide.Signed.{encode, fits, with_sign, low_64, low_32}
use libresoc_soc.Divide.Numbers.{
  width, scale, size, negative, neg_of-negative, quotient_size, quotient_negative, overflows,
  value_of,
}
use libresoc_soc.Divide.Core.{
  setup-divisor, setup-dividend, setup-abs_ov, ov_of, div_ov-of, ov_of-fits,
}
use native.Mathlib.Nat.{mod-lt, mul-one}

-- What the pipeline behind the core gets, for these results of the core.
abbrev pub behind : CoreInputData CoreBase → ℕ → ℕ → CoreOutput
behind x q r = record { quotient_root = q; remainder = r; base = x.ctx }

-- The core divides, where the divisor is not zero and the quotient fits its 64 bits.
pub record IsDivision (x : CoreInputData CoreBase) (q r : ℕ) : Type 0 where
  pub quotient :
      0 < x.divisor_radicand
      → x.dividend / x.divisor_radicand < 2 ^ 64
      → q ≡ x.dividend / x.divisor_radicand
  pub remainder :
      0 < x.divisor_radicand
      → x.dividend / x.divisor_radicand < 2 ^ 64
      → r ≡ x.dividend % x.divisor_radicand * 2 ^ 64

pub size-lt : (op : DivOp) (x : ℕ) → size op x < 2 ^ width op
size-lt op x = ground arith

size-le-half : (op : DivOp) (x : ℕ) → op.is_signed ≡ true → size op x ≤ 2 ^ (width op - 1)
size-le-half op x h = ground arith

pub wide_enough : (b : Bool) (n : ℕ) → n < 2 ^ (if b then 32 else 64) → n < 2 ^ 64
wide_enough true n h = omega arith
wide_enough false n h = h

value_quotient :
    (b neg : Bool) (q Q : ℕ)
    → q ≡ Q
    → Q < 2 ^ (if b then 32 else 64)
    → (if b then slice (with_sign neg q) 0 32 else trunc 64 (with_sign neg q))
      ≡ encode (if b then 32 else 64) neg Q
value_quotient true neg q Q e h = rw e (low_32 neg Q h)
value_quotient false neg q Q e h = rw e (low_64 neg Q h)

abbrev r64 : Bool → ℕ → ℕ
r64 neg r = if neg then sub 64 0 (slice r 64 128) else slice r 64 128

value_remainder :
    (b s neg : Bool) (r R : ℕ)
    → r ≡ R * 2 ^ 64
    → (b ≡ true → s ≡ true → R < 2 ^ 31)
    → R < 2 ^ (if b then 32 else 64)
    → (s ≡ false → neg ≡ false)
    → (if b then (if s then s32_as_s64 (r64 neg r) else slice (r64 neg r) 0 32) else r64 neg r)
      ≡ encode 64 neg R
unfolding s32_as_s64
value_remainder true true neg r R e half h n = let l = half refl refl in ground arith
value_remainder true false neg r R e half h n = let f = n refl in rw f (ground arith)
value_remainder false s neg r R e half h n = ground arith

fits-lt :
    (b s neg : Bool) (Q : ℕ)
    → fits (if b then 32 else 64) s neg Q ≡ true
    → Q < 2 ^ (if b then 32 else 64)
fits-lt b s neg Q h = ground arith

half_of : (b : Bool) (n : ℕ) → b ≡ true → n ≤ 2 ^ ((if b then 32 else 64) - 1) → n ≤ 2 ^ 31
half_of true n e h = h
half_of false n e h = cc

either : (u v : Bool) → (u || not v) ≡ false → (u ≡ false) × (v ≡ true)
either u v e = ground arith

chosen :
    (b : Bool) (m n : ℕ) → (b ≡ false → m ≡ n) → (if not b then m else 0) ≡ (if b then 0 else n)
chosen true m n h = refl
chosen false m n h = h refl

module _ (eq32 : Eq32) (is : IsEq32 eq32) (i : DivOperands) (ha : i.a < 2 ^ 64) (hb : i.b < 2 ^ 64)
    (q r : ℕ) (core : IsDivision (div_setup eq32 i) q r) where
  abbrev y : CoreOutput
  y = behind (div_setup eq32 i) q r

  positive : 0 < size i.op i.b → 0 < (div_setup eq32 i).divisor_radicand
  positive h = rw (setup-divisor eq32 is i ha hb) h

  quotient-core :
      (div_setup eq32 i).dividend / (div_setup eq32 i).divisor_radicand ≡ quotient_size i
  quotient-core =
      ap₂ (λ m d. m / d) (setup-dividend eq32 is i ha hb) (setup-divisor eq32 is i ha hb)

  q-exact : 0 < size i.op i.b → quotient_size i < 2 ^ width i.op → q ≡ quotient_size i
  q-exact h l =
      core.quotient (positive h) (rw quotient-core (wide_enough i.op.is_32bit (quotient_size i) l))
      ∙ quotient-core

  signed_quotient : quotient_65 y ≡ with_sign (quotient_negative i) q
  unfolding quotient_65 div_setup
  signed_quotient =
      ap₂ (λ m n. with_sign (xor m n) q) (neg_of-negative i.op i.a) (neg_of-negative i.op i.b)

  zero_flag : (div_setup eq32 i).ctx.div_by_zero ≡ (size i.op i.b == 0)
  unfolding div_setup
  zero_flag = ap (λ d. d == 0) (setup-divisor eq32 is i ha hb)

  pub div_ov-overflows : div_ov y ≡ overflows i
  unfolding div_setup
  div_ov-overflows =
      div_ov-of y
      ∙ ap₂ (λ z f. ov_of z i.op.is_32bit i.op.is_signed f (quotient_65 y)) zero_flag
          (setup-abs_ov eq32 is i ha hb)
      ∙ ap
          (λ m.
            ov_of (size i.op i.b == 0) i.op.is_32bit i.op.is_signed
              (leb (size i.op i.b) (size i.op i.a) && is_dive i.op.insn_type) m)
          signed_quotient
      ∙ ov_of-fits i.op.is_32bit i.op.is_signed (quotient_negative i) i.op.insn_type (size i.op i.a)
          (size i.op i.b) q (size-lt i.op i.a) q-exact

  module _ (e : overflows i ≡ false) where
    nonzero : 0 < size i.op i.b
    nonzero = let f = (either (size i.op i.b == 0) _ e).0 in ground arith

    in_range : quotient_size i < 2 ^ width i.op
    in_range =
        fits-lt i.op.is_32bit i.op.is_signed (quotient_negative i) (quotient_size i)
          (either (size i.op i.b == 0) _ e).1

    quotient-value :
        (if i.op.is_32bit then slice (quotient_65 y) 0 32 else trunc 64 (quotient_65 y))
        ≡ encode (width i.op) (quotient_negative i) (quotient_size i)
    quotient-value =
        ap (λ m. if i.op.is_32bit then slice m 0 32 else trunc 64 m) signed_quotient
        ∙ value_quotient i.op.is_32bit (quotient_negative i) q (quotient_size i)
            (q-exact nonzero in_range) in_range

    r-exact : i.op.insn_type ≡ op_mod → r ≡ size i.op i.a % size i.op i.b * 2 ^ 64
    r-exact n =
        core.remainder (positive nonzero)
          (rw quotient-core (wide_enough i.op.is_32bit (quotient_size i) in_range))
        ∙ ap₂ (λ m d. m % d * 2 ^ 64) (setup-dividend eq32 is i ha hb)
            (setup-divisor eq32 is i ha hb)
        ∙ ap (λ m. m % size i.op i.b * 2 ^ 64)
            (ap (λ k. size i.op i.a * scale k (2 ^ width i.op)) n ∙ mul-one (size i.op i.a))

    remainder-lt : size i.op i.a % size i.op i.b < size i.op i.b
    remainder-lt = mod-lt (size i.op i.a) nonzero

    remainder-value :
        i.op.insn_type ≡ op_mod
        → div_o op_mod i.op (quotient_65 y) (remainder_64 y)
          ≡ encode 64 (negative i.op i.a) (size i.op i.a % size i.op i.b)
    unfolding div_o remainder_64 div_setup
    remainder-value n =
        ap
          (λ m.
            if i.op.is_32bit
            then (if i.op.is_signed then s32_as_s64 (r64 m r) else slice (r64 m r) 0 32)
            else r64 m r)
          (neg_of-negative i.op i.a)
        ∙ value_remainder i.op.is_32bit i.op.is_signed (negative i.op i.a) r
            (size i.op i.a % size i.op i.b) (r-exact n)
            (λ b h. omega (
              arith,
              remainder-lt,
              half_of i.op.is_32bit (size i.op i.b) b (size-le-half i.op i.b h),
            ))
            (omega (arith, remainder-lt, size-lt i.op i.b)) (λ h. ground arith)

    pub div_o-value :
        (n : DivInsn)
        → i.op.insn_type ≡ n
        → div_o n i.op (quotient_65 y) (remainder_64 y) ≡ value_of n i
    unfolding div_o
    div_o-value op_div h = quotient-value
    div_o-value op_dive h = quotient-value
    div_o-value op_mod h = remainder-value h
    div_o-value op_other h = refl

-- For operands of 64 bits, an `eq32` as documented and a core that divides: the pipeline sets both
-- overflow flags exactly if the divisor is zero or the quotient is no number of the operation's width;
-- it then gives 0, and else the quotient, rounded towards zero, or the remainder, with the sign of
-- the dividend. The operands are read at that width, signed or not; `dive` divides the first with as
-- many zeros behind it.
pub divide-result :
    (eq32 : Eq32)
    → IsEq32 eq32
    → (i : DivOperands) → i.a < 2 ^ 64
    → i.b < 2 ^ 64
    → (q r : ℕ) → IsDivision (div_setup eq32 i) q r
    → ((div_output (behind (div_setup eq32 i) q r)).xer_ov
        ≡ record { content = b2n (overflows i) * 3; ok = true })
      × ((div_output (behind (div_setup eq32 i) q r)).o
          ≡ record { content = if overflows i then 0 else value_of i.op.insn_type i; ok = true })
unfolding div_output div_setup
divide-result eq32 is i ha hb q r core =
    let ov = div_ov-overflows eq32 is i ha hb q r core in
    (
      ap (λ b. record_of (b2n b + b2n b * 2) true) ov ∙ ap (λ c. record_of c true) (omega arith),
      ap
            (λ b.
              record_of
                (if not b
                  then div_o i.op.insn_type i.op (quotient_65 (behind (div_setup eq32 i) q r))
                      (remainder_64 (behind (div_setup eq32 i) q r))
                  else 0)
                true)
            ov
          ∙ ap (λ c. record_of c true)
              (chosen (overflows i) _ _
                (λ e. div_o-value eq32 is i ha hb q r core e i.op.insn_type refl)),
    )
