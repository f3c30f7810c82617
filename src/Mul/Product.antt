-- ===== src/Mul/Product.antt =====
-- The product of magnitudes with its sign, against the product of the sign-extended operands.
use libresoc_soc.Common.{ℕ, ◌+◌, ◌-◌, ◌*◌, ◌%◌, ◌^◌, ◌<◌, ◌≤◌, ◌≡◌, sym, ap, ap₂, ◌∙◌, arith}
use libresoc_soc.Common.{Bool, true, false, ◌&&◌, xor, bit, trunc, sub, if◌then◌else◌}
use libresoc_soc.Mul.Types.{Eq32, MulOp, DivInput}
use libresoc_soc.Mul.Stages.{sign_of, abs_of, mul1, mul2, mul_o}
use native.Mathlib.Nat.{mul-add, add-mul}

-- What nmutil's `eq32` does on a source of 64 bits.
pub record IsEq32 (eq32 : Eq32) : Type 0 where
  pub wide : (x : ℕ) → x < 2 ^ 64 → eq32 false x ≡ x
  pub narrow : (x : ℕ) → x < 2 ^ 64 → eq32 true x ≡ x % 2 ^ 32

-- An operand of w bits on 128 bits: sign-extended if it is signed.
abbrev pub sign_extended : ℕ → Bool → ℕ → ℕ
sign_extended w is_signed x =
    if bit x (w - 1) && is_signed then x % 2 ^ w + 2 ^ 128 - 2 ^ w else x % 2 ^ w

-- The operands of an operation on 128 bits.
abbrev pub operand : MulOp → ℕ → ℕ
operand op x =
    if op.is_32bit then sign_extended 32 op.is_signed x else sign_extended 64 op.is_signed x

-- A magnitude with a sign, on 128 bits.
abbrev signed_of : Bool → ℕ → ℕ
signed_of s m = if s then 2 ^ 128 - m else m

opposite : (x y : ℕ) → x ≤ 2 ^ 128 → (2 ^ 128 - x) * y + x * y ≡ 2 ^ 128 * y
opposite x y h = sym (add-mul (2 ^ 128 - x) x y) ∙ ap (λ m. m * y) (omega arith)

opposite_right : (x y : ℕ) → y ≤ 2 ^ 128 → x * (2 ^ 128 - y) + x * y ≡ x * 2 ^ 128
opposite_right x y h = sym (mul-add x (2 ^ 128 - y) y) ∙ ap (λ m. x * m) (omega arith)

one_sign :
    (x y : ℕ) → x ≤ 2 ^ 128 → sub 129 0 (trunc 129 (x * y)) % 2 ^ 128 ≡ (2 ^ 128 - x) * y % 2 ^ 128
one_sign x y h = omega (arith, opposite x y h)

one_sign_right :
    (x y : ℕ) → y ≤ 2 ^ 128 → sub 129 0 (trunc 129 (x * y)) % 2 ^ 128 ≡ x * (2 ^ 128 - y) % 2 ^ 128
one_sign_right x y h = omega (arith, opposite_right x y h)

two_signs :
    (x y : ℕ)
    → x ≤ 2 ^ 128
    → y ≤ 2 ^ 128
    → trunc 129 (x * y) % 2 ^ 128 ≡ (2 ^ 128 - x) * (2 ^ 128 - y) % 2 ^ 128
two_signs x y h h' = omega (arith, opposite x (2 ^ 128 - y) h, opposite_right x y h')

signed_product :
    (s t : Bool) (x y : ℕ)
    → x ≤ 2 ^ 128
    → y ≤ 2 ^ 128
    → (if xor s t then sub 129 0 (trunc 129 (x * y)) else trunc 129 (x * y)) % 2 ^ 128
      ≡ signed_of s x * signed_of t y % 2 ^ 128
signed_product true true x y h h' = two_signs x y h h'
signed_product true false x y h h' = one_sign x y h
signed_product false true x y h h' = one_sign_right x y h'
signed_product false false x y h h' = omega arith

abs_of-lt : (op : MulOp) (x : ℕ) → x < 2 ^ 64 → abs_of op x < 2 ^ 64
unfolding abs_of
abs_of-lt op x h = ground arith

magnitude :
    (op : MulOp) (x : ℕ)
    → x < 2 ^ 64
    → signed_of (sign_of op x) (if op.is_32bit then abs_of op x % 2 ^ 32 else abs_of op x)
      ≡ operand op x
unfolding abs_of sign_of
magnitude op x h = ground arith

module _ (eq32 : Eq32) (is : IsEq32 eq32) where
  pub halved : (b : Bool) (x : ℕ) → x < 2 ^ 64 → eq32 b x ≡ (if b then x % 2 ^ 32 else x)
  halved true x h = is.narrow x h
  halved false x h = is.wide x h

  magnitude-operand :
      (op : MulOp) (x : ℕ)
      → x < 2 ^ 64
      → signed_of (sign_of op x) (eq32 op.is_32bit (abs_of op x)) ≡ operand op x
  magnitude-operand op x h =
      rw (halved op.is_32bit (abs_of op x) (abs_of-lt op x h)) (magnitude op x h)

  magnitude-le : (op : MulOp) (x : ℕ) → x < 2 ^ 64 → eq32 op.is_32bit (abs_of op x) ≤ 2 ^ 128
  magnitude-le op x h =
      rw (halved op.is_32bit (abs_of op x) (abs_of-lt op x h)) (ground (arith, abs_of-lt op x h))

  -- For operands of 64 bits and an `eq32` as documented, the low 128 bits of the product with its
  -- sign are those of the product of the operands, cut to the width of the operation and extended
  -- to 128 bits by sign or by zeros as the operation is signed or not.
  pub mul_o-product :
      (i : DivInput)
      → i.a < 2 ^ 64
      → i.b < 2 ^ 64
      → mul_o (mul2 (mul1 eq32 i)) % 2 ^ 128 ≡ operand i.op i.a * operand i.op i.b % 2 ^ 128
  unfolding mul_o mul2 mul1
  mul_o-product i ha hb =
      signed_product (sign_of i.op i.a) (sign_of i.op i.b) (eq32 i.op.is_32bit (abs_of i.op i.a))
        (eq32 i.op.is_32bit (abs_of i.op i.b)) (magnitude-le i.op i.a ha) (magnitude-le i.op i.b hb)
      ∙ ap₂ (λ x y. x * y % 2 ^ 128) (magnitude-operand i.op i.a ha) (magnitude-operand i.op i.b hb)
