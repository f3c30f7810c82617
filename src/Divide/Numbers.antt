-- ===== src/Divide/Numbers.antt =====
-- The result and the overflow of the divider pipeline, against division of the operands as numbers
-- of the operation's width.
use libresoc_soc.Common.{ℕ, ◌*◌, ◌/◌, ◌%◌, ◌^◌, ◌≤◌, ◌<◌, ◌≡◌, arith}
use libresoc_soc.Common.{Bool, false, not, ◌&&◌, ◌||◌, xor, ◌==◌, leb, if◌then◌else◌, leb-false→lt}
use libresoc_soc.Divide.Types.{DivInsn, op_div, op_mod, op_dive, op_other, DivOp, DivOperands}
use libresoc_soc.Divide.Stages.{is_dive, neg_of, magnitude_of}
use libresoc_soc.Divide.Signed.{is_negative, magnitude, encode, fits}
use native.Mathlib.Nat.{
  mul-lt-mul_of_pos_right, mul-le-mul_right, div-lt_iff_lt-mul, le-div_iff_mul-le, div-le_self,
  mul-one, mul_comm, zero-div, mul-zero,
}

-- The width of an operation.
abbrev pub width : DivOp → ℕ
width op = if op.is_32bit then 32 else 64

-- What the dividend is shifted by: `dive` divides the first operand with as many zeros behind it as
-- the operation is wide.
abbrev pub scale : DivInsn → ℕ → ℕ
scale op_div p = 1
scale op_mod p = 1
scale op_dive p = p
scale op_other p = 0

pub scaled_small :
    (n : DivInsn) (m d p : ℕ)
    → 0 < d
    → m < p
    → (is_dive n && leb d m) ≡ false
    → m * scale n p / d < p
scaled_small op_div m d p h l e = (rw (mul-one m) (omega (arith, div-le_self m d)))
scaled_small op_mod m d p h l e = (rw (mul-one m) (omega (arith, div-le_self m d)))
scaled_small op_dive m d p h l e =
    (div-lt_iff_lt-mul h).1
      (rw (mul_comm p d) (mul-lt-mul_of_pos_right (leb-false→lt d m e) (omega arith)))
scaled_small op_other m d p h l e = (rw (mul-zero m, zero-div d) (omega arith))

pub scaled_big : (m d p : ℕ) → 0 < d → d ≤ m → p ≤ m * p / d
scaled_big m d p h l = (le-div_iff_mul-le h).1 (rw (mul_comm p d) (mul-le-mul_right p l))

-- The operands as numbers of the operation's width.
abbrev pub negative : DivOp → ℕ → Bool
negative op x = is_negative (width op) op.is_signed x

abbrev pub size : DivOp → ℕ → ℕ
size op x = magnitude (width op) op.is_signed x

-- The quotient's magnitude and sign.
abbrev pub quotient_size : DivOperands → ℕ
quotient_size i = size i.op i.a * scale i.op.insn_type (2 ^ width i.op) / size i.op i.b

abbrev pub quotient_negative : DivOperands → Bool
quotient_negative i = xor (negative i.op i.a) (negative i.op i.b)

-- A division by zero, or with a quotient that is no number of the operation's width.
abbrev pub overflows : DivOperands → Bool
overflows i =
    size i.op i.b == 0
    || not (fits (width i.op) i.op.is_signed (quotient_negative i) (quotient_size i))

-- What each operation gives, if it does not overflow.
abbrev pub value_of : DivInsn → DivOperands → ℕ
value_of op_div i = encode (width i.op) (quotient_negative i) (quotient_size i)
value_of op_dive i = encode (width i.op) (quotient_negative i) (quotient_size i)
value_of op_mod i = encode 64 (negative i.op i.a) (size i.op i.a % size i.op i.b)
value_of op_other i = 0

pub neg_of-negative : (op : DivOp) (x : ℕ) → neg_of op x ≡ negative op x
unfolding neg_of
neg_of-negative op x = ground arith

pub magnitude_of-lt : (op : DivOp) (x : ℕ) → x < 2 ^ 64 → magnitude_of op x < 2 ^ 64
unfolding magnitude_of
magnitude_of-lt op x h = ground arith

pub magnitude_of-size :
    (op : DivOp) (x : ℕ)
    → x < 2 ^ 64
    → (if op.is_32bit then magnitude_of op x % 2 ^ 32 else magnitude_of op x) ≡ size op x
unfolding magnitude_of neg_of
magnitude_of-size op x h = ground arith
