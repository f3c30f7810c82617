-- ===== src/Mul/Select.antt =====
-- The results and the overflow of the multiplier, against the product of the operands.
use libresoc_soc.Common.{ℕ, ◌+◌, ◌*◌, ◌/◌, ◌%◌, ◌^◌, ◌<◌, ◌≡◌, refl, ap, ◌∙◌, arith}
use libresoc_soc.Common.{Bool, true, false, not, ◌==◌, b2n, if◌then◌else◌}
use libresoc_soc.Alu.Types.{Data, record_of, no_data}
use libresoc_soc.Mul.Types.{Eq32, MulInsn, op_mul_h32, op_mul_h64, op_mul_l64, op_other, DivInput}
use libresoc_soc.Mul.Stages.{mul1, mul2, mul3, mul_o, mul_ov, selected, overflow, multiply}
use libresoc_soc.Mul.Product.{IsEq32, operand, sign_extended, mul_o-product}

-- The product of the operands on 128 bits.
abbrev pub product : DivInput → ℕ
product i = operand i.op i.a * operand i.op i.b % 2 ^ 128

-- What each operation selects of a product.
abbrev pub result_of : MulInsn → ℕ → Data
result_of op_mul_h32 p = record { content = p / 2 ^ 32 % 2 ^ 32 * (2 ^ 32 + 1); ok = true }
result_of op_mul_h64 p = record { content = p / 2 ^ 64; ok = true }
result_of op_mul_l64 p = record { content = p % 2 ^ 64; ok = true }
result_of op_other p = no_data

selected-result : (n : MulInsn) (x : ℕ) → selected n x ≡ result_of n (x % 2 ^ 128)
unfolding selected
selected-result op_mul_h32 x = ap (λ c. record_of c true) (omega arith)
selected-result op_mul_h64 x = ap (λ c. record_of c true) (omega arith)
selected-result op_mul_l64 x = ap (λ c. record_of c true) (omega arith)
selected-result op_other x = refl

abbrev pub is_low : MulInsn → Bool
is_low op_mul_l64 = true
is_low _ = false

-- Whether a product of 128 bits, or its low 64 bits for an operation of 32, is a signed number of
-- half the width.
abbrev pub fits : Bool → ℕ → Bool
fits is_32bit p =
    if is_32bit
    then p % 2 ^ 64 == sign_extended 32 true p % 2 ^ 64
    else p == sign_extended 64 true p % 2 ^ 128

mul_ov-fits : (is_32bit : Bool) (x : ℕ) → mul_ov is_32bit x ≡ not (fits is_32bit (x % 2 ^ 128))
unfolding mul_ov
mul_ov-fits true x = ground arith
mul_ov-fits false x = ground arith

-- OV and OV32 of a product.
abbrev flags_of : MulInsn → Bool → ℕ → Data
flags_of n is_32bit p =
    if is_low n then record { content = b2n (not (fits is_32bit p)) * 3; ok = true } else no_data

overflow-flags :
    (n : MulInsn) (is_32bit : Bool) (x : ℕ)
    → overflow n is_32bit x ≡ flags_of n is_32bit (x % 2 ^ 128)
unfolding overflow
overflow-flags op_mul_l64 b x = rw (mul_ov-fits b x) (ap (λ c. record_of c true) (omega arith))
overflow-flags op_mul_h32 b x = refl
overflow-flags op_mul_h64 b x = refl
overflow-flags op_other b x = refl

-- For operands of 64 bits and an `eq32` as documented, the result of each multiplication is the part
-- of the product of the operands that it names: the high 32 of the low 64 bits, twice; the high 64
-- bits of 128; or the low 64 bits. No other operation has a result.
pub multiply-result :
    (eq32 : Eq32)
    → IsEq32 eq32
    → (i : DivInput) → i.a < 2 ^ 64
    → i.b < 2 ^ 64
    → (multiply eq32 i).o ≡ result_of i.op.insn_type (product i)
unfolding multiply mul3 mul2 mul1
multiply-result eq32 is i ha hb =
    selected-result i.op.insn_type (mul_o (mul2 (mul1 eq32 i)))
    ∙ ap (result_of i.op.insn_type) (mul_o-product eq32 is i ha hb)

-- For operands of 64 bits and an `eq32` as documented, a multiplication for the low 64 bits sets both
-- overflow flags exactly if the product does not fit, as a signed number, in 64 bits or, for an
-- operation of 32 bits, in 32; the others leave the flags unwritten.
pub multiply-overflow :
    (eq32 : Eq32)
    → IsEq32 eq32
    → (i : DivInput) → i.a < 2 ^ 64
    → i.b < 2 ^ 64
    → (multiply eq32 i).xer_ov ≡ (
        if is_low i.op.insn_type
        then record { content = b2n (not (fits i.op.is_32bit (product i))) * 3; ok = true }
        else no_data)
unfolding multiply mul3 mul2 mul1
multiply-overflow eq32 is i ha hb =
    overflow-flags i.op.insn_type i.op.is_32bit (mul_o (mul2 (mul1 eq32 i)))
    ∙ ap (λ p. flags_of i.op.insn_type i.op.is_32bit p) (mul_o-product eq32 is i ha hb)
