-- ===== src/Mul/Tests.antt =====
-- Runs of the multiplier of fu/mul at concrete inputs: -3 times 5, and an overflow of 32 bits.
use libresoc_soc.Common.{◌-◌, ◌*◌, ◌%◌, ◌^◌, ◌≡◌, refl, arith, true, false, not, b2n, if◌then◌else◌}
use libresoc_soc.Alu.Types.{no_data}
use libresoc_soc.Mul.Types.{Eq32, DivInput, op_mul_l64}
use libresoc_soc.Mul.Stages.{multiply}
use libresoc_soc.Mul.Product.{IsEq32}
use libresoc_soc.Mul.Select.{product, result_of, fits, is_low, multiply-result, multiply-overflow}

-- The assignment of the halves, as arithmetic.
abbrev eq32 : Eq32
eq32 b x = if b then x % 2 ^ 32 else x

eq32-IsEq32 : IsEq32 eq32
eq32-IsEq32 = record { wide = λ x h. refl; narrow = λ x h. refl }

abbrev minus_fifteen : DivInput
minus_fifteen = record {
  op = record { insn_type = op_mul_l64; is_32bit = false; is_signed = true };
  a = 2 ^ 64 - 3;
  b = 5;
  xer_so = false;
}

abbrev large : DivInput
large = record {
  op = record { insn_type = op_mul_l64; is_32bit = true; is_signed = true };
  a = 2 ^ 31 - 1;
  b = 2;
  xer_so = false;
}

low_bits : (result_of op_mul_l64 (product minus_fifteen)).content ≡ 2 ^ 64 - 15
low_bits = refl

overflows_32 : fits true (product large) ≡ false
overflows_32 = refl

multiply-result_example :
    (multiply eq32 minus_fifteen).o ≡ result_of op_mul_l64 (product minus_fifteen)
multiply-result_example = multiply-result eq32 eq32-IsEq32 minus_fifteen (omega arith) (omega arith)

multiply-overflow_example : (multiply eq32 large).xer_ov ≡ (
    if is_low op_mul_l64
    then record { content = b2n (not (fits true (product large))) * 3; ok = true }
    else no_data)
multiply-overflow_example = multiply-overflow eq32 eq32-IsEq32 large (omega arith) (omega arith)
