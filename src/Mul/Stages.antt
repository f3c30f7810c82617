-- ===== src/Mul/Stages.antt =====
-- The stages of fu/mul: magnitudes and signs, the product, and the selection of the result.
use libresoc_soc.Common.{ℕ, ◌+◌, ◌-◌, ◌*◌, ◌^◌, Bool, true, false, not, ◌&&◌, xor, ◌==◌}
use libresoc_soc.Common.{bit, slice, b2n, cat, trunc, sub, if◌then◌else◌}
use libresoc_soc.Alu.Types.{Data, no_data}
use libresoc_soc.Mul.Types.{
  MulInsn, op_mul_h32, op_mul_h64, op_mul_l64, op_other, MulOp, DivInput, MulIntermediate,
  MulOutput, DivMulOutput, Eq32,
}

-- Whether an operand is negative, at the width of the operation.
unfoldable pub sign_of : MulOp → ℕ → Bool
sign_of op x = (if op.is_32bit then bit x 31 else bit x 63) && op.is_signed

-- Whether the low half of an operand is negative.
unfoldable pub sign32_of : MulOp → ℕ → Bool
sign32_of op x = bit x 31 && op.is_signed

unfoldable pub abs_of : MulOp → ℕ → ℕ
unfolding sign_of
abs_of op x = if sign_of op x then sub 64 0 x else x

-- fu/mul/pre_stage.py.
unfoldable pub mul1 : Eq32 → DivInput → MulIntermediate
unfolding abs_of sign32_of
mul1 eq32 i = record {
  op = i.op;
  a = eq32 i.op.is_32bit (abs_of i.op i.a);
  b = eq32 i.op.is_32bit (abs_of i.op i.b);
  xer_so = i.xer_so;
  neg_res = xor (sign_of i.op i.a) (sign_of i.op i.b);
  neg_res32 = xor (sign32_of i.op i.a) (sign32_of i.op i.b);
}

-- fu/mul/main_stage.py.
unfoldable pub mul2 : MulIntermediate → MulOutput
mul2 i = record {
  op = i.op;
  o = trunc 129 (i.a * i.b);
  xer_so = i.xer_so;
  neg_res = i.neg_res;
  neg_res32 = i.neg_res32;
}

-- The product with its sign.
unfoldable pub mul_o : MulOutput → ℕ
mul_o i = if i.neg_res then sub 129 0 i.o else i.o

-- Whether the bits from the sign bit up are neither all zero nor all one.
unfoldable pub mul_ov : Bool → ℕ → Bool
mul_ov is_32bit x =
    let m31 = slice x 31 64 in
    let m63 = slice x 63 128 in
    if is_32bit
    then not (m31 == 0) && not (m31 == 2 ^ 33 - 1)
    else not (m63 == 0) && not (m63 == 2 ^ 65 - 1)

-- The switch over the operation: the bits of the product that are the result.
unfoldable pub selected : MulInsn → ℕ → Data
selected op_mul_h32 x = record { content = cat 32 (slice x 32 64) (slice x 32 64); ok = true }
selected op_mul_h64 x = record { content = slice x 64 128; ok = true }
selected op_mul_l64 x = record { content = slice x 0 64; ok = true }
selected op_other x = no_data

-- The switch over the operation: OV and OV32.
unfoldable pub overflow : MulInsn → Bool → ℕ → Data
unfolding mul_ov
overflow op_mul_l64 is_32bit x = record {
  content = b2n (mul_ov is_32bit x) + b2n (mul_ov is_32bit x) * 2;
  ok = true;
}
overflow _ is_32bit x = no_data

-- fu/mul/post_stage.py.
unfoldable pub mul3 : MulOutput → DivMulOutput
mul3 i = record {
  op = i.op;
  o = selected i.op.insn_type (mul_o i);
  xer_ov = overflow i.op.insn_type i.op.is_32bit (mul_o i);
  xer_so = record { content = b2n i.xer_so; ok = false };
}

-- The three stages in a row, as fu/mul/pipeline.py chains them between its input and output stages.
unfoldable pub multiply : Eq32 → DivInput → DivMulOutput
multiply eq32 i = mul3 (mul2 (mul1 eq32 i))
