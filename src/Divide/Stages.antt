-- ===== src/Divide/Stages.antt =====
-- The stages of fu/div before and behind the core: magnitudes and signs, and the result.
use libresoc_soc.Common.{ℕ, ◌+◌, ◌-◌, ◌*◌, ◌^◌, Bool, true, false, not, ◌&&◌, ◌||◌, xor, ◌==◌, leb}
use libresoc_soc.Common.{bit, slice, b2n, trunc, sub, if◌then◌else◌}
use libresoc_soc.Mul.Types.{Eq32}
use libresoc_soc.Div.Fsm.{CoreInputData}
use libresoc_soc.Divide.Types.{
  DivInsn, op_div, op_mod, op_dive, op_other, DivOp, DivOperands, CoreBase, CoreOutput, DivOutput,
}

abbrev pub is_dive : DivInsn → Bool
is_dive op_dive = true
is_dive _ = false

-- Whether an operand is negative, at the width of the operation.
unfoldable pub neg_of : DivOp → ℕ → Bool
neg_of op x = (if op.is_32bit then bit x 31 else bit x 63) && op.is_signed

unfoldable pub magnitude_of : DivOp → ℕ → ℕ
unfolding neg_of
magnitude_of op x = if neg_of op x then sub 64 0 x else x

-- The switch over the operation: the dividend of 128 bits, from the magnitude.
unfoldable pub dividend_of : Eq32 → DivInsn → Bool → ℕ → ℕ
dividend_of eq32 op_div is_32bit m = eq32 is_32bit m
dividend_of eq32 op_mod is_32bit m = eq32 is_32bit m
dividend_of eq32 op_dive is_32bit m =
    if is_32bit then slice m 0 32 * 2 ^ 32 else slice m 0 64 * 2 ^ 64
dividend_of eq32 op_other is_32bit m = 0

-- fu/div/setup_stage.py.
unfoldable pub div_setup : Eq32 → DivOperands → CoreInputData CoreBase
unfolding magnitude_of dividend_of
div_setup eq32 i =
    let op = i.op in
    let abs_dor = magnitude_of op i.b in
    let abs_dend = magnitude_of op i.a in
    let divisor = eq32 op.is_32bit abs_dor in
    record {
      dividend = dividend_of eq32 op.insn_type op.is_32bit abs_dend;
      divisor_radicand = divisor;
      ctx = record {
        op = op;
        xer_so = i.xer_so;
        divisor_neg = neg_of op i.b;
        dividend_neg = neg_of op i.a;
        div_by_zero = divisor == 0;
        dive_abs_ov32 = leb (slice abs_dor 0 32) (slice abs_dend 0 32) && is_dive op.insn_type;
        dive_abs_ov64 = leb abs_dor abs_dend && is_dive op.insn_type;
      };
    }

-- The quotient with its sign, one bit wider.
unfoldable pub quotient_65 : CoreOutput → ℕ
quotient_65 i =
    if xor i.base.dividend_neg i.base.divisor_neg then sub 65 0 i.quotient_root else i.quotient_root

-- The remainder with the sign of the dividend.
unfoldable pub remainder_64 : CoreOutput → ℕ
remainder_64 i =
    let abs_remainder = slice i.remainder 64 128 in
    if i.base.dividend_neg then sub 64 0 abs_remainder else abs_remainder

unfoldable pub div_ov : CoreOutput → Bool
unfolding quotient_65
div_ov i =
    let op = i.base.op in
    let q = quotient_65 i in
    if i.base.div_by_zero
    then true
    else if not op.is_32bit
    then i.base.dive_abs_ov64 || (op.is_signed && xor (bit q 64) (bit q 63))
    else if op.is_signed
    then i.base.dive_abs_ov32 || xor (bit q 32) (bit q 31)
    else i.base.dive_abs_ov32

-- The low 32 bits, sign-extended to 64.
unfoldable pub s32_as_s64 : ℕ → ℕ
s32_as_s64 x = if bit x 31 then slice x 0 32 + 2 ^ 64 - 2 ^ 32 else slice x 0 32

-- The switch over the operation, for a result with no overflow.
unfoldable pub div_o : DivInsn → DivOp → ℕ → ℕ → ℕ
unfolding s32_as_s64
div_o op_dive op q r = if op.is_32bit then slice q 0 32 else trunc 64 q
div_o op_div op q r = if op.is_32bit then slice q 0 32 else trunc 64 q
div_o op_mod op q r =
    if op.is_32bit then (if op.is_signed then s32_as_s64 r else slice r 0 32) else r
div_o op_other op q r = 0

-- fu/div/output_stage.py.
unfoldable pub div_output : CoreOutput → DivOutput
unfolding div_ov remainder_64
div_output i =
    let op = i.base.op in
    let ov = div_ov i in
    record {
      op = op;
      o = record {
        content = if not ov then div_o op.insn_type op (quotient_65 i) (remainder_64 i) else 0;
        ok = true;
      };
      xer_ov = record { content = b2n ov + b2n ov * 2; ok = true };
      xer_so = record { content = b2n i.base.xer_so; ok = false };
    }
