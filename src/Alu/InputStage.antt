-- ===== src/Alu/InputStage.antt =====
-- fu/common_input_stage.py, for a stage that inverts its first operand and has a carry, and
-- fu/alu/input_stage.py, which extends it.
use libresoc_soc.Common.{ℕ, not, inv, if◌then◌else◌}
use libresoc_soc.Alu.Types.{AluInput, CryIn, cry_zero, cry_one, cry_ca, cry_ov}

-- The carry-in that the operation asks for. The case CryIn.OV is commented out in the source, so
-- the output keeps its 0.
unfoldable pub carry_in : CryIn → ℕ → ℕ
carry_in cry_zero xer_ca = 0b00
carry_in cry_one xer_ca = 0b11
carry_in cry_ca xer_ca = xer_ca
carry_in cry_ov xer_ca = 0

unfoldable pub common_input_stage : AluInput → AluInput
unfolding carry_in
common_input_stage i =
    let op = i.op in
    let a = if op.invert_in then inv 64 i.a else i.a in
    record {
      op = op;
      a = if not op.sv_pred_sz then a else 0;
      b = if not op.sv_pred_sz then i.b else 0;
      xer_so = i.xer_so;
      xer_ca = carry_in op.input_carry i.xer_ca;
    }

-- The ALU's own stage assigns operand b once more, last.
unfoldable pub input_stage : AluInput → AluInput
unfolding common_input_stage
input_stage i = record (common_input_stage i) { b = i.b }
