-- ===== src/Alu/OutputStage.antt =====
-- fu/common_output_stage.py and fu/alu/output_stage.py: the gating of the results, CR0, and the
-- summary overflow.
use libresoc_soc.Common.{ℕ, ◌+◌, ◌*◌, Bool, true, false, not, ◌&&◌, ◌||◌, ◌==◌}
use libresoc_soc.Common.{bit, b2n, inv, if◌then◌else◌}
use libresoc_soc.Alu.Types.{MicrOp, op_cmpeqb, AluOp, AluInput, AluOutput, Data, Extend}
use libresoc_soc.Alu.InputStage.{input_stage}
use libresoc_soc.Alu.MainStage.{main_stage, is_cmp}

abbrev pub is_cmpeqb : MicrOp → Bool
is_cmpeqb op_cmpeqb = true
is_cmpeqb _ = false

abbrev pub oe_set : AluOp → Bool
oe_set op = op.oe && op.oe_ok

-- The new SO and OV, assigned only if the instruction has OE.
unfoldable pub xer_so_o : AluOutput → Data
xer_so_o i =
    if oe_set i.op
    then record { content = b2n (bit i.xer_so.content 0 || bit i.xer_ov.content 0); ok = true }
    else record { content = 0; ok = false }

unfoldable pub xer_ov_o : AluOutput → Data
xer_ov_o i =
    if oe_set i.op
    then record { content = i.xer_ov.content; ok = true }
    else record { content = 0; ok = false }

unfoldable pub out_o : AluOutput → ℕ
out_o i =
    if not i.op.sv_pred_dz then (if i.op.invert_out then inv 64 i.o.content else i.o.content) else 0

-- CR0 of a result: summary overflow, zero, positive, negative.
unfoldable pub result_cr0 : Bool → ℕ → ℕ
result_cr0 so target =
    let is_nzero = not (target == 0) in
    let msb_test = bit target 63 in
    b2n so + b2n (not is_nzero) * 2 + b2n (is_nzero && not msb_test) * 4 + b2n msb_test * 8

unfoldable pub output_stage : AluOutput → AluOutput
unfolding xer_so_o xer_ov_o out_o result_cr0
output_stage i =
    let op = i.op in
    let so = if oe_set op then bit (xer_so_o i).content 0 else bit i.xer_so.content 0 in
    let cr0 =
      if is_cmpeqb op.insn_type || is_cmp op.insn_type
      then i.cr0.content
      else result_cr0 so (out_o i) in
    record {
      op = op;
      o = record { content = out_o i; ok = i.o.ok };
      cr0 = record { content = cr0; ok = op.write_cr0 };
      xer_ca = record { content = i.xer_ca.content; ok = op.output_carry };
      xer_ov = xer_ov_o i;
      xer_so = xer_so_o i;
    }

-- fu/alu/pipeline.py chains the three stages.
unfoldable pub alu : Extend → AluInput → AluOutput
alu ext i = output_stage (main_stage ext (input_stage i))
