-- ===== src/Cr/Tests.antt =====
-- Runs of fu/cr/main_stage.py at concrete inputs.
use libresoc_soc.Common.{◌+◌, ◌^◌, ◌≡◌, ◌==◌, refl, arith, true, if◌then◌else◌}
use libresoc_soc.Cr.Stage.{CrInsn, op_crop, op_isel, op_setb, op_mtcrf, CrInput, cr_main}
use libresoc_soc.Cr.Logic.{crandc, meaning, field_bit, cr_main-logic}

-- `crandc` of the bits 1 and 2 into the bit 3.
abbrev fields : CrInsn → CrInput
fields n = record {
  op = record { insn_type = n; lut = 4; bt = 3; ba = 1; bb = 2; bc = 1 };
  a = 2 ^ 32 + 9;
  b = 8;
  full_cr = 0;
  cr_a = 4;
  cr_b = 0;
  cr_c = 8;
}

selects : (cr_main (fields op_isel)).o.content ≡ 2 ^ 32 + 9
unfolding cr_main
selects = refl

greater : (cr_main (fields op_setb)).o.content ≡ 1
unfolding cr_main
greater = refl

moves : (cr_main (fields op_mtcrf)).full_cr.content ≡ 9
unfolding cr_main
moves = refl

cr_main-logic_example :
    ((cr_main (fields op_crop)).cr.ok ≡ true)
    × (field_bit (cr_main (fields op_crop)).cr.content 3
        ≡ (if 3 == 3 then meaning crandc (field_bit 4 1) (field_bit 0 2) else field_bit 8 3))
cr_main-logic_example =
    cr_main-logic crandc (fields op_crop) 3 refl refl (omega arith) (omega arith) (omega arith)
