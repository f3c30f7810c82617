-- ===== src/Spr/Tests.antt =====
-- Runs of fu/spr/main_stage.py at a concrete input: all bits moved to XER.
use libresoc_soc.Common.{◌≡◌, refl, true, false}
use libresoc_soc.Spr.Stage.{op_mtspr, xer, SprInput, spr_main}
use libresoc_soc.Spr.Xer.{xer_bits, reading, kept_bits, writable_xer, mtspr-mfspr}

abbrev moved : SprInput
moved = record {
  op = record { insn_type = op_mtspr; spr = xer };
  a = λ n. true;
  spr1 = λ n. false;
  fast1 = λ n. false;
  xer_so = record { low = false; high = false };
  xer_ov = record { low = false; high = false };
  xer_ca = record { low = false; high = false };
}

reserved_bit : kept_bits xer (λ n. true) 25 ≡ false
reserved_bit = refl

mtspr-mfspr_example :
    ((spr_main xer_bits (reading moved (spr_main xer_bits moved))).o.ok ≡ true)
    × ((spr_main xer_bits (reading moved (spr_main xer_bits moved))).o.content 30
        ≡ kept_bits xer (λ n. true) 30)
mtspr-mfspr_example = mtspr-mfspr xer_bits refl moved 30 refl writable_xer
