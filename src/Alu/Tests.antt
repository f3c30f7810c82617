-- ===== src/Alu/Tests.antt =====
-- Runs of the pipeline of fu/alu at concrete inputs: 7 - 5, 5 against 7.
use libresoc_soc.Common.{
  ◌||◌, ◌+◌, ◌-◌, ◌*◌, ◌/◌, ◌%◌, ◌^◌, ◌≡◌, refl, arith, true, false, leb, bit, b2n, inv,
  if◌then◌else◌,
}
use libresoc_soc.Alu.Types.{AluOp, AluInput, Extend, op_add, op_cmp, cry_one}
use libresoc_soc.Alu.InputStage.{carry_in}
use libresoc_soc.Alu.OutputStage.{alu}
use libresoc_soc.Alu.Addition.{overflows}
use libresoc_soc.Alu.Sum.{IsAdd, alu-add}
use libresoc_soc.Alu.Flags.{sign_cr0, alu-record}
use libresoc_soc.Alu.Compare.{alu-compare, order_cr0}

-- Extension of the low bits, as arithmetic.
abbrev ext : Extend
ext = record {
  exts = λ x from to. x % 2 ^ from + (if bit x (from - 1) then 2 ^ to - 2 ^ from else 0);
  extz = λ x from to. x % 2 ^ from;
}

abbrev subf : AluOp
subf = record {
  insn_type = op_add;
  l = true;
  oe = true;
  oe_ok = true;
  invert_in = true;
  invert_out = false;
  write_cr0 = true;
  input_carry = cry_one;
  output_carry = true;
  is_signed = false;
  data_len = 8;
  sv_pred_sz = false;
  sv_pred_dz = false;
}

abbrev five_seven : AluInput
five_seven = record { op = subf; a = 5; b = 7; xer_so = false; xer_ca = 0 }

abbrev cmp_five_seven : AluInput
cmp_five_seven = record five_seven { op = record subf { insn_type = op_cmp } }

subf-IsAdd : IsAdd subf
subf-IsAdd = record { insn = refl; source = refl; dest = refl; plain = refl }

alu-add_example :
    ((alu ext five_seven).o ≡ record { content = (inv 64 5 + 7 + 1) % 2 ^ 64; ok = true })
    × ((alu ext five_seven).xer_ca ≡ record {
      content =
          b2n (leb (2 ^ 64) (inv 64 5 + 7 + 1)) + (inv 64 5 % 2 ^ 32 + 7 % 2 ^ 32 + 1) / 2 ^ 32 * 2;
      ok = true;
    })
    × ((alu ext five_seven).xer_ov ≡ record {
      content =
          b2n (overflows 64 (inv 64 5) 7 1)
          + b2n (overflows 32 (inv 64 5 % 2 ^ 32) (7 % 2 ^ 32) 1) * 2;
      ok = true;
    })
unfolding carry_in
alu-add_example = alu-add ext five_seven subf-IsAdd (omega arith) (omega arith)

alu-compare_example :
    (alu ext cmp_five_seven).cr0 ≡ record { content = order_cr0 64 false false 5 7; ok = true }
alu-compare_example =
    alu-compare ext cmp_five_seven
      (record { insn = refl; source = refl; inverts = refl; carries = refl }) (omega arith)
      (omega arith)

five_less_seven : order_cr0 64 false false 5 7 ≡ 8
five_less_seven = refl

alu-record_example :
    ((alu ext five_seven).cr0 ≡ record {
      content = b2n (false || overflows 64 (inv 64 5) 7 1) + sign_cr0 ((inv 64 5 + 7 + 1) % 2 ^ 64);
      ok = true;
    })
    × ((alu ext five_seven).xer_so
        ≡ record { content = b2n (false || overflows 64 (inv 64 5) 7 1); ok = true })
unfolding carry_in
alu-record_example = alu-record ext five_seven subf-IsAdd (omega arith) (omega arith)
