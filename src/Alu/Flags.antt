-- ===== src/Alu/Flags.antt =====
-- CR0 and the summary overflow of fu/common_output_stage.py, behind the ALU's output stage.
use libresoc_soc.Common.{
  ℕ, ◌+◌, ◌*◌, ◌%◌, ◌^◌, ◌<◌, ◌≡◌, inl, inr, refl, ap, ap₂, ◌∙◌, arith, Bool-cases, Bool, true,
  false, ◌||◌, ◌==◌, bit, b2n, if◌then◌else◌,
}
use libresoc_soc.Alu.Types.{MicrOp, op_add, AluOp, AluInput, AluOutput, Data, record_of, Extend}
use libresoc_soc.Alu.InputStage.{carry_in}
use libresoc_soc.Alu.MainStage.{main_stage, add_result, passed, is_cmp}
use libresoc_soc.Alu.OutputStage.{output_stage, is_cmpeqb, oe_set, xer_so_o, result_cr0, out_o, alu}
use libresoc_soc.Alu.Addition.{overflows}
use libresoc_soc.Alu.Sum.{
  IsAdd, operand, carry, input_is, operand_fits, out_content, main_op, main_is, add_ov,
  add_o-content,
}

-- The result is negative, positive or zero as a signed number of 64 bits, in CR0's order.
abbrev pub sign_cr0 : ℕ → ℕ
sign_cr0 r = if bit r 63 then 8 else if r == 0 then 2 else 4

result_cr0-sign : (so : Bool) (r : ℕ) → result_cr0 so r ≡ b2n so + sign_cr0 r
unfolding result_cr0
result_cr0-sign so r = ground arith

bit_of_bit : (b : Bool) → bit (b2n b) 0 ≡ b
bit_of_bit true = refl
bit_of_bit false = refl

-- The summary overflow that goes into CR0.
new_so :
    (m : AluOutput)
    → (if oe_set m.op then bit (xer_so_o m).content 0 else bit m.xer_so.content 0)
      ≡ (bit m.xer_so.content 0 || (if oe_set m.op then bit m.xer_ov.content 0 else false))
unfolding xer_so_o
new_so m = elim (Bool-cases (oe_set m.op)) [
  | inl e ↦ rw e (bit_of_bit _)
  | inr e ↦ rw e (ground arith)
]

output_stage-cr0 :
    (m : AluOutput)
    → (is_cmpeqb m.op.insn_type || is_cmp m.op.insn_type) ≡ false
    → (output_stage m).cr0.content
      ≡ b2n (bit m.xer_so.content 0 || (if oe_set m.op then bit m.xer_ov.content 0 else false))
        + sign_cr0 (output_stage m).o.content
unfolding output_stage
output_stage-cr0 m e =
    rw e (result_cr0-sign _ (out_o m) ∙ ap (λ (b : Bool). b2n b + sign_cr0 (out_o m)) (new_so m))

output_stage-so :
    (m : AluOutput)
    → (output_stage m).xer_so ≡ (
        if oe_set m.op
        then record { content = b2n (bit m.xer_so.content 0 || bit m.xer_ov.content 0); ok = true }
        else record { content = 0; ok = false })
unfolding output_stage xer_so_o
output_stage-so m = refl

output_cr0 :
    (m : AluOutput) → (output_stage m).cr0 ≡ record_of (output_stage m).cr0.content m.op.write_cr0
unfolding output_stage
output_cr0 m = refl

low_bit : (a b : Bool) → bit (b2n a + b2n b * 2) 0 ≡ a
low_bit a b = ground arith

add_so :
    (ext : Extend) (i : AluInput)
    → i.op.insn_type ≡ op_add
    → (main_stage ext i).xer_so ≡ record { content = b2n i.xer_so; ok = false }
unfolding add_result passed
add_so ext i e = rw (main_is ext i e) refl

no_compare : (n : MicrOp) → n ≡ op_add → (is_cmpeqb n || is_cmp n) ≡ false
no_compare n e = rw e refl

-- The flags that the output stage makes of the main stage's results.
module _ (m : AluOutput) (op : AluOp) (s a b : Bool) (r : ℕ) (op_is : m.op ≡ op)
    (so_is : m.xer_so ≡ record { content = b2n s; ok = false })
    (ov_is : m.xer_ov ≡ record { content = b2n a + b2n b * 2; ok = true })
    (o_is : (output_stage m).o ≡ record { content = r; ok = true }) where
  abbrev so_after : Bool
  so_after = s || (if oe_set op then a else false)

  so_merged :
      (bit m.xer_so.content 0 || (if oe_set m.op then bit m.xer_ov.content 0 else false)) ≡ so_after
  so_merged = rw (so_is, ov_is, op_is, low_bit a b, bit_of_bit s) refl

  cr0_of :
      (is_cmpeqb op.insn_type || is_cmp op.insn_type) ≡ false
      → (output_stage m).cr0 ≡ record { content = b2n so_after + sign_cr0 r; ok = op.write_cr0 }
  cr0_of e =
      output_cr0 m
      ∙ ap₂ record_of
          (output_stage-cr0 m
              (ap (λ (o : AluOp). is_cmpeqb o.insn_type || is_cmp o.insn_type) op_is ∙ e)
            ∙ ap₂ (λ (t : Bool) (o : Data). b2n t + sign_cr0 o.content) so_merged o_is)
          (ap (λ (o : AluOp). o.write_cr0) op_is)

  so_of : (output_stage m).xer_so ≡ (
      if oe_set op
      then record { content = b2n so_after; ok = true }
      else record { content = 0; ok = false })
  so_of = output_stage-so m ∙ rw (so_is, ov_is, op_is, low_bit a b, bit_of_bit s) (ground arith)

-- For an addition of 64-bit operands with no zeroing and no inverted result, CR0 tells whether the
-- sum modulo 2 ^ 64 is negative, positive or zero as a signed number, and the summary overflow: the
-- old one, or, with OE, also set if the signed sum leaves the range of 64 bits. CR0 is written if the
-- operation asks for it, and the summary overflow exactly with OE.
pub alu-record :
    (ext : Extend) (i : AluInput)
    → IsAdd i.op
    → i.a < 2 ^ 64
    → i.b < 2 ^ 64
    → let x = operand i in
      let c = carry i in
      let so = i.xer_so || (if oe_set i.op then overflows 64 x i.b c else false) in
      ((alu ext i).cr0
        ≡ record { content = b2n so + sign_cr0 ((x + i.b + c) % 2 ^ 64); ok = i.op.write_cr0 })
      × ((alu ext i).xer_so ≡ (
          if oe_set i.op
          then record { content = b2n so; ok = true }
          else record { content = 0; ok = false }))
unfolding alu
alu-record ext i is ha hb = rw (input_is i is.source) (
  cr0_of m i.op i.xer_so _ _ _ op_is so ov out (no_compare i.op.insn_type is.insn),
  so_of m i.op i.xer_so _ _ _ op_is so ov out,
)
  where
    j : AluInput
    j = record i { a = operand i; xer_ca = carry_in i.op.input_carry i.xer_ca }

    m : AluOutput
    m = main_stage ext j

    fits : operand i < 2 ^ 64
    fits = operand_fits i ha

    op_is : m.op ≡ i.op
    op_is = main_op ext j

    so : m.xer_so ≡ record { content = b2n i.xer_so; ok = false }
    so = add_so ext j is.insn

    ov : m.xer_ov ≡ record {
      content =
          b2n (overflows 64 (operand i) i.b (carry i))
          + b2n (overflows 32 (operand i % 2 ^ 32) (i.b % 2 ^ 32) (carry i)) * 2;
      ok = true;
    }
    ov = add_ov ext j is.insn fits hb

    out : (output_stage m).o ≡ record { content = (operand i + i.b + carry i) % 2 ^ 64; ok = true }
    out = out_content m (rw op_is is.plain) (rw op_is is.dest) ∙ add_o-content ext j is.insn fits hb
