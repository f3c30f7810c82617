-- ===== src/Alu/Sum.antt =====
-- What the pipeline of fu/alu computes for an addition and for a subtraction.
use libresoc_soc.Common.{ℕ, ◌+◌, ◌-◌, ◌*◌, ◌/◌, ◌%◌, ◌^◌, ◌<◌, ◌≡◌, refl, ap, ap₂, ◌∙◌, arith}
use libresoc_soc.Common.{Bool, true, false, leb, bit, b2n, inv, if◌then◌else◌}
use libresoc_soc.Alu.Types.{AluOp, AluInput, AluOutput, Data, record_of, Extend, op_add, cry_one}
use libresoc_soc.Alu.InputStage.{input_stage, carry_in}
use libresoc_soc.Alu.MainStage.{
  main_stage, add_result, add_o, addend, add_of, cmp_result, cmpeqb_result, exts_result,
}
use libresoc_soc.Alu.OutputStage.{output_stage, alu, oe_set}
use libresoc_soc.Alu.Addition.{
  overflows, calc_ov-overflows, calc_ov-overflows32, carry_into_32, bit_65, low, bit_64, bit_33,
  bit_32, b2n-le,
}

module _ (ext : Extend) (i : AluInput) (e : i.op.insn_type ≡ op_add) where
  addend_is : (x : ℕ) → addend ext i.op x ≡ x
  unfolding addend
  addend_is x = ground arith

  add_o_is : add_o ext i ≡ add_of i.a i.b (bit i.xer_ca 0)
  unfolding add_o addend
  add_o_is = ground arith

  pub main_is : main_stage ext i ≡ add_result ext i
  unfolding main_stage
  main_is = ground arith

  abbrev c : Bool
  c = bit i.xer_ca 0

  module _ (ha : i.a < 2 ^ 64) (hb : i.b < 2 ^ 64) where
    abbrev total : ℕ
    total = i.a + i.b + b2n c

    pub add_o-content : (main_stage ext i).o ≡ record { content = total % 2 ^ 64; ok = true }
    unfolding add_result
    add_o-content = rw main_is (rw (add_o_is, low i.a i.b c ha hb) refl)

    pub add_ca : (main_stage ext i).xer_ca ≡ record {
      content = b2n (leb (2 ^ 64) total) + (i.a % 2 ^ 32 + i.b % 2 ^ 32 + b2n c) / 2 ^ 32 * 2;
      ok = true;
    }
    unfolding add_result
    add_ca = rw main_is (
        rw
          (
            add_o_is,
            addend_is,
            addend_is,
            bit_65 i.a i.b c ha hb,
            bit_33 i.a i.b c ha hb,
            carry_into_32 i.a i.b (b2n c) (b2n-le i.a i.b c ha hb),
          )
          refl)

    pub add_ov : (main_stage ext i).xer_ov ≡ record {
      content =
          b2n (overflows 64 i.a i.b (b2n c))
          + b2n (overflows 32 (i.a % 2 ^ 32) (i.b % 2 ^ 32) (b2n c)) * 2;
      ok = true;
    }
    unfolding add_result
    add_ov = rw main_is (
        rw (add_o_is, addend_is i.a, addend_is i.b)
          (rw
            (
              bit_65 i.a i.b c ha hb,
              bit_64 i.a i.b c ha hb,
              bit_33 i.a i.b c ha hb,
              bit_32 i.a i.b c ha hb,
            )
            (rw
              (
                calc_ov-overflows i.a i.b (b2n c) ha hb (b2n-le i.a i.b c ha hb),
                calc_ov-overflows32 i.a i.b (b2n c) (b2n-le i.a i.b c ha hb),
              )
              refl)))

-- An addition as the decoder asks for it.
pub record IsAdd (op : AluOp) : Type 0 where
  pub insn : op.insn_type ≡ op_add
  pub source : op.sv_pred_sz ≡ false
  pub dest : op.sv_pred_dz ≡ false
  pub plain : op.invert_out ≡ false

-- The first operand, inverted if the operation asks for that, and the carry added.
abbrev pub operand : AluInput → ℕ
operand i = if i.op.invert_in then inv 64 i.a else i.a

abbrev pub carry : AluInput → ℕ
carry i = b2n (bit (carry_in i.op.input_carry i.xer_ca) 0)

pub input_is :
    (i : AluInput)
    → i.op.sv_pred_sz ≡ false
    → input_stage i ≡ record i { a = operand i; xer_ca = carry_in i.op.input_carry i.xer_ca }
unfolding input_stage
input_is i e = ground arith

pub operand_fits : (i : AluInput) → i.a < 2 ^ 64 → operand i < 2 ^ 64
operand_fits i h = ground arith

module _ (m : AluOutput) (plain : m.op.invert_out ≡ false) (dest : m.op.sv_pred_dz ≡ false) where
  pub out_content : (output_stage m).o ≡ m.o
  unfolding output_stage
  out_content = ground arith

out_ov :
    (m : AluOutput)
    → (output_stage m).xer_ov ≡ (
        if oe_set m.op
        then record { content = m.xer_ov.content; ok = true }
        else record { content = 0; ok = false })
unfolding output_stage
out_ov m = refl

out_ca :
    (m : AluOutput)
    → (output_stage m).xer_ca ≡ record { content = m.xer_ca.content; ok = m.op.output_carry }
unfolding output_stage
out_ca m = refl

pub main_op : (ext : Extend) (i : AluInput) → (main_stage ext i).op ≡ i.op
unfolding main_stage add_result cmp_result cmpeqb_result exts_result
main_op ext i = ground arith

-- For an addition of 64-bit operands with no zeroing and no inverted result, the pipeline writes
-- the sum of the (inverted) first operand, the second and the carry, modulo 2 ^ 64; CA and CA32 are
-- the carries out of 64 and 32 bits, gated by `output_carry`; and OV and OV32, given only with OE, say
-- whether the signed sum leaves the range of 64 and of 32 bits.
pub alu-add :
    (ext : Extend) (i : AluInput)
    → IsAdd i.op
    → i.a < 2 ^ 64
    → i.b < 2 ^ 64
    → let x = operand i in
      let c = carry i in
      let out = alu ext i in
      (out.o ≡ record { content = (x + i.b + c) % 2 ^ 64; ok = true })
      × (out.xer_ca ≡ record {
        content = b2n (leb (2 ^ 64) (x + i.b + c)) + (x % 2 ^ 32 + i.b % 2 ^ 32 + c) / 2 ^ 32 * 2;
        ok = i.op.output_carry;
      })
      × (out.xer_ov ≡ (
          if oe_set i.op
          then record {
            content =
                b2n (overflows 64 x i.b c) + b2n (overflows 32 (x % 2 ^ 32) (i.b % 2 ^ 32) c) * 2;
            ok = true;
          }
          else record { content = 0; ok = false }))
unfolding alu
alu-add ext i is ha hb = rw (input_is i is.source) (
  out_content m (rw op_is is.plain) (rw op_is is.dest) ∙ add_o-content ext j is.insn fits hb,
  out_ca m
      ∙ ap₂ (λ (x : ℕ) (y : Bool). record_of x y)
          (ap (λ (d : Data). d.content) (add_ca ext j is.insn fits hb))
          (ap (λ (o : AluOp). o.output_carry) op_is),
  rw (out_ov m, op_is, add_ov ext j is.insn fits hb) refl,
)
  where
    j : AluInput
    j = record i { a = operand i; xer_ca = carry_in i.op.input_carry i.xer_ca }

    m : AluOutput
    m = main_stage ext j

    op_is : m.op ≡ i.op
    op_is = main_op ext j

    fits : operand i < 2 ^ 64
    fits = operand_fits i ha

-- A subtraction (subf: the first operand is inverted and the carry is 1) gives b - a modulo 2 ^ 64;
-- CA and CA32 are set exactly when there is no borrow, on 64 and on 32 bits.
alu-subtract :
    (ext : Extend) (i : AluInput)
    → IsAdd i.op
    → i.a < 2 ^ 64
    → i.b < 2 ^ 64
    → i.op.invert_in ≡ true
    → i.op.input_carry ≡ cry_one
    → ((alu ext i).o ≡ record { content = (i.b + 2 ^ 64 - i.a) % 2 ^ 64; ok = true })
      × ((alu ext i).xer_ca ≡ record {
        content = b2n (leb i.a i.b) + b2n (leb (i.a % 2 ^ 32) (i.b % 2 ^ 32)) * 2;
        ok = i.op.output_carry;
      })
unfolding carry_in
alu-subtract ext i is ha hb v k =
    let p = alu-add ext i is ha hb in
    let x : operand i ≡ inv 64 i.a = ground arith in
    let c : carry i ≡ 1 = ground arith in
    (
      p.0 ∙ ap (λ (t : ℕ). record_of t true) (rw (x, c) (omega arith)),
      p.1 ∙ ap (λ (t : ℕ). record_of t i.op.output_carry) (rw (x, c) (ground arith)),
    )
