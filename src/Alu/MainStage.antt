-- ===== src/Alu/MainStage.antt =====
-- fu/alu/main_stage.py: add, compare, sign extension and byte compare.
use libresoc_soc.Common.{ℕ, ◌+◌, ◌*◌, Bool, true, false, not, xor, ◌&&◌, ◌||◌, ◌==◌}
use libresoc_soc.Common.{bit, slice, b2n, cat, inv, trunc, if◌then◌else◌}
use libresoc_soc.Alu.Types.{
  MicrOp, op_cmp, op_add, op_exts, op_cmpeqb, op_other, AluOp, AluInput, AluOutput, no_data, Extend,
}

unfoldable pub calc_ov : Bool → Bool → Bool → Bool → Bool
calc_ov msb_a msb_b ca msb_r = xor ca msb_r && not (xor msb_a msb_b)

abbrev pub is_cmp : MicrOp → Bool
is_cmp op_cmp = true
is_cmp _ = false

abbrev pub is_add : MicrOp → Bool
is_add op_add = true
is_add _ = false

unfoldable pub is_32bit : AluOp → Bool
is_32bit op = if is_cmp op.insn_type then not op.l else false

-- The sum on 66 bits: bit 0 makes the carry into bit 1, bit 65 is the carry out.
unfoldable pub add_of : ℕ → ℕ → Bool → ℕ
add_of a_i b_i cry_i = trunc 66 (cat 1 (b2n cry_i) a_i + cat 1 1 b_i)

-- The comparison bits, from the inverted operand: greater and less unsigned, equal, greater and
-- less signed.
unfoldable pub tval_of : Bool → ℕ → ℕ → ℕ → ℕ
tval_of is32 a b add_o =
    let a_n = inv 64 a in
    let carry_32 = xor (xor (bit add_o 33) (bit a 32)) (bit b 32) in
    let carry_64 = bit add_o 65 in
    let zerolo = slice a_n 0 32 == slice b 0 32 in
    let zerohi = slice a_n 32 64 == slice b 32 64 in
    let msb_a = if is32 then bit a_n 31 else bit a_n 63 in
    let msb_b = if is32 then bit b 31 else bit b 63 in
    let a_lt = if is32 then carry_32 else carry_64 in
    let pack = λ (g l : Bool). b2n g + b2n l * 2 + b2n g * 8 + b2n l * 16 in
    if zerolo && (is32 || zerohi)
    then 4
    else if xor msb_a msb_b
    then b2n msb_a + b2n msb_b * 2 + b2n msb_b * 8 + b2n msb_a * 16
    else pack (not a_lt) a_lt

-- CR0 of a comparison: summary overflow, equal, greater, less.
unfoldable pub cmp_cr0 : Bool → Bool → ℕ → ℕ
cmp_cr0 is_signed so tval =
    b2n so + b2n (bit tval 2) * 2 + (if is_signed then slice tval 3 5 else slice tval 0 2) * 4

-- Whether the low byte of the first is among the eight bytes of the second.
unfoldable pub any_byte : ℕ → ℕ → Bool
any_byte a b =
    let src1 = slice a 0 8 in
    src1 == slice b 0 8
    || src1 == slice b 8 16
    || src1 == slice b 16 24
    || src1 == slice b 24 32
    || src1 == slice b 32 40
    || src1 == slice b 40 48
    || src1 == slice b 48 56
    || src1 == slice b 56 64

module _ (ext : Extend) where
  open ext use {exts, extz}

  -- An operand of the adder.
  unfoldable pub addend : AluOp → ℕ → ℕ
  unfolding is_32bit
  addend op x =
      if is_cmp op.insn_type
      then x
      else if is_32bit op
      then (if op.is_signed then exts x 32 64 else extz x 32 64)
      else x

  unfoldable pub add_o : AluInput → ℕ
  unfolding addend add_of
  add_o i =
      if is_add i.op.insn_type || is_cmp i.op.insn_type
      then add_of (addend i.op i.a) (addend i.op i.b) (bit i.xer_ca 0)
      else 0

  unfoldable pub extended : AluInput → ℕ
  extended i =
      if i.op.data_len == 1
      then exts i.a 8 64
      else if i.op.data_len == 2
      then exts i.a 16 64
      else if i.op.data_len == 4
      then exts i.a 32 64
      else 0

  -- The results that no case assigns are 0 and not to be written.
  unfoldable pub passed : AluInput → AluOutput
  passed i = record {
    op = i.op;
    o = no_data;
    cr0 = no_data;
    xer_ca = no_data;
    xer_ov = no_data;
    xer_so = record { content = b2n i.xer_so; ok = false };
  }

  unfoldable pub add_result : AluInput → AluOutput
  unfolding addend add_o passed calc_ov
  add_result i =
      let s = add_o i in
      let a_i = addend i.op i.a in
      let b_i = addend i.op i.b in
      let ca = bit s 65 in
      let ca32 = xor (bit s 33) (xor (bit a_i 32) (bit b_i 32)) in
      let ov = calc_ov (bit a_i 63) (bit b_i 63) ca (bit s 64) in
      let ov32 = calc_ov (bit a_i 31) (bit b_i 31) ca32 (bit s 32) in
      record (passed i) {
        o = record { content = slice s 1 65; ok = true };
        xer_ca = record { content = b2n ca + b2n ca32 * 2; ok = true };
        xer_ov = record { content = b2n ov + b2n ov32 * 2; ok = true };
      }

  unfoldable pub cmp_result : AluInput → AluOutput
  unfolding add_o is_32bit tval_of cmp_cr0 passed
  cmp_result i = record (passed i) {
    cr0 = record {
      content = cmp_cr0 i.op.is_signed i.xer_so (tval_of (is_32bit i.op) i.a i.b (add_o i));
      ok = true;
    };
  }

  unfoldable pub cmpeqb_result : AluInput → AluOutput
  unfolding any_byte passed
  cmpeqb_result i = record (passed i) {
    o = record { content = b2n (any_byte i.a i.b); ok = false };
    cr0 = record { content = b2n (any_byte i.a i.b) * 4; ok = true };
  }

  unfoldable pub exts_result : AluInput → AluOutput
  unfolding extended passed
  exts_result i = record (passed i) { o = record { content = extended i; ok = true } }

  -- The switch over the operation.
  unfoldable pub main_case : MicrOp → AluInput → AluOutput
  main_case op_cmp i = cmp_result i
  main_case op_add i = add_result i
  main_case op_exts i = exts_result i
  main_case op_cmpeqb i = cmpeqb_result i
  main_case op_other i = passed i

  unfoldable pub main_stage : AluInput → AluOutput
  unfolding main_case
  main_stage i = main_case i.op.insn_type i
