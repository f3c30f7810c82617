-- ===== src/Cr/Stage.antt =====
-- fu/cr/main_stage.py, with the data of fu/cr/pipe_data.py and the operation of
-- fu/cr/cr_input_record.py. A condition field has four bits.
use libresoc_soc.Common.{ℕ, ◌+◌, ◌-◌, ◌*◌, ◌^◌, Bool, true, if◌then◌else◌, bit, b2n, slice}
use libresoc_soc.Alu.Types.{Data, no_data}

-- The operations of the switch; `op_other` is any other.
pub data CrInsn : Type 0 where
  op_mcrf op_crop op_mtcrf op_mfcr op_isel op_setb op_other : CrInsn

-- The operation with the parts of the instruction that the stage reads: the lookup table in its bits
-- 6 to 9, and the low two bits of BT, BA, BB and BC.
pub record CrOp : Type 0 where
  pub insn_type : CrInsn
  pub lut : ℕ
  pub bt : ℕ
  pub ba : ℕ
  pub bb : ℕ
  pub bc : ℕ

pub record CrInput : Type 0 where
  pub op : CrOp
  pub a : ℕ
  pub b : ℕ
  pub full_cr : ℕ
  pub cr_a : ℕ
  pub cr_b : ℕ
  pub cr_c : ℕ

pub record CrOutput : Type 0 where
  pub op : CrOp
  pub o : Data
  pub full_cr : Data
  pub cr : Data

unfoldable pub no_cr : CrInput → CrOutput
no_cr i = record { op = i.op; o = no_data; full_cr = no_data; cr = no_data }

-- `x[i].eq(b)`.
unfoldable pub set_bit : ℕ → ℕ → Bool → ℕ
set_bit x i b = x - b2n (bit x i) * 2 ^ i + b2n b * 2 ^ i

-- The entry of the lookup table.
unfoldable pub bit_o : CrInput → Bool
bit_o i =
    let lut = i.op.lut in
    let bit_a = bit i.cr_a (3 - i.op.ba) in
    let bit_b = bit i.cr_b (3 - i.op.bb) in
    if bit_b
    then (if bit_a then bit lut 3 else bit lut 1)
    else (if bit_a then bit lut 2 else bit lut 0)

-- The field that the logical operations write.
unfoldable pub crop : CrInput → ℕ
unfolding set_bit bit_o
crop i = set_bit i.cr_c (3 - i.op.bt) (bit_o i)

-- The selected bit of `isel`.
unfoldable pub isel_bit : CrInput → Bool
isel_bit i = bit i.cr_a (3 - i.op.bc)

unfoldable pub setb : ℕ → ℕ
setb cr_a = if bit cr_a 3 then 2 ^ 64 - 1 else if bit cr_a 2 then 1 else 0

unfoldable pub cr_stage : CrInsn → CrInput → CrOutput
unfolding no_cr crop isel_bit setb
cr_stage op_mcrf i = record (no_cr i) { cr = record { content = i.cr_a; ok = true } }
cr_stage op_crop i = record (no_cr i) { cr = record { content = crop i; ok = true } }
cr_stage op_mtcrf i = record (no_cr i) { full_cr = record { content = slice i.a 0 32; ok = true } }
cr_stage op_mfcr i = record (no_cr i) { o = record { content = i.full_cr; ok = true } }
cr_stage op_isel i = record (no_cr i) {
  o = record { content = if isel_bit i then i.a else i.b; ok = true };
}
cr_stage op_setb i = record (no_cr i) { o = record { content = setb i.cr_a; ok = true } }
cr_stage op_other i = no_cr i

unfoldable pub cr_main : CrInput → CrOutput
unfolding cr_stage
cr_main i = cr_stage i.op.insn_type i
