-- ===== src/Alu/Types.antt =====
-- The operation, the operands and the results of the pipelines in fu/, from fu/alu/pipe_data.py and
-- fu/alu/alu_input_record.py.
use libresoc_soc.Common.{ℕ, Bool, false}

-- The operations that the stages tell apart, of the decoder's enumeration; `op_other` is any other.
pub data MicrOp : Type 0 where
  op_cmp op_add op_exts op_cmpeqb op_other : MicrOp

-- The decoder's choices of a carry-in.
pub data CryIn : Type 0 where
  cry_zero cry_one cry_ca cry_ov : CryIn

-- The fields of the operation that the stages read. `l` is the X-form field L of the instruction;
-- `oe` is `oe.oe & oe.ok`.
pub record AluOp : Type 0 where
  pub insn_type : MicrOp
  pub l : Bool
  pub oe : Bool
  pub oe_ok : Bool
  pub invert_in : Bool
  pub invert_out : Bool
  pub write_cr0 : Bool
  pub input_carry : CryIn
  pub output_carry : Bool
  pub is_signed : Bool
  pub data_len : ℕ
  pub sv_pred_sz : Bool
  pub sv_pred_dz : Bool

pub record AluInput : Type 0 where
  pub op : AluOp
  pub a : ℕ
  pub b : ℕ
  pub xer_so : Bool
  pub xer_ca : ℕ

-- A result of so many bits, and whether it is to be written.
pub record Data : Type 0 where
  pub content : ℕ
  pub ok : Bool

abbrev pub record_of : ℕ → Bool → Data
record_of x y = record { content = x; ok = y }

abbrev pub no_data : Data
no_data = record { content = 0; ok = false }

pub record AluOutput : Type 0 where
  pub op : AluOp
  pub o : Data
  pub cr0 : Data
  pub xer_ca : Data
  pub xer_ov : Data
  pub xer_so : Data

-- nmutil's sign and zero extension of the low bits of a value: `exts x from to`.
pub record Extend : Type 0 where
  pub exts : ℕ → ℕ → ℕ → ℕ
  pub extz : ℕ → ℕ → ℕ → ℕ
