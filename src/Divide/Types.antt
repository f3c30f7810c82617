-- ===== src/Divide/Types.antt =====
-- The operation and the data of the divider pipeline, from fu/logical/logical_input_record.py and
-- fu/div/pipe_data.py.
use libresoc_soc.Common.{ℕ, Bool}
use libresoc_soc.Alu.Types.{Data}

-- The operations that the stages tell apart, of the decoder's enumeration; `op_other` is any other.
pub data DivInsn : Type 0 where
  op_div op_mod op_dive op_other : DivInsn

-- The fields of the operation that the stages read.
pub record DivOp : Type 0 where
  pub insn_type : DivInsn
  pub is_32bit : Bool
  pub is_signed : Bool

pub record DivOperands : Type 0 where
  pub op : DivOp
  pub a : ℕ
  pub b : ℕ
  pub xer_so : Bool

-- What passes by the core.
pub record CoreBase : Type 0 where
  pub op : DivOp
  pub xer_so : Bool
  pub divisor_neg : Bool
  pub dividend_neg : Bool
  pub div_by_zero : Bool
  pub dive_abs_ov32 : Bool
  pub dive_abs_ov64 : Bool

-- The core's results: 64 bits, and 192 bits of which the middle ones are the remainder.
pub record CoreOutput : Type 0 where
  pub quotient_root : ℕ
  pub remainder : ℕ
  pub base : CoreBase

pub record DivOutput : Type 0 where
  pub op : DivOp
  pub o : Data
  pub xer_ov : Data
  pub xer_so : Data
