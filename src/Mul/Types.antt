-- ===== src/Mul/Types.antt =====
-- The operation and the data between the stages of the multiplier, from fu/mul/mul_input_record.py,
-- fu/mul/pipe_data.py and fu/div/pipe_data.py.
use libresoc_soc.Common.{ℕ, Bool}
use libresoc_soc.Alu.Types.{Data}

-- The operations that the stages tell apart, of the decoder's enumeration; `op_other` is any other.
pub data MulInsn : Type 0 where
  op_mul_h32 op_mul_h64 op_mul_l64 op_other : MulInsn

pub record MulOp : Type 0 where
  pub insn_type : MulInsn
  pub is_32bit : Bool
  pub is_signed : Bool

pub record DivInput : Type 0 where
  pub op : MulOp
  pub a : ℕ
  pub b : ℕ
  pub xer_so : Bool

pub record MulIntermediate : Type 0 where
  pub op : MulOp
  pub a : ℕ
  pub b : ℕ
  pub xer_so : Bool
  pub neg_res : Bool
  pub neg_res32 : Bool

-- The product of 129 bits.
pub record MulOutput : Type 0 where
  pub op : MulOp
  pub o : ℕ
  pub xer_so : Bool
  pub neg_res : Bool
  pub neg_res32 : Bool

pub record DivMulOutput : Type 0 where
  pub op : MulOp
  pub o : Data
  pub xer_ov : Data
  pub xer_so : Data

-- nmutil's assignment of the low half, and of the high half or zero: `eq32 is_32bit src`.
abbrev pub Eq32 : Type 0
Eq32 = Bool → ℕ → ℕ
