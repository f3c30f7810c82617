-- ===== src/Branch/Types.antt =====
-- The operation, the operands and the results of the branch unit, from fu/branch/br_input_record.py
-- and fu/branch/pipe_data.py.
use libresoc_soc.Common.{ℕ, Bool}
use libresoc_soc.Alu.Types.{Data}

-- The operations that the stage tells apart, of the decoder's enumeration; `op_other` is any other.
pub data BranchInsn : Type 0 where
  op_b op_bc op_bcreg op_other : BranchInsn

-- The operation, with the fields that the decoder's library cuts from the instruction: AA of one bit,
-- LI of 24 bits, BD of 14, BO of 5, BI of 2 (its low bits) and XO of 10.
pub record BranchOp : Type 0 where
  pub insn_type : BranchInsn
  pub cia : ℕ
  pub lk : Bool
  pub is_32bit : Bool
  pub aa : Bool
  pub li : ℕ
  pub bd : ℕ
  pub bo : ℕ
  pub bi : ℕ
  pub xo : ℕ

-- `fast1` is CTR; `fast2` is LR or TAR.
pub record BranchInput : Type 0 where
  pub op : BranchOp
  pub fast1 : ℕ
  pub fast2 : ℕ
  pub cr : ℕ

pub record BranchOutput : Type 0 where
  pub op : BranchOp
  pub ctr : Data
  pub lr : Data
  pub nia : Data
