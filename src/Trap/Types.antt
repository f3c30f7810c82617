-- ===== src/Trap/Types.antt =====
-- The operation, the operands and the results of the trap unit, from fu/trap/trap_input_record.py
-- and fu/trap/pipe_data.py. A register whose bits the unit sets one by one is the function that
-- gives its bits, from the lowest.
use libresoc_soc.Common.{ℕ, Bool, false}
use libresoc_soc.Alu.Types.{Data}

abbrev pub Register : Type 0
Register = ℕ → Bool

-- A register's new content, and whether it is to be written.
pub record RegisterData : Type 0 where
  pub content : Register
  pub ok : Bool

abbrev pub no_register : RegisterData
no_register = record { content = λ n. false; ok = false }

-- The operations that the stage tells apart, of the decoder's enumeration; `op_other` is any other.
pub data TrapInsn : Type 0 where
  op_trap op_mtmsrd op_mtmsr op_mfmsr op_rfid op_sc op_other : TrapInsn

-- The bits of a load-store exception that the stage reads.
pub record LdstException : Type 0 where
  pub invalid : Bool
  pub badtree : Bool
  pub perm_error : Bool
  pub rc_error : Bool

-- The operation, with the fields that the decoder's library cuts from the instruction: TO of five
-- bits, L, and bit 9, which tells `hrfid` from `rfid`.
pub record TrapOp : Type 0 where
  pub insn_type : TrapInsn
  pub msr : Register
  pub cia : ℕ
  pub svstate : ℕ
  pub is_32bit : Bool
  pub traptype : ℕ
  pub trapaddr : ℕ
  pub ldst_exc : LdstException
  pub to : ℕ
  pub l : Bool
  pub hrfid : Bool

pub record TrapInput : Type 0 where
  pub op : TrapOp
  pub a : ℕ
  pub b : ℕ
  pub srr0 : ℕ
  pub srr1 : Register
  pub svsrr0 : ℕ

pub record TrapOutput : Type 0 where
  pub op : TrapOp
  pub o : RegisterData
  pub srr0 : Data
  pub srr1 : RegisterData
  pub svsrr0 : Data
  pub nia : Data
  pub msr : RegisterData
  pub svstate : Data

-- The openpower package's numbers of the bits of MSR.
pub record MsrBits : Type 0 where
  pub sf : ℕ
  pub hv : ℕ
  pub und : ℕ
  pub tm : ℕ
  pub vec : ℕ
  pub vsx : ℕ
  pub ee : ℕ
  pub pr : ℕ
  pub fp : ℕ
  pub me : ℕ
  pub fe0 : ℕ
  pub tes : ℕ
  pub tee : ℕ
  pub fe1 : ℕ
  pub ir : ℕ
  pub dr : ℕ
  pub pmm : ℕ
  pub ri : ℕ
  pub le : ℕ

-- The openpower package's numbers of the bits that tell in SRR1 why a program interrupt happened.
pub record PiBits : Type 0 where
  pub trap : ℕ
  pub priv : ℕ
  pub fp : ℕ
  pub adr : ℕ
  pub invalid : ℕ
  pub permerr : ℕ
  pub illeg : ℕ

-- The openpower package's masks of the kinds of trap.
pub record TtMasks : Type 0 where
  pub priv : ℕ
  pub fp : ℕ
  pub addr : ℕ
  pub memexc : ℕ
  pub illeg : ℕ

-- What the openpower package gives: these numbers, and the bit of a field that is numbered from the
-- top.
pub record Consts : Type 0 where
  pub msr : MsrBits
  pub pi : PiBits
  pub tt : TtMasks
  pub field : ℕ → ℕ
