-- ===== src/LoadStore/Types.antt =====
-- The requests, the links and the registers of fu/ldst/loadstore.py. Of the links of
-- experiment/mem_types.py the signals that the unit neither drives nor reads are left out: `hold`,
-- `reserve`, `atomic` and `atomic_last` to the D-cache, and `store_done` from it.
use libresoc_soc.Common.{ℕ, Bool, false, Option}
use libresoc_soc.Mmu.Types.{MmuToLoadStore1, LoadStore1ToMmu}
use libresoc_soc.Trap.Types.{Register}

pub data LdstState : Type 0 where
  idle ack_wait mmu_lookup tlbie_wait : LdstState

pub record LdstRequest : Type 0 where
  pub load : Bool
  pub dcbz : Bool
  pub addr : ℕ
  pub byte_sel : ℕ
  pub nc : Bool
  pub virt_mode : Bool
  pub priv_mode : Bool
  pub align_intr : Bool

-- `ldst_r.eq(0)`.
abbrev pub cleared_request : LdstRequest
cleared_request = record {
  load = false;
  dcbz = false;
  addr = 0;
  byte_sel = 0;
  nc = false;
  virt_mode = false;
  priv_mode = false;
  align_intr = false;
}

-- The arguments of a call of `set_rd_addr` or `set_wr_addr`.
pub record PortCall : Type 0 where
  pub addr : ℕ
  pub mask : ℕ
  pub misalign : Bool
  pub msr_pr : Bool

pub record LoadStore1ToDCache : Type 0 where
  pub valid : Bool
  pub load : Bool
  pub dcbz : Bool
  pub nc : Bool
  pub virt_mode : Bool
  pub priv_mode : Bool
  pub addr : ℕ
  pub content : ℕ
  pub byte_sel : ℕ

pub record DCacheToLoadStore1 : Type 0 where
  pub valid : Bool
  pub content : ℕ
  pub error : Bool
  pub cache_paradox : Bool

-- The registers. DSISR is written bit by bit.
pub record LdstRegs : Type 0 where
  pub state : LdstState
  pub ldst_r : LdstRequest
  pub dsisr : Register
  pub dar : ℕ
  pub d_data : ℕ

-- What comes in with a clock: the request on the port with the pulse that nmutil's `rising_edge` makes
-- of `d_valid`, the data of `set_wr_data` in a clock that calls it, and the answers.
pub record LdstInput : Type 0 where
  pub d_validblip : Bool
  pub req : LdstRequest
  pub wr_data : Option ℕ
  pub d_in : DCacheToLoadStore1
  pub m_in : MmuToLoadStore1

-- The exception that the port reports.
pub record PortException : Type 0 where
  pub happened : Bool
  pub alignment : Bool
  pub instr_fault : Bool
  pub invalid : Bool
  pub badtree : Bool
  pub perm_error : Bool
  pub rc_error : Bool
  pub segment_fault : Bool

pub record LdstOutput : Type 0 where
  pub busy : Bool
  pub done : Bool
  pub load_data : ℕ
  pub exc : PortException
  pub d_out : LoadStore1ToDCache
  pub m_out : LoadStore1ToMmu
