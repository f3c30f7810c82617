-- ===== src/Issuer/Types.antt =====
-- simple/issuer.py: the registers and signals of the issue and execute machines of TestIssuerInternal, with the
-- vector state of sv/svstate.py. What the decoder puts into a decoded instruction is one number here.
use libresoc_soc.Common.{ℕ, Bool, Option}

pub data IssueState : Type 0 where
  issue_start insn_wait pred_start mask_wait pred_skip decode_sv insn_execute execute_wait :
      IssueState

pub data ExecState : Type 0 where
  insn_start insn_active : ExecState

pub data DecTbState : Type 0 where
  dec_read dec_write tb_read tb_write : DecTbState

pub record Svstate : Type 0 where
  pub svstep : ℕ
  pub subvl : ℕ
  pub dststep : ℕ
  pub srcstep : ℕ
  pub vl : ℕ
  pub maxvl : ℕ

-- What the core is given of an instruction.
pub record Decoded : Type 0 where
  pub e : ℕ
  pub raw_insn : ℕ
  pub bigendian : Bool
  pub sv_rm : ℕ
  pub sv_a_nz : Bool
  pub svp64_mode : Bool
  pub svp64_ldst : Bool

-- The current state of the processor: PC, MSR, the external interrupt and the decrementer, with SVSTATE.
pub record StateWords : Type 0 where
  pub pc : ℕ
  pub msr : ℕ
  pub eint : Bool
  pub dec_spr : ℕ

pub record CoreState : Type 0 where
  pub words : StateWords
  pub vector : Svstate

-- The core's copies of the decoded instruction and of the current state.
pub record CoreInput : Type 0 where
  pub decoded : Decoded
  pub state : CoreState

-- The registers of the issue and execute machines, and what they share.
pub record IssueRegs : Type 0 where
  pub issue : IssueState
  pub exec : ExecState
  pub svstate : Svstate
  pub srcmask : ℕ
  pub dstmask : ℕ
  pub pc_changed : Bool
  pub sv_changed : Bool
  pub sv_pred_sm : Bool
  pub sv_pred_dm : Bool
  pub core : CoreInput

-- What comes from the fetch and the predicate machines, the decoder, the core and the debug unit. The
-- predicate machine loads the masks in some clocks.
pub record IssueInput : Type 0 where
  pub core_stop : Bool
  pub core_rst : Bool
  pub fetch_pc_o_ready : Bool
  pub fetch_insn_o_valid : Bool
  pub fetched_svstate : Svstate
  pub nia : ℕ
  pub is_svp64_mode : Bool
  pub pred_insn_o_ready : Bool
  pub pred_mask_o_valid : Bool
  pub pred_srcmask : Option ℕ
  pub pred_dstmask : Option ℕ
  pub pred_sz : Bool
  pub pred_dz : Bool
  pub loop_continue : Bool
  pub dec : Decoded
  pub cur_words : StateWords
  pub pc_i : Option ℕ
  pub svstate_i : Option Svstate
  pub core_busy : Bool
  pub insn_is_nop : Bool
  pub nia_wen_pc : Bool
  pub nia_wen_sv : Bool

-- The handshakes, and the writes of PC and SVSTATE to the register file.
pub record IssueOutput : Type 0 where
  pub fetch_pc_i_valid : Bool
  pub fetch_insn_i_ready : Bool
  pub pred_insn_i_valid : Bool
  pub pred_mask_i_ready : Bool
  pub exec_insn_i_valid : Bool
  pub exec_pc_i_ready : Bool
  pub core_stopped : Bool
  pub pc_write : Option ℕ
  pub sv_write : Option Svstate
  pub insn_done : Bool
