-- ===== src/Issuer/Fetch.antt =====
-- simple/issuer.py: fetch_fsm, which reads an instruction of 32 bits, or of 64 with an SVP64 prefix. The
-- decoder of prefixes is a parameter, and the memory behind the instruction fetch unit an input.
use libresoc_soc.Common.{
  ℕ, ◌+◌, ◌*◌, ◌/◌, ◌%◌, ◌^◌, Bool, true, false, not, ◌&&◌, ◌||◌, if◌then◌else◌, slice, trunc,
}

pub data FetchState : Type 0 where
  fetch_idle insn_read insn_read2 insn_ready : FetchState

-- The registers of the machine, with those of the current state and of the decoder that it writes.
pub record FetchRegs : Type 0 where
  pub fetch : FetchState
  pub msr_read : Bool
  pub cur_pc : ℕ
  pub cur_msr : ℕ
  pub nia : ℕ
  pub is_svp64_mode : Bool
  pub dec_svp64_mode : Bool
  pub dec_sv_rm : ℕ
  pub dec_opcode : ℕ

-- What the decoder of prefixes says of an instruction.
pub record Prefix : Type 0 where
  pub is_prefix : Bool
  pub rm : ℕ

pub record FetchInput : Type 0 where
  pub core_rst : Bool
  pub pc : ℕ
  pub pc_i_valid : Bool
  pub insn_i_ready : Bool
  pub f_busy_o : Bool
  pub f_instr_o : ℕ
  pub msr : ℕ

pub record FetchOutput : Type 0 where
  pub pc_o_ready : Bool
  pub insn_o_valid : Bool
  pub a_pc_i : ℕ
  pub a_i_valid : Bool
  pub msr_ren : Bool

-- The half of a row of 64 bits that an address selects.
unfoldable pub get_insn : ℕ → ℕ → ℕ
get_insn f_instr_o pc = f_instr_o / 2 ^ (32 * slice pc 2 3) % 2 ^ 32

module _ (svp64_en : Bool) (decode : ℕ → Prefix) where
  unfoldable pub insn_of : FetchRegs → FetchInput → ℕ
  unfolding get_insn
  insn_of r x = get_insn x.f_instr_o r.cur_pc

  unfoldable pub is_prefixed : FetchRegs → FetchInput → Bool
  unfolding insn_of
  is_prefixed r x = svp64_en && (decode (insn_of r x)).is_prefix

  unfoldable pub next_fetch : FetchRegs → FetchInput → FetchState → FetchState
  unfolding is_prefixed
  next_fetch r x fetch_idle = if x.pc_i_valid then insn_read else fetch_idle
  next_fetch r x insn_read =
      if x.f_busy_o then insn_read else if is_prefixed r x then insn_read2 else insn_ready
  next_fetch r x insn_read2 = if x.f_busy_o then insn_read2 else insn_ready
  next_fetch r x insn_ready = if x.insn_i_ready then fetch_idle else insn_ready

  -- The registers that a state assigns.
  unfoldable pub fetch_assigns : FetchState → FetchInput → FetchRegs → FetchRegs
  unfolding is_prefixed insn_of get_insn
  fetch_assigns fetch_idle x r =
      let go = x.pc_i_valid in
      record r {
        cur_pc = if go then x.pc else if x.core_rst then 0 else r.cur_pc;
        cur_msr = if x.core_rst then 0 else r.cur_msr;
        msr_read = if go then false else r.msr_read;
      }
  fetch_assigns insn_read x r =
      let here = not x.f_busy_o in
      record r {
        cur_pc = if x.core_rst then 0 else r.cur_pc;
        cur_msr = if not r.msr_read then x.msr else if x.core_rst then 0 else r.cur_msr;
        msr_read = true;
        dec_sv_rm = if here && svp64_en then (decode (insn_of r x)).rm else r.dec_sv_rm;
        dec_svp64_mode = if here && svp64_en then r.is_svp64_mode else r.dec_svp64_mode;
        is_svp64_mode =
            if here && svp64_en then (decode (insn_of r x)).is_prefix else r.is_svp64_mode;
        nia = if here then trunc 64 (r.cur_pc + (if is_prefixed r x then 8 else 4)) else r.nia;
        dec_opcode = if here && not (is_prefixed r x) then insn_of r x else r.dec_opcode;
      }
  fetch_assigns insn_read2 x r = record r {
    cur_pc = if x.core_rst then 0 else r.cur_pc;
    cur_msr = if x.core_rst then 0 else r.cur_msr;
    dec_opcode = if not x.f_busy_o then get_insn x.f_instr_o (r.cur_pc + 4) else r.dec_opcode;
  }
  fetch_assigns insn_ready x r = record r {
    cur_pc = if x.core_rst then 0 else r.cur_pc;
    cur_msr = if x.core_rst then 0 else r.cur_msr;
  }

  -- A clock; a reset of the core clears the next address last.
  unfoldable pub fetch_cycle : FetchRegs → FetchInput → FetchRegs
  unfolding next_fetch fetch_assigns
  fetch_cycle r x =
      let v = fetch_assigns r.fetch x r in
      record v { fetch = next_fetch r x r.fetch; nia = if x.core_rst then 0 else v.nia }

  unfoldable pub fetch_outputs : FetchState → FetchRegs → FetchInput → FetchOutput
  unfolding is_prefixed
  fetch_outputs fetch_idle r x = record {
    pc_o_ready = true;
    insn_o_valid = false;
    a_pc_i = if x.pc_i_valid then x.pc else 0;
    a_i_valid = x.pc_i_valid;
    msr_ren = x.pc_i_valid;
  }
  fetch_outputs insn_read r x =
      let second = not x.f_busy_o && is_prefixed r x in
      record {
        pc_o_ready = false;
        insn_o_valid = false;
        a_pc_i = if second then trunc 64 (r.cur_pc + 4) else 0;
        a_i_valid = x.f_busy_o || second;
        msr_ren = false;
      }
  fetch_outputs insn_read2 r x = record {
    pc_o_ready = false;
    insn_o_valid = false;
    a_pc_i = 0;
    a_i_valid = x.f_busy_o;
    msr_ren = false;
  }
  fetch_outputs insn_ready r x = record {
    pc_o_ready = false;
    insn_o_valid = true;
    a_pc_i = 0;
    a_i_valid = false;
    msr_ren = false;
  }
