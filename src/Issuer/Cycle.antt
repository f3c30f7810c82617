-- ===== src/Issuer/Cycle.antt =====
-- simple/issuer.py: a clock of the issue and execute machines, and what they drive.
use libresoc_soc.Common.{
  ◌+◌, ◌/◌, ◌^◌, Bool, true, false, not, ◌&&◌, ◌||◌, ◌==◌, if◌then◌else◌, Option, none, some, bit,
  List, [], ◌∷◌,
}
use libresoc_soc.Issuer.Types.{
  IssueState, issue_start, insn_wait, pred_start, mask_wait, pred_skip, decode_sv, insn_execute,
  execute_wait, Svstate, CoreInput, IssueRegs, IssueInput, IssueOutput,
}
use libresoc_soc.Issuer.Execute.{exec_pc_o_valid, next_exec, changed_next}
use libresoc_soc.Issuer.Issue.{running, delta_of, past_vl, next_issue, new_svstate, pc_of}

abbrev pub or_else {ℓ} : {A : Type ℓ} → Option A → A → A
or_else (some a) b = a
or_else none b = b

abbrev pub is_some {ℓ} : {A : Type ℓ} → Option A → Bool
is_some (some a) = true
is_some none = false

abbrev pub in_insn_execute : IssueState → Bool
in_insn_execute insn_execute = true
in_insn_execute _ = false

abbrev pub in_execute_wait : IssueState → Bool
in_execute_wait execute_wait = true
in_execute_wait _ = false

abbrev pub in_issue_start : IssueState → Bool
in_issue_start issue_start = true
in_issue_start _ = false

abbrev pub in_pred_skip : IssueState → Bool
in_pred_skip pred_skip = true
in_pred_skip _ = false

abbrev pub no_svstate : Svstate
no_svstate = record { svstep = 0; subvl = 0; dststep = 0; srcstep = 0; vl = 0; maxvl = 0 }

-- The debugger may change PC and SVSTATE now.
unfoldable pub stopped : IssueRegs → IssueInput → Bool
unfolding running
stopped r x = not (running x) && (in_issue_start r.issue || in_execute_wait r.issue)

unfoldable pub pc_i_ready : IssueRegs → IssueInput → Bool
unfolding running
pc_i_ready r x = in_execute_wait r.issue && running x

-- The current vector state before what the issue machine writes: cleared by a reset of the core, and
-- taken from the register file when a fetch starts.
unfoldable pub base_svstate : IssueRegs → IssueInput → Svstate
unfolding running
base_svstate r x =
    if in_issue_start r.issue && running x && x.fetch_pc_o_ready
    then x.fetched_svstate
    else if x.core_rst
    then no_svstate
    else r.svstate

-- The core's copies, taken in DECODE_SV: of the decoded instruction, and of the current state with the
-- vector state that the machine keeps of it.
unfoldable pub core_next : Bool → IssueState → IssueInput → Svstate → CoreInput → CoreInput
core_next svp64_en decode_sv x v c = record {
  decoded =
      if svp64_en
      then x.dec
      else record c.decoded { e = x.dec.e; raw_insn = x.dec.raw_insn; bigendian = x.dec.bigendian };
  state = record { words = x.cur_words; vector = v };
}
core_next svp64_en _ x v c = c

module _ (svp64_en : Bool) where
  unfoldable pub skips : IssueRegs → IssueInput → Bool
  skips r x = in_pred_skip r.issue && x.is_svp64_mode && svp64_en

  unfoldable pub issue_cycle : IssueRegs → IssueInput → IssueRegs
  unfolding delta_of next_issue new_svstate stopped pc_i_ready base_svstate core_next skips
      next_exec changed_next
  issue_cycle r x =
      let skip = skips r x in
      let valid = in_insn_execute r.issue in
      record {
        issue = next_issue svp64_en r x r.issue;
        exec = next_exec r.exec x valid (pc_i_ready r x);
        svstate = or_else (new_svstate svp64_en r x r.issue) (base_svstate r x);
        srcmask =
            or_else x.pred_srcmask
              (if skip then r.srcmask / 2 ^ (delta_of x.pred_sz r.srcmask + 1) else r.srcmask);
        dstmask =
            or_else x.pred_dstmask
              (if skip then r.dstmask / 2 ^ (delta_of x.pred_dz r.dstmask + 1) else r.dstmask);
        pc_changed =
            changed_next r.exec valid x.nia_wen_pc
              (if stopped r x && is_some x.pc_i then true else r.pc_changed);
        sv_changed =
            changed_next r.exec valid x.nia_wen_sv
              (if stopped r x && is_some x.svstate_i then true else r.sv_changed);
        sv_pred_sm = if skip then bit r.srcmask 0 else r.sv_pred_sm;
        sv_pred_dm = if skip then bit r.dstmask 0 else r.sv_pred_dm;
        core = core_next svp64_en r.issue x r.svstate r.core;
      }

  unfoldable pub issue_run : IssueRegs → List IssueInput → IssueRegs
  issue_run r [] = r
  issue_run r (x ∷ xs) = issue_run (issue_cycle r x) xs

-- An instruction ends in this clock.
unfoldable insn_done_of : Bool → IssueRegs → IssueInput → IssueState → Bool
unfolding past_vl exec_pc_o_valid pc_i_ready
insn_done_of svp64_en r x insn_wait = x.fetch_insn_o_valid && x.is_svp64_mode && r.svstate.vl == 0
insn_done_of svp64_en r x pred_skip = x.is_svp64_mode && svp64_en && past_vl r x
insn_done_of svp64_en r x execute_wait = exec_pc_o_valid r.exec x && pc_i_ready r x
insn_done_of svp64_en r x _ = false

unfoldable pub issue_outputs : Bool → IssueRegs → IssueInput → IssueOutput
unfolding running stopped pc_i_ready pc_of new_svstate insn_done_of
issue_outputs svp64_en r x = record {
  fetch_pc_i_valid = in_issue_start r.issue && running x;
  fetch_insn_i_ready = at_insn_wait r.issue;
  pred_insn_i_valid = at_pred_start r.issue;
  pred_mask_i_ready = at_mask_wait r.issue;
  exec_insn_i_valid = in_insn_execute r.issue;
  exec_pc_i_ready = pc_i_ready r x;
  core_stopped = stopped r x;
  pc_write = pc_of svp64_en r x r.issue;
  sv_write = new_svstate svp64_en r x r.issue;
  insn_done = insn_done_of svp64_en r x r.issue;
}
  where
    at_insn_wait : IssueState → Bool
    at_insn_wait insn_wait = true
    at_insn_wait _ = false

    at_pred_start : IssueState → Bool
    at_pred_start pred_start = true
    at_pred_start _ = false

    at_mask_wait : IssueState → Bool
    at_mask_wait mask_wait = true
    at_mask_wait _ = false
