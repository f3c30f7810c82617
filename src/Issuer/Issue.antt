-- ===== src/Issuer/Issue.antt =====
-- simple/issuer.py: issue_fsm, joined to execute_fsm as TestIssuerInternal.elaborate does.
use libresoc_soc.Common.{
  ℕ, zero, suc, ◌+◌, ◌/◌, ◌^◌, Bool, not, ◌&&◌, ◌||◌, ◌==◌, leb, if◌then◌else◌, Option, none, some,
  bit, trunc,
}
use libresoc_soc.Issuer.Types.{
  IssueState, issue_start, insn_wait, pred_start, mask_wait, pred_skip, decode_sv, insn_execute,
  execute_wait, Svstate, IssueRegs, IssueInput,
}
use libresoc_soc.Issuer.Execute.{exec_insn_o_ready, exec_pc_o_valid}

-- PriorityEncoder of nmigen: the place of the lowest bit that is set.
unfoldable pub priority_encoder : ℕ → ℕ → ℕ
priority_encoder zero i = 0
priority_encoder (suc n) i =
    let rest = priority_encoder n (i / 2) in if bit i 0 then 0 else suc rest

unfoldable pub running : IssueInput → Bool
running x = not x.core_stop && not x.core_rst

-- The zeros of a mask that are skipped; one more bit is set above the mask.
unfoldable pub delta_of : Bool → ℕ → ℕ
unfolding priority_encoder
delta_of zeroing mask = if zeroing then 0 else priority_encoder 65 (mask + 2 ^ 64)

unfoldable pub skip_srcstep : IssueRegs → IssueInput → ℕ
unfolding delta_of
skip_srcstep r x = trunc 7 (r.svstate.srcstep + delta_of x.pred_sz r.srcmask)

unfoldable pub skip_dststep : IssueRegs → IssueInput → ℕ
unfolding delta_of
skip_dststep r x = trunc 7 (r.svstate.dststep + delta_of x.pred_dz r.dstmask)

unfoldable pub past_vl : IssueRegs → IssueInput → Bool
unfolding skip_srcstep skip_dststep
past_vl r x = leb r.svstate.vl (skip_srcstep r x) || leb r.svstate.vl (skip_dststep r x)

unfoldable pub next_step : ℕ → ℕ
next_step step = trunc 7 (step + 1)

unfoldable pub is_last : IssueRegs → Bool
unfolding next_step
is_last r = next_step r.svstate.srcstep == r.svstate.vl

abbrev pub stepped : Svstate → ℕ → ℕ → Svstate
stepped s src dst = record s { srcstep = src; dststep = dst }

module _ (svp64_en : Bool) where
  -- The end of an instruction, or of an element of a vector.
  unfoldable pub ended : IssueRegs → IssueInput → IssueState
  unfolding is_last
  ended r x =
      if r.pc_changed || r.sv_changed
      then issue_start
      else if not x.loop_continue || is_last r
      then issue_start
      else pred_skip

  unfoldable pub next_issue : IssueRegs → IssueInput → IssueState → IssueState
  unfolding running past_vl ended exec_insn_o_ready exec_pc_o_valid
  next_issue r x issue_start = if running x && x.fetch_pc_o_ready then insn_wait else issue_start
  next_issue r x insn_wait =
      if x.fetch_insn_o_valid
      then (if x.is_svp64_mode && r.svstate.vl == 0
          then issue_start
          else if svp64_en
          then pred_start
          else decode_sv)
      else insn_wait
  next_issue r x pred_start = if x.pred_insn_o_ready then mask_wait else pred_start
  next_issue r x mask_wait = if x.pred_mask_o_valid then pred_skip else mask_wait
  next_issue r x pred_skip =
      if not x.is_svp64_mode
      then decode_sv
      else if svp64_en
      then (if past_vl r x then issue_start else decode_sv)
      else pred_skip
  next_issue r x decode_sv = insn_execute
  next_issue r x insn_execute = if exec_insn_o_ready r.exec then execute_wait else insn_execute
  next_issue r x execute_wait =
      if running x && exec_pc_o_valid r.exec x then ended r x else execute_wait

  -- The vector state that is written, if any.
  unfoldable pub new_svstate : IssueRegs → IssueInput → IssueState → Option Svstate
  unfolding running past_vl skip_srcstep skip_dststep next_step is_last exec_pc_o_valid
  new_svstate r x issue_start = if running x then none else x.svstate_i
  new_svstate r x pred_skip =
      if x.is_svp64_mode && svp64_en
      then some (
          if past_vl r x
          then stepped r.svstate 0 0
          else stepped r.svstate (skip_srcstep r x) (skip_dststep r x))
      else none
  new_svstate r x execute_wait =
      if running x
      then (if exec_pc_o_valid r.exec x && not (r.pc_changed || r.sv_changed)
          then (if not x.loop_continue || is_last r
              then (if not svp64_en || x.loop_continue then some (stepped r.svstate 0 0) else none)
              else some
                  (stepped r.svstate (next_step r.svstate.srcstep) (next_step r.svstate.dststep)))
          else none)
      else x.svstate_i
  new_svstate r x _ = none

  -- The program counter that is written, if any.
  unfoldable pub pc_of : IssueRegs → IssueInput → IssueState → Option ℕ
  unfolding running past_vl is_last exec_pc_o_valid
  pc_of r x issue_start = if running x then none else x.pc_i
  pc_of r x insn_wait =
      if x.fetch_insn_o_valid && x.is_svp64_mode && r.svstate.vl == 0 then some x.nia else none
  pc_of r x pred_skip = if x.is_svp64_mode && svp64_en && past_vl r x then some x.nia else none
  pc_of r x execute_wait =
      if running x
      then (if exec_pc_o_valid r.exec x
            && not (r.pc_changed || r.sv_changed)
            && (not x.loop_continue || is_last r)
          then some x.nia
          else none)
      else x.pc_i
  pc_of r x _ = none
