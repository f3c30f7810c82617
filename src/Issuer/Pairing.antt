-- ===== src/Issuer/Pairing.antt =====
-- simple/issuer.py: how the issue and the execute machine keep step.
use libresoc_soc.Common.{
  ◌≡◌, refl, sym, ap, ◌∙◌, arith, Bool, true, false, not, ◌&&◌, ◌||◌, ◌==◌, if◌then◌else◌, List, [],
  ◌∷◌,
}
use libresoc_soc.Issuer.Types.{
  IssueState, issue_start, insn_wait, pred_start, mask_wait, pred_skip, decode_sv, insn_execute,
  execute_wait, ExecState, insn_start, insn_active, IssueRegs, IssueInput,
}
use libresoc_soc.Issuer.Execute.{exec_insn_o_ready, exec_pc_o_valid, next_exec}
use libresoc_soc.Issuer.Issue.{running, past_vl, is_last, ended, next_issue}
use libresoc_soc.Issuer.Cycle.{in_execute_wait, in_insn_execute, pc_i_ready, issue_cycle, issue_run}

abbrev pub is_active : ExecState → Bool
is_active insn_active = true
is_active insn_start = false

-- The execute machine has an instruction exactly while the issue machine waits for its end.
pub record IsPaired (r : IssueRegs) : Type 0 where
  pub active : is_active r.exec ≡ in_execute_wait r.issue

ended-leaves :
    (svp64_en : Bool) (r : IssueRegs) (x : IssueInput)
    → in_execute_wait (ended svp64_en r x) ≡ false
unfolding ended
ended-leaves svp64_en r x = split (r.pc_changed || r.sv_changed) (not x.loop_continue || is_last r)
  where
    split :
        (k l : Bool)
        → in_execute_wait (if k then issue_start else if l then issue_start else pred_skip) ≡ false
    split true l = refl
    split false true = refl
    split false false = refl

not_wait :
    (k : Bool) (a b : IssueState)
    → in_execute_wait a ≡ false
    → in_execute_wait b ≡ false
    → in_execute_wait (if k then a else b) ≡ false
not_wait true a b h g = h
not_wait false a b h g = g

-- The states of both machines after a clock, from those before it.
next-paired :
    (svp64_en : Bool) (r : IssueRegs) (x : IssueInput) (i : IssueState) (e : ExecState)
    → is_active e ≡ in_execute_wait i
    → r.exec ≡ e
    → is_active (next_exec e x (in_insn_execute i) (in_execute_wait i && running x))
      ≡ in_execute_wait (next_issue svp64_en r x i)
unfolding next_exec next_issue exec_insn_o_ready exec_pc_o_valid
next-paired svp64_en r x issue_start insn_start h g =
    sym (not_wait (running x && x.fetch_pc_o_ready) insn_wait issue_start refl refl)
next-paired svp64_en r x issue_start insn_active h g = ground (arith, h)
next-paired svp64_en r x insn_wait insn_start h g = sym (
    not_wait x.fetch_insn_o_valid
      (if x.is_svp64_mode && r.svstate.vl == 0
        then issue_start
        else if svp64_en
        then pred_start
        else decode_sv)
      insn_wait
      (not_wait (x.is_svp64_mode && r.svstate.vl == 0) issue_start
        (if svp64_en then pred_start else decode_sv) refl
        (not_wait svp64_en pred_start decode_sv refl refl))
      refl)
next-paired svp64_en r x insn_wait insn_active h g = ground (arith, h)
next-paired svp64_en r x pred_start insn_start h g =
    sym (not_wait x.pred_insn_o_ready mask_wait pred_start refl refl)
next-paired svp64_en r x pred_start insn_active h g = ground (arith, h)
next-paired svp64_en r x mask_wait insn_start h g =
    sym (not_wait x.pred_mask_o_valid pred_skip mask_wait refl refl)
next-paired svp64_en r x mask_wait insn_active h g = ground (arith, h)
next-paired svp64_en r x pred_skip insn_start h g = sym (
    not_wait (not x.is_svp64_mode) decode_sv
      (if svp64_en then (if past_vl r x then issue_start else decode_sv) else pred_skip) refl
      (not_wait svp64_en (if past_vl r x then issue_start else decode_sv) pred_skip
        (not_wait (past_vl r x) issue_start decode_sv refl refl) refl))
next-paired svp64_en r x pred_skip insn_active h g = ground (arith, h)
next-paired svp64_en r x decode_sv insn_start h g = refl
next-paired svp64_en r x decode_sv insn_active h g = ground (arith, h)
next-paired svp64_en r x insn_execute insn_start h g =
    ap (λ e. in_execute_wait (if exec_insn_o_ready e then execute_wait else insn_execute)) (sym g)
next-paired svp64_en r x insn_execute insn_active h g = ground (arith, h)
next-paired svp64_en r x execute_wait insn_start h g = ground (arith, h)
next-paired svp64_en r x execute_wait insn_active h g =
    both x.core_busy (running x) (ended svp64_en r x) (ended-leaves svp64_en r x)
    ∙ ap
        (λ e.
          in_execute_wait
            (if running x && exec_pc_o_valid e x then ended svp64_en r x else execute_wait))
        (sym g)
  where
    both :
        (b k : Bool) (t : IssueState)
        → in_execute_wait t ≡ false
        → is_active (if not b && k then insn_start else insn_active)
          ≡ in_execute_wait (if k && not b then t else execute_wait)
    both true true t h = refl
    both true false t h = refl
    both false true t h = sym h
    both false false t h = refl

-- The execute machine has an instruction exactly while the issue machine waits for its end, after any
-- clocks if it does so at first.
pub issue_run-IsPaired :
    (svp64_en : Bool) (r : IssueRegs) (xs : List IssueInput)
    → IsPaired r
    → IsPaired (issue_run svp64_en r xs)
unfolding issue_run issue_cycle pc_i_ready
issue_run-IsPaired svp64_en r [] p = p
issue_run-IsPaired svp64_en r (x ∷ xs) p =
    issue_run-IsPaired svp64_en (issue_cycle svp64_en r x) xs
      (record { active = next-paired svp64_en r x r.issue r.exec p.active refl })
