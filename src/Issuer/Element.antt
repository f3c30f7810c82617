-- ===== src/Issuer/Element.antt =====
-- simple/issuer.py: the next element of a vector, under both predicate masks.
use libresoc_soc.Common.{
  ℕ, ◌+◌, ◌-◌, ◌/◌, ◌%◌, ◌^◌, ◌≤◌, ◌<◌, ◌≡◌, sym, ap, ap₂, ◌∙◌, arith, true, false, not, ◌&&◌, ◌||◌,
  leb, if◌then◌else◌, Bool-cases, inl, inr, none, some, bit,
}
use libresoc_soc.Issuer.Types.{issue_start, pred_skip, decode_sv, IssueRegs, IssueInput}
use libresoc_soc.Issuer.Issue.{
  delta_of, skip_srcstep, skip_dststep, past_vl, stepped, next_issue, new_svstate, pc_of,
}
use libresoc_soc.Issuer.Cycle.{
  in_pred_skip, base_svstate, skips, issue_cycle, issue_outputs, or_else,
}
use libresoc_soc.Issuer.Skip.{delta-clear, delta-set, delta-le, bit-shifted, shifted-on, shifted-lt}

-- The next element of a mask from a step on, or none below 64.
pub record IsNext (mask step next : ℕ) : Type 0 where
  pub later : step ≤ next
  pub clear : (j : ℕ) → step ≤ j → j < next → bit mask j ≡ false
  pub set : next < 64 → bit mask next ≡ true

delta_of-IsNext :
    (mask step : ℕ) → mask < 2 ^ 64 → IsNext mask step (step + delta_of false (mask / 2 ^ step))
delta_of-IsNext mask step h = record {
  later = omega arith;
  clear = λ j l k.
      (let e : step + (j - step) ≡ j = omega (arith, l) in
        ap (bit mask) (sym e)
        ∙ sym (bit-shifted mask step (j - step))
        ∙ delta-clear (mask / 2 ^ step) (j - step) (shifted-lt mask step h) (omega (arith, l, k)));
  set = λ l.
      sym (bit-shifted mask step (delta_of false (mask / 2 ^ step)))
      ∙ delta-set (mask / 2 ^ step) (shifted-lt mask step h) (omega (arith, l));
}

-- A clock of PRED_SKIP, with the original masks: it goes on to the next element, or, without one below
-- VL, ends the loop and writes the address of the next instruction.
pub data IsSkipped (r : IssueRegs) (x : IssueInput) (m d : ℕ) : Type 0 where
  element :
      (t u : ℕ)
      → IsNext m r.svstate.srcstep t
      → IsNext d r.svstate.dststep u
      → t < r.svstate.vl
      → u < r.svstate.vl
      → (issue_cycle true r x).issue ≡ decode_sv
      → (issue_cycle true r x).svstate ≡ stepped r.svstate t u
      → (issue_cycle true r x).srcmask ≡ m / 2 ^ (t + 1)
      → (issue_cycle true r x).dstmask ≡ d / 2 ^ (u + 1)
      → IsSkipped r x m d
  finished :
      (t u : ℕ)
      → IsNext m r.svstate.srcstep t
      → IsNext d r.svstate.dststep u
      → (leb r.svstate.vl t || leb r.svstate.vl u) ≡ true
      → (issue_cycle true r x).issue ≡ issue_start
      → (issue_cycle true r x).svstate ≡ stepped r.svstate 0 0
      → (issue_outputs true r x).pc_write ≡ some x.nia
      → IsSkipped r x m d

module _ (r : IssueRegs) (x : IssueInput) (m d : ℕ) (st : r.issue ≡ pred_skip)
    (sv : x.is_svp64_mode ≡ true) (sz : x.pred_sz ≡ false) (dz : x.pred_dz ≡ false)
    (ps : x.pred_srcmask ≡ none) (pd : x.pred_dstmask ≡ none) (ml : m < 2 ^ 64) (dl : d < 2 ^ 64)
    (sm : r.srcmask ≡ m / 2 ^ r.svstate.srcstep) (dm : r.dstmask ≡ d / 2 ^ r.svstate.dststep)
    (sl : r.svstate.srcstep < 64) (tl : r.svstate.dststep < 64) where
  abbrev src_next : ℕ
  src_next = r.svstate.srcstep + delta_of false (m / 2 ^ r.svstate.srcstep)

  abbrev dst_next : ℕ
  dst_next = r.svstate.dststep + delta_of false (d / 2 ^ r.svstate.dststep)

  src_skip : skip_srcstep r x ≡ src_next
  unfolding skip_srcstep
  src_skip =
      ap₂ (λ z k. (r.svstate.srcstep + delta_of z k) % 2 ^ 7) sz sm
      ∙ (let l : delta_of false (m / 2 ^ r.svstate.srcstep) ≤ 64 =
            delta-le (m / 2 ^ r.svstate.srcstep) (shifted-lt m r.svstate.srcstep ml) in
          omega (arith, l, sl))

  dst_skip : skip_dststep r x ≡ dst_next
  unfolding skip_dststep
  dst_skip =
      ap₂ (λ z k. (r.svstate.dststep + delta_of z k) % 2 ^ 7) dz dm
      ∙ (let l : delta_of false (d / 2 ^ r.svstate.dststep) ≤ 64 =
            delta-le (d / 2 ^ r.svstate.dststep) (shifted-lt d r.svstate.dststep dl) in
          omega (arith, l, tl))

  past_next : past_vl r x ≡ (leb r.svstate.vl src_next || leb r.svstate.vl dst_next)
  unfolding past_vl
  past_next = ap₂ (λ t u. leb r.svstate.vl t || leb r.svstate.vl u) src_skip dst_skip

  skipping : skips true r x ≡ true
  unfolding skips
  skipping = ap₂ (λ i k. in_pred_skip i && k && true) st sv

  issue_after : (issue_cycle true r x).issue ≡ (if past_vl r x then issue_start else decode_sv)
  unfolding issue_cycle next_issue
  issue_after =
      ap (next_issue true r x) st
      ∙ ap (λ k. if not k then decode_sv else if past_vl r x then issue_start else decode_sv) sv

  svstate_after : (issue_cycle true r x).svstate ≡ (
      if past_vl r x
      then stepped r.svstate 0 0
      else stepped r.svstate (skip_srcstep r x) (skip_dststep r x))
  unfolding issue_cycle new_svstate
  svstate_after =
      ap (λ i. or_else (new_svstate true r x i) (base_svstate r x)) st
      ∙ ap
          (λ k.
            or_else
              (if k && true
                then some (
                    if past_vl r x
                    then stepped r.svstate 0 0
                    else stepped r.svstate (skip_srcstep r x) (skip_dststep r x))
                else none)
              (base_svstate r x))
          sv

  srcmask_after : (issue_cycle true r x).srcmask ≡ m / 2 ^ (src_next + 1)
  unfolding issue_cycle
  srcmask_after =
      ap₂
        (λ o k.
          or_else o (if k then r.srcmask / 2 ^ (delta_of x.pred_sz r.srcmask + 1) else r.srcmask))
        ps skipping
      ∙ ap₂ (λ z k. k / 2 ^ (delta_of z k + 1)) sz sm
      ∙ shifted-on m r.svstate.srcstep (delta_of false (m / 2 ^ r.svstate.srcstep))

  dstmask_after : (issue_cycle true r x).dstmask ≡ d / 2 ^ (dst_next + 1)
  unfolding issue_cycle
  dstmask_after =
      ap₂
        (λ o k.
          or_else o (if k then r.dstmask / 2 ^ (delta_of x.pred_dz r.dstmask + 1) else r.dstmask))
        pd skipping
      ∙ ap₂ (λ z k. k / 2 ^ (delta_of z k + 1)) dz dm
      ∙ shifted-on d r.svstate.dststep (delta_of false (d / 2 ^ r.svstate.dststep))

  pc_after : past_vl r x ≡ true → (issue_outputs true r x).pc_write ≡ some x.nia
  unfolding issue_outputs pc_of
  pc_after e =
      ap (pc_of true r x) st ∙ ap₂ (λ k p. if k && true && p then some x.nia else none) sv e

  -- A clock of PRED_SKIP without zeroing, of a vector instruction whose masks have lost the bits of the
  -- steps before, with steps below 64: it goes on to the next elements of both masks, with masks that
  -- have lost their bits too, if both are below VL; and otherwise it ends the loop, with both steps 0
  -- and the address of the next instruction written to PC.
  pub skip-IsSkipped : IsSkipped r x m d
  skip-IsSkipped = elim (Bool-cases (past_vl r x)) [
    | inl e ↦
        finished src_next dst_next (delta_of-IsNext m r.svstate.srcstep ml)
          (delta_of-IsNext d r.svstate.dststep dl) (sym past_next ∙ e)
          (issue_after ∙ ap (λ k. if k then issue_start else decode_sv) e)
          (svstate_after
            ∙ ap
                (λ k.
                  if k
                  then stepped r.svstate 0 0
                  else stepped r.svstate (skip_srcstep r x) (skip_dststep r x))
                e)
          (pc_after e)
    | inr e ↦
        (let b : (leb r.svstate.vl src_next || leb r.svstate.vl dst_next) ≡ false =
            sym past_next ∙ e in
          element src_next dst_next (delta_of-IsNext m r.svstate.srcstep ml)
            (delta_of-IsNext d r.svstate.dststep dl) (ground (arith, b)) (ground (arith, b))
            (issue_after ∙ ap (λ k. if k then issue_start else decode_sv) e)
            (svstate_after
              ∙ ap
                  (λ k.
                    if k
                    then stepped r.svstate 0 0
                    else stepped r.svstate (skip_srcstep r x) (skip_dststep r x))
                  e
              ∙ ap₂ (stepped r.svstate) src_skip dst_skip)
            srcmask_after dstmask_after)
  ]
