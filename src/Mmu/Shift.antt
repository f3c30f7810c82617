-- ===== src/Mmu/Shift.antt =====
-- The 6-bit field `shift` of experiment/mmu.py stays in range.
use libresoc_soc.Common.{ℕ, ◌<◌, arith, Bool, not, bit, if◌then◌else◌}
use libresoc_soc.Mmu.Types.{
  State, RegStage, LoadStore1ToMmu, DCacheToMmu, Nmutil, idle, proc_tbl_wait, segment_check,
  radix_read_wait,
}
use libresoc_soc.Mmu.Handlers.{proc_tbl_answer, radix_answer, check_segment, radix_tree_idle}
use libresoc_soc.Mmu.Handlers.{idle_mtspr, idle_request, with_entry, radix_leaf, radix_directory}
use libresoc_soc.Mmu.Cycle.{MmuInput, rin, dispatch, on_err, completed, cleared}

abbrev InRange : RegStage → Type 0
InRange v = v.shift < 64

with_entry-InRange : (p : ℕ) (v : RegStage) → InRange (with_entry p v)
unfolding with_entry
with_entry-InRange p v = omega arith

idle_request-InRange :
    (l : LoadStore1ToMmu) (p : _) (g : ℕ) (r v : RegStage)
    → InRange v
    → InRange (idle_request l p g r v)
unfolding idle_request
idle_request-InRange l p g r v h = ground arith

idle_mtspr-InRange : (l : LoadStore1ToMmu) (v : RegStage) → InRange v → InRange (idle_mtspr l v)
unfolding idle_mtspr
idle_mtspr-InRange l v h = ground arith

proc_tbl_answer-InRange : (dw : ℕ) (r v : RegStage) → InRange (proc_tbl_answer dw r v)
unfolding proc_tbl_answer
proc_tbl_answer-InRange dw r v = ground arith

check_segment-InRange : (m : ℕ) (r v : RegStage) → InRange (check_segment m r v)
unfolding check_segment
check_segment-InRange m r v = ground arith

radix_directory-InRange : (dw : ℕ) (r v : RegStage) → InRange v → InRange (radix_directory dw r v)
unfolding radix_directory
radix_directory-InRange dw r v h = ground arith

radix_leaf-InRange : (dw : ℕ) (r v : RegStage) → InRange v → InRange (radix_leaf dw r v)
unfolding radix_leaf
radix_leaf-InRange dw r v h = ground arith

radix_answer-InRange : (dw : ℕ) (r v : RegStage) → InRange v → InRange (radix_answer dw r v)
unfolding radix_answer
radix_answer-InRange dw r v h = ground (
  arith,
  radix_directory-InRange dw r (record v { pde = dw }) h,
  radix_leaf-InRange dw r (record v { pde = dw }) h,
)

on_err-InRange :
    (d : DCacheToMmu) (b : Bool) (v w : RegStage)
    → InRange v
    → InRange w
    → InRange (on_err d (if b then w else v))
unfolding on_err
on_err-InRange d b v w h k = ground arith

radix_tree_idle-InRange : (l : LoadStore1ToMmu) (r v : RegStage) → InRange (radix_tree_idle l r v)
unfolding radix_tree_idle
radix_tree_idle-InRange l r v =
    let g : ℕ = if not (bit l.addr 63) then r.pgtbl0 else r.pgtbl3 in
    let p : Bool = if not (bit l.addr 63) then r.pt0_valid else r.pt3_valid in
    let v₁ = with_entry g v in
    let v₂ = if l.valid then idle_request l p g r v₁ else v₁ in
    ground (arith, with_entry-InRange g v, idle_request-InRange l p g r v₁, idle_mtspr-InRange l v₂)

completed-InRange : (r v : RegStage) → InRange v → InRange (completed r v)
unfolding completed
completed-InRange r v h = ground arith

module _ (nm : Nmutil) where
  dispatch-InRange :
      (s : State) (x : MmuInput) (r v : RegStage) → InRange v → InRange (dispatch nm s x r v)
  unfolding dispatch
  dispatch-InRange idle x r v h = radix_tree_idle-InRange x.l_in r v
  dispatch-InRange segment_check x r v h = check_segment-InRange _ r v
  dispatch-InRange proc_tbl_wait x r v h =
      on_err-InRange x.d_in x.d_in.done v _ h (proc_tbl_answer-InRange _ r v)
  dispatch-InRange radix_read_wait x r v h =
      on_err-InRange x.d_in x.d_in.done v _ h (radix_answer-InRange _ r v h)
  dispatch-InRange _ x r v h = ground arith

  pub rin-InRange : (r : RegStage) (x : MmuInput) → r.shift < 64 → (rin nm r x).shift < 64
  unfolding rin
  rin-InRange r x h =
      completed-InRange r (dispatch nm r.state x r (cleared r))
        (dispatch-InRange r.state x r (cleared r) (unfold cleared in h))
