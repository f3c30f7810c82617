-- ===== src/Mmu/Walk.antt =====
-- experiment/mmu.py comes back to IDLE: a measure on the state and the address bits still to be
-- translated falls in every cycle but those that wait for the D-cache.
use libresoc_soc.Common.{ℕ, ◌+◌, ◌*◌, ◌≤◌, ◌<◌, ◌≡◌, ◌≢◌, refl, arith}
use libresoc_soc.Common.{Bool, true, false, ◌||◌, if◌then◌else◌}
use libresoc_soc.Mmu.Types.{
  State, RegStage, DCacheToMmu, Nmutil, idle, do_tlbie, tlb_wait, proc_tbl_read, proc_tbl_wait,
  segment_check, radix_lookup, radix_read_wait, radix_load_tlb, radix_finish,
}
use libresoc_soc.Mmu.Handlers.{
  proc_tbl_answer, radix_answer, radix_directory, radix_leaf, check_segment,
}
use libresoc_soc.Mmu.Cycle.{MmuInput, rin, dispatch, on_err, completed, cleared}

-- How many cycles in which the D-cache answers can pass before the unit is idle.
unfoldable pub measure : State → ℕ → ℕ
measure idle shift = 0
measure radix_finish shift = 1
measure tlb_wait shift = 2
measure do_tlbie shift = 3
measure radix_load_tlb shift = 3
measure radix_read_wait shift = 4 + 2 * shift
measure radix_lookup shift = 5 + 2 * shift
measure segment_check shift = 132
measure proc_tbl_wait shift = 133
measure proc_tbl_read shift = 134

abbrev pub left : RegStage → ℕ
left r = measure r.state r.shift

-- The cycle ends the state: three states wait for the D-cache, and a TLB operation ends by `done`
-- alone.
unfoldable pub answers : State → MmuInput → Bool
answers tlb_wait x = x.d_in.done
answers proc_tbl_wait x = x.d_in.done || x.d_in.err
answers radix_read_wait x = x.d_in.done || x.d_in.err
answers _ x = true

completed-left : (r v : RegStage) → left (completed r v) ≡ left v
unfolding completed
completed-left r v = ground arith

on_err-left : (n : ℕ) (d : DCacheToMmu) (v : RegStage) → 1 < n → left v < n → left (on_err d v) < n
unfolding on_err measure
on_err-left n d v h k = ground arith

proc_tbl_answer-left : (dw : ℕ) (r v : RegStage) → left (proc_tbl_answer dw r v) ≤ 132
unfolding proc_tbl_answer measure
proc_tbl_answer-left dw r v = ground arith

check_segment-left : (m : ℕ) (r v : RegStage) → left (check_segment m r v) < 132
unfolding check_segment measure
check_segment-left m r v = ground arith

radix_directory-left :
    (dw : ℕ) (r v : RegStage) → r.shift < 64 → left (radix_directory dw r v) < 4 + 2 * r.shift
unfolding radix_directory measure
radix_directory-left dw r v h = ground arith

radix_leaf-left : (dw : ℕ) (r v : RegStage) → left (radix_leaf dw r v) < 4 + 2 * r.shift
unfolding radix_leaf measure
radix_leaf-left dw r v = ground arith

radix_answer-left :
    (dw : ℕ) (r v : RegStage) → r.shift < 64 → left (radix_answer dw r v) < 4 + 2 * r.shift
unfolding radix_answer measure
radix_answer-left dw r v h = ground (
  arith,
  radix_directory-left dw r (record v { pde = dw }) h,
  radix_leaf-left dw r (record v { pde = dw }),
)

-- A wait for the D-cache that an answer ends.
wait-left :
    (n : ℕ) (d : DCacheToMmu) (v w : RegStage)
    → 1 < n
    → left w < n
    → (d.done || d.err) ≡ true
    → left (on_err d (if d.done then w else v)) < n
unfolding on_err measure
wait-left n d v w h k a = ground arith

module _ (nm : Nmutil) where
  dispatch-left :
      (s : State) (x : MmuInput) (r v : RegStage)
      → s ≢ idle
      → r.shift < 64
      → v.shift ≡ r.shift
      → v.state ≡ s
      → answers s x ≡ true
      → left (dispatch nm s x r v) < measure s r.shift
  unfolding dispatch measure answers
  dispatch-left idle x r v busy h e q a = absurd (busy refl)
  dispatch-left segment_check x r v busy h e q a = check_segment-left _ r v
  dispatch-left proc_tbl_wait x r v busy h e q a =
      wait-left 133 x.d_in v _ (omega arith)
        (omega (arith, proc_tbl_answer-left (nm.byte_reverse 8 x.d_in.content) r v)) a
  dispatch-left radix_read_wait x r v busy h e q a =
      wait-left _ x.d_in v _ (omega arith)
        (radix_answer-left (nm.byte_reverse 8 x.d_in.content) r v h) a
  dispatch-left _ x r v busy h e q a = ground arith

  -- Every cycle with an answer brings the unit closer to IDLE, from any state.
  pub rin-left :
      (r : RegStage) (x : MmuInput)
      → r.state ≢ idle
      → r.shift < 64
      → answers r.state x ≡ true
      → left (rin nm r x) < left r
  unfolding rin
  rin-left r x busy h a = rw (completed-left r (dispatch nm r.state x r (cleared r))) (
      dispatch-left r.state x r (cleared r) busy h (unfold cleared in refl) (unfold cleared in refl)
        a)

  stalled :
      (s : State) (x : MmuInput) (r v : RegStage) → answers s x ≡ false → dispatch nm s x r v ≡ v
  unfolding dispatch answers
  stalled tlb_wait x r v a = ground arith
  stalled _ x r v a = ground arith

  pub rin-left_stalled :
      (r : RegStage) (x : MmuInput) → answers r.state x ≡ false → left (rin nm r x) ≡ left r
  unfolding rin cleared
  rin-left_stalled r x a =
      rw (completed-left r (dispatch nm r.state x r (cleared r)), stalled r.state x r (cleared r) a)
