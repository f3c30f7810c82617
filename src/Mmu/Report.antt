-- ===== src/Mmu/Report.antt =====
-- What experiment/mmu.py reports to the load/store unit.
use libresoc_soc.Common.{
  ℕ, ◌≡◌, refl, arith, inl, inr, Bool-cases, Bool, true, false, not, bit, if◌then◌else◌, ◌||◌, ◌&&◌,
}
use libresoc_soc.Mmu.Types.{
  State, RegStage, LoadStore1ToMmu, DCacheToMmu, Nmutil, idle, proc_tbl_wait, segment_check,
  radix_lookup, radix_read_wait,
}
use libresoc_soc.Mmu.Handlers.{
  proc_tbl_answer, radix_answer, check_segment, radix_tree_idle, idle_mtspr, idle_request,
  with_entry, radix_leaf, radix_directory,
}
use libresoc_soc.Mmu.Cycle.{MmuInput, rin, finalmask, dispatch, on_err, completed, cleared}
use libresoc_soc.Mmu.Cycle.{is_finish, is_load_tlb}
use libresoc_soc.Mmu.Outputs.{d_out, index_mask}

-- One of the five causes of an error.
abbrev pub flagged : RegStage → Bool
flagged v = v.invalid || v.badtree || v.segerror || v.perm_err || v.rc_error

-- A flag is set only on the way to RADIX_FINISH.
abbrev Ends : RegStage → Type 0
Ends v = flagged v ≡ true → is_finish v.state ≡ true

-- `mtspr` in the same cycle overrides the state that a request has chosen.
idle_request-Ends :
    (l : LoadStore1ToMmu) (p : Bool) (g : ℕ) (r v : RegStage)
    → flagged v ≡ false
    → Ends (idle_request l p g r v)
unfolding idle_request
idle_request-Ends l p g r v h = ground arith

proc_tbl_answer-Ends : (dw : ℕ) (r v : RegStage) → flagged v ≡ false → Ends (proc_tbl_answer dw r v)
unfolding proc_tbl_answer with_entry
proc_tbl_answer-Ends dw r v h = ground arith

check_segment-Ends : (m : ℕ) (r v : RegStage) → flagged v ≡ false → Ends (check_segment m r v)
unfolding check_segment
check_segment-Ends m r v h = ground arith

radix_directory-Ends : (dw : ℕ) (r v : RegStage) → flagged v ≡ false → Ends (radix_directory dw r v)
unfolding radix_directory
radix_directory-Ends dw r v h = ground arith

radix_leaf-Ends : (dw : ℕ) (r v : RegStage) → flagged v ≡ false → Ends (radix_leaf dw r v)
unfolding radix_leaf
radix_leaf-Ends dw r v h = ground arith

radix_answer-Ends : (dw : ℕ) (r v : RegStage) → flagged v ≡ false → Ends (radix_answer dw r v)
unfolding radix_answer
radix_answer-Ends dw r v h =
    let v₁ : RegStage = record v { pde = dw } in
    ground (arith, radix_directory-Ends dw r v₁ h, radix_leaf-Ends dw r v₁ h)

on_err-Ends :
    (d : DCacheToMmu) (b : Bool) (v w : RegStage)
    → flagged v ≡ false
    → Ends w
    → Ends (on_err d (if b then w else v))
unfolding on_err
on_err-Ends d b v w h k = ground arith

-- A request whose state is overridden by a move to a register in the same cycle.
abbrev pub overridden : State → LoadStore1ToMmu → Bool
overridden idle l = l.valid && l.mtspr
overridden _ l = false

radix_tree_idle-Ends :
    (l : LoadStore1ToMmu) (r v : RegStage)
    → (l.valid && l.mtspr) ≡ false
    → flagged v ≡ false
    → Ends (radix_tree_idle l r v)
unfolding radix_tree_idle idle_mtspr with_entry
radix_tree_idle-Ends l r v a h =
    let g : ℕ = if not (bit l.addr 63) then r.pgtbl0 else r.pgtbl3 in
    let p : Bool = if not (bit l.addr 63) then r.pt0_valid else r.pt3_valid in
    ground (arith, idle_request-Ends l p g r (with_entry g v))

module _ (nm : Nmutil) where
  dispatch-Ends :
      (s : State) (x : MmuInput) (r v : RegStage)
      → overridden s x.l_in ≡ false
      → flagged v ≡ false
      → Ends (dispatch nm s x r v)
  unfolding dispatch
  dispatch-Ends idle x r v a h = radix_tree_idle-Ends x.l_in r v a h
  dispatch-Ends segment_check x r v a h = check_segment-Ends (finalmask nm r) r v h
  dispatch-Ends proc_tbl_wait x r v a h =
      on_err-Ends x.d_in x.d_in.done v _ h
        (proc_tbl_answer-Ends (nm.byte_reverse 8 x.d_in.content) r v h)
  dispatch-Ends radix_read_wait x r v a h =
      on_err-Ends x.d_in x.d_in.done v _ h
        (radix_answer-Ends (nm.byte_reverse 8 x.d_in.content) r v h)
  dispatch-Ends _ x r v a h = ground arith

  -- Such a request is followed by the invalidation that the move asks for.
  dispatch-overridden :
      (s : State) (x : MmuInput) (r v : RegStage)
      → overridden s x.l_in ≡ true
      → (is_finish (dispatch nm s x r v).state ≡ false)
        × (is_load_tlb (dispatch nm s x r v).state ≡ false)
  unfolding dispatch radix_tree_idle idle_mtspr
  dispatch-overridden idle x r v a = ground arith
  dispatch-overridden _ x r v a = ground arith

abbrev Quiet : RegStage → Type 0
Quiet v = (v.done ≡ false) × (v.err ≡ false)

idle-Quiet : (l : LoadStore1ToMmu) (r v : RegStage) → Quiet v → Quiet (radix_tree_idle l r v)
unfolding radix_tree_idle idle_mtspr with_entry idle_request
idle-Quiet l r v q = ground arith

proc_tbl_answer-Quiet : (dw : ℕ) (r v : RegStage) → Quiet v → Quiet (proc_tbl_answer dw r v)
unfolding proc_tbl_answer with_entry
proc_tbl_answer-Quiet dw r v q = ground arith

check_segment-Quiet : (m : ℕ) (r v : RegStage) → Quiet v → Quiet (check_segment m r v)
unfolding check_segment
check_segment-Quiet m r v q = ground arith

radix_leaf-Quiet : (dw : ℕ) (r v : RegStage) → Quiet v → Quiet (radix_leaf dw r v)
unfolding radix_leaf
radix_leaf-Quiet dw r v q = ground arith

radix_directory-Quiet : (dw : ℕ) (r v : RegStage) → Quiet v → Quiet (radix_directory dw r v)
unfolding radix_directory
radix_directory-Quiet dw r v q = ground arith

radix_answer-Quiet : (dw : ℕ) (r v : RegStage) → Quiet v → Quiet (radix_answer dw r v)
unfolding radix_answer
radix_answer-Quiet dw r v q =
    let v₁ : RegStage = record v { pde = dw } in
    ground (arith, radix_leaf-Quiet dw r v₁ q, radix_directory-Quiet dw r v₁ q)

on_err-Quiet :
    (d : DCacheToMmu) (b : Bool) (v w : RegStage)
    → Quiet v
    → Quiet w
    → Quiet (on_err d (if b then w else v))
unfolding on_err
on_err-Quiet d b v w h k = ground arith

dispatch-Quiet :
    (nm : Nmutil) (s : State) (x : MmuInput) (r v : RegStage)
    → v.done ≡ false
    → v.err ≡ false
    → Quiet (dispatch nm s x r v)
unfolding dispatch
dispatch-Quiet nm idle x r v d e = idle-Quiet x.l_in r v (d, e)
dispatch-Quiet nm segment_check x r v d e = check_segment-Quiet (finalmask nm r) r v (d, e)
dispatch-Quiet nm proc_tbl_wait x r v d e =
    on_err-Quiet x.d_in x.d_in.done v _ (d, e)
      (proc_tbl_answer-Quiet (nm.byte_reverse 8 x.d_in.content) r v (d, e))
dispatch-Quiet nm radix_read_wait x r v d e =
    on_err-Quiet x.d_in x.d_in.done v _ (d, e)
      (radix_answer-Quiet (nm.byte_reverse 8 x.d_in.content) r v (d, e))
dispatch-Quiet nm _ x r v d e = ground arith

completed-report :
    (r v : RegStage)
    → v.done ≡ false
    → v.err ≡ false
    → Ends v
    → (((completed r v).done || (completed r v).err)
        ≡ (is_finish (completed r v).state || (is_load_tlb (completed r v).state && r.iside)))
      × (((completed r v).done && (completed r v).err) ≡ false)
      × ((completed r v).err ≡ flagged (completed r v))
unfolding completed
completed-report r v d e h = ground arith

completed-overridden :
    (r v : RegStage)
    → v.done ≡ false
    → v.err ≡ false
    → is_finish v.state ≡ false
    → is_load_tlb v.state ≡ false
    → completed r v ≡ v
unfolding completed
completed-overridden r v d e f l = ground (arith, f, l)

cleared-quiet :
    (r : RegStage)
    → ((cleared r).done ≡ false) × ((cleared r).err ≡ false) × (flagged (cleared r) ≡ false)
unfolding cleared
cleared-quiet r = (refl, refl, refl)

-- What is said of the reports, with the state and the link of the cycle.
abbrev Reports : RegStage → Bool → Bool → Type 0
Reports v iside o =
    ((v.done || v.err) ≡ (is_finish v.state || (is_load_tlb v.state && iside)))
    × ((v.done && v.err) ≡ false)
    × (v.err ≡ (flagged v && not o))
    × ((o && v.done) ≡ false)

alone-Reports :
    (nm : Nmutil) (r : RegStage) (x : MmuInput)
    → overridden r.state x.l_in ≡ false
    → Reports (rin nm r x) r.iside (overridden r.state x.l_in)
unfolding rin
alone-Reports nm r x a =
    let v = dispatch nm r.state x r (cleared r) in
    let q = dispatch-Quiet nm r.state x r (cleared r) (cleared-quiet r).0 (cleared-quiet r).1 in
    let c =
      completed-report r v q.0 q.1
        (dispatch-Ends nm r.state x r (cleared r) a (cleared-quiet r).2) in
    rw a (c.0, c.1, ground (arith, c.2), refl)

overridden-Reports :
    (nm : Nmutil) (r : RegStage) (x : MmuInput)
    → overridden r.state x.l_in ≡ true
    → Reports (rin nm r x) r.iside (overridden r.state x.l_in)
unfolding rin
overridden-Reports nm r x a =
    let v = dispatch nm r.state x r (cleared r) in
    let q = dispatch-Quiet nm r.state x r (cleared r) (cleared-quiet r).0 (cleared-quiet r).1 in
    let o = dispatch-overridden nm r.state x r (cleared r) a in
    rw (a, completed-overridden r v q.0 q.1 o.0 o.1) (ground (arith, q.0, q.1, o.0, o.1))

-- `done` or `err` is reported exactly in the cycle after which the unit is in RADIX_FINISH or, for a
-- fetch, in RADIX_LOAD_TLB; never both; and `err` is reported exactly with one of its causes, unless
-- the idle unit has got a request together with a move to a register: then neither the cause of the
-- request's failure is reported as an error, nor anything as done.
pub rin-reports :
    (nm : Nmutil) (r : RegStage) (x : MmuInput)
    → (((rin nm r x).done || (rin nm r x).err)
        ≡ (is_finish (rin nm r x).state || (is_load_tlb (rin nm r x).state && r.iside)))
      × (((rin nm r x).done && (rin nm r x).err) ≡ false)
      × ((rin nm r x).err ≡ (flagged (rin nm r x) && not (overridden r.state x.l_in)))
      × ((overridden r.state x.l_in && (rin nm r x).done) ≡ false)
unfolding rin
rin-reports nm r x = elim (Bool-cases (overridden r.state x.l_in)) [
  | inl a ↦ overridden-Reports nm r x a
  | inr a ↦ alone-Reports nm r x a
]

-- A table walk asks for the same address whatever the virtual address is: two register contents
-- that differ in the request alone send the D-cache the same read in RADIX_LOOKUP.
pub lookup-ignores-addr :
    (nm : Nmutil) (r : RegStage) (a : ℕ)
    → r.state ≡ radix_lookup
    → (d_out nm (record r { addr = a })).addr ≡ (d_out nm r).addr
unfolding d_out index_mask
lookup-ignores-addr nm r a e = ground arith
