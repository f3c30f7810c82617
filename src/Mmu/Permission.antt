-- ===== src/Mmu/Permission.antt =====
-- What experiment/mmu.py hands to the TLBs: only a leaf entry that permits the access asked for.
use libresoc_soc.Common.{
  ℕ, ◌≡◌, refl, arith, ap, ◌∙◌, Bool, ◌||◌, slice, true, false, not, bit, if◌then◌else◌,
}
use libresoc_soc.Mmu.Types.{
  State, RegStage, LoadStore1ToMmu, DCacheToMmu, Nmutil, idle, proc_tbl_wait, segment_check,
  radix_read_wait, radix_load_tlb,
}
use libresoc_soc.Mmu.Handlers.{
  proc_tbl_answer, radix_answer, check_segment, radix_tree_idle, idle_mtspr, idle_request,
  with_entry, radix_leaf, radix_directory,
}
use libresoc_soc.Mmu.Cycle.{MmuInput, rin, finalmask, dispatch, on_err, completed, cleared}
use libresoc_soc.Mmu.Outputs.{d_out, i_out, tlb_content, pte}

-- The Power ISA's rule for a leaf: present, a leaf, referenced; not privileged, unless the access
-- is; readable or writable for a load, writable and changed for a store, and executable and not
-- cache-inhibited for a fetch.
pub record Permits (priv store iside : Bool) (entry : ℕ) : Type 0 where
  pub present : bit entry 63 ≡ true
  pub leaf : bit entry 62 ≡ true
  pub referenced : bit entry 8 ≡ true
  pub privilege : bit entry 3 ≡ true → priv ≡ true
  pub fetch : iside ≡ true → (bit entry 0 ≡ true) × (bit entry 5 ≡ false)
  pub write : iside ≡ false → store ≡ true → bit entry 1 ≡ true
  pub read : iside ≡ false → bit entry 1 ≡ false → bit entry 2 ≡ true
  pub changed : store ≡ true → bit entry 7 ≡ true

abbrev pub IsPermitted : RegStage → Type 0
IsPermitted r = r.state ≡ radix_load_tlb → Permits r.priv r.store r.iside r.pde

radix_leaf-IsPermitted :
    (dw : ℕ) (r v : RegStage)
    → bit dw 63 ≡ true
    → bit dw 62 ≡ true
    → v.pde ≡ dw
    → v.priv ≡ r.priv
    → v.store ≡ r.store
    → v.iside ≡ r.iside
    → IsPermitted (radix_leaf dw r v)
unfolding radix_leaf
radix_leaf-IsPermitted dw r v p l e a b c h = ground arith

-- No other branch of a handler goes on to load a TLB.
abbrev Loads : RegStage → Type 0
Loads v = v.state ≡ radix_load_tlb

not_idle_request :
    (l : LoadStore1ToMmu) (p : Bool) (g : ℕ) (r v : RegStage) → ¬ Loads (idle_request l p g r v)
unfolding idle_request
not_idle_request l p g r v e = ground arith

not_radix_tree_idle :
    (l : LoadStore1ToMmu) (r v : RegStage) → v.state ≡ idle → ¬ Loads (radix_tree_idle l r v)
unfolding radix_tree_idle idle_mtspr with_entry
not_radix_tree_idle l r v s e =
    let g : ℕ = if not (bit l.addr 63) then r.pgtbl0 else r.pgtbl3 in
    let p : Bool = if not (bit l.addr 63) then r.pt0_valid else r.pt3_valid in
    ground (arith, not_idle_request l p g r (with_entry g v))

not_proc_tbl_answer : (dw : ℕ) (r v : RegStage) → ¬ Loads (proc_tbl_answer dw r v)
unfolding proc_tbl_answer
not_proc_tbl_answer dw r v e = ground arith

not_check_segment : (m : ℕ) (r v : RegStage) → ¬ Loads (check_segment m r v)
unfolding check_segment
not_check_segment m r v e = ground arith

not_radix_directory : (dw : ℕ) (r v : RegStage) → ¬ Loads (radix_directory dw r v)
unfolding radix_directory
not_radix_directory dw r v e = ground arith

-- The entry that was read is kept, with the request, whatever the leaf's tests say.
pub record Keeps (dw : ℕ) (r v : RegStage) : Type 0 where
  pub pde : v.pde ≡ dw
  pub priv : v.priv ≡ r.priv
  pub store : v.store ≡ r.store
  pub iside : v.iside ≡ r.iside

radix_leaf-Keeps : (dw : ℕ) (r v : RegStage) → Keeps dw r v → Keeps dw r (radix_leaf dw r v)
unfolding radix_leaf
radix_leaf-Keeps dw r v k = ground arith

completed-Loads : (r v : RegStage) → Loads (completed r v) → Loads v
unfolding completed
completed-Loads r v e = ground arith

-- A load of a TLB that starts in the next cycle: the D-cache has answered with the entry.
pub record Starts (dw : ℕ) (x : MmuInput) (r v : RegStage) : Type 0 where
  pub answered : x.d_in.done ≡ true
  pub no_error : x.d_in.err ≡ false
  pub keeps : Keeps dw r v
  pub permits : Permits r.priv r.store r.iside dw

radix_answer-Loads :
    (dw : ℕ) (r v : RegStage)
    → Keeps v.pde r v
    → Loads (radix_answer dw r v)
    → Keeps dw r (radix_answer dw r v) × Permits r.priv r.store r.iside dw
unfolding radix_answer
radix_answer-Loads dw r v k e =
    let v₁ : RegStage = record v { pde = dw } in
    let k₁ : Keeps dw r v₁ = record {
      pde = refl;
      priv = k.priv;
      store = k.store;
      iside = k.iside;
    } in
    ground (
      arith,
      not_radix_directory dw r v₁,
      radix_leaf-Keeps dw r v₁ k₁,
      radix_leaf-IsPermitted dw r v₁,
    )

on_err-Loads :
    (d : DCacheToMmu) (b : Bool) (v w : RegStage)
    → ¬ Loads v
    → Loads (on_err d (if b then w else v))
    → (b ≡ true) × (d.err ≡ false) × Loads w × (on_err d (if b then w else v) ≡ w)
unfolding on_err
on_err-Loads d b v w n e = ground arith

cleared-Keeps : (r : RegStage) → Keeps (cleared r).pde r (cleared r)
unfolding cleared
cleared-Keeps r = record { pde = refl; priv = refl; store = refl; iside = refl }

module _ (nm : Nmutil) where
  abbrev pub entry : MmuInput → ℕ
  entry x = nm.byte_reverse 8 x.d_in.content

  dispatch-Loads :
      (s : State) (x : MmuInput) (r v : RegStage)
      → v.state ≡ s
      → Keeps v.pde r v
      → Loads (dispatch nm s x r v)
      → Starts (entry x) x r (dispatch nm s x r v)
  unfolding dispatch
  dispatch-Loads idle x r v q k e = absurd (not_radix_tree_idle x.l_in r v q e)
  dispatch-Loads segment_check x r v q k e = absurd (not_check_segment (finalmask nm r) r v e)
  dispatch-Loads proc_tbl_wait x r v q k e =
      let w = proc_tbl_answer (entry x) r v in
      absurd (not_proc_tbl_answer (entry x) r v (on_err-Loads x.d_in x.d_in.done v w (λ h. cc) e).2)
  dispatch-Loads radix_read_wait x r v q k e =
      let w = radix_answer (entry x) r v in
      let o = on_err-Loads x.d_in x.d_in.done v w (λ h. cc) e in
      let a = radix_answer-Loads (entry x) r v k o.2 in
      record { answered = o.0; no_error = o.1; keeps = rw o.3 a.0; permits = a.1 }
  dispatch-Loads _ x r v q k e = ground arith

completed-Keeps : (dw : ℕ) (r v : RegStage) → Keeps dw r v → Keeps dw r (completed r v)
unfolding completed
completed-Keeps dw r v k = ground arith

d_out-Loads :
    (nm : Nmutil) (r : RegStage) → ((d_out nm r).tlbld || (i_out nm r).tlbld) ≡ true → Loads r
unfolding d_out i_out
d_out-Loads nm r e = ground arith

pte_low : (nm : Nmutil) (r : RegStage) → Loads r → slice (d_out nm r).pte 0 12 ≡ slice r.pde 0 12
unfolding d_out tlb_content pte
pte_low nm r e = ground arith

-- The unit loads a TLB in the cycle after the D-cache has answered, with no error, with an entry
-- that permits the access asked for, and in no other cycle. The access is the latched one, and the
-- low 12 bits of what the TLB is given are those of the entry.
pub tlbld-Permits :
    (nm : Nmutil) (r : RegStage) (x : MmuInput)
    → ((d_out nm (rin nm r x)).tlbld || (i_out nm (rin nm r x)).tlbld) ≡ true
    → Starts (entry nm x) x r (rin nm r x)
      × (slice (d_out nm (rin nm r x)).pte 0 12 ≡ slice (entry nm x) 0 12)
unfolding rin
tlbld-Permits nm r x e =
    let v = dispatch nm r.state x r (cleared r) in
    let loads : Loads (completed r v) = d_out-Loads nm (completed r v) e in
    let s =
      dispatch-Loads nm r.state x r (cleared r) (unfold cleared in refl) (cleared-Keeps r)
        (completed-Loads r v loads) in
    let k = completed-Keeps (entry nm x) r v s.keeps in
    (
      record { answered = s.answered; no_error = s.no_error; keeps = k; permits = s.permits },
      pte_low nm (completed r v) loads ∙ ap (λ (t : ℕ). slice t 0 12) k.pde,
    )
