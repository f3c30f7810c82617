-- ===== src/Mmu/Handlers.antt =====
-- The state handlers of experiment/mmu.py. Each takes the registers `r` and the value `v` that is
-- being prepared for the next cycle, and returns `v` with the handler's assignments made in order.
use Prim.Native.Nat.{bit_and}
use libresoc_soc.Common.{ℕ, ◌+◌, ◌-◌, Bool, true, false, not, xor, ◌&&◌, ◌||◌, ltb, ◌==◌}
use libresoc_soc.Common.{bit, slice, cat, inv, sub, if◌then◌else◌}
use libresoc_soc.Mmu.Types.{RegStage, LoadStore1ToMmu, do_tlbie, proc_tbl_read}
use libresoc_soc.Mmu.Types.{segment_check, radix_lookup, radix_load_tlb, radix_finish}

-- The fields of a process table entry: the size of the radix tree, the bits that index its top
-- level, and its base.
unfoldable pub rts_of : ℕ → ℕ
rts_of pgtbl = cat 3 (slice pgtbl 5 8) (slice pgtbl 61 63)

unfoldable pub mbits_of : ℕ → ℕ
mbits_of pgtbl = slice pgtbl 0 5

unfoldable pub base_of : ℕ → ℕ
base_of pgtbl = cat 8 0 (slice pgtbl 8 56)

unfoldable pub with_entry : ℕ → RegStage → RegStage
unfolding rts_of mbits_of base_of
with_entry pgtbl v = record v {
  shift = rts_of pgtbl;
  mask_size = mbits_of pgtbl;
  pgbase = base_of pgtbl;
}

-- The branch of `l_in.valid` in `radix_tree_idle`.
unfoldable pub idle_request : LoadStore1ToMmu → Bool → ℕ → RegStage → RegStage → RegStage
unfolding mbits_of
idle_request l pt_valid pgtbl r v =
    let v₁ = record v {
      addr = l.addr;
      iside = l.iside;
      store = not (l.load || l.iside);
      priv = l.priv;
    } in
    if l.tlbie
    then record v₁ {
      inval_all =
          l.slbia || bit l.addr 11 || bit l.addr 10 || bit l.addr 7 || bit l.addr 6 || bit l.addr 5;
      pt0_valid = if bit l.sprn 3 then false else v₁.pt0_valid;
      pt3_valid = if bit l.sprn 3 then false else v₁.pt3_valid;
      state = do_tlbie;
    }
    else if not pt_valid
    then record v₁ { valid = true; shift = slice r.prtbl 0 5; state = proc_tbl_read }
    else if mbits_of pgtbl == 0
    then record v₁ { valid = true; state = radix_finish; invalid = true }
    else record v₁ { valid = true; state = segment_check }

-- The branch of `l_in.mtspr`.
unfoldable pub idle_mtspr : LoadStore1ToMmu → RegStage → RegStage
idle_mtspr l v =
    let v₁ =
      if not (bit l.sprn 9)
      then record v { pid = slice l.rs 0 32 }
      else record v { prtbl = l.rs; pt3_valid = false } in
    record v₁ { pt0_valid = false; inval_all = true; state = do_tlbie }

unfoldable pub radix_tree_idle : LoadStore1ToMmu → RegStage → RegStage → RegStage
radix_tree_idle l r v =
    let pgtbl = if not (bit l.addr 63) then r.pgtbl0 else r.pgtbl3 in
    let pt_valid = if not (bit l.addr 63) then r.pt0_valid else r.pt3_valid in
    let v₁ = with_entry pgtbl v in
    let v₂ = if l.valid then idle_request l pt_valid pgtbl r v₁ else v₁ in
    if l.mtspr then idle_mtspr l v₂ else v₂

unfoldable pub proc_tbl_answer : ℕ → RegStage → RegStage → RegStage
unfolding with_entry mbits_of
proc_tbl_answer dw r v =
    let v₁ =
      if bit r.addr 63
      then record v { pgtbl3 = dw; pt3_valid = true }
      else record v { pgtbl0 = dw; pt0_valid = true } in
    let v₂ = with_entry dw v₁ in
    if not (mbits_of dw == 0)
    then record v₂ { state = segment_check }
    else record v₂ { state = radix_finish; invalid = true }

-- The tests of a leaf entry in `radix_read_wait`.
unfoldable pub perm_ok : RegStage → ℕ → Bool
perm_ok r dw =
    (r.priv || not (bit dw 3))
    && (if not r.iside then bit dw 1 || (bit dw 2 && not r.store) else bit dw 0 && not (bit dw 5))

unfoldable pub rc_ok : RegStage → ℕ → Bool
rc_ok r dw = bit dw 8 && (bit dw 7 || not r.store)

-- The branch of a valid entry that is no leaf.
unfoldable pub radix_directory : ℕ → RegStage → RegStage → RegStage
unfolding mbits_of base_of
radix_directory dw r v =
    if ltb (mbits_of dw) 5 || ltb 16 (mbits_of dw) || ltb r.shift (mbits_of dw)
    then record v { state = radix_finish; badtree = true }
    else record v {
      shift = sub 6 r.shift (mbits_of dw);
      mask_size = mbits_of dw;
      pgbase = base_of dw;
      state = radix_lookup;
    }

unfoldable pub radix_leaf : ℕ → RegStage → RegStage → RegStage
unfolding perm_ok rc_ok
radix_leaf dw r v =
    if perm_ok r dw && rc_ok r dw
    then record v { state = radix_load_tlb }
    else record v { state = radix_finish; perm_err = not (perm_ok r dw); rc_error = perm_ok r dw }

unfoldable pub radix_answer : ℕ → RegStage → RegStage → RegStage
radix_answer dw r v =
    let v₁ = record v { pde = dw } in
    if bit dw 63
    then (if bit dw 62 then radix_leaf dw r v₁ else radix_directory dw r v₁)
    else record v₁ { state = radix_finish; invalid = true }

unfoldable pub check_segment : ℕ → RegStage → RegStage → RegStage
check_segment finalmask r v =
    let mbits = r.mask_size in
    let v₁ = record v { shift = sub 6 (r.shift + (31 - 12)) mbits } in
    let nonzero = not (bit_and (slice r.addr 31 62) (inv 31 (slice finalmask 0 31)) == 0) in
    if xor (bit r.addr 63) (bit r.addr 62) || nonzero
    then record v₁ { state = radix_finish; segerror = true }
    else if ltb mbits 5 || ltb 16 mbits || ltb (r.shift + (31 - 12)) mbits
    then record v₁ { state = radix_finish; badtree = true }
    else record v₁ { state = radix_lookup }
