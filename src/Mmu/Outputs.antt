-- ===== src/Mmu/Outputs.antt =====
-- The outputs of experiment/mmu.py in a cycle: the requests to the D-cache and the I-cache, and
-- the answer to the load/store unit.
use libresoc_soc.Common.{ℕ, Bool, true, false, not, ◌&&◌, bit, slice, cat, trunc, ◌+◌, ◌-◌, ◌^◌}
use libresoc_soc.Common.{if◌then◌else◌}
use libresoc_soc.Mmu.Types.{
  RegStage, MmuToLoadStore1, MmuToDCache, MmuToICache, Nmutil, do_tlbie, proc_tbl_read,
  radix_lookup, radix_load_tlb,
}
use libresoc_soc.Mmu.Cycle.{MmuInput, is_load_tlb, finalmask}

abbrev pub tlbie_req : RegStage → Bool
tlbie_req r = elim r.state [ do_tlbie ↦ true | _ ↦ false ]

abbrev pub tlb_load : RegStage → Bool
tlb_load r = is_load_tlb r.state

abbrev pub itlb_load : RegStage → Bool
itlb_load r = tlb_load r && r.iside

abbrev pub prtbl_rd : RegStage → Bool
prtbl_rd r = elim r.state [ proc_tbl_read ↦ true | _ ↦ false ]

abbrev pub dcreq : RegStage → Bool
dcreq r = elim r.state [
  | do_tlbie ↦ true
  | proc_tbl_read ↦ true
  | radix_lookup ↦ true
  | radix_load_tlb ↦ not r.iside
  | _ ↦ false
]

-- `addrsh` is declared and read, and driven nowhere, so it keeps the value 0.
abbrev pub addrsh : ℕ
addrsh = 0

unfoldable pub l_out : RegStage → MmuInput → MmuToLoadStore1
l_out r x = record {
  done = r.done;
  err = r.err;
  invalid = r.invalid;
  badtree = r.badtree;
  segerr = r.segerror;
  perm_error = r.perm_err;
  rc_error = r.rc_error;
  sprval = if bit x.l_in.sprn 9 then r.prtbl else r.pid;
}

module _ (nm : Nmutil) where
  open nm use {mask, masked}

  -- The mask of the address bits that index a table.
  unfoldable pub index_mask : RegStage → ℕ
  index_mask r = cat 5 31 (mask 11 (trunc 5 (r.mask_size + 2 ^ 5 - 5)))

  unfoldable pub prtb_adr : RegStage → ℕ
  unfolding finalmask
  prtb_adr r =
      let effpid = if not (bit r.addr 63) then r.pid else 0 in
      let pr24 = trunc 24 (masked (slice r.prtbl 12 36) (slice effpid 8 32) (finalmask nm r)) in
      cat 4 0 (cat 8 (slice effpid 0 8) (cat 24 pr24 (slice r.prtbl 36 56)))

  unfoldable pub pgtb_adr : RegStage → ℕ
  unfolding index_mask
  pgtb_adr r =
      let pg16 = trunc 16 (masked (slice r.pgbase 3 19) addrsh (index_mask r)) in
      cat 3 0 (cat 16 pg16 (slice r.pgbase 19 56))

  unfoldable pub pte : RegStage → ℕ
  unfolding finalmask
  pte r =
      let pd44 = trunc 44 (masked (slice r.pde 12 56) (slice r.addr 12 56) (finalmask nm r)) in
      cat 12 (slice r.pde 0 12) pd44

  unfoldable pub out_addr : RegStage → ℕ
  unfolding prtb_adr pgtb_adr
  out_addr r =
      if tlbie_req r
      then r.addr
      else if tlb_load r
      then cat 12 0 (slice r.addr 12 64)
      else if prtbl_rd r
      then prtb_adr r
      else pgtb_adr r

  unfoldable pub tlb_content : RegStage → ℕ
  unfolding pte
  tlb_content r = if not (tlbie_req r) && tlb_load r then pte r else 0

  unfoldable pub d_out : RegStage → MmuToDCache
  unfolding out_addr tlb_content
  d_out r = record {
    valid = dcreq r;
    tlbie = tlbie_req r;
    doall = r.inval_all;
    tlbld = tlb_load r;
    addr = out_addr r;
    pte = tlb_content r;
  }

  unfoldable pub i_out : RegStage → MmuToICache
  unfolding out_addr tlb_content
  i_out r = record {
    tlbld = itlb_load r;
    tlbie = tlbie_req r;
    doall = r.inval_all;
    addr = out_addr r;
    pte = tlb_content r;
  }
