-- ===== src/Mmu/Tests.antt =====
-- The unit of experiment/mmu.py on one radix walk, with the masks of nmutil as functions.
use Prim.Native.Nat.{min, bit_and, bit_or}
use libresoc_soc.Common.{ℕ, zero, suc, ◌+◌, ◌-◌, ◌*◌, ◌/◌, ◌%◌, ◌^◌, ◌≤◌, ◌≡◌, refl, arith}
use libresoc_soc.Common.{true, false, not, ◌||◌, ◌&&◌, length, take, replicate, slice}
use libresoc_soc.Mmu.Types.{RegStage, LoadStore1ToMmu, Nmutil, idle, radix_lookup, radix_read_wait}
use libresoc_soc.Mmu.Handlers.{radix_answer, radix_leaf, radix_tree_idle, with_entry}
use libresoc_soc.Mmu.Cycle.{MmuInput, rin, is_finish, is_load_tlb}
use libresoc_soc.Mmu.Outputs.{d_out, i_out}
use libresoc_soc.Mmu.Walk.{answers}
use libresoc_soc.Mmu.Liveness.{run, progress, run-ends}
use libresoc_soc.Mmu.Permission.{Starts, tlbld-Permits, entry}
use libresoc_soc.Mmu.Report.{flagged, overridden, rin-reports, lookup-ignores-addr}

reverse_bytes : ℕ → ℕ → ℕ
reverse_bytes zero x = 0
reverse_bytes (suc n) x = x % 256 * 256 ^ n + reverse_bytes n (x / 256)

abbrev nm : Nmutil
nm = record {
  mask = λ size shift. 2 ^ min size shift - 1;
  masked = λ a b m. bit_or (a - bit_and a m) (bit_and b m);
  byte_reverse = reverse_bytes;
}

abbrev no_request : LoadStore1ToMmu
no_request = record {
  valid = false;
  tlbie = false;
  slbia = false;
  mtspr = false;
  iside = false;
  load = false;
  priv = false;
  sprn = 0;
  addr = 0;
  rs = 0;
}

-- The leaf of the walk in experiment/mmu.py's own simulation.
abbrev leaf_answer : MmuInput
leaf_answer = record {
  l_in = no_request;
  d_in = record { stall = false; done = true; err = false; content = 0x87010000000000c0 };
}

-- A load in the middle of its walk.
abbrev walking : RegStage
walking = record {
  valid = false;
  iside = false;
  store = false;
  priv = true;
  addr = 0x10000;
  inval_all = false;
  prtbl = 0x1000000;
  pid = 1;
  state = radix_read_wait;
  done = false;
  err = false;
  pgtbl0 = 0x40000000000300ad;
  pt0_valid = true;
  pgtbl3 = 0;
  pt3_valid = false;
  shift = 20;
  mask_size = 9;
  pgbase = 0x40000;
  pde = 0;
  invalid = false;
  badtree = false;
  segerror = false;
  perm_err = false;
  rc_error = false;
}

loads :
    ((d_out nm (rin nm walking leaf_answer)).tlbld || (i_out nm (rin nm walking leaf_answer)).tlbld)
    ≡ true
unfolding d_out i_out rin radix_answer radix_leaf reverse_bytes
loads = refl

tlbld-Permits_example :
    Starts (entry nm leaf_answer) leaf_answer walking (rin nm walking leaf_answer)
    × (slice (d_out nm (rin nm walking leaf_answer)).pte 0 12 ≡ slice (entry nm leaf_answer) 0 12)
tlbld-Permits_example = tlbld-Permits nm walking leaf_answer loads

progress_is : progress nm walking (replicate 134 leaf_answer) ≡ 134
unfolding progress answers rin radix_answer radix_leaf radix_tree_idle with_entry reverse_bytes
progress_is = refl

run-ends_example :
    (n : ℕ) × (n ≤ length (replicate 134 leaf_answer))
    × ((run nm walking (take n (replicate 134 leaf_answer))).state ≡ idle)
run-ends_example =
    run-ends nm walking (replicate 134 leaf_answer) (omega arith) (rw progress_is (omega arith))

rin-reports_example :
    (((rin nm walking leaf_answer).done || (rin nm walking leaf_answer).err) ≡ (
      is_finish (rin nm walking leaf_answer).state
      || (is_load_tlb (rin nm walking leaf_answer).state && false)))
    × (((rin nm walking leaf_answer).done && (rin nm walking leaf_answer).err) ≡ false)
    × ((rin nm walking leaf_answer).err
        ≡ (flagged (rin nm walking leaf_answer) && not (overridden walking.state leaf_answer.l_in)))
    × ((overridden walking.state leaf_answer.l_in && (rin nm walking leaf_answer).done) ≡ false)
rin-reports_example = rin-reports nm walking leaf_answer

lookup-ignores-addr_example :
    (d_out nm (record walking { state = radix_lookup; addr = 0x20000 })).addr
    ≡ (d_out nm (record walking { state = radix_lookup })).addr
lookup-ignores-addr_example =
    lookup-ignores-addr nm (record walking { state = radix_lookup }) 0x20000 refl
