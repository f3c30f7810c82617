-- ===== src/Mmu/Cycle.antt =====
-- One clock of experiment/mmu.py: `rin`, the registers after it, and the outputs seen in it.
use libresoc_soc.Common.{ℕ, Bool, true, false, not, ◌&&◌, ◌||◌}
use libresoc_soc.Common.{if◌then◌else◌}
use libresoc_soc.Mmu.Types.{
  State, RegStage, LoadStore1ToMmu, DCacheToMmu, Nmutil, idle, do_tlbie, tlb_wait, proc_tbl_read,
  proc_tbl_wait, segment_check, radix_lookup, radix_read_wait, radix_load_tlb, radix_finish,
}
use libresoc_soc.Mmu.Handlers.{radix_tree_idle, proc_tbl_answer, radix_answer, check_segment}

pub record MmuInput : Type 0 where
  pub l_in : LoadStore1ToMmu
  pub d_in : DCacheToMmu

abbrev pub is_finish : State → Bool
is_finish radix_finish = true
is_finish _ = false

abbrev pub is_load_tlb : State → Bool
is_load_tlb radix_load_tlb = true
is_load_tlb _ = false

-- `v` before the switch over the state: the flags that last one cycle are off.
unfoldable pub cleared : RegStage → RegStage
cleared r = record r {
  valid = false;
  done = false;
  err = false;
  invalid = false;
  badtree = false;
  segerror = false;
  perm_err = false;
  rc_error = false;
  inval_all = false;
}

-- An error answer of the D-cache, which overrides what a `done` in the same cycle has set.
unfoldable pub on_err : DCacheToMmu → RegStage → RegStage
on_err d v = if d.err then record v { state = radix_finish; badtree = true } else v

-- The `done` and `err` of an operation that ends in this cycle.
unfoldable pub completed : RegStage → RegStage → RegStage
completed r v =
    let e = v.invalid || v.badtree || v.segerror || v.perm_err || v.rc_error in
    if is_finish v.state || (is_load_tlb v.state && r.iside)
    then record v { err = e; done = not e }
    else v

module _ (nm : Nmutil) where
  open nm use {mask, masked, byte_reverse}

  unfoldable pub finalmask : RegStage → ℕ
  finalmask r = mask 44 r.shift

  -- The switch over `r.state`.
  unfoldable pub dispatch : State → MmuInput → RegStage → RegStage → RegStage
  unfolding on_err finalmask
  dispatch idle x r v = radix_tree_idle x.l_in r v
  dispatch do_tlbie x r v = record v { state = tlb_wait }
  dispatch tlb_wait x r v = if x.d_in.done then record v { state = radix_finish } else v
  dispatch proc_tbl_read x r v = record v { state = proc_tbl_wait }
  dispatch proc_tbl_wait x r v =
      on_err x.d_in (if x.d_in.done then proc_tbl_answer (byte_reverse 8 x.d_in.content) r v else v)
  dispatch segment_check x r v = check_segment (finalmask r) r v
  dispatch radix_lookup x r v = record v { state = radix_read_wait }
  dispatch radix_read_wait x r v =
      on_err x.d_in (if x.d_in.done then radix_answer (byte_reverse 8 x.d_in.content) r v else v)
  dispatch radix_load_tlb x r v =
      if not r.iside then record v { state = tlb_wait } else record v { state = idle }
  dispatch radix_finish x r v = record v { state = idle }

  unfoldable pub rin : RegStage → MmuInput → RegStage
  unfolding dispatch cleared completed
  rin r x = completed r (dispatch r.state x r (cleared r))
