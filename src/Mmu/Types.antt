-- ===== src/Mmu/Types.antt =====
-- The registers of experiment/mmu.py and its links to the load/store unit and the caches, from
-- experiment/mem_types.py. `stall` of the D-cache's answer is read nowhere in the unit.
use libresoc_soc.Common.{ℕ, Bool}

pub data State : Type 0 where
  idle do_tlbie tlb_wait proc_tbl_read proc_tbl_wait segment_check : State
  radix_lookup radix_read_wait radix_load_tlb radix_finish : State

pub record RegStage : Type 0 where
  pub valid : Bool
  pub iside : Bool
  pub store : Bool
  pub priv : Bool
  pub addr : ℕ
  pub inval_all : Bool
  pub prtbl : ℕ
  pub pid : ℕ
  pub state : State
  pub done : Bool
  pub err : Bool
  pub pgtbl0 : ℕ
  pub pt0_valid : Bool
  pub pgtbl3 : ℕ
  pub pt3_valid : Bool
  pub shift : ℕ
  pub mask_size : ℕ
  pub pgbase : ℕ
  pub pde : ℕ
  pub invalid : Bool
  pub badtree : Bool
  pub segerror : Bool
  pub perm_err : Bool
  pub rc_error : Bool

pub record LoadStore1ToMmu : Type 0 where
  pub valid : Bool
  pub tlbie : Bool
  pub slbia : Bool
  pub mtspr : Bool
  pub iside : Bool
  pub load : Bool
  pub priv : Bool
  pub sprn : ℕ
  pub addr : ℕ
  pub rs : ℕ

pub record DCacheToMmu : Type 0 where
  pub stall : Bool
  pub done : Bool
  pub err : Bool
  pub content : ℕ

pub record MmuToLoadStore1 : Type 0 where
  pub done : Bool
  pub err : Bool
  pub invalid : Bool
  pub badtree : Bool
  pub segerr : Bool
  pub perm_error : Bool
  pub rc_error : Bool
  pub sprval : ℕ

pub record MmuToDCache : Type 0 where
  pub valid : Bool
  pub tlbie : Bool
  pub doall : Bool
  pub tlbld : Bool
  pub addr : ℕ
  pub pte : ℕ

pub record MmuToICache : Type 0 where
  pub tlbld : Bool
  pub tlbie : Bool
  pub doall : Bool
  pub addr : ℕ
  pub pte : ℕ

-- What the unit takes from nmutil: the output of a `Mask` of the first size for a shift count,
-- `masked`, and `byte_reverse` of a word of the given number of bytes.
pub record Nmutil : Type 0 where
  pub mask : ℕ → ℕ → ℕ
  pub masked : ℕ → ℕ → ℕ → ℕ
  pub byte_reverse : ℕ → ℕ → ℕ
