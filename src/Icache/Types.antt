-- ===== src/Icache/Types.antt =====
-- The registers and the links of experiment/icache.py, with the links of experiment/mem_types.py and
-- experiment/wb_types.py. An array of registers is the function that gives its entries; of the bus the
-- signals that the unit neither drives nor reads are left out.
use libresoc_soc.Common.{ℕ, ◌%◌, Bool, List, slice}
use libresoc_soc.Mmu.Types.{MmuToICache}

pub data IcacheState : Type 0 where
  idle clr_tag wait_ack : IcacheState

-- RegInternal: the hit, and the reload.
pub record RegInternal : Type 0 where
  pub hit_way : ℕ
  pub hit_nia : ℕ
  pub hit_smark : Bool
  pub hit_valid : Bool
  pub state : IcacheState
  pub cyc : Bool
  pub stb : Bool
  pub req_adr : ℕ
  pub store_way : ℕ
  pub store_index : ℕ
  pub store_row : ℕ
  pub store_tag : ℕ
  pub store_valid : Bool
  pub end_row_ix : ℕ
  pub rows_valid : ℕ → Bool
  pub fetch_failed : Bool

-- All the registers: RegInternal, tags and valid bits by line and way, the translations, the rows of
-- each way with its read register, and the replacement tree of each line.
pub record IcacheRegs : Type 0 where
  pub r : RegInternal
  pub cache_tags : ℕ → ℕ → ℕ
  pub cache_valid_bits : ℕ → ℕ → Bool
  pub itlb_valid_bits : ℕ → Bool
  pub itlb_tags : ℕ → ℕ
  pub itlb_ptes : ℕ → ℕ
  pub ram : ℕ → ℕ → ℕ
  pub rd_data : ℕ → ℕ
  pub plru : ℕ → List Bool

pub record Fetch1ToICache : Type 0 where
  pub req : Bool
  pub virt_mode : Bool
  pub priv_mode : Bool
  pub stop_mark : Bool
  pub sequential : Bool
  pub nia : ℕ

pub record WbSlaveOut : Type 0 where
  pub content : ℕ
  pub ack : Bool
  pub stall : Bool

pub record IcacheInput : Type 0 where
  pub i_in : Fetch1ToICache
  pub m_in : MmuToICache
  pub stall_in : Bool
  pub flush_in : Bool
  pub inval_in : Bool
  pub wb_in : WbSlaveOut

pub record ICacheToDecode1 : Type 0 where
  pub valid : Bool
  pub stop_mark : Bool
  pub fetch_failed : Bool
  pub nia : ℕ
  pub insn : ℕ

pub record WbMasterOut : Type 0 where
  pub adr : ℕ
  pub cyc : Bool
  pub stb : Bool

pub record IcacheOutput : Type 0 where
  pub i_out : ICacheToDecode1
  pub stall_out : Bool
  pub wb_out : WbMasterOut

-- Parts of an address, for lines of 64 bytes, rows of 8 bytes and 16 lines; a row number has the number
-- of its line above its place in the line.
abbrev pub get_index : ℕ → ℕ
get_index addr = slice addr 6 10

abbrev pub get_row : ℕ → ℕ
get_row addr = slice addr 3 10

abbrev pub get_row_of_line : ℕ → ℕ
get_row_of_line row = row % 8

abbrev pub get_tag : ℕ → ℕ
get_tag addr = slice addr 10 56
