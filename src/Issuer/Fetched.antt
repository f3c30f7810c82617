-- ===== src/Issuer/Fetched.antt =====
-- simple/issuer.py: the instruction that fetch_fsm hands over, with a memory behind the instruction fetch
-- unit. The unit takes a request in a clock in which it is not busy, and its row is there in the next
-- clock in which the unit is not busy.
use libresoc_soc.Common.{ℕ, ◌/◌, ◌≡◌, Bool, true, false, not, ◌&&◌, if◌then◌else◌, List, [], ◌∷◌}
use libresoc_soc.Issuer.Fetch.{
  insn_ready, FetchRegs, Prefix, FetchInput, get_insn, fetch_cycle, fetch_outputs,
}

-- The machine, with the address that it has requested last.
pub record Fetching : Type 0 where
  pub regs : FetchRegs
  pub asked : ℕ

module _ (mem : ℕ → ℕ) (decode : ℕ → Prefix) where
  -- An input with the row of the memory that was requested.
  abbrev pub answered : Fetching → FetchInput → FetchInput
  answered s x = record x { f_instr_o = mem (s.asked / 8) }

  unfoldable pub asked_next : Fetching → FetchInput → ℕ
  unfolding fetch_outputs
  asked_next s x =
      if (fetch_outputs true decode s.regs.fetch s.regs (answered s x)).a_i_valid && not x.f_busy_o
      then (fetch_outputs true decode s.regs.fetch s.regs (answered s x)).a_pc_i
      else s.asked

  unfoldable pub fetching_cycle : Fetching → FetchInput → Fetching
  unfolding asked_next
  fetching_cycle s x = record {
    regs = fetch_cycle true decode s.regs (answered s x);
    asked = asked_next s x;
  }

  unfoldable pub fetching_run : Fetching → List FetchInput → Fetching
  fetching_run s [] = s
  fetching_run s (x ∷ xs) = fetching_run (fetching_cycle s x) xs

-- The clock that starts a fetch, and those that read a row of the memory, after any wait.
abbrev pub starts : FetchInput → FetchInput
starts x = record x { pc_i_valid = true; core_rst = false; f_busy_o = false }

abbrev pub reads : List FetchInput → FetchInput → List FetchInput → List FetchInput
reads [] l ys = record l { f_busy_o = false; core_rst = false } ∷ ys
reads (w ∷ ws) l ys = record w { f_busy_o = true; core_rst = false } ∷ reads ws l ys

-- An instruction is handed over, with the address of the next one, whether it has a prefix, and what the
-- decoder is told of that.
pub record IsInsn (r : FetchRegs) (opcode next : ℕ) (prefixed told : Bool) : Type 0 where
  pub ready : r.fetch ≡ insn_ready
  pub opcode_is : r.dec_opcode ≡ opcode
  pub nia_is : r.nia ≡ next
  pub mode_is : r.is_svp64_mode ≡ prefixed
  pub told_is : r.dec_svp64_mode ≡ told

-- The registers in a state.
abbrev fetch_in : FetchRegs → ℕ → Fetching
fetch_in r asked = record { regs = r; asked = asked }

module _ (mem : ℕ → ℕ) (decode : ℕ → Prefix) where
  -- The word of the memory of rows of 64 bits.
  abbrev pub word_at : ℕ → ℕ
  word_at pc = get_insn (mem (pc / 8)) pc

  abbrev pub prefixed_at : ℕ → Bool
  prefixed_at pc = (decode (word_at pc)).is_prefix
