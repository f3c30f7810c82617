-- ===== src/Icache/Reset.antt =====
-- experiment/icache.py: the registers after the reset.
use libresoc_soc.Common.{ℕ, refl, arith, false, [], ◌∷◌}
use libresoc_soc.Icache.Types.{idle, IcacheRegs}
use libresoc_soc.Icache.Bus.{System}
use libresoc_soc.Icache.Coherence.{IsCoherent, at_idle}

-- The memories keep what they hold.
unfoldable pub icache_reset : (ℕ → ℕ → ℕ) → IcacheRegs
icache_reset ram = record {
  r = record {
    hit_way = 0;
    hit_nia = 0;
    hit_smark = false;
    hit_valid = false;
    state = idle;
    cyc = false;
    stb = false;
    req_adr = 0;
    store_way = 0;
    store_index = 0;
    store_row = 0;
    store_tag = 0;
    store_valid = false;
    end_row_ix = 0;
    rows_valid = λ j. false;
    fetch_failed = false;
  };
  cache_tags = λ i w. 0;
  cache_valid_bits = λ i w. false;
  itlb_valid_bits = λ i. false;
  itlb_tags = λ i. 0;
  itlb_ptes = λ i. 0;
  ram = ram;
  rd_data = λ w. 0;
  plru = λ i. false ∷ false ∷ [];
}

unfoldable pub system_reset : (ℕ → ℕ → ℕ) → System
unfolding icache_reset
system_reset ram = record { cache = icache_reset ram; pending = [] }

-- An empty cache agrees with every memory.
pub system_reset-IsCoherent : (mem : ℕ → ℕ) (ram : ℕ → ℕ → ℕ) → IsCoherent mem (system_reset ram)
unfolding system_reset icache_reset
system_reset-IsCoherent mem ram = record {
  lines = record { filled = λ i w j h v. ground (arith, v) };
  phase = at_idle refl refl refl;
}
