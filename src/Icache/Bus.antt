-- ===== src/Icache/Bus.antt =====
-- The bus behind the cache of experiment/icache.py: a memory that answers the requests in their order,
-- each after any time.
use libresoc_soc.Common.{
  ℕ, zero, suc, ◌+◌, ◌*◌, ◌%◌, ◌^◌, ◌≡◌, ap, ◌∙◌, arith, Bool, true, false, not, ◌&&◌,
  if◌then◌else◌, List, [], ◌∷◌, ◌++◌,
}
use libresoc_soc.Icache.Types.{IcacheRegs, IcacheInput, WbSlaveOut}
use libresoc_soc.Icache.Lookup.{icache_outputs}
use libresoc_soc.Icache.Cycle.{icache_cycle}

-- The cache with the requests that are accepted and not answered.
pub record System : Type 0 where
  pub cache : IcacheRegs
  pub pending : List ℕ

-- What the memory may say: nothing, or the content of the first request's address.
pub data Answers (mem : ℕ → ℕ) (w : WbSlaveOut) : List ℕ → Type 0 where
  quiet : (p : List ℕ) → w.ack ≡ false → Answers mem w p
  answer : (a : ℕ) (p : List ℕ) → w.ack ≡ true → w.content ≡ mem a → Answers mem w (a ∷ p)

abbrev pub rest : Bool → List ℕ → List ℕ
rest true (a ∷ p) = p
rest _ p = p

-- The requests after a clock.
unfoldable pub pending_next : System → IcacheInput → List ℕ
unfolding icache_outputs
pending_next s x =
    let w = (icache_outputs s.cache x).wb_out in
    rest x.wb_in.ack s.pending ++ (if not x.wb_in.stall && w.stb then w.adr ∷ [] else [])

unfoldable pub system_cycle : System → IcacheInput → System
unfolding pending_next
system_cycle s x = record { cache = icache_cycle s.cache x; pending = pending_next s x }

unfoldable pub system_run : System → List IcacheInput → System
system_run s [] = s
system_run s (x ∷ xs) = system_run (system_cycle s x) xs

-- The address on the bus of a row of a line.
abbrev pub row_address : ℕ → ℕ → ℕ
row_address line j = (line * 8 + j) % 2 ^ 32

-- So many rows of a line, from a place on and around.
abbrev pub rows_from : ℕ → ℕ → ℕ → List ℕ
rows_from line start zero = []
rows_from line start (suc n) = row_address line (start % 8) ∷ rows_from line (suc start) n

pub rows_from-snoc :
    (line start n : ℕ)
    → rows_from line start n ++ (row_address line ((start + n) % 8) ∷ [])
      ≡ rows_from line start (suc n)
rows_from-snoc line start zero =
    let e : start + 0 ≡ start = omega arith in ap (λ s. row_address line (s % 8) ∷ []) e
rows_from-snoc line start (suc n) =
    let e : start + suc n ≡ suc start + n = omega arith in
    ap
      (λ s.
        row_address line (start % 8)
        ∷ (rows_from line (suc start) n ++ (row_address line (s % 8) ∷ [])))
      e
    ∙ ap (◌∷◌ (row_address line (start % 8))) (rows_from-snoc line (suc start) n)
