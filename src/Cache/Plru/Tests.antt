-- ===== src/Cache/Plru/Tests.antt =====
-- Runs of experiment/plru.py at concrete inputs: eight ways, and four ways refilled five times.
use libresoc_soc.Common.{
  ◌-◌, ◌^◌, ◌<◌, ◌≡◌, ◌≢◌, ◌⊎◌, refl, arith, true, false, List, [], ◌∷◌, Bool,
}
use libresoc_soc.Cache.Plru.{lru_o, lru_from, plru_cycle, access_from, node_next, tree_at, tree_set}
use libresoc_soc.Cache.Plru.Victim.{lru_o-ne-access}
use libresoc_soc.Cache.Plru.Refill.{refills, refills-two_ways}

abbrev fresh : List Bool
fresh = false ∷ false ∷ false ∷ []

lru_o-ne-access_example :
    (lru_o 3 (plru_cycle 3 fresh true 5) < 2 ^ 3) × (lru_o 3 (plru_cycle 3 fresh true 5) ≢ 5)
lru_o-ne-access_example = lru_o-ne-access 2 fresh 5 refl (omega arith)

away_from_five : lru_o 3 (plru_cycle 3 fresh true 5) ≡ 0
unfolding lru_o lru_from plru_cycle access_from node_next tree_at tree_set
away_from_five = refl

refills-two_ways_example :
    (lru_o 2 (refills 5 (false ∷ false ∷ [])) ≡ lru_o 2 (false ∷ false ∷ []))
    ⊎ (lru_o 2 (refills 5 (false ∷ false ∷ [])) ≡ 3 - lru_o 2 (false ∷ false ∷ []))
refills-two_ways_example = refills-two_ways 5 false false
