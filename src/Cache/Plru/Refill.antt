-- ===== src/Cache/Plru/Refill.antt =====
-- Which of the four ways of a cache experiment/plru.py ever picks, if each pick is then accessed.
use libresoc_soc.Common.{ℕ, zero, suc, ◌+◌, ◌-◌, ◌*◌, ◌≡◌, ◌⊎◌, inl, inr, refl, ap, ◌∙◌, arith}
use libresoc_soc.Common.{Bool, true, not, List, [], ◌∷◌, b2n}
use libresoc_soc.Cache.Plru.{tree_at, tree_set, node_next, lru_from, lru_o, access_from, plru_cycle}

-- The tree after so many rounds in which the way picked is accessed.
unfoldable pub refills : ℕ → List Bool → List Bool
refills zero tree = tree
refills (suc n) tree = let t = refills n tree in plru_cycle 2 t true (lru_o 2 t)

picked : (t u : Bool) → lru_o 2 (t ∷ u ∷ []) ≡ b2n t * 2 + b2n u
unfolding lru_o lru_from tree_at node_next
picked t u = ground arith

turned : (t u : Bool) → plru_cycle 2 (t ∷ u ∷ []) true (lru_o 2 (t ∷ u ∷ [])) ≡ not t ∷ not u ∷ []
unfolding plru_cycle access_from tree_set node_next
turned t u = rw (picked t u) (ground arith)

-- After an even number of rounds the tree is as it was, after an odd one it is turned over.
flipped :
    (n : ℕ) (t u : Bool)
    → (refills n (t ∷ u ∷ []) ≡ t ∷ u ∷ []) ⊎ (refills n (t ∷ u ∷ []) ≡ not t ∷ not u ∷ [])
unfolding refills
flipped zero t u = inl refl
flipped (suc n) t u = elim (flipped n t u) [
  | inl e ↦ inr (rw e (turned t u))
  | inr e ↦ inl (rw e (turned (not t) (not u) ∙ ground arith))
]

-- With four ways, of which each that is picked is then accessed, only two ways are ever picked,
-- however long this goes on: the first one, and its complement.
pub refills-two_ways :
    (n : ℕ) (t u : Bool)
    → let first = lru_o 2 (t ∷ u ∷ []) in
      (lru_o 2 (refills n (t ∷ u ∷ [])) ≡ first) ⊎ (lru_o 2 (refills n (t ∷ u ∷ [])) ≡ 3 - first)
refills-two_ways n t u = elim (flipped n t u) [
  | inl e ↦ inl (ap (lru_o 2) e)
  | inr e ↦ inr (ap (lru_o 2) e ∙ picked (not t) (not u) ∙ rw (picked t u) (ground arith))
]
