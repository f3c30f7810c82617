-- ===== src/Cache/Plru.antt =====
-- experiment/plru.py: the tree of bits that picks the way to replace. The tree is an array of as
-- many bits as a way number has, and an index past its end means its last entry.
use libresoc_soc.Common.{ℕ, zero, suc, ◌+◌, ◌-◌, ◌*◌, ◌^◌, Bool, true, false, not, List, [], ◌∷◌}
use libresoc_soc.Common.{bit, b2n, trunc, leb, length, get_or, set, if◌then◌else◌}
pub mod Victim
pub mod Refill
mod Tests

abbrev clamp : List Bool → ℕ → ℕ
clamp tree i = if leb (length tree) i then length tree - 1 else i

-- `tree[node]`, read.
unfoldable pub tree_at : List Bool → ℕ → Bool
tree_at tree node = get_or tree (clamp tree node) false

-- `tree[node]`, assigned.
unfoldable pub tree_set : List Bool → ℕ → Bool → List Bool
tree_set tree node b = set tree (clamp tree node) b

module _ (bits : ℕ) where
  -- `node_next`, for the bit that chooses the right subtree.
  unfoldable pub node_next : ℕ → Bool → ℕ
  node_next node right =
      let node2 = trunc bits (node * 2) in trunc bits (if right then node2 + 2 else node2 + 1)

  -- The rounds of the loop that are left assign the low bits of `lru_o`.
  unfoldable pub lru_from : ℕ → ℕ → List Bool → ℕ
  lru_from zero node tree = 0
  lru_from (suc left) node tree =
      b2n (tree_at tree node) * 2 ^ left
      + lru_from left (node_next node (tree_at tree (trunc bits (node * 2)))) tree

  unfoldable pub lru_o : List Bool → ℕ
  lru_o tree = lru_from bits 0 tree

  -- The rounds of the loop that are left turn the nodes on the way to `acc_i` away from it.
  unfoldable pub access_from : ℕ → ℕ → ℕ → List Bool → List Bool
  access_from zero node acc_i tree = tree
  access_from (suc left) node acc_i tree =
      access_from left (node_next node (bit acc_i left)) acc_i
        (tree_set tree node (not (bit acc_i left)))

  -- One clock.
  unfoldable pub plru_cycle : List Bool → Bool → ℕ → List Bool
  plru_cycle tree acc_en acc_i = if acc_en then access_from bits 0 acc_i tree else tree
