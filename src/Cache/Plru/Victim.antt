-- ===== src/Cache/Plru/Victim.antt =====
-- The way that experiment/plru.py picks after an access, for any number of ways.
use libresoc_soc.Common.{
  ℕ, zero, suc, ◌+◌, ◌*◌, ◌/◌, ◌^◌, ◌%◌, ◌≤◌, ◌<◌, ◌≡◌, ◌≢◌, refl, ap, ◌∙◌, arith, inl, inr,
}
use libresoc_soc.Common.{
  Bool, true, false, not, List, [], ◌∷◌, bit, b2n, trunc, leb, length, get_or, set, length-set,
  if◌then◌else◌, Bool-cases, ◌==◌, leb→le, leb-false→lt,
}
use libresoc_soc.Cache.Plru.{tree_at, tree_set, node_next, lru_from, lru_o, access_from, plru_cycle}
use libresoc_soc.Div.Step.{pow-split}
use native.Mathlib.Nat.{mod-eq_of_lt, pow-le-pow_right, div-eq_of_lt, div-eq_of_lt-le}

double : (n : ℕ) → 2 ^ suc n ≡ 2 * 2 ^ n
double n = let e : suc n ≡ 1 + n = omega arith in ap (λ (m : ℕ). 2 ^ m) e ∙ pow-split 1 n

pub lru_from-lt : (bits left node : ℕ) (tree : List Bool) → lru_from bits left node tree < 2 ^ left
unfolding lru_from
lru_from-lt bits zero node tree = omega arith
lru_from-lt bits (suc left) node tree = ground (
  arith,
  double left,
  lru_from-lt bits left (node_next bits node (tree_at tree (trunc bits (node * 2)))) tree,
)

get-set :
    (tree : List Bool) (i : ℕ) (b d : Bool) → 0 < i → get_or (set tree i b) 0 d ≡ get_or tree 0 d
get-set [] i b d h = refl
get-set (x ∷ xs) zero b d h = absurd (omega arith)
get-set (x ∷ xs) (suc i) b d h = refl

tree_set-root :
    (tree : List Bool) (node : ℕ) (b : Bool)
    → 0 < node
    → 1 < length tree
    → get_or (tree_set tree node b) 0 false ≡ get_or tree 0 false
unfolding tree_set
tree_set-root tree node b h l = get-set tree _ b false (ground arith)

length-tree_set :
    (tree : List Bool) (node : ℕ) (b : Bool) → length (tree_set tree node b) ≡ length tree
unfolding tree_set
length-tree_set tree node b = length-set tree _ b

module _ (bits : ℕ) where
  next_bounds :
      (n i : ℕ) (b : Bool)
      → suc i < bits
      → n + 2 ≤ 2 ^ suc i
      → (0 < node_next bits n b) × (node_next bits n b + 2 ≤ 2 ^ suc (suc i))
  unfolding node_next
  next_bounds n i b h m =
      let e : n * 2 % 2 ^ bits ≡ n * 2 = mod-eq_of_lt (omega (arith, double (suc i), room h)) in
      rw e (by_side b)
    where
      room : suc i < bits → 2 ^ suc (suc i) ≤ 2 ^ bits
      room h = pow-le-pow_right (omega arith) h

      within : (k : ℕ) → k ≤ 2 → (n * 2 + k) % 2 ^ bits ≡ n * 2 + k
      within k hk = mod-eq_of_lt (omega (arith, double (suc i), room h))

      by_side :
          (b : Bool)
          → (0 < (if b then n * 2 + 2 else n * 2 + 1) % 2 ^ bits)
            × ((if b then n * 2 + 2 else n * 2 + 1) % 2 ^ bits + 2 ≤ 2 ^ suc (suc i))
      by_side true = rw (within 2 (omega arith)) (omega (arith, double (suc i)))
      by_side false = rw (within 1 (omega arith)) (omega (arith, double (suc i)))

  access_from-root :
      (left i node acc_i : ℕ) (tree : List Bool)
      → i + left ≡ bits
      → 0 < node
      → node + 2 ≤ 2 ^ suc i
      → 1 < length tree
      → get_or (access_from bits left node acc_i tree) 0 false ≡ get_or tree 0 false
  unfolding access_from
  access_from-root zero i node acc_i tree e h m l = refl
  access_from-root (suc zero) i node acc_i tree e h m l = tree_set-root tree node _ h l
  access_from-root (suc (suc left)) i node acc_i tree e h m l =
      let q = next_bounds node i (bit acc_i (suc left)) (omega arith) m in
      access_from-root (suc left) (suc i) (node_next bits node (bit acc_i (suc left))) acc_i
        (tree_set tree node (not (bit acc_i (suc left)))) (omega arith) q.0 q.1
        (omega (arith, length-tree_set tree node (not (bit acc_i (suc left)))))
      ∙ tree_set-root tree node (not (bit acc_i (suc left))) h l

-- The root of the tree after an access points away from the half of the way.
root_kept :
    (n : ℕ) (tree : List Bool) (acc_i : ℕ) (b : Bool)
    → length tree ≡ suc n
    → get_or (access_from (suc n) n (node_next (suc n) 0 b) acc_i tree) 0 false
      ≡ get_or tree 0 false
unfolding access_from
root_kept zero tree acc_i b l = refl
root_kept (suc n) tree acc_i b l =
    let q = next_bounds (suc (suc n)) 0 0 b (omega arith) (omega arith) in
    access_from-root (suc (suc n)) (suc n) 1 (node_next (suc (suc n)) 0 b) acc_i tree (omega arith)
      q.0 q.1 (omega arith)

tree_at-zero : (tree : List Bool) → 0 < length tree → tree_at tree 0 ≡ get_or tree 0 false
unfolding tree_at
tree_at-zero [] h = refl
tree_at-zero (x ∷ xs) h = ground arith

set_zero : (tree : List Bool) (b : Bool) → 0 < length tree → get_or (tree_set tree 0 b) 0 false ≡ b
unfolding tree_set
set_zero [] b h = absurd (omega arith)
set_zero (x ∷ xs) b h = ground arith

length-access :
    (bits left node acc_i : ℕ) (tree : List Bool)
    → length (access_from bits left node acc_i tree) ≡ length tree
unfolding access_from
length-access bits zero node acc_i tree = refl
length-access bits (suc left) node acc_i tree =
    length-access bits left _ acc_i (tree_set tree node (not (bit acc_i left)))
    ∙ length-tree_set tree node (not (bit acc_i left))

pub length-plru_cycle :
    (bits : ℕ) (tree : List Bool) (acc_i : ℕ)
    → length (plru_cycle bits tree true acc_i) ≡ length tree
unfolding plru_cycle
length-plru_cycle bits tree acc_i = length-access bits bits 0 acc_i tree

root :
    (n : ℕ) (tree : List Bool) (acc_i : ℕ)
    → length tree ≡ suc n
    → tree_at (plru_cycle (suc n) tree true acc_i) 0 ≡ not (bit acc_i n)
root n tree acc_i l =
    tree_at-zero (plru_cycle (suc n) tree true acc_i)
      (omega (arith, length-plru_cycle (suc n) tree acc_i))
    ∙ unfold plru_cycle access_from in
      (root_kept n (tree_set tree 0 (not (bit acc_i n))) acc_i (bit acc_i n)
          (length-tree_set tree 0 (not (bit acc_i n)) ∙ l)
        ∙ set_zero tree (not (bit acc_i n)) (omega arith))

-- Two numbers that differ in the top bit.
halves : (p acc r : ℕ) → acc < 2 * p → r < p → b2n (not (acc / p % 2 == 1)) * p + r ≢ acc
halves p acc r h l = elim (Bool-cases (leb p acc)) [
  | inl big ↦
      let e : acc / p ≡ 1 =
        div-eq_of_lt-le {k = 1} p (omega (arith, leb→le p acc big)) (omega arith) in
      rw e (omega (arith, leb→le p acc big))
  | inr small ↦
      let e : acc / p ≡ 0 = div-eq_of_lt (leb-false→lt p acc small) in
      rw e (omega (arith, leb-false→lt p acc small))
]

-- For any number of ways that is a power of two, and any content of the tree, the way picked after an
-- access is a way, and is not the one accessed.
pub lru_o-ne-access :
    (n : ℕ) (tree : List Bool) (w : ℕ)
    → length tree ≡ suc n
    → w < 2 ^ suc n
    → (lru_o (suc n) (plru_cycle (suc n) tree true w) < 2 ^ suc n)
      × (lru_o (suc n) (plru_cycle (suc n) tree true w) ≢ w)
lru_o-ne-access n tree w l h = (unfold lru_o in lru_from-lt _ _ _ _, unfold lru_o lru_from in other)
  where
    other :
        b2n (tree_at (plru_cycle (suc n) tree true w) 0) * 2 ^ n
          + lru_from
              (suc n)
              n
              (node_next
                (suc n)
                0
                (tree_at (plru_cycle (suc n) tree true w) (trunc (suc n) (0 * 2))))
              (plru_cycle (suc n) tree true w)
        ≢ w
    other =
        rw (root n tree w l) (halves (2 ^ n) w _ (omega (arith, double n)) (lru_from-lt _ _ _ _))
