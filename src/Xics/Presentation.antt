-- ===== src/Xics/Presentation.antt =====
-- What `XICS_ICS` of interrupts/xics.py presents, and what it keeps.
use native.Mathlib.Nat.{mod-lt}
use libresoc_soc.Common.{
  ℕ, zero, suc, ◌+◌, ◌≤◌, ◌<◌, ◌≡◌, ◌⊎◌, inl, inr, refl, arith, ap, subst, ◌∙◌, slice, ◌&&◌,
  Bool-cases, length-set,
}
use libresoc_soc.Common.{true, List, [], ◌∷◌, length, get_or, set, bit}
use libresoc_soc.Xics.Types.{IcsToIcp, WbRequest, bswap}
use libresoc_soc.Xics.Ics.{
  IcsState, arbitrate, icp_o_next, prio_unpack, ics_cycle, ics_write, prio_pack, reg_idx,
  reg_is_xive,
}
use libresoc_soc.Xics.Arbiter.{Chosen, kept, taken, arbitrate-le, arbitrate-least, arbitrate-Chosen}

-- The registers: 16 priorities of 8 bits.
pub record IsWellFormed (s : IcsState) : Type 0 where
  pub sources : length s.xives ≡ 16
  pub priorities : (j : ℕ) → get_or s.xives j 0 < 256

-- The source `o.src` is active, has the priority presented, and no active source before it has
-- one as favoured.
pub record IsFirst (level : ℕ) (xives : List ℕ) (o : IcsToIcp) : Type 0 where
  pub in_range : o.src < length xives
  pub active : bit level o.src ≡ true
  pub priority : get_or xives o.src 0 ≡ o.pri
  pub first : (k : ℕ) → k < o.src → bit level k ≡ true → o.pri < get_or xives k 0

-- No active source is more favoured.
abbrev pub IsLeast : ℕ → List ℕ → ℕ → Type 0
IsLeast level xives pri = (j : ℕ) → j < length xives → bit level j ≡ true → pri ≤ get_or xives j 0

abbrev masked : IcsToIcp
masked = record { src = 0; pri = 0xff }

zero_plus : (j : ℕ) → 0 + j ≡ j
zero_plus j = omega arith

unpack_exact : (p : ℕ) → p ≤ 255 → prio_unpack p ≡ p
unfolding prio_unpack
unpack_exact p h = ground arith

module _ (s : IcsState) where
  abbrev best : IcsToIcp
  best = arbitrate s.int_level_l 0 s.xives masked

  next_is : icp_o_next s ≡ best
  unfolding icp_o_next
  next_is = rw (unpack_exact best.pri (arbitrate-le s.int_level_l 0 s.xives masked)) refl

  pub least : IsLeast s.int_level_l s.xives (icp_o_next s).pri
  least j h on =
      rw next_is (arbitrate-least s.int_level_l 0 s.xives masked j h (rw (zero_plus j) on))

  pub chosen : ((icp_o_next s) ≡ masked) ⊎ IsFirst s.int_level_l s.xives (icp_o_next s)
  chosen = rw next_is (from (arbitrate-Chosen s.int_level_l 0 s.xives masked))
    where
      from :
          {o : IcsToIcp}
          → Chosen s.int_level_l 0 s.xives masked o
          → (o ≡ masked) ⊎ IsFirst s.int_level_l s.xives o
      from (kept e) = inl e
      from {o} (taken j lt on e less before) =
          let at : o.src ≡ j = ap (λ (r : IcsToIcp). r.src) e ∙ zero_plus j in
          inr (
            rw e (record {
              in_range = omega arith;
              active = on;
              priority = rw (zero_plus j) refl;
              first = λ k h act.
                  subst (λ (r : IcsToIcp). r.pri < get_or s.xives k 0) e
                    (before k (omega (arith, zero_plus j)) (rw (zero_plus k) act));
            }))

set_below :
    (n v : ℕ)
    → v < n
    → (xs : List ℕ) (i : ℕ) → ((j : ℕ) → get_or xs j 0 < n)
    → (j : ℕ) → get_or (set xs i v) j 0 < n
set_below n v h [] i p j = p j
set_below n v h (x ∷ xs) zero p zero = h
set_below n v h (x ∷ xs) zero p (suc j) = p (suc j)
set_below n v h (x ∷ xs) (suc i) p zero = p zero
set_below n v h (x ∷ xs) (suc i) p (suc j) = set_below n v h xs i (λ k. p (suc k)) j

ics_write_cases :
    (s : IcsState) (b : WbRequest)
    → (ics_write s b ≡ s.xives)
      ⊎ ((v : ℕ) × (v < 256) × (ics_write s b ≡ set s.xives (reg_idx b) v))
unfolding ics_write
ics_write_cases s b = elim (Bool-cases (b.cyc && b.stb && b.we && reg_is_xive b)) [
  | inl on ↦ inr (prio_pack (slice (bswap b.dat_w) 0 8), mod-lt _ (omega arith), rw on refl)
  | inr off ↦ inl (rw off refl)
]

ics_write-IsWellFormed :
    (s : IcsState) (b : WbRequest) (level : ℕ) → IsWellFormed s → IsWellFormed (ics_cycle s b level)
unfolding ics_cycle
ics_write-IsWellFormed s b level w = elim (ics_write_cases s b) [
  | inl e ↦ record { sources = rw e w.sources; priorities = rw e w.priorities }
  | inr q ↦ record {
    sources = rw (q.2, length-set) w.sources;
    priorities = rw q.2 (set_below 256 q.0 q.1 s.xives (reg_idx b) w.priorities);
  }
]

-- What the source side presents after a clock: no active source has a priority more favoured than
-- the one presented, and this is either 0xff, which masks, or that of the first of the active
-- sources with the most favoured priority. A well-formed register content stays well-formed.
pub ics_cycle-IsFirst :
    (s : IcsState) (b : WbRequest) (level : ℕ)
    → IsWellFormed s
    → IsLeast s.int_level_l s.xives (ics_cycle s b level).icp_o.pri
      × (((ics_cycle s b level).icp_o ≡ record { src = 0; pri = 0xff })
          ⊎ IsFirst s.int_level_l s.xives (ics_cycle s b level).icp_o)
      × IsWellFormed (ics_cycle s b level)
unfolding ics_cycle
ics_cycle-IsFirst s b level w = (least s, chosen s, ics_write-IsWellFormed s b level w)
