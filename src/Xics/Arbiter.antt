-- ===== src/Xics/Arbiter.antt =====
-- The choice that `XICS_ICS` of interrupts/xics.py makes among its active sources.
use libresoc_soc.Common.{ℕ, zero, suc, ◌+◌, ◌≤◌, ◌<◌, ◌≡◌, ◌⊎◌, inl, inr, refl, ap, subst, arith}
use libresoc_soc.Common.{
  true, ◌&&◌, ltb, List, [], ◌∷◌, length, get_or, bit, if◌then◌else◌, Bool-cases,
}
use libresoc_soc.Xics.Types.{IcsToIcp}
use libresoc_soc.Xics.Ics.{arbitrate, a_mf_b}

shift_index : (level i j : ℕ) → bit level (i + suc j) ≡ bit level (i + 1 + j)
shift_index level i j = let e : i + suc j ≡ i + 1 + j = omega arith in ap (λ (k : ℕ). bit level k) e

module _ (level : ℕ) where
  abbrev choose : ℕ → ℕ → IcsToIcp → IcsToIcp
  choose i p best = if bit level i && a_mf_b p best.pri then record { src = i; pri = p } else best

  choose-cases :
      (i p : ℕ) (best : IcsToIcp)
      → ((bit level i ≡ true) × (p < best.pri) × (choose i p best ≡ record { src = i; pri = p }))
        ⊎ ((bit level i ≡ true → best.pri ≤ p) × (choose i p best ≡ best))
  choose-cases i p best = elim (Bool-cases (bit level i)) [
    | inr off ↦ inr (λ h. cc, rw off refl)
    | inl on ↦ elim (Bool-cases (ltb p best.pri)) [
      | inl less ↦ inl (on, ground arith, rw (on, less) refl)
      | inr more ↦ inr (λ h. ground arith, rw (on, more) refl)
    ]
  ]

  choose-le : (i p : ℕ) (best : IcsToIcp) → (choose i p best).pri ≤ best.pri
  choose-le i p best = ground (arith, choose-cases i p best)

  choose-active : (i p : ℕ) (best : IcsToIcp) → bit level i ≡ true → (choose i p best).pri ≤ p
  choose-active i p best h = ground (arith, choose-cases i p best)

  pub arbitrate-le :
      (i : ℕ) (ps : List ℕ) (best : IcsToIcp) → (arbitrate level i ps best).pri ≤ best.pri
  unfolding arbitrate
  arbitrate-le i [] best = omega arith
  arbitrate-le i (p ∷ ps) best =
      omega (arith, arbitrate-le (i + 1) ps (choose i p best), choose-le i p best)

  pub arbitrate-least :
      (i : ℕ) (ps : List ℕ) (best : IcsToIcp) (j : ℕ)
      → j < length ps
      → bit level (i + j) ≡ true
      → (arbitrate level i ps best).pri ≤ get_or ps j 0
  unfolding arbitrate
  arbitrate-least i [] best j h on = absurd (omega arith)
  arbitrate-least i (p ∷ ps) best zero h on =
      let here : bit level i ≡ true =
        (let e : i + 0 ≡ i = omega arith in subst (λ k. bit level k ≡ true) e on) in
      omega (arith, arbitrate-le (i + 1) ps (choose i p best), choose-active i p best here)
  arbitrate-least i (p ∷ ps) best (suc j) h on =
      arbitrate-least (i + 1) ps (choose i p best) j (omega arith)
        (rw (shift_index level i j) at on)

  -- The choice is the first source with the least priority, or the one that was there before.
  pub data Chosen (i : ℕ) (ps : List ℕ) (best result : IcsToIcp) : Type 0 where
    kept : result ≡ best → Chosen i ps best result
    taken :
        (j : ℕ)
        → j < length ps
        → bit level (i + j) ≡ true
        → result ≡ record { src = i + j; pri = get_or ps j 0 }
        → result.pri < best.pri
        → ((k : ℕ) → k < j → bit level (i + k) ≡ true → result.pri < get_or ps k 0)
        → Chosen i ps best result

  Chosen-kept : (i p : ℕ) (ps : List ℕ) (best : IcsToIcp) → Chosen i (p ∷ ps) best (choose i p best)
  Chosen-kept i p ps best = elim (choose-cases i p best) [
    | inr q ↦ kept q.1
    | inl q ↦
        let e : i + 0 ≡ i = omega arith in
        taken 0 (omega arith) (rw e q.0) (rw e q.2) (rw q.2 q.1) (λ k h on. absurd (omega arith))
  ]

  earlier :
      (i p : ℕ) (ps : List ℕ) (best : IcsToIcp) (j n : ℕ)
      → n < (choose i p best).pri
      → ((k : ℕ) → k < j → bit level (i + 1 + k) ≡ true → n < get_or ps k 0)
      → (k : ℕ) → k < suc j
      → bit level (i + k) ≡ true
      → n < get_or (p ∷ ps) k 0
  earlier i p ps best j n less before zero h on =
      let here : bit level i ≡ true =
        (let e : i + 0 ≡ i = omega arith in subst (λ k. bit level k ≡ true) e on) in
      omega (arith, choose-active i p best here)
  earlier i p ps best j n less before (suc k) h on =
      before k (omega arith) (rw (shift_index level i k) at on)

  Chosen-later :
      (i p : ℕ) (ps : List ℕ) (best : IcsToIcp) {result : IcsToIcp}
      → Chosen (i + 1) ps (choose i p best) result
      → Chosen i (p ∷ ps) best result
  Chosen-later i p ps best (kept e) = rw e (Chosen-kept i p ps best)
  Chosen-later i p ps best {result} (taken j lt on e less before) =
      taken (suc j) (omega arith) (rw (shift_index level i j) on)
        (let q : i + suc j ≡ i + 1 + j = omega arith in rw q e) (omega (arith, choose-le i p best))
        (earlier i p ps best j result.pri less before)

  pub arbitrate-Chosen :
      (i : ℕ) (ps : List ℕ) (best : IcsToIcp) → Chosen i ps best (arbitrate level i ps best)
  unfolding arbitrate
  arbitrate-Chosen i [] best = kept refl
  arbitrate-Chosen i (p ∷ ps) best =
      Chosen-later i p ps best (arbitrate-Chosen (i + 1) ps (choose i p best))
