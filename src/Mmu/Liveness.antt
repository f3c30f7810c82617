-- ===== src/Mmu/Liveness.antt =====
-- Every operation of experiment/mmu.py ends, however long the D-cache takes.
use libresoc_soc.Common.{ℕ, suc, ◌≤◌, ◌<◌, ◌≡◌, ◌≢◌, ◌⊎◌, inl, inr, refl, arith}
use libresoc_soc.Common.{List, [], ◌∷◌, length, take, Bool-cases, if◌then◌else◌}
use libresoc_soc.Mmu.Types.{State, RegStage, Nmutil, idle}
use libresoc_soc.Mmu.Cycle.{MmuInput, rin}
use libresoc_soc.Mmu.Walk.{left, answers, measure, rin-left, rin-left_stalled}
use libresoc_soc.Mmu.Shift.{rin-InRange}

State-cases : (s : State) → (s ≡ idle) ⊎ (s ≢ idle)
State-cases idle = inl refl
State-cases _ = inr (λ e. cc)

-- The unit after the cycles with these inputs.
unfoldable pub run : Nmutil → RegStage → List MmuInput → RegStage
run nm r [] = r
run nm r (x ∷ xs) = run nm (rin nm r x) xs

-- How many of the cycles are not spent waiting for the D-cache.
unfoldable pub progress : Nmutil → RegStage → List MmuInput → ℕ
progress nm r [] = 0
progress nm r (x ∷ xs) =
    let rest = progress nm (rin nm r x) xs in if answers r.state x then suc rest else rest

module _ (nm : Nmutil) where
  left-le : (s : State) (n : ℕ) → n < 64 → measure s n ≤ 134
  unfolding measure
  left-le idle n h = omega arith
  left-le _ n h = omega arith

  abbrev Ends : List MmuInput → RegStage → Type 0
  Ends xs r = (n : ℕ) × (n ≤ length xs) × ((run nm r (take n xs)).state ≡ idle)

  Ends-here : (xs : List MmuInput) (r : RegStage) → r.state ≡ idle → Ends xs r
  unfolding run
  Ends-here xs r e = (0, omega arith, e)

  Ends-later :
      (x : MmuInput) (xs : List MmuInput) (r : RegStage) → Ends xs (rin nm r x) → Ends (x ∷ xs) r
  unfolding run
  Ends-later x xs r e = (suc e.0, omega arith, e.2)

  left-zero : (s : State) (n : ℕ) → measure s n ≤ 0 → s ≡ idle
  unfolding measure
  left-zero idle n h = refl
  left-zero _ n h = absurd (omega arith)

  Ends-within :
      (xs : List MmuInput) (r : RegStage) → r.shift < 64 → left r ≤ progress nm r xs → Ends xs r
  unfolding progress
  Ends-within [] r h enough = Ends-here [] r (left-zero r.state r.shift enough)
  Ends-within (x ∷ xs) r h enough =
      let rest = Ends-within xs (rin nm r x) (rin-InRange nm r x h) in
      elim (State-cases r.state) [
        | inl e ↦ Ends-here (x ∷ xs) r e
        | inr busy ↦ Ends-later x xs r (elim (Bool-cases (answers r.state x)) [
          | inl a ↦ rest (ground (arith, rin-left nm r x busy h a))
          | inr a ↦ rest (ground (arith, rin-left_stalled nm r x a))
        ])
      ]

-- From every register content whose 6-bit shift is in range, with any inputs, the unit is idle
-- again by the time that 134 of the cycles were not spent waiting for an answer of the D-cache.
-- No table in memory can keep the walk going: each directory takes at least five address bits.
pub run-ends :
    (nm : Nmutil) (r : RegStage) (xs : List MmuInput)
    → r.shift < 64
    → 134 ≤ progress nm r xs
    → (n : ℕ) × (n ≤ length xs) × ((run nm r (take n xs)).state ≡ idle)
run-ends nm r xs h enough = Ends-within nm xs r h (omega (arith, left-le nm r.state r.shift h))
