-- ===== src/Icache/Tables.antt =====
-- experiment/icache.py: the entries of its tables of tags and valid bits.
use libresoc_soc.Common.{
  ℕ, ◌≡◌, sym, ap, ◌∙◌, arith, Bool, true, false, ◌&&◌, ◌==◌, if◌then◌else◌, Bool-cases, inl, inr,
}
use libresoc_soc.Icache.Types.{}
use libresoc_soc.Icache.Cycle.{update}

pub equal : (i : ℕ) → (i == i) ≡ true
equal i = ground arith

-- The entry of a table that is written, and the others.
pub update-twice {ℓ} :
    {A : Type ℓ} (f : ℕ → ℕ → A) (g : ℕ → A) (i w : ℕ) (v : A) → update f i (update g w v) i w ≡ v
update-twice f g i w v =
    ap (λ k. (if k then update g w v else f i) w) (equal i)
    ∙ ap (λ k. if k then v else g w) (equal w)

pub update-other :
    (f : ℕ → ℕ → ℕ) (i w v j u : ℕ)
    → (j == i && u == w) ≡ false
    → update f i (update (f i) w v) j u ≡ f j u
update-other f i w v j u h = elim (Bool-cases (j == i)) [
  | inl e ↦
      (let here : i ≡ j = ground (arith, e) in
        ap (λ k. (if k then update (f i) w v else f j) u) e
        ∙ ap (λ k. if k then v else f i u) (sym (ap (λ k. k && u == w) e) ∙ h)
        ∙ ap (λ i. f i u) here)
  | inr e ↦ ap (λ k. (if k then update (f i) w v else f j) u) e
]

-- A valid bit after one is cleared, in a table that may be invalidated first.
pub record IsStillValid (g : ℕ → ℕ → Bool) (i w j u : ℕ) : Type 0 where
  pub old : g j u ≡ true
  pub other : (j == i && u == w) ≡ false

pub still-valid :
    (g : ℕ → ℕ → Bool) (inval : Bool) (i w j u : ℕ)
    → update (if inval then (λ i w. false) else g) i (update (g i) w false) j u ≡ true
    → IsStillValid g i w j u
still-valid g inval i w j u h = elim (Bool-cases (j == i)) [
  | inl e ↦
      (let here : i ≡ j = ground (arith, e) in
        let bit : update (g i) w false u ≡ true =
          sym (ap (λ k. (if k then update (g i) w false else base j) u) e) ∙ h in
        record {
          old = sym (ap (λ i. g i u) here) ∙ kept u w (g i u) bit;
          other = ap (λ k. k && u == w) e ∙ apart u w (g i u) bit;
        })
  | inr e ↦
      (let bit : base j u ≡ true =
          sym (ap (λ k. (if k then update (g i) w false else base j) u) e) ∙ h in
        record { old = based inval bit; other = ap (λ k. k && u == w) e })
]
  where
    base : ℕ → ℕ → Bool
    base = if inval then (λ i w. false) else g

    kept : (u w : ℕ) (o : Bool) → (if u == w then false else o) ≡ true → o ≡ true
    kept u w o h = ground (arith, h)

    apart : (u w : ℕ) (o : Bool) → (if u == w then false else o) ≡ true → (u == w) ≡ false
    apart u w o h = ground (arith, h)

    based : (inval : Bool) → (if inval then (λ i w. false) else g) j u ≡ true → g j u ≡ true
    based true h = ground (arith, h)
    based false h = h

pub cleared :
    (base z : ℕ → ℕ → Bool) (g : ℕ → Bool) (k : Bool) (r i w : ℕ)
    → k ≡ false
    → r ≡ i
    → (if k then z else update base r (update g w false)) i w ≡ false
cleared base z g k r i w h e =
    ap (λ k. (if k then z else update base r (update g w false)) i w) h
    ∙ ap (λ r. update base r (update g w false) i w) e
    ∙ ap (λ k. (if k then update g w false else base i) w) (equal i)
    ∙ ap (λ k. if k then false else g w) (equal w)
