-- ===== src/Icache/Requests.antt =====
-- experiment/icache.py: the rows that are requested and not answered, after an answer and a request.
use libresoc_soc.Common.{
  ℕ, zero, suc, ◌+◌, ◌-◌, ◌%◌, ◌≤◌, ◌<◌, ◌≡◌, refl, sym, ap, ap₂, ◌∙◌, arith, Bool, true, false,
  if◌then◌else◌, b2n, Bool-cases, inl, inr, List, [], ◌∷◌, ◌++◌,
}
use libresoc_soc.Icache.Types.{WbSlaveOut}
use libresoc_soc.Icache.Cycle.{}
use libresoc_soc.Icache.Bus.{Answers, quiet, answer, rest, row_address, rows_from, rows_from-snoc}

-- An answer is to a request.
pub ack-lt :
    (mem : ℕ → ℕ) (w : WbSlaveOut) (p : List ℕ) (l b a n : ℕ)
    → Answers mem w p
    → w.ack ≡ true
    → p ≡ rows_from l (b + a) (n - a)
    → a ≤ n
    → a < n
ack-lt mem w p l b a n (quiet _ q) h e g = ground (arith, q, h)
ack-lt mem w _ l b a n (answer r q _ _) h e g = not_none (n - a) refl e
  where
    not_none : (d : ℕ) → n - a ≡ d → (r ∷ q) ≡ rows_from l (b + a) d → a < n
    not_none zero f e = ground (arith, e)
    not_none (suc d) f e = omega arith

-- An answer takes the first of the requested rows.
pub answered :
    (mem : ℕ → ℕ) (w : WbSlaveOut) (p : List ℕ) (l b a n : ℕ)
    → Answers mem w p
    → p ≡ rows_from l (b + a) (n - a)
    → a ≤ n
    → rest w.ack p ≡ rows_from l (b + (a + b2n w.ack)) (n - (a + b2n w.ack))
answered mem w p l b a n (quiet _ q) e g =
    ap (λ k. rest k p) q
    ∙ none p
    ∙ e
    ∙ ap (λ m. rows_from l (b + m) (n - m)) (let f : a ≡ a + b2n false = omega arith in f)
    ∙ ap (λ k. rows_from l (b + (a + b2n k)) (n - (a + b2n k))) (sym q)
  where
    none : (p : List ℕ) → rest false p ≡ p
    none [] = refl
    none (r ∷ q) = refl
answered mem w _ l b a n (answer r q h _) e g =
    ap (λ k. rest k (r ∷ q)) h
    ∙ first (n - a) refl e
    ∙ ap (λ k. rows_from l (b + (a + b2n k)) (n - (a + b2n k))) (sym h)
  where
    first :
        (d : ℕ)
        → n - a ≡ d
        → (r ∷ q) ≡ rows_from l (b + a) d
        → q ≡ rows_from l (b + (a + 1)) (n - (a + 1))
    first zero f e = ground (arith, e)
    first (suc d) f e =
        ap (rest true) e
        ∙ ap₂ (rows_from l) (let u : suc (b + a) ≡ b + (a + 1) = omega arith in u)
            (let v : d ≡ n - (a + 1) = omega arith in v)

-- A request of the next row is added to them.
pub requested :
    (k : Bool) (l b a n : ℕ)
    → a ≤ n
    → rows_from l (b + a) (n - a) ++ (if k then row_address l ((b + n) % 8) ∷ [] else [])
      ≡ rows_from l (b + a) (n + b2n k - a)
requested true l b a n h =
    ap (λ m. rows_from l (b + a) (n - a) ++ (row_address l (m % 8) ∷ []))
      (let u : b + n ≡ b + a + (n - a) = omega arith in u)
    ∙ rows_from-snoc l (b + a) (n - a)
    ∙ ap (rows_from l (b + a)) (let v : suc (n - a) ≡ n + 1 - a = omega arith in v)
requested false l b a n h =
    append-nil (rows_from l (b + a) (n - a))
    ∙ ap (rows_from l (b + a)) (let v : n - a ≡ n + 0 - a = omega arith in v)
  where
    append-nil : (p : List ℕ) → p ++ [] ≡ p
    append-nil [] = refl
    append-nil (x ∷ p) = ap (◌∷◌ x) (append-nil p)

-- No more is answered than is requested.
pub answered-le :
    (mem : ℕ → ℕ) (w : WbSlaveOut) (p : List ℕ) (l b a n : ℕ)
    → Answers mem w p
    → p ≡ rows_from l (b + a) (n - a)
    → a ≤ n
    → a + b2n w.ack ≤ n
answered-le mem w p l b a n q e g = elim (Bool-cases w.ack) [
  | inl h ↦ (let t : a < n = ack-lt mem w p l b a n q h e g in ground (arith, h, t))
  | inr h ↦ ground (arith, h, g)
]
