-- ===== src/Div/Step.antt =====
-- One round of the divider of fu/div/fsm.py, as arithmetic on an unknown power of two.
use native.Mathlib.Nat.{pow-suc, mod-eq_of_lt, add-mod_right, div-eq_of_lt}
use native.Mathlib.Nat.{div-eq_of_lt-le}
use libresoc_soc.Common.{ℕ, zero, suc, ◌+◌, ◌-◌, ◌*◌, ◌/◌, ◌%◌, ◌^◌, ◌≤◌, ◌<◌, ◌≡◌, ap, refl, ◌∙◌}
use libresoc_soc.Common.{true, false, not, ◌==◌, arith}

pub sub_exact : (m x y : ℕ) → y ≤ x → x - y < m → (x + m - y) % m ≡ x - y
sub_exact m x y p q =
    let e : x + m - y ≡ x - y + m = omega arith in rw e (add-mod_right (x - y) m ∙ mod-eq_of_lt q)

pub sub_borrow : (m x y : ℕ) → x < y → y ≤ m → (x + m - y) % m ≡ x + m - y
sub_borrow m x y p q = mod-eq_of_lt (omega arith)

-- The borrow of `x - y` on a signal whose top bit has the weight h.
pub borrow_large :
    (h x y : ℕ) → y ≤ x → x < y + h → not ((x + 2 * h - y) % (2 * h) / h % 2 == 1) ≡ true
borrow_large h x y p near =
    rw (sub_exact (2 * h) x y p (omega arith), div-eq_of_lt {n = x - y} {m = h} (omega arith)) refl

pub borrow_small :
    (h x y : ℕ) → x < y → y ≤ h → not ((x + 2 * h - y) % (2 * h) / h % 2 == 1) ≡ false
borrow_small h x y p small =
    let q : (x + 2 * h - y) / h ≡ 1 =
      div-eq_of_lt-le {k = 1} h {m = x + 2 * h - y} (omega arith) (omega arith) in
    rw (sub_borrow (2 * h) x y p (omega arith), q) refl

pub pow-split : (a b : ℕ) → 2 ^ (a + b) ≡ 2 ^ a * 2 ^ b
pow-split zero b = let e : 0 + b ≡ b = omega arith in rw e (omega arith)
pow-split (suc a) b =
    let e : suc a + b ≡ suc (a + b) = omega arith in
    rw e (
      omega (
        arith,
        pow-suc 2 (a + b),
        pow-suc 2 a,
        pow-split a b,
        ap (λ (t : ℕ). t * 2 ^ b) (pow-suc 2 a),
      ))
