-- ===== src/Div/Round.antt =====
-- What the rounds of the divider of fu/div/fsm.py keep: the bits of the quotient found so far and
-- the part of the dividend that is left.
use native.Mathlib.Nat.{mod-eq_of_lt}
use libresoc_soc.Common.{ℕ, ◌+◌, ◌-◌, ◌*◌, ◌^◌, ◌≤◌, ◌<◌, ◌≡◌, ap, refl, ◌∙◌}
use libresoc_soc.Common.{false, leb, arith}
use libresoc_soc.Div.{DivState, div_state_next, done, difference, next_quotient_bit}
use libresoc_soc.Div.Step.{sub_exact, borrow_large, borrow_small, pow-split}

module _ (w d : ℕ) (pos : 0 < w) where
  width_lem : 2 ^ (w * 2) ≡ 2 * 2 ^ (w * 2 - 1)
  width_lem =
      let e : w * 2 ≡ 1 + (w * 2 - 1) = omega arith in
      ap (λ (t : ℕ). 2 ^ t) e ∙ pow-split 1 (w * 2 - 1)

  module _ (s : DivState) (more : s.q_bits_known < w)
      (small : d * 2 ^ (w - 1) ≤ 2 ^ (w * 2 - 1)) where
    abbrev h : ℕ
    h = 2 ^ (w * 2 - 1)

    abbrev x : ℕ
    x = s.dividend_quotient

    abbrev y : ℕ
    y = d * 2 ^ (w - 1)

    not_done : leb (w - 0) s.q_bits_known ≡ false
    not_done = ground arith

    pub next_large :
        d * 2 ^ (w - 1) ≤ s.dividend_quotient
        → s.dividend_quotient < d * 2 ^ (w - 1) + 2 ^ (w * 2 - 1)
        → div_state_next w d s ≡ record {
          q_bits_known = s.q_bits_known + 1;
          dividend_quotient = 1 + (s.dividend_quotient - d * 2 ^ (w - 1)) * 2;
        }
    unfolding div_state_next next_quotient_bit difference done
    next_large p near =
        rw (not_done, width_lem)
          (rw (borrow_large h x y p near) (
            rw
              (
                sub_exact (2 * h) x y p (omega arith),
                mod-eq_of_lt {n = 1 + (x - y) * 2} {m = 2 * h} (omega arith),
              )
              refl))

    pub next_small :
        s.dividend_quotient < d * 2 ^ (w - 1)
        → div_state_next w d s ≡ record {
          q_bits_known = s.q_bits_known + 1;
          dividend_quotient = s.dividend_quotient * 2;
        }
    unfolding div_state_next next_quotient_bit difference done
    next_small p =
        rw (not_done, width_lem)
          (rw (borrow_small h x y p small)
            (rw (mod-eq_of_lt {n = 0 + x * 2} {m = 2 * h} (omega arith)) (ground arith)))
