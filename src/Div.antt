-- ===== src/Div.antt =====
-- fu/div/fsm.py: the iterative divider.
pub mod Step
pub mod Round
pub mod Invariant
pub mod Fsm
pub mod Correct
pub mod Latency
mod Tests
use libresoc_soc.Common.{ℕ, ◌+◌, ◌-◌, ◌*◌, ◌^◌, Bool, not, leb}
use libresoc_soc.Common.{bit, slice, b2n, cat, trunc, sub, if◌then◌else◌}

-- `q_bits_known` is a `Signal(range(1 + quotient_width))`; it never passes `quotient_width`.
pub record DivState : Type 0 where
  pub q_bits_known : ℕ
  pub dividend_quotient : ℕ

-- `Signal(range(1 + w))` holds the numbers below this power of two for the divider's w = 64.
module _ (quotient_width : ℕ) where
  unfoldable pub will_be_done_after : ℕ → DivState → Bool
  will_be_done_after steps s = leb (quotient_width - steps) s.q_bits_known

  unfoldable pub done : DivState → Bool
  unfolding will_be_done_after
  done s = will_be_done_after 0 s

  unfoldable pub quotient : DivState → ℕ
  quotient s = slice s.dividend_quotient 0 quotient_width

  unfoldable pub remainder : DivState → ℕ
  remainder s = slice s.dividend_quotient quotient_width (quotient_width * 2)

  unfoldable pub div_state_init : ℕ → DivState
  div_state_init dividend = record { q_bits_known = 0; dividend_quotient = dividend }

  unfoldable pub difference : ℕ → DivState → ℕ
  difference divisor i =
      sub (quotient_width * 2) i.dividend_quotient (divisor * 2 ^ (quotient_width - 1))

  unfoldable pub next_quotient_bit : ℕ → DivState → Bool
  unfolding difference
  next_quotient_bit divisor i = not (bit (difference divisor i) (quotient_width * 2 - 1))

  unfoldable pub div_state_next : ℕ → DivState → DivState
  unfolding done
  div_state_next divisor i =
      let diff = difference divisor i in
      let q = next_quotient_bit divisor i in
      let value = if q then diff else i.dividend_quotient in
      if done i then i else record {
        q_bits_known = i.q_bits_known + 1;
        dividend_quotient = trunc (quotient_width * 2) (cat 1 (b2n q) value);
      }
