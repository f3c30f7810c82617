-- ===== src/Shift.antt =====
-- The sequential shifter of experiment/alu_fsm.py, of any width.
use libresoc_soc.Common.{
  ℕ, ◌+◌, ◌-◌, ◌*◌, ◌/◌, ◌%◌, ◌^◌, Bool, true, false, ◌==◌, if◌then◌else◌, List, [], ◌∷◌, trunc,
}
pub mod Result
pub mod Tests

pub data ShiftState : Type 0 where
  idle shift done : ShiftState

-- The registers of the data path and of the control path.
pub record ShifterRegs : Type 0 where
  pub state : ShiftState
  pub shift_reg : ℕ
  pub count : ℕ
  pub direction : Bool

pub record ShifterInput : Type 0 where
  pub i_valid : Bool
  pub content : ℕ
  pub shift : ℕ
  pub sdir : Bool
  pub i_ready : Bool

pub record ShifterOutput : Type 0 where
  pub o_ready : Bool
  pub o_valid : Bool
  pub content : ℕ

abbrev pub is_idle : ShiftState → Bool
is_idle idle = true
is_idle _ = false

abbrev pub is_shift : ShiftState → Bool
is_shift shift = true
is_shift _ = false

abbrev pub is_done : ShiftState → Bool
is_done done = true
is_done _ = false

module _ (width : ℕ) where
  -- `Cat(0, shift_reg[:-1])`.
  unfoldable pub shift_left_by_1 : ℕ → ℕ
  shift_left_by_1 x = x % 2 ^ (width - 1) * 2

  -- `Cat(shift_reg[1:], 0)`.
  unfoldable pub shift_right_by_1 : ℕ → ℕ
  shift_right_by_1 x = x / 2

  -- The data path: what the register is next.
  unfoldable pub next_shift : ShifterRegs → ShifterInput → ℕ
  unfolding shift_left_by_1 shift_right_by_1
  next_shift r x =
      if is_idle r.state
      then trunc width x.content
      else if is_shift r.state
      then (if r.direction then shift_right_by_1 r.shift_reg else shift_left_by_1 r.shift_reg)
      else r.shift_reg

-- The counter, for one of `shift_width` bits; in the last state nothing assigns it.
unfoldable pub next_count : ℕ → ShifterRegs → ShifterInput → ℕ
next_count shift_width r x =
    if is_idle r.state
    then trunc shift_width x.shift
    else if is_shift r.state
    then (r.count + 2 ^ shift_width - 1) % 2 ^ shift_width
    else 0

-- The control path.
unfoldable pub next_control : ShiftState → ℕ → ShifterInput → ShiftState
next_control idle count x = if x.i_valid then (if count == 0 then done else shift) else idle
next_control shift count x = if count == 0 then done else shift
next_control done count x = if x.i_ready then idle else done

module _ (width shift_width : ℕ) where
  -- The registers after a clock.
  unfoldable pub shifter_cycle : ShifterRegs → ShifterInput → ShifterRegs
  unfolding next_shift next_count next_control
  shifter_cycle r x = record {
    state = next_control r.state (next_count shift_width r x) x;
    shift_reg = next_shift width r x;
    count = next_count shift_width r x;
    direction = if is_idle r.state then x.sdir else r.direction;
  }

  unfoldable pub shifter_run : ShifterRegs → List ShifterInput → ShifterRegs
  shifter_run r [] = r
  shifter_run r (x ∷ xs) = shifter_run (shifter_cycle r x) xs

unfoldable pub shifter_outputs : ShifterRegs → ShifterOutput
shifter_outputs r = record {
  o_ready = is_idle r.state;
  o_valid = is_done r.state;
  content = r.shift_reg;
}
