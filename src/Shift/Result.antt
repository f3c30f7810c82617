-- ===== src/Shift/Result.antt =====
-- What the shifter of experiment/alu_fsm.py makes of its operand, and when.
use native.Mathlib.Nat.{
  mod-lt, mul_assoc, mul_comm, div-div-eq-div-mul, mul-one, pow-suc, pow-succ', one-le-pow,
  mod-eq_of_lt, add-mul-mod_self_left, div-add-mod,
}
use libresoc_soc.Common.{
  ℕ, zero, suc, ◌+◌, ◌-◌, ◌*◌, ◌/◌, ◌%◌, ◌^◌, ◌≡◌, ◌<◌, ◌≤◌, refl, ◌==◌, Bool-cases, inl, inr, sym,
  ap, ap₂, subst, length, ◌∙◌, arith, Bool, true, false, if◌then◌else◌, List, [], ◌∷◌, trunc,
}
use libresoc_soc.Shift.{
  idle, shift, ShifterRegs, ShifterInput, shift_left_by_1, shift_right_by_1, next_shift, next_count,
  next_control, shifter_cycle, shifter_run, shifter_outputs,
}

-- Doubling within twice as many numbers.
double-mod : (m a : ℕ) → 0 < m → a * 2 % (2 * m) ≡ a % m * 2
double-mod m a p =
    ap (λ x. x % (2 * m)) split
    ∙ add-mul-mod_self_left (a % m * 2) (2 * m) (a / m)
    ∙ mod-eq_of_lt (omega (arith, mod-lt a p))
  where
    split : a * 2 ≡ a % m * 2 + 2 * m * (a / m)
    split = omega (arith, div-add-mod a m, mul_assoc 2 m (a / m))

mod-double_mod : (m a : ℕ) → a % (2 * m) % m ≡ a % m
mod-double_mod m a =
    sym (add-mul-mod_self_left (a % (2 * m)) m (2 * (a / (2 * m)))) ∙ ap (λ x. x % m) split
  where
    split : a % (2 * m) + m * (2 * (a / (2 * m))) ≡ a
    split = omega (
      arith,
      div-add-mod a (2 * m),
      sym (mul_assoc m 2 (a / (2 * m))),
      ap (λ x. x * (a / (2 * m))) (mul_comm m 2),
    )

-- The operand, shifted by so many places in the width.
abbrev pub shifted : ℕ → Bool → ℕ → ℕ → ℕ
shifted width right x n = if right then x % 2 ^ width / 2 ^ n else x * 2 ^ n % 2 ^ width

abbrev once : ℕ → Bool → ℕ → ℕ
once width right y = if right then shift_right_by_1 width y else shift_left_by_1 width y

once-shifted :
    (w : ℕ) (right : Bool) (x n : ℕ)
    → once (suc w) right (shifted (suc w) right x n) ≡ shifted (suc w) right x (suc n)
unfolding shift_left_by_1 shift_right_by_1
once-shifted w true x n =
    div-div-eq-div-mul (x % 2 ^ suc w) (2 ^ n) 2 ∙ ap (λ p. x % 2 ^ suc w / p) (sym (pow-suc 2 n))
once-shifted w false x n =
    ap (λ k. a % 2 ^ suc w % 2 ^ k * 2) less
    ∙ ap (λ p. a % p % 2 ^ w * 2) (pow-succ' 2 w)
    ∙ ap (λ y. y * 2) (mod-double_mod (2 ^ w) a)
    ∙ sym (double-mod (2 ^ w) a (one-le-pow w 2 (omega arith)))
    ∙ ap (λ p. a * 2 % p) (sym (pow-succ' 2 w))
    ∙ ap (λ b. b % 2 ^ suc w) twice
  where
    a : ℕ
    a = x * 2 ^ n

    less : suc w - 1 ≡ w
    less = omega arith

    twice : x * 2 ^ n * 2 ≡ x * 2 ^ suc n
    twice = mul_assoc x (2 ^ n) 2 ∙ ap (λ p. x * p) (sym (pow-suc 2 n))

none-shifted : (w : ℕ) (right : Bool) (x : ℕ) → trunc w x ≡ shifted w right x 0
none-shifted w true x = omega arith
none-shifted w false x = ap (λ y. y % 2 ^ w) (sym (mul-one x))

-- The counter goes down by one.
decrement : (sw n : ℕ) → suc n < 2 ^ sw → (suc n + 2 ^ sw - 1) % 2 ^ sw ≡ n
decrement sw n h =
    ap (λ y. y % 2 ^ sw) split
    ∙ add-mul-mod_self_left n (2 ^ sw) 1
    ∙ mod-eq_of_lt (omega (arith, h))
  where
    split : suc n + 2 ^ sw - 1 ≡ n + 2 ^ sw * 1
    split = omega arith

-- The shifter still has to shift by `left` places and one, and has already by `gone`.
record IsShifting (width sw : ℕ) (right : Bool) (x left gone : ℕ) (r : ShifterRegs) : Type 0 where
  state : r.state ≡ shift
  count : r.count ≡ suc left
  fits : suc left < 2 ^ sw
  direction : r.direction ≡ right
  content : r.shift_reg ≡ shifted width right x gone

-- It has shifted, and waits for the next unit.
pub record IsShifted (width : ℕ) (right : Bool) (x n : ℕ) (r : ShifterRegs) : Type 0 where
  pub valid : (shifter_outputs r).o_valid ≡ true
  pub ready : (shifter_outputs r).o_ready ≡ false
  pub content : (shifter_outputs r).content ≡ shifted width right x n

module _ (w sw : ℕ) (right : Bool) (x : ℕ) where
  start-IsShifting :
      (n : ℕ) (r : ShifterRegs) (i : ShifterInput)
      → r.state ≡ idle
      → i.i_valid ≡ true
      → i.content ≡ x
      → i.sdir ≡ right
      → trunc sw i.shift ≡ suc n
      → suc n < 2 ^ sw
      → IsShifting (suc w) sw right x n 0 (shifter_cycle (suc w) sw r i)
  unfolding shifter_cycle next_control next_count next_shift
  start-IsShifting n r i s v c d e f = record {
    state = ground (arith, s, v, e);
    count = ground (arith, s, e);
    fits = f;
    direction = ground (arith, s, d);
    content =
        (let t : next_shift (suc w) r i ≡ trunc (suc w) i.content = ground (arith, s) in t)
        ∙ ap (trunc (suc w)) c
        ∙ none-shifted (suc w) right x;
  }

  start-IsShifted :
      (r : ShifterRegs) (i : ShifterInput)
      → r.state ≡ idle
      → i.i_valid ≡ true
      → i.content ≡ x
      → i.sdir ≡ right
      → trunc sw i.shift ≡ 0
      → IsShifted (suc w) right x 0 (shifter_cycle (suc w) sw r i)
  unfolding shifter_cycle next_control next_count next_shift shifter_outputs
  start-IsShifted r i s v c d e = record {
    valid = ground (arith, s, v, e);
    ready = ground (arith, s, v, e);
    content =
        (let t : next_shift (suc w) r i ≡ trunc (suc w) i.content = ground (arith, s) in t)
        ∙ ap (trunc (suc w)) c
        ∙ none-shifted (suc w) right x;
  }

  -- What a clock makes of the register while it shifts.
  shifts-once :
      (left gone : ℕ) (r : ShifterRegs) (i : ShifterInput)
      → IsShifting (suc w) sw right x left gone r
      → next_shift (suc w) r i ≡ shifted (suc w) right x (suc gone)
  unfolding next_shift
  shifts-once left gone r i h =
      (let t : next_shift (suc w) r i ≡ once (suc w) r.direction r.shift_reg =
          ground (arith, h.state) in
        t)
      ∙ ap₂ (once (suc w)) h.direction h.content
      ∙ once-shifted w right x gone

  counts-down :
      (left gone : ℕ) (r : ShifterRegs) (i : ShifterInput)
      → IsShifting (suc w) sw right x left gone r
      → next_count sw r i ≡ left
  unfolding next_count
  counts-down left gone r i h =
      (let t : next_count sw r i ≡ (r.count + 2 ^ sw - 1) % 2 ^ sw = ground (arith, h.state) in t)
      ∙ ap (λ c. (c + 2 ^ sw - 1) % 2 ^ sw) h.count
      ∙ decrement sw left h.fits

  next-IsShifting :
      (left gone : ℕ) (r : ShifterRegs) (i : ShifterInput)
      → IsShifting (suc w) sw right x (suc left) gone r
      → IsShifting (suc w) sw right x left (suc gone) (shifter_cycle (suc w) sw r i)
  unfolding shifter_cycle next_control
  next-IsShifting left gone r i h =
      let c = counts-down (suc left) gone r i h in
      record {
        state = ground (arith, h.state, c);
        count = c;
        fits = omega (arith, h.fits);
        direction = ground (arith, h.state, h.direction);
        content = shifts-once (suc left) gone r i h;
      }

  last-IsShifted :
      (gone : ℕ) (r : ShifterRegs) (i : ShifterInput)
      → IsShifting (suc w) sw right x 0 gone r
      → IsShifted (suc w) right x (suc gone) (shifter_cycle (suc w) sw r i)
  unfolding shifter_cycle next_control shifter_outputs
  last-IsShifted gone r i h =
      let c = counts-down 0 gone r i h in
      record {
        valid = ground (arith, h.state, c);
        ready = ground (arith, h.state, c);
        content = shifts-once 0 gone r i h;
      }

  run-IsShifted :
      (left gone n : ℕ) (r : ShifterRegs) (ys : List ShifterInput)
      → length ys ≡ suc left
      → n ≡ gone + suc left
      → IsShifting (suc w) sw right x left gone r
      → IsShifted (suc w) right x n (shifter_run (suc w) sw r ys)
  unfolding shifter_run
  run-IsShifted zero gone n r (y ∷ []) l e h =
      let s : n ≡ suc gone = omega arith in
      subst (λ m. IsShifted (suc w) right x m (shifter_cycle (suc w) sw r y)) (sym s)
        (last-IsShifted gone r y h)
  run-IsShifted zero gone n r [] l e h = ground (arith, l)
  run-IsShifted zero gone n r (y ∷ (z ∷ ys)) l e h = ground (arith, l)
  run-IsShifted (suc left) gone n r [] l e h = ground (arith, l)
  run-IsShifted (suc left) gone n r (y ∷ ys) l e h =
      run-IsShifted left (suc gone) n (shifter_cycle (suc w) sw r y) ys (omega (arith, l))
        (omega arith) (next-IsShifting left gone r y h)

  still_shifting :
      (left gone : ℕ) (r : ShifterRegs) (ys : List ShifterInput)
      → length ys ≤ left
      → IsShifting (suc w) sw right x left gone r
      → (shifter_outputs (shifter_run (suc w) sw r ys)).o_valid ≡ false
  unfolding shifter_run shifter_outputs
  still_shifting left gone r [] l h = ground (arith, h.state)
  still_shifting zero gone r (y ∷ ys) l h = ground (arith, l)
  still_shifting (suc left) gone r (y ∷ ys) l h =
      still_shifting left (suc gone) (shifter_cycle (suc w) sw r y) ys (omega (arith, l))
        (next-IsShifting left gone r y h)

-- The same for any shift: the result is there after exactly as many clocks as places.
module _ (w sw : ℕ) (r : ShifterRegs) (i : ShifterInput) (idle_state : r.state ≡ idle)
    (valid : i.i_valid ≡ true) where
  abbrev taken : ShifterRegs
  taken = shifter_cycle (suc w) sw r i

  runs_to :
      (n : ℕ) (ys : List ShifterInput)
      → trunc sw i.shift ≡ n
      → length ys ≡ n
      → IsShifted (suc w) i.sdir i.content n (shifter_run (suc w) sw taken ys)
  unfolding shifter_run
  runs_to zero [] e l = start-IsShifted w sw i.sdir i.content r i idle_state valid refl refl e
  runs_to zero (y ∷ ys) e l = ground (arith, l)
  runs_to (suc n) ys e l =
      run-IsShifted w sw i.sdir i.content n 0 (suc n) taken ys l (omega arith)
        (start-IsShifting w sw i.sdir i.content n r i idle_state valid refl refl e (counted n e))
    where
      counted : (n : ℕ) → trunc sw i.shift ≡ suc n → suc n < 2 ^ sw
      counted n e = omega (arith, e, mod-lt i.shift (one-le-pow sw 2 (omega arith)))

  waits_until :
      (n : ℕ) (xs : List ShifterInput)
      → trunc sw i.shift ≡ n
      → length xs < n
      → (shifter_outputs (shifter_run (suc w) sw taken xs)).o_valid ≡ false
  waits_until zero xs e l = ground (arith, l)
  waits_until (suc n) xs e l =
      still_shifting w sw i.sdir i.content n 0 taken xs (omega (arith, l))
        (start-IsShifting w sw i.sdir i.content n r i idle_state valid refl refl e (counted n e))
    where
      counted : (n : ℕ) → trunc sw i.shift ≡ suc n → suc n < 2 ^ sw
      counted n e = omega (arith, e, mod-lt i.shift (one-le-pow sw 2 (omega arith)))

  valid_when :
      (xs : List ShifterInput)
      → length xs ≤ trunc sw i.shift
      → (shifter_outputs (shifter_run (suc w) sw taken xs)).o_valid
        ≡ (length xs == trunc sw i.shift)
  valid_when xs l = elim (Bool-cases (length xs == trunc sw i.shift)) [
    | inl e ↦ (runs_to (trunc sw i.shift) xs refl (ground (arith, e))).valid ∙ sym e
    | inr e ↦ waits_until (trunc sw i.shift) xs refl (ground (arith, e, l)) ∙ sym e
  ]

-- An idle shifter is given an operand, with a shift by n places as its counter reads it. After no more
-- than n further clocks it offers a result exactly if they are n, and then this is the operand
-- shifted by n places, to the left modulo 2 ^ width or to the right, and the shifter takes no other
-- operand, whatever the inputs in between.
pub run-IsShifted_after :
    (w sw : ℕ) (r : ShifterRegs) (i : ShifterInput) (xs ys : List ShifterInput)
    → r.state ≡ idle
    → i.i_valid ≡ true
    → length xs ≤ trunc sw i.shift
    → length ys ≡ trunc sw i.shift
    → ((shifter_outputs (shifter_run (suc w) sw (shifter_cycle (suc w) sw r i) xs)).o_valid
        ≡ (length xs == trunc sw i.shift))
      × IsShifted
          (suc w)
          i.sdir
          i.content
          (trunc sw i.shift)
          (shifter_run (suc w) sw (shifter_cycle (suc w) sw r i) ys)
run-IsShifted_after w sw r i xs ys s v before after =
    (valid_when w sw r i s v xs before, runs_to w sw r i s v (trunc sw i.shift) ys refl after)
