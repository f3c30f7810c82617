-- ===== src/Alu/Addition.antt =====
-- Additions and subtractions of fu/alu against arithmetic.
use libresoc_soc.Common.{ℕ, ◌+◌, ◌-◌, ◌*◌, ◌/◌, ◌%◌, ◌^◌, ◌≤◌, ◌<◌, ◌≡◌, arith}
use libresoc_soc.Common.{Bool, true, false, xor, ◌||◌, ltb, leb, bit, slice, b2n}
use libresoc_soc.Alu.MainStage.{add_of, calc_ov}

-- The adder's 66 bits hold the sum from bit 1 on.
pub add_of-sum :
    (a b : ℕ) (c : Bool)
    → a < 2 ^ 64
    → b < 2 ^ 64
    → add_of a b c ≡ 2 * (a + b + b2n c) + (1 - b2n c)
unfolding add_of
add_of-sum a b true ha hb = omega arith
add_of-sum a b false ha hb = omega arith

-- A bit of the sum that differs from both operands' bits is the carry into it.
pub carry_into_32 :
    (a b c : ℕ)
    → c ≤ 1
    → b2n (xor (bit (a + b + c) 32) (xor (bit a 32) (bit b 32)))
      ≡ (a % 2 ^ 32 + b % 2 ^ 32 + c) / 2 ^ 32
carry_into_32 a b c h = ground arith

top_of_sum :
    (n : ℕ) (c : ℕ)
    → n < 2 ^ 65
    → c ≤ 1
    → (bit (2 * n + c) 65 ≡ leb (2 ^ 64) n) × (slice (2 * n + c) 1 65 ≡ n % 2 ^ 64)
top_of_sum n c h k = (ground arith, omega arith)

-- Whether the sum of two signed numbers of w bits, and c, needs more than w bits: with 2 ^ (w - 1)
-- added to each number, it leaves the range of a number of w bits around 2 ^ w.
abbrev pub overflows : ℕ → ℕ → ℕ → ℕ → Bool
overflows w a b c =
    let sum = (a + 2 ^ (w - 1)) % 2 ^ w + (b + 2 ^ (w - 1)) % 2 ^ w + c in
    ltb sum (2 ^ (w - 1)) || leb (2 ^ (w - 1) + 2 ^ w) sum

pub calc_ov-overflows :
    (a b c : ℕ)
    → a < 2 ^ 64
    → b < 2 ^ 64
    → c ≤ 1
    → calc_ov (bit a 63) (bit b 63) (leb (2 ^ 64) (a + b + c)) (bit (a + b + c) 63)
      ≡ overflows 64 a b c
unfolding calc_ov
calc_ov-overflows a b c ha hb hc = ground arith

pub calc_ov-overflows32 :
    (a b c : ℕ)
    → c ≤ 1
    → calc_ov
        (bit a 31)
        (bit b 31)
        (xor (bit (a + b + c) 32) (xor (bit a 32) (bit b 32)))
        (bit (a + b + c) 31)
      ≡ overflows 32 (a % 2 ^ 32) (b % 2 ^ 32) c
unfolding calc_ov
calc_ov-overflows32 a b c hc = ground arith

-- The bits that the stage looks at, from the sum.
module _ (a b : ℕ) (c : Bool) (ha : a < 2 ^ 64) (hb : b < 2 ^ 64) where
  abbrev total : ℕ
  total = a + b + b2n c

  pub b2n-le : b2n c ≤ 1
  b2n-le = ground arith

  pub bit_65 : bit (add_of a b c) 65 ≡ leb (2 ^ 64) total
  bit_65 =
      rw (add_of-sum a b c ha hb)
        (top_of_sum total (1 - b2n c) (omega (arith, b2n-le)) (omega arith)).0

  pub low : slice (add_of a b c) 1 65 ≡ total % 2 ^ 64
  low = omega (arith, add_of-sum a b c ha hb)

  pub bit_64 : bit (add_of a b c) 64 ≡ bit total 63
  bit_64 = ground (arith, add_of-sum a b c ha hb)

  pub bit_33 : bit (add_of a b c) 33 ≡ bit total 32
  bit_33 = ground (arith, add_of-sum a b c ha hb)

  pub bit_32 : bit (add_of a b c) 32 ≡ bit total 31
  bit_32 = ground (arith, add_of-sum a b c ha hb)
