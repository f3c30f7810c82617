-- ===== src/Common/Word.antt =====
-- The signals of the hardware description: a signal of w bits is a number below 2 ^ w, a signal
-- of one bit is a Boolean. Slices, concatenation, inversion and truncation are arithmetic.
use Prim.Native.Nat.{ℕ, ◌+◌, ◌-◌, ◌*◌, ◌/◌, ◌%◌, ◌^◌}
use mathlib.Core.Bool.{Bool, true, false, not}
use libresoc_soc.Common.Tests.{◌==◌}

-- `x[i]`.
abbrev pub bit : ℕ → ℕ → Bool
bit x i = x / 2 ^ i % 2 == 1

-- `x[lo:hi]`.
abbrev pub slice : ℕ → ℕ → ℕ → ℕ
slice x lo hi = x / 2 ^ lo % 2 ^ (hi - lo)

-- A signal of one bit, read as a number.
abbrev pub b2n : Bool → ℕ
b2n true = 1
b2n false = 0

-- `Cat(lo, hi)` for a `lo` of w bits.
abbrev pub cat : ℕ → ℕ → ℕ → ℕ
cat w lo hi = lo + hi * 2 ^ w

-- `~x` on w bits.
abbrev pub inv : ℕ → ℕ → ℕ
inv w x = 2 ^ w - 1 - x

-- `Repl(b, w)`.
abbrev pub repl : ℕ → Bool → ℕ
repl w true = 2 ^ w - 1
repl w false = 0

-- An assignment to a signal of w bits drops the bits above.
abbrev pub trunc : ℕ → ℕ → ℕ
trunc w x = x % 2 ^ w

-- `x - y`, assigned to a signal of w bits, for a `y` of at most w bits.
abbrev pub sub : ℕ → ℕ → ℕ → ℕ
sub w x y = (x + 2 ^ w - y) % 2 ^ w

-- `a ^ b` on one bit.
abbrev pub xor : Bool → Bool → Bool
xor true b = not b
xor false b = b
