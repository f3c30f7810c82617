-- ===== src/Divide/Signed.antt =====
-- Division of the operands as signed or unsigned numbers of w bits, and what the sign does to the
-- bits of a quotient.
use libresoc_soc.Common.{ℕ, ◌-◌, ◌%◌, ◌^◌, ◌<◌, ◌≡◌, arith}
use libresoc_soc.Common.{
  Bool, true, not, ◌&&◌, xor, leb, ltb, bit, slice, trunc, sub, if◌then◌else◌,
}

-- The sign and the magnitude of an operand of w bits.
abbrev pub is_negative : ℕ → Bool → ℕ → Bool
is_negative w is_signed x = bit x (w - 1) && is_signed

abbrev pub magnitude : ℕ → Bool → ℕ → ℕ
magnitude w is_signed x = if is_negative w is_signed x then 2 ^ w - x % 2 ^ w else x % 2 ^ w

-- The number of w bits with this sign and magnitude.
abbrev pub encode : ℕ → Bool → ℕ → ℕ
encode w negative m = if negative then (2 ^ w - m) % 2 ^ w else m

-- Whether a quotient with this sign and magnitude is a number of w bits, signed or not.
abbrev pub fits : ℕ → Bool → Bool → ℕ → Bool
fits w is_signed negative m =
    if is_signed
    then (if negative then leb m (2 ^ (w - 1)) else ltb m (2 ^ (w - 1)))
    else ltb m (2 ^ w)

abbrev pub with_sign : Bool → ℕ → ℕ
with_sign n q = if n then sub 65 0 q else q

pub ov_64 :
    (s n : Bool) (q : ℕ)
    → q < 2 ^ 64
    → (s && xor (bit (with_sign n q) 64) (bit (with_sign n q) 63)) ≡ not (fits 64 s n q)
ov_64 s n q h = ground arith

pub ov_32 :
    (n : Bool) (q : ℕ)
    → q < 2 ^ 32
    → xor (bit (with_sign n q) 32) (bit (with_sign n q) 31) ≡ not (fits 32 true n q)
ov_32 n q h = ground arith

pub low_64 : (n : Bool) (q : ℕ) → q < 2 ^ 64 → trunc 64 (with_sign n q) ≡ encode 64 n q
low_64 n q h = ground arith

pub low_32 : (n : Bool) (q : ℕ) → q < 2 ^ 32 → slice (with_sign n q) 0 32 ≡ encode 32 n q
low_32 n q h = ground arith
