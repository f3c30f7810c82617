-- ===== src/Xics/Types.antt =====
-- The records and the byte swap that both halves of interrupts/xics.py share.
use libresoc_soc.Common.{ℕ, Bool, slice, cat}

-- What the source side presents: the most favoured active interrupt.
pub record IcsToIcp : Type 0 where
  pub src : ℕ
  pub pri : ℕ

-- A Wishbone request; addresses count words.
pub record WbRequest : Type 0 where
  pub cyc : Bool
  pub stb : Bool
  pub we : Bool
  pub adr : ℕ
  pub sel : ℕ
  pub dat_w : ℕ

unfoldable pub bswap : ℕ → ℕ
bswap v = cat 8 (slice v 24 32) (cat 8 (slice v 16 24) (cat 8 (slice v 8 16) (slice v 0 8)))
