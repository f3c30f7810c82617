-- ===== src/Trap/Isa.antt =====
-- The openpower numbers of the bits that fu/trap/main_stage.py takes from the openpower package, and
-- words for a machine state register.
use libresoc_soc.Common.{ℕ, ◌-◌, ◌≡◌, Bool, true, ◌&&◌, ◌||◌, leb, ltb}
use libresoc_soc.Trap.Types.{Register, MsrBits, PiBits, Consts}

abbrev pub isa_msr : MsrBits
isa_msr = record {
  sf = 63;
  hv = 60;
  und = 58;
  tm = 32;
  vec = 25;
  vsx = 23;
  ee = 15;
  pr = 14;
  fp = 13;
  me = 12;
  fe0 = 11;
  tes = 10;
  tee = 9;
  fe1 = 8;
  ir = 5;
  dr = 4;
  pmm = 3;
  ri = 1;
  le = 0;
}

abbrev pub isa_pi : PiBits
isa_pi = record { trap = 17; priv = 18; fp = 20; adr = 16; invalid = 30; permerr = 28; illeg = 19 }

-- The package gives these numbers, and numbers a field from the top bit down.
pub record IsIsa (k : Consts) : Type 0 where
  pub msr : k.msr ≡ isa_msr
  pub pi : k.pi ≡ isa_pi
  pub field : (n : ℕ) → k.field n ≡ 63 - n

-- The bits that an interrupt saves and a return restores.
abbrev pub full : ℕ → Bool
full n = (leb 31 n && ltb n 64) || ((leb 22 n && ltb n 27) || (leb 0 n && ltb n 16))

-- In the problem state external interrupts and both relocations are on.
pub record IsProper (msr : Register) : Type 0 where
  pub ee : msr 14 ≡ true → msr 15 ≡ true
  pub ir : msr 14 ≡ true → msr 5 ≡ true
  pub dr : msr 14 ≡ true → msr 4 ≡ true
