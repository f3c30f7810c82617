-- ===== src/Xics/Ics.antt =====
-- The source controller `XICS_ICS` of interrupts/xics.py, for its defaults of 16 sources and 8
-- priority bits.
use libresoc_soc.Common.{ℕ, ◌+◌, Bool, ◌&&◌, ltb, ◌==◌, List, [], ◌∷◌, get_or, set}
use libresoc_soc.Common.{bit, b2n, slice, cat, if◌then◌else◌}
use libresoc_soc.Xics.Types.{IcsToIcp, WbRequest, bswap}

abbrev pub src_num : ℕ
src_num = 16

abbrev pub prio_bits : ℕ
prio_bits = 8

abbrev pub pri_masked : ℕ
pri_masked = 0xff

unfoldable pub prio_pack : ℕ → ℕ
prio_pack pri8 = slice pri8 0 prio_bits

unfoldable pub prio_unpack : ℕ → ℕ
prio_unpack pri = if pri == pri_masked then 0xff else slice pri 0 prio_bits

abbrev pub a_mf_b : ℕ → ℕ → Bool
a_mf_b a b = ltb a b

-- `xives` lists the priorities of the sources.
pub record IcsState : Type 0 where
  pub xives : List ℕ
  pub int_level_l : ℕ
  pub icp_o : IcsToIcp
  pub dat_r : ℕ
  pub ack : Bool

-- The chain over the sources i, i + 1, …, from the choice made so far.
unfoldable pub arbitrate : ℕ → ℕ → List ℕ → IcsToIcp → IcsToIcp
arbitrate level i [] best = best
arbitrate level i (p ∷ ps) best =
    arbitrate level (i + 1) ps
      (if bit level i && a_mf_b p best.pri then record { src = i; pri = p } else best)

unfoldable pub icp_o_next : IcsState → IcsToIcp
unfolding arbitrate prio_unpack
icp_o_next s =
    let best = arbitrate s.int_level_l 0 s.xives (record { src = 0; pri = pri_masked }) in
    record { src = best.src; pri = prio_unpack best.pri }

abbrev pub reg_is_xive : WbRequest → Bool
reg_is_xive b = bit b.adr 9

abbrev pub reg_is_config : WbRequest → Bool
reg_is_config b = slice b.adr 0 10 == 0x0

abbrev pub reg_is_debug : WbRequest → Bool
reg_is_debug b = slice b.adr 0 10 == 0x4

abbrev pub reg_idx : WbRequest → ℕ
reg_idx b = slice b.adr 0 4

-- A XIVE register: the priority, and the input at bits 29 and 31.
unfoldable pub xive_word : IcsState → ℕ → ℕ
unfolding prio_unpack
xive_word s i =
    let ibit = b2n (bit s.int_level_l i) in
    cat 8 (prio_unpack (get_or s.xives i 0)) (cat 20 0 (cat 1 0 (cat 1 ibit (cat 1 0 ibit))))

unfoldable pub ics_be_out : IcsState → WbRequest → ℕ
unfolding xive_word icp_o_next
ics_be_out s b =
    if reg_is_xive b
    then xive_word s (reg_idx b)
    else if reg_is_config b
    then cat 24 src_num (cat 4 prio_bits 0)
    else if reg_is_debug b
    then cat 8 (icp_o_next s).pri (cat 20 0 (icp_o_next s).src)
    else 0

unfoldable pub ics_write : IcsState → WbRequest → List ℕ
unfolding prio_pack bswap
ics_write s b =
    if b.cyc && b.stb && b.we && reg_is_xive b
    then set s.xives (reg_idx b) (prio_pack (slice (bswap b.dat_w) 0 8))
    else s.xives

-- One clock.
unfoldable pub ics_cycle : IcsState → WbRequest → ℕ → IcsState
unfolding ics_be_out ics_write icp_o_next bswap
ics_cycle s b int_level_i = record {
  xives = ics_write s b;
  int_level_l = int_level_i;
  icp_o = icp_o_next s;
  dat_r = bswap (ics_be_out s b);
  ack = b.cyc && b.stb;
}
