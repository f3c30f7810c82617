-- ===== src/Xics/Acceptance.antt =====
-- What `XICS_ICP` of interrupts/xics.py does with the interrupt it is shown.
use Prim.Native.Nat.{min}
use libresoc_soc.Common.{
  ℕ, ◌+◌, ◌*◌, ◌^◌, ◌<◌, ◌≡◌, ◌↔◌, refl, ap, ◌∙◌, arith, true, false, ◌&&◌, slice, cat,
}
use libresoc_soc.Xics.Types.{IcsToIcp, WbRequest, bswap}
use libresoc_soc.Xics.Icp.{
  RegInternal, IcpState, r_next, icp_cycle, is_write, is_read, be_out, icp_dat_r, min_pri, written,
  xirr_accept_rd,
}

-- The most favoured of the interrupt shown and the inter-processor request.
pub min_pri-min : (r : RegInternal) (i : IcsToIcp) → min_pri r i ≡ min r.mfrr i.pri
unfolding min_pri
min_pri-min r i = ground arith

pub bswap-bswap : (x : ℕ) → x < 2 ^ 32 → bswap (bswap x) ≡ x
unfolding bswap
bswap-bswap x h = omega arith

-- After every clock `irq` says exactly whether something more favoured than the processor's
-- priority is pending, and bus requests are acknowledged one clock later.
r_next-irq :
    (r : RegInternal) (b : WbRequest) (i : IcsToIcp)
    → (((r_next r b i).irq ≡ true) ↔ (min r.mfrr i.pri < (r_next r b i).cppr))
      × ((r_next r b i).wb_ack ≡ (b.cyc && b.stb))
unfolding r_next
r_next-irq r b i = (ground (arith, min_pri-min r i), refl)

-- The fields of the word that is read back.
pub record IsWord (r : RegInternal) : Type 0 where
  pub xisr_fits : r.xisr < 2 ^ 24
  pub cppr_fits : r.cppr < 2 ^ 8

accept-read : (b : WbRequest) → xirr_accept_rd b ≡ true → (is_read b ≡ true) × (slice b.adr 0 6 ≡ 1)
unfolding xirr_accept_rd
accept-read b h = ground arith

accept-out :
    (r : RegInternal) (b : WbRequest) → xirr_accept_rd b ≡ true → be_out r b ≡ cat 24 r.xisr r.cppr
unfolding be_out
accept-out r b h = ground (arith, accept-read b h)

read-not-write : (b : WbRequest) → is_read b ≡ true → is_write b ≡ false
unfolding is_read is_write
read-not-write b h = ground arith

accept-data :
    (s : IcpState) (b b' : WbRequest) (i : IcsToIcp)
    → xirr_accept_rd b ≡ true
    → b'.cyc ≡ true
    → icp_dat_r (icp_cycle s b i) b' ≡ bswap (cat 24 s.r.xisr s.r.cppr)
unfolding icp_dat_r icp_cycle
accept-data s b b' i h c = ground (arith, accept-out s.r b h, accept-active b (accept-read b h).0)
  where
    accept-active : (b : WbRequest) → is_read b ≡ true → (b.cyc && b.stb) ≡ true
    accept-active b h = unfold is_read in ground arith

-- A 4-byte read of XIRR accepts the interrupt: the processor's priority becomes that of what is
-- pending, the interrupt is withdrawn, and the word read in the next clock names the source and the
-- priority from before.
icp_cycle-accept :
    (s : IcpState) (b b' : WbRequest) (i : IcsToIcp)
    → IsWord s.r
    → xirr_accept_rd b ≡ true
    → b'.cyc ≡ true
    → ((icp_cycle s b i).r.cppr ≡ min s.r.mfrr i.pri)
      × ((icp_cycle s b i).r.irq ≡ false)
      × (bswap (icp_dat_r (icp_cycle s b i) b') ≡ s.r.xisr + s.r.cppr * 2 ^ 24)
unfolding icp_cycle
icp_cycle-accept s b b' i f h c = (
  ground (arith, min_pri-min s.r i),
  ground arith,
  rw (accept-data s b b' i h c) (bswap-bswap _ (omega arith)),
)

write-not-accept : (b : WbRequest) → is_write b ≡ true → xirr_accept_rd b ≡ false
unfolding is_write xirr_accept_rd
write-not-accept b h = ground arith

write-cppr :
    (r : RegInternal) (b : WbRequest)
    → is_write b ≡ true
    → slice b.adr 0 6 ≡ 1
    → (written r b).cppr ≡ slice (bswap b.dat_w) 24 32
unfolding written
write-cppr r b h a = ground arith

-- The end of an interrupt: writing the word that the accepting read has returned to XIRR restores
-- the processor's priority from before it was accepted, whatever has happened in between.
pub icp_cycle-restores :
    (s t : IcpState) (b b' w : WbRequest) (i j : IcsToIcp)
    → IsWord s.r
    → xirr_accept_rd b ≡ true
    → b'.cyc ≡ true
    → is_write w ≡ true
    → slice w.adr 0 6 ≡ 1
    → w.dat_w ≡ icp_dat_r (icp_cycle s b i) b'
    → (icp_cycle t w j).r.cppr ≡ s.r.cppr
unfolding icp_cycle
icp_cycle-restores s t b b' w i j f h c iw a e =
    let word : bswap w.dat_w ≡ cat 24 s.r.xisr s.r.cppr =
      ap bswap (e ∙ accept-data s b b' i h c) ∙ bswap-bswap _ (omega arith) in
    ground (arith, write-not-accept w iw, write-cppr t.r w iw a, ap (λ (x : ℕ). slice x 24 32) word)
