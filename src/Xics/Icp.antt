-- ===== src/Xics/Icp.antt =====
-- The presentation controller `XICS_ICP` of interrupts/xics.py.
use libresoc_soc.Common.{ℕ, Bool, false, not, ◌&&◌, ltb, ◌==◌, ◌*◌, ◌^◌, slice, cat, if◌then◌else◌}
use libresoc_soc.Xics.Types.{IcsToIcp, WbRequest, bswap}

-- Word addresses.
abbrev pub xirr_poll : ℕ
xirr_poll = 0

abbrev pub xirr : ℕ
xirr = 1

abbrev pub mfrr_adr : ℕ
mfrr_adr = 3

pub record RegInternal : Type 0 where
  pub xisr : ℕ
  pub cppr : ℕ
  pub mfrr : ℕ
  pub irq : Bool
  pub wb_rd_data : ℕ
  pub wb_ack : Bool

-- The reset masks every interrupt.
unfoldable pub reset : RegInternal
reset = record { xisr = 0; cppr = 0; mfrr = 0xff; irq = false; wb_rd_data = 0; wb_ack = false }

unfoldable pub is_write : WbRequest → Bool
is_write b = b.cyc && b.stb && b.we

unfoldable pub is_read : WbRequest → Bool
is_read b = b.cyc && b.stb && not b.we

-- A read of the whole XIRR word accepts the interrupt.
unfoldable pub xirr_accept_rd : WbRequest → Bool
unfolding is_read
xirr_accept_rd b = is_read b && slice b.adr 0 6 == xirr && b.sel == 0xf

unfoldable pub be_out : RegInternal → WbRequest → ℕ
unfolding is_read
be_out r b =
    let adr = slice b.adr 0 6 in
    if is_read b
    then (if adr == xirr_poll
        then cat 24 r.xisr r.cppr
        else if adr == xirr
        then cat 24 r.xisr r.cppr
        else if adr == mfrr_adr
        then r.mfrr * 2 ^ 24
        else 0)
    else 0

-- The write to CPPR and MFRR.
unfoldable pub written : RegInternal → WbRequest → RegInternal
unfolding is_write bswap
written r b =
    let adr = slice b.adr 0 6 in
    let top = slice (bswap b.dat_w) 24 32 in
    if is_write b
    then (if adr == xirr_poll
        then record r { cppr = top }
        else if adr == xirr
        then record r { cppr = top }
        else if adr == mfrr_adr
        then record r { mfrr = top }
        else r)
    else r

unfoldable pub pending_priority : IcsToIcp → ℕ
pending_priority i = if not (i.pri == 0xff) then i.pri else 0xff

unfoldable pub min_pri : RegInternal → IcsToIcp → ℕ
unfolding pending_priority
min_pri r i = if ltb r.mfrr (pending_priority i) then r.mfrr else pending_priority i

-- `r_next`.
unfoldable pub r_next : RegInternal → WbRequest → IcsToIcp → RegInternal
unfolding written min_pri pending_priority xirr_accept_rd be_out bswap
r_next r b i =
    let v = written r b in
    let cppr = if xirr_accept_rd b then min_pri r i else v.cppr in
    record v {
      cppr = cppr;
      wb_ack = b.cyc && b.stb;
      xisr =
          if ltb r.mfrr (pending_priority i)
          then 2
          else if not (i.pri == 0xff)
          then cat 4 i.src 1
          else 0;
      wb_rd_data = bswap (be_out r b);
      irq = ltb (min_pri r i) cppr;
    }

pub record IcpState : Type 0 where
  pub r : RegInternal
  pub core_irq_o : Bool

-- One clock.
unfoldable pub icp_cycle : IcpState → WbRequest → IcsToIcp → IcpState
unfolding r_next
icp_cycle s b i = record { r = r_next s.r b i; core_irq_o = s.r.irq }

-- The Wishbone answer in a cycle.
unfoldable pub icp_ack : IcpState → WbRequest → Bool
icp_ack s b = s.r.wb_ack && b.cyc

unfoldable pub icp_dat_r : IcpState → WbRequest → ℕ
unfolding icp_ack
icp_dat_r s b = if icp_ack s b then s.r.wb_rd_data else 0
