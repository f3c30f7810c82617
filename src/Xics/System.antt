-- ===== src/Xics/System.antt =====
-- The two halves of interrupts/xics.py wired together, `icp.ics_i` to `ics.icp_o`, as
-- simple/issuer.py does, with the processor's register of the interrupt, `cur_state.eint`: one clock,
-- and clocks in which no bus request is made.
use libresoc_soc.Common.{ℕ, zero, suc, Bool, false}
use libresoc_soc.Xics.Types.{WbRequest}
use libresoc_soc.Xics.Icp.{IcpState, icp_cycle}
use libresoc_soc.Xics.Ics.{IcsState, ics_cycle}

pub record XicsState : Type 0 where
  pub ics : IcsState
  pub icp : IcpState
  pub eint : Bool

unfoldable pub xics_cycle : XicsState → WbRequest → WbRequest → ℕ → XicsState
xics_cycle s ics_bus icp_bus int_level_i = record {
  ics = ics_cycle s.ics ics_bus int_level_i;
  icp = icp_cycle s.icp icp_bus s.ics.icp_o;
  eint = s.icp.core_irq_o;
}

abbrev pub quiet_bus : WbRequest
quiet_bus = record { cyc = false; stb = false; we = false; adr = 0; sel = 0; dat_w = 0 }

-- Cycles with the same interrupt inputs and no bus request.
unfoldable pub settle : ℕ → ℕ → XicsState → XicsState
unfolding xics_cycle
settle zero level s = s
settle (suc n) level s = settle n level (xics_cycle s quiet_bus quiet_bus level)
