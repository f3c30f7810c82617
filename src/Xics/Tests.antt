-- ===== src/Xics/Tests.antt =====
-- Runs of interrupts/xics.py at concrete inputs: source 1 at priority 0xf0, a processor at 0xfe.
use libresoc_soc.Common.{ℕ, zero, suc, ◌<◌, ◌≡◌, ◌↔◌, ◌⊎◌, refl, arith}
use libresoc_soc.Common.{true, false, List, ◌∷◌, get_or, replicate}
use libresoc_soc.Xics.Types.{WbRequest}
use libresoc_soc.Xics.Icp.{IcpState, icp_cycle, icp_dat_r, xirr_accept_rd, is_write}
use libresoc_soc.Xics.Ics.{IcsState, ics_cycle}
use libresoc_soc.Xics.Presentation.{IsWellFormed, IsFirst, IsLeast, ics_cycle-IsFirst}
use libresoc_soc.Xics.Acceptance.{IsWord, icp_cycle-restores}
use libresoc_soc.Xics.Response.{IsPending, settle-irq}
use libresoc_soc.Xics.System.{settle, quiet_bus}

abbrev one_source : List ℕ
one_source = 0xff ∷ 0xf0 ∷ replicate 14 0xff

abbrev ics : IcsState
ics = record {
  xives = one_source;
  int_level_l = 2;
  icp_o = record { src = 0; pri = 0xff };
  dat_r = 0;
  ack = false;
}

abbrev icp : IcpState
icp = record {
  r = record { xisr = 17; cppr = 0xfe; mfrr = 0xff; irq = true; wb_rd_data = 0; wb_ack = false };
  core_irq_o = true;
}

abbrev read_xirr : WbRequest
read_xirr = record { cyc = true; stb = true; we = false; adr = 1; sel = 15; dat_w = 0 }

abbrev write_xirr : WbRequest
write_xirr = record { cyc = true; stb = true; we = true; adr = 1; sel = 15; dat_w = 0x110000fe }

irq_raised : (settle 5 2 (record { ics = ics; icp = icp; eint = false })).eint ≡ true
unfolding settle ics_cycle icp_cycle
irq_raised = refl

masked_below : (n j : ℕ) → get_or (replicate n 0xff) j 0 < 256
masked_below zero j = omega arith
masked_below (suc n) zero = omega arith
masked_below (suc n) (suc j) = masked_below n j

xives_below : (j : ℕ) → get_or one_source j 0 < 256
xives_below zero = omega arith
xives_below (suc zero) = omega arith
xives_below (suc (suc j)) = masked_below 14 j

ics-IsWellFormed : IsWellFormed ics
ics-IsWellFormed = record { sources = refl; priorities = xives_below }

ics_cycle-IsFirst_example :
    IsLeast 2 one_source (ics_cycle ics quiet_bus 2).icp_o.pri
    × (((ics_cycle ics quiet_bus 2).icp_o ≡ record { src = 0; pri = 0xff })
        ⊎ IsFirst 2 one_source (ics_cycle ics quiet_bus 2).icp_o)
    × IsWellFormed (ics_cycle ics quiet_bus 2)
ics_cycle-IsFirst_example = ics_cycle-IsFirst ics quiet_bus 2 ics-IsWellFormed

settle-irq_example :
    ((settle 5 2 (record { ics = ics; icp = icp; eint = false })).eint ≡ true)
    ↔ IsPending 0xfe 0xff one_source 2
settle-irq_example = settle-irq (record { ics = ics; icp = icp; eint = false }) 2 (omega arith)

icp-IsWord : IsWord icp.r
icp-IsWord = record { xisr_fits = omega arith; cppr_fits = omega arith }

read_accepts : xirr_accept_rd read_xirr ≡ true
unfolding xirr_accept_rd
read_accepts = refl

word_read :
    0x110000fe ≡ icp_dat_r (icp_cycle icp read_xirr (record { src = 1; pri = 0xf0 })) read_xirr
unfolding icp_dat_r icp_cycle
word_read = refl

write_is_write : is_write write_xirr ≡ true
unfolding is_write
write_is_write = refl

icp_cycle-restores_example :
    (icp_cycle icp write_xirr (record { src = 0; pri = 0xff })).r.cppr ≡ 0xfe
icp_cycle-restores_example =
    icp_cycle-restores icp icp read_xirr read_xirr write_xirr (record { src = 1; pri = 0xf0 })
      (record { src = 0; pri = 0xff }) icp-IsWord read_accepts refl write_is_write refl word_read
