-- ===== src/Xics/Response.antt =====
-- How interrupts/xics.py, wired as in simple/issuer.py, answers its interrupt inputs.
use Prim.Native.Nat.{min}
use libresoc_soc.Common.{ℕ, ◌≤◌, ◌<◌, ◌≡◌, ◌↔◌, ◌⊎◌, inl, inr, refl, ap, arith}
use libresoc_soc.Common.{true, ltb, bit, get_or, length, List, Bool-cases}
use libresoc_soc.Xics.Types.{IcsToIcp}
use libresoc_soc.Xics.Icp.{RegInternal, r_next, icp_cycle, written, is_write, min_pri}
use libresoc_soc.Xics.Ics.{IcsState, ics_cycle, icp_o_next, ics_write}
use libresoc_soc.Xics.System.{XicsState, xics_cycle, settle, quiet_bus}
use libresoc_soc.Xics.Presentation.{IsFirst, least, chosen}
use libresoc_soc.Xics.Acceptance.{min_pri-min}

-- What is presented once the inputs have been latched.
abbrev shown : ℕ → IcsState → IcsToIcp
shown level s = icp_o_next (record s { int_level_l = level })

shown-cycle : (s : IcsState) (level : ℕ) → icp_o_next (ics_cycle s quiet_bus level) ≡ shown level s
unfolding ics_cycle icp_o_next ics_write
shown-cycle s level = refl

presented :
    (s : IcsState) (level : ℕ)
    → (ics_cycle (ics_cycle s quiet_bus level) quiet_bus level).icp_o ≡ shown level s
presented s level = unfold ics_cycle in shown-cycle s level

min_pri-cong :
    (r r' : RegInternal) (i i' : IcsToIcp)
    → r.mfrr ≡ r'.mfrr
    → i ≡ i'
    → min_pri r i ≡ min r'.mfrr i'.pri
min_pri-cong r r' i i' e q = ground (arith, min_pri-min r i)

settle_irq :
    (s : XicsState) (level : ℕ)
    → (settle 5 level s).eint ≡ ltb (min s.icp.r.mfrr (shown level s.ics).pri) s.icp.r.cppr
unfolding settle icp_cycle xics_cycle
settle_irq s level =
    ap (λ (m : ℕ). ltb m s.icp.r.cppr)
      (min_pri-cong
        (r_next (r_next s.icp.r quiet_bus s.ics.icp_o) quiet_bus
          (ics_cycle s.ics quiet_bus level).icp_o)
        s.icp.r _ (shown level s.ics) (unfold r_next written is_write in refl)
        (presented s.ics level))

-- Something is pending that is more favoured than the priority: the request between processors, or
-- an active source.
abbrev pub IsPending : ℕ → ℕ → List ℕ → ℕ → Type 0
IsPending cppr mfrr xives level =
    (mfrr < cppr)
    ⊎ ((j : ℕ) × (j < length xives) × (bit level j ≡ true) × (get_or xives j 0 < cppr))

source-IsPending :
    (s : IcsState) (level cppr mfrr : ℕ)
    → cppr ≤ 0xff
    → (shown level s).pri < cppr
    → IsPending cppr mfrr s.xives level
source-IsPending s level cppr mfrr small h = from (chosen (record s { int_level_l = level }))
  where
    from :
        (shown level s ≡ record { src = 0; pri = 0xff }) ⊎ IsFirst level s.xives (shown level s)
        → IsPending cppr mfrr s.xives level
    from (inl e) = absurd (omega (arith, ap (λ (i : IcsToIcp). i.pri) e))
    from (inr f) = inr ((shown level s).src, f.in_range, f.active, omega (arith, f.priority))

pending_shown :
    (s : IcsState) (level cppr mfrr : ℕ)
    → IsPending cppr mfrr s.xives level
    → min mfrr (shown level s).pri < cppr
pending_shown s level cppr mfrr (inl h) = omega arith
pending_shown s level cppr mfrr (inr q) =
    omega (arith, least (record s { int_level_l = level }) q.0 q.1 q.2, q.3)

IsPending-of :
    (s : IcsState) (level cppr mfrr : ℕ)
    → cppr ≤ 0xff
    → min mfrr (shown level s).pri < cppr
    → IsPending cppr mfrr s.xives level
IsPending-of s level cppr mfrr small h = elim (Bool-cases (ltb mfrr cppr)) [
  | inl p ↦ inl (ground arith)
  | inr p ↦ source-IsPending s level cppr mfrr small (ground arith)
]

-- Five clocks after the interrupt inputs have become steady, with no request on either bus in these
-- clocks, the processor's register of the interrupt, `cur_state.eint`, is set exactly when the request between processors or an active source is more
-- favoured than its priority. The registers may hold anything before.
pub settle-irq :
    (s : XicsState) (level : ℕ)
    → s.icp.r.cppr ≤ 0xff
    → ((settle 5 level s).eint ≡ true) ↔ IsPending s.icp.r.cppr s.icp.r.mfrr s.ics.xives level
settle-irq s level small = rw (settle_irq s level) (
  λ e. IsPending-of s.ics level s.icp.r.cppr s.icp.r.mfrr small (ground arith),
  λ p. let q = pending_shown s.ics level s.icp.r.cppr s.icp.r.mfrr p in ground arith,
)
