-- ===== src/LoadStore/System.antt =====
-- LoadStore1 of fu/ldst/loadstore.py with the memory management unit of experiment/mmu.py behind it,
-- joined as fu/mmu/fsm.py does: the link from the unit, which the move to a register of the memory
-- management unit and the invalidation of its entries, executed by fsm.py itself, drive over.
use libresoc_soc.Common.{ℕ, Bool, ◌≡◌, arith, true, false, List, [], ◌∷◌, ◌⊎◌, inl, inr}
use libresoc_soc.Mmu.Types.{RegStage, LoadStore1ToMmu, DCacheToMmu, Nmutil, idle, radix_finish}
use libresoc_soc.Mmu.Cycle.{MmuInput, rin, dispatch, completed, cleared}
use libresoc_soc.Mmu.Handlers.{radix_tree_idle, with_entry}
use libresoc_soc.Mmu.Outputs.{l_out}
use libresoc_soc.LoadStore.Types.{mmu_lookup, LdstRegs, LdstInput}
use libresoc_soc.LoadStore.Cycle.{
  ldst_cycle, ldst_outputs, mmureq, exc_happened, fsm_exception, ldst_fsm, ldst_mmu_lookup, busy_of,
}

-- What an instruction that fu/mmu/fsm.py executes asks of the memory management unit in a clock:
-- nothing, OP_MTSPR for a register of that unit, or OP_TLBIE. `blip` is set in its first clock.
pub data OwnRequest : Type 0 where
  no_request : OwnRequest
  mtspr_request : (blip : Bool) (sprn rs : ℕ) → OwnRequest
  tlbie_request : (blip : Bool) (sprn addr : ℕ) → OwnRequest

unfoldable pub mtspr_l_in : Bool → ℕ → ℕ → LoadStore1ToMmu → LoadStore1ToMmu
mtspr_l_in blip sprn rs l = record l { valid = blip; mtspr = true; sprn = sprn; rs = rs }

unfoldable pub tlbie_l_in : Bool → ℕ → ℕ → LoadStore1ToMmu → LoadStore1ToMmu
tlbie_l_in blip sprn addr l = record l { valid = blip; tlbie = true; sprn = sprn; addr = addr }

-- The link as fsm.py drives it, over what the unit puts on it.
unfoldable pub own_l_in : OwnRequest → LoadStore1ToMmu → LoadStore1ToMmu
unfolding mtspr_l_in tlbie_l_in
own_l_in no_request l = l
own_l_in (mtspr_request blip sprn rs) l = mtspr_l_in blip sprn rs l
own_l_in (tlbie_request blip sprn addr) l = tlbie_l_in blip sprn addr l

pub record LdstMmu : Type 0 where
  pub ldst : LdstRegs
  pub mmu : RegStage

-- What comes in with a clock; the answer of the memory management unit in `ldst` is replaced by the
-- joined one's.
pub record SystemInput : Type 0 where
  pub ldst : LdstInput
  pub own : OwnRequest
  pub d_in : DCacheToMmu

-- The inputs of the two units in a clock.
unfoldable pub mmu_input : LdstMmu → SystemInput → MmuInput
mmu_input s x = record { l_in = own_l_in x.own (ldst_outputs s.ldst x.ldst).m_out; d_in = x.d_in }

unfoldable pub ldst_input : LdstMmu → SystemInput → LdstInput
unfolding mmu_input
ldst_input s x = record x.ldst { m_in = l_out s.mmu (mmu_input s x) }

module _ (nm : Nmutil) where
  unfoldable pub ldst_mmu_cycle : LdstMmu → SystemInput → LdstMmu
  unfolding ldst_input
  ldst_mmu_cycle s x = record {
    ldst = ldst_cycle s.ldst (ldst_input s x);
    mmu = rin nm s.mmu (mmu_input s x);
  }

  unfoldable pub ldst_mmu_run : LdstMmu → List SystemInput → LdstMmu
  ldst_mmu_run s [] = s
  ldst_mmu_run s (x ∷ xs) = ldst_mmu_run (ldst_mmu_cycle s x) xs

-- The unit is in MMU_LOOKUP, and the memory management unit is not going to say that it is done.
record IsStuck (s : LdstMmu) : Type 0 where
  ldst : s.ldst.state ≡ mmu_lookup
  mmu : (s.mmu.state ≡ radix_finish) ⊎ (s.mmu.state ≡ idle)
  done : s.mmu.done ≡ false

-- In MMU_LOOKUP nothing is asked of the memory management unit.
lookup-silent :
    (r : LdstRegs) (x : LdstInput)
    → r.state ≡ mmu_lookup
    → ((ldst_outputs r x).m_out.valid ≡ false) × ((ldst_outputs r x).m_out.mtspr ≡ false)
unfolding ldst_outputs mmureq
lookup-silent r x e = ground (arith, e)

lookup-stays :
    (r : LdstRegs) (x : LdstInput)
    → r.state ≡ mmu_lookup
    → x.m_in.done ≡ false
    → (ldst_cycle r x).state ≡ mmu_lookup
unfolding ldst_cycle ldst_fsm ldst_mmu_lookup
lookup-stays r x e d = ground (arith, e, d)

mmu-idle :
    (nm : Nmutil) (r : RegStage) (x : MmuInput)
    → (r.state ≡ radix_finish) ⊎ (r.state ≡ idle)
    → x.l_in.valid ≡ false
    → x.l_in.mtspr ≡ false
    → ((rin nm r x).state ≡ idle) × ((rin nm r x).done ≡ false)
unfolding rin dispatch completed cleared radix_tree_idle with_entry
mmu-idle nm r x (inl e) v m = ground (arith, e, v, m)
mmu-idle nm r x (inr e) v m = ground (arith, e, v, m)

-- No move to a register and no invalidation is executed in any of these clocks.
abbrev pub Unasked : List SystemInput → Type 0
Unasked [] = Unit
Unasked (x ∷ xs) = (x.own ≡ no_request) × Unasked xs

input-silent :
    (s : LdstMmu) (x : SystemInput)
    → x.own ≡ no_request
    → s.ldst.state ≡ mmu_lookup
    → ((mmu_input s x).l_in.valid ≡ false) × ((mmu_input s x).l_in.mtspr ≡ false)
unfolding mmu_input own_l_in
input-silent s x u e = rw u (lookup-silent s.ldst x.ldst e)

cycle-IsStuck :
    (nm : Nmutil) (s : LdstMmu) (x : SystemInput)
    → x.own ≡ no_request
    → IsStuck s
    → IsStuck (ldst_mmu_cycle nm s x)
unfolding ldst_mmu_cycle ldst_input l_out
cycle-IsStuck nm s x u h =
    let q = input-silent s x u h.ldst in
    let m = mmu-idle nm s.mmu (mmu_input s x) h.mmu q.0 q.1 in
    record { ldst = lookup-stays s.ldst (ldst_input s x) h.ldst h.done; mmu = inr m.0; done = m.1 }

run-IsStuck :
    (nm : Nmutil) (s : LdstMmu) (xs : List SystemInput)
    → Unasked xs
    → IsStuck s
    → IsStuck (ldst_mmu_run nm s xs)
unfolding ldst_mmu_run
run-IsStuck nm s [] u h = h
run-IsStuck nm s (x ∷ xs) u h =
    run-IsStuck nm (ldst_mmu_cycle nm s x) xs u.1 (cycle-IsStuck nm s x u.0 h)

stuck-busy :
    (s : LdstMmu) (x : SystemInput)
    → IsStuck s
    → ((ldst_outputs s.ldst (ldst_input s x)).busy ≡ true)
      × ((ldst_outputs s.ldst (ldst_input s x)).done ≡ false)
unfolding ldst_outputs busy_of
stuck-busy s x h = ground (arith, h.ldst)

error-happened :
    (s : LdstMmu) (x : SystemInput)
    → s.ldst.state ≡ mmu_lookup
    → s.mmu.err ≡ true
    → (ldst_outputs s.ldst (ldst_input s x)).exc.happened ≡ true
unfolding ldst_outputs exc_happened fsm_exception ldst_input l_out
error-happened s x l e = ground (arith, l, e)

-- The memory management unit ends the walk that the unit waits for with an error, which is reported in
-- RADIX_FINISH. In that clock the unit reports an exception, and for as long as no move to a register
-- of the memory management unit and no invalidation of its entries is executed, the unit is busy in
-- every clock and never done, whatever else comes in.
pub error-stays_busy :
    (nm : Nmutil) (s : LdstMmu) (xs : List SystemInput) (x : SystemInput)
    → s.ldst.state ≡ mmu_lookup
    → s.mmu.state ≡ radix_finish
    → s.mmu.err ≡ true
    → s.mmu.done ≡ false
    → Unasked xs
    → ((ldst_outputs s.ldst (ldst_input s x)).exc.happened ≡ true)
      × ((ldst_outputs (ldst_mmu_run nm s xs).ldst (ldst_input (ldst_mmu_run nm s xs) x)).busy
          ≡ true)
      × ((ldst_outputs (ldst_mmu_run nm s xs).ldst (ldst_input (ldst_mmu_run nm s xs) x)).done
          ≡ false)
error-stays_busy nm s xs x l m e d u =
    let b =
      stuck-busy (ldst_mmu_run nm s xs) x
        (run-IsStuck nm s xs u (record { ldst = l; mmu = inl m; done = d })) in
    (error-happened s x l e, b.0, b.1)
