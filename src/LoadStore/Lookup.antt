-- ===== src/LoadStore/Lookup.antt =====
-- An access of fu/ldst/loadstore.py that needs a translation, and one that is refused.
use libresoc_soc.Common.{◌≡◌, refl, arith, true, false, List, [], ◌∷◌}
use libresoc_soc.LoadStore.Types.{
  idle, mmu_lookup, LdstRequest, cleared_request, LdstRegs, LdstInput,
}
use libresoc_soc.LoadStore.Cycle.{
  current, fsm_exception, exc_happened, mmureq, ldst_idle, ldst_ack_wait, ldst_mmu_lookup, ldst_fsm,
  ldst_cycle, ldst_run, ldst_outputs,
}
use libresoc_soc.LoadStore.Access.{
  asked, IsTaken, IsAnswer, IsWaiting, cycle-IsWaiting, Quiet, run-IsWaiting, IsDone, answer-IsDone,
}

-- The D-cache has no translation, or one that does not permit the access.
pub record IsMiss (x : LdstInput) : Type 0 where
  pub blip : x.d_validblip ≡ false
  pub valid : x.d_in.valid ≡ false
  pub error : x.d_in.error ≡ true
  pub paradox : x.d_in.cache_paradox ≡ false

-- A clock in which the memory management unit has no answer and the port no new request.
pub record IsPending (x : LdstInput) : Type 0 where
  pub blip : x.d_validblip ≡ false
  pub done : x.m_in.done ≡ false
  pub err : x.m_in.err ≡ false

-- The translation is there.
pub record IsTranslated (x : LdstInput) : Type 0 where
  pub blip : x.d_validblip ≡ false
  pub done : x.m_in.done ≡ true
  pub err : x.m_in.err ≡ false

-- The unit waits for the translation of this request.
pub record IsLooking (q : LdstRequest) (r : LdstRegs) : Type 0 where
  pub state : r.state ≡ mmu_lookup
  pub latched : r.ldst_r ≡ q

pub miss-IsLooking :
    (q : LdstRequest) (r : LdstRegs) (x : LdstInput)
    → IsWaiting q r
    → IsMiss x
    → IsLooking q (ldst_cycle r x)
unfolding ldst_cycle ldst_fsm ldst_ack_wait
miss-IsLooking q r x w m = record { state = ground (arith, w, m); latched = ground (arith, w, m) }

pending-IsLooking :
    (q : LdstRequest) (r : LdstRegs) (x : LdstInput)
    → IsLooking q r
    → IsPending x
    → IsLooking q (ldst_cycle r x)
unfolding ldst_cycle ldst_fsm ldst_mmu_lookup
pending-IsLooking q r x w p = record {
  state = ground (arith, w, p);
  latched = ground (arith, w, p);
}

abbrev pub Pending : List LdstInput → Type 0
Pending [] = Unit
Pending (x ∷ xs) = IsPending x × Pending xs

pub run-IsLooking :
    (q : LdstRequest) (r : LdstRegs) (xs : List LdstInput)
    → IsLooking q r
    → Pending xs
    → IsLooking q (ldst_run r xs)
unfolding ldst_run
run-IsLooking q r [] w h = w
run-IsLooking q r (x ∷ xs) w h =
    run-IsLooking q (ldst_cycle r x) xs (pending-IsLooking q r x w h.0) h.1

-- The request that the unit latched is gone with the retry.
translated-IsWaiting :
    (q : LdstRequest) (r : LdstRegs) (x : LdstInput)
    → IsLooking q r
    → IsTranslated x
    → IsWaiting cleared_request (ldst_cycle r x)
unfolding ldst_cycle ldst_fsm ldst_mmu_lookup
translated-IsWaiting q r x w t = record {
  state = ground (arith, w, t);
  latched = ground (arith, w, t);
}

-- The memory management unit is asked for the address and the kind of this request.
pub record IsAsked (q : LdstRequest) (r : LdstRegs) (x : LdstInput) : Type 0 where
  pub valid : (ldst_outputs r x).m_out.valid ≡ true
  pub addr : (ldst_outputs r x).m_out.addr ≡ q.addr
  pub load : (ldst_outputs r x).m_out.load ≡ q.load
  pub other : (ldst_outputs r x).m_out.mtspr ≡ false

miss-IsAsked :
    (q : LdstRequest) (r : LdstRegs) (x : LdstInput) → IsWaiting q r → IsMiss x → IsAsked q r x
unfolding ldst_outputs mmureq current
miss-IsAsked q r x w m = record {
  valid = ground (arith, w, m);
  addr = ground (arith, w, m);
  load = ground (arith, w, m);
  other = refl;
}

translated-asked :
    (q : LdstRequest) (r : LdstRegs) (x : LdstInput)
    → IsLooking q r
    → IsTranslated x
    → q.align_intr ≡ false
    → (ldst_outputs r x).d_out ≡ asked q r.d_data
unfolding ldst_outputs exc_happened fsm_exception current
translated-asked q r x w t a = ground (arith, w, t, a)

-- The states of an access with one translation.
module _ (r : LdstRegs) (x : LdstInput) (xs : List LdstInput) (m : LdstInput) (ys : List LdstInput)
    (t : LdstInput) (zs : List LdstInput) (taken : IsTaken r x) (first : Quiet xs) (miss : IsMiss m)
    (lookup : Pending ys) (translated : IsTranslated t) (second : Quiet zs) where
  abbrev pub asking : LdstRegs
  asking = ldst_run (ldst_cycle r x) xs

  abbrev pub looking : LdstRegs
  looking = ldst_run (ldst_cycle asking m) ys

  abbrev pub retrying : LdstRegs
  retrying = ldst_run (ldst_cycle looking t) zs

  asking-IsWaiting : IsWaiting x.req asking
  asking-IsWaiting = run-IsWaiting x.req (ldst_cycle r x) xs (cycle-IsWaiting r x taken) first

  looking-IsLooking : IsLooking x.req looking
  looking-IsLooking =
      run-IsLooking x.req (ldst_cycle asking m) ys
        (miss-IsLooking x.req asking m asking-IsWaiting miss) lookup

  retrying-IsWaiting : IsWaiting cleared_request retrying
  retrying-IsWaiting =
      run-IsWaiting cleared_request (ldst_cycle looking t) zs
        (translated-IsWaiting x.req looking t looking-IsLooking translated) second

  -- An idle unit takes an aligned request, the D-cache reports after any wait that it has no
  -- translation, the memory management unit answers after any wait that it has installed one, and the
  -- D-cache answers after any wait with data. Then the memory management unit was asked for the
  -- request's address and kind in the clock of the miss, the D-cache was sent the whole request once
  -- more in the clock of the translation, and the unit is done with the D-cache's data and idle.
  pub lookup-IsDone :
      (z : LdstInput)
      → IsAnswer z
      → IsAsked x.req asking m
        × ((ldst_outputs looking t).d_out ≡ asked x.req looking.d_data)
        × IsDone retrying z
  lookup-IsDone z a = (
    miss-IsAsked x.req asking m asking-IsWaiting miss,
    translated-asked x.req looking t looking-IsLooking translated taken.aligned,
    answer-IsDone retrying z retrying-IsWaiting.state a,
  )

  -- If the D-cache refuses the request that was sent once more, the memory management unit is asked
  -- for a store to address 0, whatever the request was.
  pub retry-IsAsked : (z : LdstInput) → IsMiss z → IsAsked cleared_request retrying z
  retry-IsAsked z h = miss-IsAsked cleared_request retrying z retrying-IsWaiting h

-- A request at an address that is not aligned is sent nowhere: the unit stays idle, reports an
-- alignment exception in the same clock, and DAR is the address.
misaligned-refused :
    (r : LdstRegs) (x : LdstInput)
    → r.state ≡ idle
    → x.d_validblip ≡ true
    → x.req.align_intr ≡ true
    → ((ldst_outputs r x).d_out.valid ≡ false)
      × ((ldst_outputs r x).m_out.valid ≡ false)
      × ((ldst_outputs r x).exc.happened ≡ true)
      × ((ldst_outputs r x).exc.alignment ≡ true)
      × ((ldst_cycle r x).state ≡ idle)
      × ((ldst_cycle r x).dar ≡ x.req.addr)
unfolding ldst_outputs ldst_cycle ldst_fsm ldst_idle exc_happened fsm_exception current mmureq
misaligned-refused r x s b a = ground (arith, s, b, a)
