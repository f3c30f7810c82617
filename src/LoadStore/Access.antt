-- ===== src/LoadStore/Access.antt =====
-- An access of fu/ldst/loadstore.py that the D-cache answers without a translation.
use libresoc_soc.Common.{ℕ, ◌≡◌, refl, arith, true, false, List, [], ◌∷◌}
use libresoc_soc.LoadStore.Types.{
  idle, ack_wait, LdstRequest, LoadStore1ToDCache, LdstRegs, LdstInput,
}
use libresoc_soc.LoadStore.Cycle.{
  current, fsm_exception, exc_happened, mmureq, ldst_idle, ldst_ack_wait, ldst_fsm, ldst_cycle,
  ldst_run, busy_of, ldst_outputs,
}

-- What the D-cache is sent for a request.
abbrev pub asked : LdstRequest → ℕ → LoadStore1ToDCache
asked q content = record {
  valid = true;
  load = q.load;
  dcbz = q.dcbz;
  nc = q.nc;
  virt_mode = q.virt_mode;
  priv_mode = q.priv_mode;
  addr = q.addr;
  content = content;
  byte_sel = q.byte_sel;
}

-- A request that the unit takes: of an idle unit, aligned.
pub record IsTaken (r : LdstRegs) (x : LdstInput) : Type 0 where
  pub state : r.state ≡ idle
  pub blip : x.d_validblip ≡ true
  pub aligned : x.req.align_intr ≡ false

-- A clock in which the D-cache has no answer and the port no new request.
pub record IsQuiet (x : LdstInput) : Type 0 where
  pub blip : x.d_validblip ≡ false
  pub valid : x.d_in.valid ≡ false
  pub error : x.d_in.error ≡ false

-- The answer of the D-cache.
pub record IsAnswer (x : LdstInput) : Type 0 where
  pub valid : x.d_in.valid ≡ true
  pub error : x.d_in.error ≡ false

-- The unit waits for the D-cache's answer to this request.
pub record IsWaiting (q : LdstRequest) (r : LdstRegs) : Type 0 where
  pub state : r.state ≡ ack_wait
  pub latched : r.ldst_r ≡ q

pub cycle-IsWaiting :
    (r : LdstRegs) (x : LdstInput) → IsTaken r x → IsWaiting x.req (ldst_cycle r x)
unfolding ldst_cycle ldst_fsm ldst_idle exc_happened current fsm_exception
cycle-IsWaiting r x t = record { state = ground (arith, t); latched = ground (arith, t) }

pub quiet-IsWaiting :
    (q : LdstRequest) (r : LdstRegs) (x : LdstInput)
    → IsWaiting q r
    → IsQuiet x
    → IsWaiting q (ldst_cycle r x)
unfolding ldst_cycle ldst_fsm ldst_ack_wait
quiet-IsWaiting q r x w h = record { state = ground (arith, w, h); latched = ground (arith, w, h) }

abbrev pub Quiet : List LdstInput → Type 0
Quiet [] = Unit
Quiet (x ∷ xs) = IsQuiet x × Quiet xs

pub run-IsWaiting :
    (q : LdstRequest) (r : LdstRegs) (xs : List LdstInput)
    → IsWaiting q r
    → Quiet xs
    → IsWaiting q (ldst_run r xs)
unfolding ldst_run
run-IsWaiting q r [] w h = w
run-IsWaiting q r (x ∷ xs) w h =
    run-IsWaiting q (ldst_cycle r x) xs (quiet-IsWaiting q r x w h.0) h.1

-- A unit that waits hands the answer on, and is idle.
pub record IsDone (r : LdstRegs) (x : LdstInput) : Type 0 where
  pub done : (ldst_outputs r x).done ≡ true
  pub content : (ldst_outputs r x).load_data ≡ x.d_in.content
  pub state : (ldst_cycle r x).state ≡ idle

pub answer-IsDone : (r : LdstRegs) (x : LdstInput) → r.state ≡ ack_wait → IsAnswer x → IsDone r x
unfolding ldst_cycle ldst_fsm ldst_ack_wait ldst_outputs mmureq
answer-IsDone r x s a = record {
  done = ground (arith, s, a);
  content = refl;
  state = ground (arith, s, a);
}

-- A clock of a unit that has taken a request and waits is no end of it.
waiting-busy :
    (q : LdstRequest) (r : LdstRegs) (x : LdstInput)
    → IsWaiting q r
    → IsQuiet x
    → q.align_intr ≡ false
    → ((ldst_outputs r x).busy ≡ true) × ((ldst_outputs r x).done ≡ false)
unfolding ldst_outputs busy_of exc_happened fsm_exception current
waiting-busy q r x w h a = ground (arith, w, h, a)

taken-asked :
    (r : LdstRegs) (x : LdstInput) → IsTaken r x → (ldst_outputs r x).d_out ≡ asked x.req r.d_data
unfolding ldst_outputs exc_happened fsm_exception current
taken-asked r x t = ground (arith, t)

taken-unsent : (r : LdstRegs) (x : LdstInput) → IsTaken r x → (ldst_outputs r x).m_out.valid ≡ false
unfolding ldst_outputs mmureq
taken-unsent r x t = ground (arith, t)

-- An idle unit that takes an aligned request sends it to the D-cache in the same clock, without asking
-- for a translation. However long the D-cache then takes, in each clock without an answer the unit is
-- busy and not done, and with the answer, if that is no error, it is done, hands the data on and is
-- idle again.
access-IsDone :
    (r : LdstRegs) (x : LdstInput) (xs : List LdstInput) (y z : LdstInput)
    → IsTaken r x
    → Quiet xs
    → IsQuiet y
    → IsAnswer z
    → ((ldst_outputs r x).d_out ≡ asked x.req r.d_data)
      × ((ldst_outputs r x).m_out.valid ≡ false)
      × ((ldst_outputs (ldst_run (ldst_cycle r x) xs) y).busy ≡ true)
      × ((ldst_outputs (ldst_run (ldst_cycle r x) xs) y).done ≡ false)
      × IsDone (ldst_run (ldst_cycle r x) xs) z
access-IsDone r x xs y z t h q a =
    let w = run-IsWaiting x.req (ldst_cycle r x) xs (cycle-IsWaiting r x t) h in
    let b = waiting-busy x.req (ldst_run (ldst_cycle r x) xs) y w q t.aligned in
    (
      taken-asked r x t,
      taken-unsent r x t,
      b.0,
      b.1,
      answer-IsDone (ldst_run (ldst_cycle r x) xs) z w.state a,
    )
