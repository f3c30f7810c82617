-- ===== src/Div/Correct.antt =====
-- The divider of fu/div/fsm.py against division: latency, results, and the handshake.
use native.Mathlib.Nat.{div-eq_of_lt-le, mod-eq-sub-mul-div}
use libresoc_soc.Common.{
  ℕ, suc, ◌+◌, ◌*◌, ◌/◌, ◌%◌, ◌^◌, ◌≤◌, ◌<◌, ◌≡◌, ap, sym, ◌⊎◌, inl, inr, subst,
}
use libresoc_soc.Common.{true, false, List, [], ◌∷◌, arith, length}
use libresoc_soc.Div.{DivState, div_state_next, div_state_init, quotient, remainder}
use libresoc_soc.Div.Invariant.{IsRound, IsRound-next, IsRound-init}
use libresoc_soc.Div.Fsm.{CoreInputData, FsmState, FsmInput, next_state, outputs}
use libresoc_soc.Div.Fsm.{registers, run}

module _ (d dividend : ℕ) (s : DivState) (narrow : d < 2 ^ 64)
    (r : IsRound 64 d dividend 64 s) where
  quo_is : r.quo ≡ dividend / d
  quo_is = sym (div-eq_of_lt-le {k = r.quo} d {m = dividend} (omega arith) (omega arith))

  rest_is : r.rest ≡ dividend % d
  rest_is = omega (arith, mod-eq-sub-mul-div dividend d, ap (λ (t : ℕ). d * t) quo_is)

  quotient_is : quotient 64 s ≡ dividend / d
  unfolding quotient
  quotient_is = omega (arith, quo_is)

  remainder_is : remainder 64 s ≡ dividend % d
  unfolding remainder
  remainder_is = omega (arith, rest_is)

-- The stage holds the division of i after k rounds.
pub record IsBusy {Ctx : Type 0} (i : CoreInputData Ctx) (k : ℕ) (s : FsmState Ctx) : Type 0 where
  pub busy : s.empty ≡ false
  pub saved : s.saved_input_data ≡ i
  pub round : IsRound 64 i.divisor_radicand i.dividend k s.saved_state

module _ {Ctx : Type 0} where
  start_round :
      (s : FsmState Ctx) (x : FsmInput Ctx)
      → s.empty ≡ true
      → next_state s x
        ≡ div_state_next 64 x.i_data.divisor_radicand (div_state_init 64 x.i_data.dividend)
  unfolding next_state
  start_round s x e = ground arith

  IsBusy-start :
      (s : FsmState Ctx) (x : FsmInput Ctx)
      → x.i_data.divisor_radicand < 2 ^ 64
      → x.i_data.dividend < x.i_data.divisor_radicand * 2 ^ 64
      → s.empty ≡ true
      → x.i_valid ≡ true
      → IsBusy x.i_data 1 (registers s x)
  unfolding registers
  IsBusy-start s x narrow fits e v = record {
    busy = ground arith;
    saved = ground arith;
    round =
        rw (start_round s x e)
          (IsRound-next 64 _ _ 0 _ (omega arith) narrow (IsRound-init 64 _ _ fits));
  }

-- The next stage is not ready in any of these cycles.
abbrev pub Stalls : {Ctx : Type 0} → List (FsmInput Ctx) → Type 0
Stalls [] = Unit
Stalls (x ∷ xs) = (x.i_ready ≡ false) × Stalls xs

module _ {Ctx : Type 0} (i : CoreInputData Ctx) (narrow : i.divisor_radicand < 2 ^ 64) where
  busy_round :
      (k : ℕ) (s : FsmState Ctx) (x : FsmInput Ctx)
      → IsBusy i k s
      → next_state s x ≡ div_state_next 64 i.divisor_radicand s.saved_state
  unfolding next_state
  busy_round k s x b = ground arith

  waiting :
      (k : ℕ) (s : FsmState Ctx) (x : FsmInput Ctx)
      → k < 63
      → IsBusy i k s
      → (outputs s x).o_valid ≡ false
  unfolding outputs
  waiting k s x more b = ground arith

  IsBusy-next :
      (k : ℕ) (s : FsmState Ctx) (x : FsmInput Ctx)
      → k < 63
      → IsBusy i k s
      → IsBusy i (suc k) (registers s x)
  unfolding registers outputs
  IsBusy-next k s x more b = record {
    busy = ground (arith, b.busy, b.round.known);
    saved = ground (arith, b.busy, b.saved);
    round = rw (busy_round k s x b) (IsRound-next 64 _ _ k _ (omega arith) narrow b.round);
  }

  IsBusy-run :
      (k : ℕ) (s : FsmState Ctx) (xs : List (FsmInput Ctx))
      → k + length xs ≤ 63
      → IsBusy i k s
      → IsBusy i (k + length xs) (run s xs)
  unfolding run
  IsBusy-run k s [] h b = let e : k + 0 ≡ k = omega arith in rw e b
  IsBusy-run k s (x ∷ xs) h b =
      let e : k + length (x ∷ xs) ≡ suc k + length xs = omega arith in
      rw e (IsBusy-run (suc k) (registers s x) xs (omega arith) (IsBusy-next k s x (omega arith) b))

  -- An answer is ready: the last round is under way, or it is done and kept.
  abbrev IsReady : FsmState Ctx → Type 0
  IsReady s = IsBusy i 63 s ⊎ IsBusy i 64 s

  last-IsRound :
      (s : FsmState Ctx) (x : FsmInput Ctx)
      → IsReady s
      → IsRound 64 i.divisor_radicand i.dividend 64 (next_state s x)
  last-IsRound s x (inl b) =
      rw (busy_round 63 s x b) (IsRound-next 64 _ _ 63 _ (omega arith) narrow b.round)
  last-IsRound s x (inr b) = rw (busy_round 64 s x b, kept) b.round
    where
      kept : div_state_next 64 i.divisor_radicand s.saved_state ≡ s.saved_state
      kept = unfold div_state_next in ground (arith, b.round.known)

  outputs-IsReady :
      (s : FsmState Ctx) (x : FsmInput Ctx)
      → IsReady s
      → outputs s x ≡ record {
        o_valid = true;
        o_ready = false;
        quotient_root = i.dividend / i.divisor_radicand;
        core_remainder = i.dividend % i.divisor_radicand * 2 ^ 64;
        ctx = i.ctx;
      }
  unfolding outputs
  outputs-IsReady s x b =
      let r : IsRound 64 i.divisor_radicand i.dividend 64 (next_state s x) = last-IsRound s x b in
      let small : i.dividend % i.divisor_radicand < 2 ^ 64 =
        omega (arith, rest_is _ _ _ narrow r, r.rest_fits, narrow) in
      ground (arith, b, quotient_is _ _ _ narrow r, remainder_is _ _ _ narrow r, small)

  IsReady-held :
      (s : FsmState Ctx) (x : FsmInput Ctx)
      → x.i_ready ≡ false
      → IsReady s
      → IsReady (registers s x)
  unfolding registers outputs
  IsReady-held s x e b =
      inr
        (record { busy = ground (arith, b); saved = ground (arith, b); round = last-IsRound s x b })

  IsReady-run :
      (s : FsmState Ctx) (ys : List (FsmInput Ctx)) → Stalls ys → IsReady s → IsReady (run s ys)
  unfolding run
  IsReady-run s [] h b = b
  IsReady-run s (y ∷ ys) h b = IsReady-run (registers s y) ys h.1 (IsReady-held s y h.0 b)

  released : (s : FsmState Ctx) (x : FsmInput Ctx) → IsReady s → (registers s x).empty ≡ x.i_ready
  unfolding registers outputs
  released s x b = ground (arith, b)

-- The cycle x in which an empty stage takes a division of dividend by divisor, both in range.
pub record Takes {Ctx : Type 0} (s : FsmState Ctx) (x : FsmInput Ctx) : Type 0 where
  pub empty : s.empty ≡ true
  pub valid : x.i_valid ≡ true
  pub narrow : x.i_data.divisor_radicand < 2 ^ 64
  pub fits : x.i_data.dividend < x.i_data.divisor_radicand * 2 ^ 64

IsBusy-from :
    {Ctx : Type 0} (s : FsmState Ctx) (x : FsmInput Ctx)
    → Takes s x
    → IsBusy x.i_data 1 (registers s x)
IsBusy-from s x t = IsBusy-start s x t.narrow t.fits t.empty t.valid

-- A stage that is empty takes a division whose quotient fits 64 bits. From the 64th cycle on,
-- through any number of cycles in which the next stage is not ready, it presents the quotient and,
-- 64 bits up, the remainder, with the context that came with the operands; it is empty again exactly
-- when the next stage is ready. The inputs of the cycles in between do not matter.
pub outputs-division :
    {Ctx : Type 0} (s : FsmState Ctx) (x : FsmInput Ctx) (xs ys : List (FsmInput Ctx))
    (z : FsmInput Ctx)
    → Takes s x
    → length xs ≡ 62
    → Stalls ys
    → (outputs (run (run (registers s x) xs) ys) z ≡ record {
      o_valid = true;
      o_ready = false;
      quotient_root = x.i_data.dividend / x.i_data.divisor_radicand;
      core_remainder = x.i_data.dividend % x.i_data.divisor_radicand * 2 ^ 64;
      ctx = x.i_data.ctx;
    })
      × ((registers (run (run (registers s x) xs) ys) z).empty ≡ z.i_ready)
outputs-division s x xs ys z t n h =
    let b : IsBusy x.i_data 63 (run (registers s x) xs) =
      subst (λ k. IsBusy x.i_data k (run (registers s x) xs)) (ap (λ (k : ℕ). 1 + k) n)
        (IsBusy-run x.i_data t.narrow 1 _ xs (omega arith) (IsBusy-from s x t)) in
    let q = IsReady-run x.i_data t.narrow _ ys h (inl b) in
    (outputs-IsReady x.i_data t.narrow _ z q, released x.i_data t.narrow _ z q)

-- Before the 64th cycle the stage neither offers a result nor accepts another operation.
outputs-busy :
    {Ctx : Type 0} (s : FsmState Ctx) (x : FsmInput Ctx) (xs : List (FsmInput Ctx))
    (z : FsmInput Ctx)
    → Takes s x
    → length xs < 62
    → ((outputs (run (registers s x) xs) z).o_valid ≡ false)
      × ((outputs (run (registers s x) xs) z).o_ready ≡ false)
unfolding outputs run
outputs-busy s x xs z t h =
    let b = IsBusy-run x.i_data t.narrow 1 _ xs (omega arith) (IsBusy-from s x t) in
    (waiting x.i_data t.narrow (1 + length xs) _ z (omega arith) b, b.busy)
