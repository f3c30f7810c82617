-- ===== src/Div/Latency.antt =====
-- The divider of fu/div/fsm.py for operands of any size: when it offers its result, and with which
-- context. What the rounds compute is not needed for that, only how many there have been.
use libresoc_soc.Common.{ℕ, suc, ◌+◌, ◌≤◌, ◌<◌, ◌≡◌, ap, ◌⊎◌, inl, inr, subst}
use libresoc_soc.Common.{true, false, List, [], ◌∷◌, arith, length}
use libresoc_soc.Div.{div_state_next, div_state_init, done, will_be_done_after}
use libresoc_soc.Div.Fsm.{CoreInputData, FsmState, FsmInput, next_state, outputs, registers, run}
use libresoc_soc.Div.Correct.{Stalls}

-- The stage holds the operands i, k rounds under way.
record IsCounting {Ctx : Type 0} (i : CoreInputData Ctx) (k : ℕ) (s : FsmState Ctx) : Type 0 where
  busy : s.empty ≡ false
  saved : s.saved_input_data ≡ i
  known : s.saved_state.q_bits_known ≡ k

module _ {Ctx : Type 0} where
  IsCounting-start :
      (s : FsmState Ctx) (x : FsmInput Ctx)
      → s.empty ≡ true
      → x.i_valid ≡ true
      → IsCounting x.i_data 1 (registers s x)
  unfolding registers next_state div_state_next div_state_init done will_be_done_after
  IsCounting-start s x e v = record {
    busy = ground arith;
    saved = ground arith;
    known = ground arith;
  }

  module _ (i : CoreInputData Ctx) where
    IsCounting-next :
        (k : ℕ) (s : FsmState Ctx) (x : FsmInput Ctx)
        → k < 63
        → IsCounting i k s
        → IsCounting i (suc k) (registers s x)
    unfolding registers outputs next_state div_state_next done will_be_done_after
    IsCounting-next k s x more c = record {
      busy = ground (arith, c.busy, c.known);
      saved = ground (arith, c.busy, c.saved);
      known = ground (arith, c.busy, c.known);
    }

    IsCounting-run :
        (k : ℕ) (s : FsmState Ctx) (xs : List (FsmInput Ctx))
        → k + length xs ≤ 63
        → IsCounting i k s
        → IsCounting i (k + length xs) (run s xs)
    unfolding run
    IsCounting-run k s [] h c = let e : k + 0 ≡ k = omega arith in rw e c
    IsCounting-run k s (x ∷ xs) h c =
        let e : k + length (x ∷ xs) ≡ suc k + length xs = omega arith in
        rw e (
          IsCounting-run (suc k) (registers s x) xs (omega arith)
            (IsCounting-next k s x (omega arith) c))

    -- The last round is under way, or it is done and kept.
    abbrev IsLast : FsmState Ctx → Type 0
    IsLast s = IsCounting i 63 s ⊎ IsCounting i 64 s

    IsLast-held :
        (s : FsmState Ctx) (x : FsmInput Ctx)
        → x.i_ready ≡ false
        → IsLast s
        → IsLast (registers s x)
    unfolding registers outputs next_state div_state_next done will_be_done_after
    IsLast-held s x e (inl c) = inr (record {
      busy = ground (arith, c.busy);
      saved = ground (arith, c.busy, c.saved);
      known = ground (arith, c.busy, c.known);
    })
    IsLast-held s x e (inr c) = inr (record {
      busy = ground (arith, c.busy);
      saved = ground (arith, c.busy, c.saved);
      known = ground (arith, c.busy, c.known);
    })

    IsLast-run :
        (s : FsmState Ctx) (ys : List (FsmInput Ctx)) → Stalls ys → IsLast s → IsLast (run s ys)
    unfolding run
    IsLast-run s [] h c = c
    IsLast-run s (y ∷ ys) h c = IsLast-run (registers s y) ys h.1 (IsLast-held s y h.0 c)

    offers :
        (s : FsmState Ctx) (x : FsmInput Ctx)
        → IsLast s
        → ((outputs s x).o_valid ≡ true) × ((outputs s x).ctx ≡ i.ctx)
    unfolding outputs will_be_done_after
    offers s x (inl c) =
        (ground (arith, c.busy, c.known), ap (λ (t : CoreInputData Ctx). t.ctx) c.saved)
    offers s x (inr c) =
        (ground (arith, c.busy, c.known), ap (λ (t : CoreInputData Ctx). t.ctx) c.saved)

-- An empty stage takes operands, whatever they are. From the 64th cycle on, through any number of
-- cycles in which the next stage is not ready, it offers a result, with the context of the operands.
pub outputs-offered :
    {Ctx : Type 0} (s : FsmState Ctx) (x : FsmInput Ctx) (xs ys : List (FsmInput Ctx))
    (z : FsmInput Ctx)
    → s.empty ≡ true
    → x.i_valid ≡ true
    → length xs ≡ 62
    → Stalls ys
    → ((outputs (run (run (registers s x) xs) ys) z).o_valid ≡ true)
      × ((outputs (run (run (registers s x) xs) ys) z).ctx ≡ x.i_data.ctx)
outputs-offered s x xs ys z e v n h =
    let c : IsCounting x.i_data 63 (run (registers s x) xs) =
      subst (λ k. IsCounting x.i_data k (run (registers s x) xs)) (ap (λ (k : ℕ). 1 + k) n)
        (IsCounting-run x.i_data 1 _ xs (omega arith) (IsCounting-start s x e v)) in
    offers x.i_data _ z (IsLast-run x.i_data _ ys h (inl c))
