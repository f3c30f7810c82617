-- ===== src/Div/Fsm.antt =====
-- fu/div/fsm.py, `FSMDivCoreStage`: the divider behind its ready/valid handshake, 64 bits wide.
-- One call of `cycle` is one clock: the outputs seen in it and the registers after it. `Ctx` is all
-- of the pipeline's data but the core's, which the stage saves and hands on.
use libresoc_soc.Common.{ℕ, ◌-◌, ◌*◌, ◌^◌, Bool, true, false, not, ◌&&◌, List, [], ◌∷◌, trunc}
use libresoc_soc.Common.{if◌then◌else◌}
use libresoc_soc.Div.{DivState, div_state_next, div_state_init, will_be_done_after}
use libresoc_soc.Div.{quotient, remainder}

module _ (Ctx : Type 0) where
  pub record CoreInputData : Type 0 where
    pub dividend : ℕ
    pub divisor_radicand : ℕ
    pub ctx : Ctx

  pub record FsmState : Type 0 where
    pub empty : Bool
    pub saved_state : DivState
    pub saved_input_data : CoreInputData

  -- `p.i_valid`, `p.i_data` and `n.i_ready`.
  pub record FsmInput : Type 0 where
    pub i_valid : Bool
    pub i_data : CoreInputData
    pub i_ready : Bool

  pub record FsmOutput : Type 0 where
    pub o_valid : Bool
    pub o_ready : Bool
    pub quotient_root : ℕ
    pub core_remainder : ℕ
    pub ctx : Ctx

module _ {Ctx : Type 0} where
  -- What the submodule `div_state_next` computes in a cycle.
  unfoldable pub next_state : FsmState Ctx → FsmInput Ctx → DivState
  next_state s x =
      if s.empty
      then div_state_next 64 x.i_data.divisor_radicand (div_state_init 64 x.i_data.dividend)
      else div_state_next 64 s.saved_input_data.divisor_radicand s.saved_state

  unfoldable pub outputs : FsmState Ctx → FsmInput Ctx → FsmOutput Ctx
  unfolding will_be_done_after
  outputs s x = record {
    o_valid = not s.empty && will_be_done_after 64 1 s.saved_state;
    o_ready = s.empty;
    quotient_root = quotient 64 (next_state s x);
    core_remainder = trunc (3 * 64) (remainder 64 (next_state s x) * 2 ^ (64 * 3 - 64 * 2));
    ctx = s.saved_input_data.ctx;
  }

  unfoldable pub registers : FsmState Ctx → FsmInput Ctx → FsmState Ctx
  unfolding outputs
  registers s x =
      let taken = s.empty && x.i_valid in
      let given = not s.empty && (x.i_ready && (outputs s x).o_valid) in
      record {
        empty = if taken then false else if given then true else s.empty;
        saved_state = next_state s x;
        saved_input_data = if taken then x.i_data else s.saved_input_data;
      }

  unfoldable pub run : FsmState Ctx → List (FsmInput Ctx) → FsmState Ctx
  run s [] = s
  run s (x ∷ xs) = run (registers s x) xs
