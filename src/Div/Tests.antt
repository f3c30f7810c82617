-- ===== src/Div/Tests.antt =====
-- The divider of fu/div/fsm.py on 100 / 7.
use libresoc_soc.Common.{ℕ, ◌*◌, ◌^◌, ◌/◌, ◌%◌, ◌≡◌, refl, arith, true, false, [], ◌∷◌, replicate}
use libresoc_soc.Div.{quotient, div_state_next, div_state_init, next_quotient_bit}
use libresoc_soc.Div.Fsm.{CoreInputData, FsmState, FsmInput, next_state, outputs, registers, run}
use libresoc_soc.Div.Correct.{Takes, outputs-division}

-- The context is the number of the operation.
abbrev operands : CoreInputData ℕ
operands = record { dividend = 100; divisor_radicand = 7; ctx = 5 }

abbrev reset : FsmState ℕ
reset = record {
  empty = true;
  saved_state = record { q_bits_known = 0; dividend_quotient = 0 };
  saved_input_data = record { dividend = 0; divisor_radicand = 0; ctx = 0 };
}

abbrev request : FsmInput ℕ
request = record { i_valid = true; i_data = operands; i_ready = false }

abbrev other : FsmInput ℕ
other = record {
  i_valid = true;
  i_data = record { dividend = 9; divisor_radicand = 3; ctx = 6 };
  i_ready = true;
}

abbrev stall : FsmInput ℕ
stall = record { i_valid = false; i_data = operands; i_ready = false }

request-Takes : Takes reset request
request-Takes = record { empty = refl; valid = refl; narrow = omega arith; fits = omega arith }

outputs-division_example :
    (outputs (run (run (registers reset request) (replicate 62 other)) (stall ∷ [])) other
      ≡ record {
        o_valid = true;
        o_ready = false;
        quotient_root = 100 / 7;
        core_remainder = 100 % 7 * 2 ^ 64;
        ctx = 5;
      })
    × ((registers
          (run (run (registers reset request) (replicate 62 other)) (stall ∷ []))
          other).empty
        ≡ true)
outputs-division_example =
    outputs-division reset request (replicate 62 other) (stall ∷ []) other request-Takes refl
      (refl, tt)

-- The run itself gives 14 and 2.
hundred_by_seven :
    (outputs (run (registers reset request) (replicate 62 other)) other).quotient_root ≡ 14
unfolding outputs run registers quotient next_state div_state_next div_state_init next_quotient_bit
hundred_by_seven = refl
