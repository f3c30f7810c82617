-- ===== src/Divide/Tests.antt =====
-- Runs of the divider pipeline of fu/div at concrete inputs: -7 by 2, the remainder, and overflows.
use libresoc_soc.Common.{
  ◌-◌, ◌*◌, ◌^◌, ◌%◌, ◌≡◌, refl, arith, true, false, [], ◌∷◌, replicate, b2n, if◌then◌else◌,
}
use libresoc_soc.Mul.Types.{Eq32}
use libresoc_soc.Mul.Product.{IsEq32}
use libresoc_soc.Div.Fsm.{FsmState, FsmInput, outputs, registers, run}
use libresoc_soc.Divide.Types.{DivInsn, op_div, op_mod, op_dive, DivOp, DivOperands, CoreBase}
use libresoc_soc.Divide.Stages.{div_setup}
use libresoc_soc.Divide.Numbers.{overflows, value_of}
use libresoc_soc.Divide.Result.{IsDivision}
use libresoc_soc.Divide.Pipeline.{divided, divider-result}

abbrev eq32 : Eq32
eq32 b x = if b then x % 2 ^ 32 else x

eq32-IsEq32 : IsEq32 eq32
eq32-IsEq32 = record { wide = λ x h. refl; narrow = λ x h. refl }

abbrev signed_word : DivInsn → DivOp
signed_word n = record { insn_type = n; is_32bit = true; is_signed = true }

-- -7 and 2, as words.
abbrev by_two : DivInsn → DivOperands
by_two n = record { op = signed_word n; a = 2 ^ 32 - 7; b = 2; xer_so = false }

quotient_is : value_of op_div (by_two op_div) ≡ 2 ^ 32 - 3
quotient_is = refl

remainder_is : value_of op_mod (by_two op_mod) ≡ 2 ^ 64 - 1
remainder_is = refl

-- The least word by -1, and a `dive` of a word by a smaller one.
least_overflows :
    overflows (record { op = signed_word op_div; a = 2 ^ 31; b = 2 ^ 32 - 1; xer_so = false })
    ≡ true
least_overflows = refl

dive_overflows :
    overflows (record { op = signed_word op_dive; a = 5; b = 3; xer_so = false }) ≡ true
dive_overflows = refl

abbrev idle_core : FsmState CoreBase
idle_core = record {
  empty = true;
  saved_state = record { q_bits_known = 0; dividend_quotient = 0 };
  saved_input_data = div_setup eq32 (by_two op_div);
}

abbrev request : FsmInput CoreBase
request = record { i_valid = true; i_data = div_setup eq32 (by_two op_mod); i_ready = false }

by_two-IsDivision : IsDivision (div_setup eq32 (by_two op_div)) 3 (2 ^ 64)
unfolding div_setup
by_two-IsDivision = record { quotient = λ _ _. refl; remainder = λ _ _. refl }

divider-result_example :
    ((outputs
        (run (run (registers idle_core request) (replicate 62 request)) (request ∷ []))
        request).o_valid
      ≡ true)
    × ((divided (
          outputs
            (run (run (registers idle_core request) (replicate 62 request)) (request ∷ []))
            request)).xer_ov
        ≡ record { content = b2n (overflows (by_two op_mod)) * 3; ok = true })
    × ((divided (
          outputs
            (run (run (registers idle_core request) (replicate 62 request)) (request ∷ []))
            request)).o
        ≡ record {
          content = if overflows (by_two op_mod) then 0 else value_of op_mod (by_two op_mod);
          ok = true;
        })
divider-result_example =
    divider-result eq32 eq32-IsEq32 (by_two op_mod) (omega arith) (omega arith) idle_core request
      (replicate 62 request) (request ∷ []) request refl refl refl refl (refl, tt)
