-- ===== src/Shift/Tests.antt =====
-- Runs of the shifter of experiment/alu_fsm.py with 8 bits, whose counter has four.
use libresoc_soc.Common.{◌≡◌, ◌==◌, refl, arith, true, false, [], ◌∷◌, length, trunc}
use libresoc_soc.Shift.{
  idle, ShifterRegs, ShifterInput, shifter_cycle, shifter_run, shifter_outputs,
}
use libresoc_soc.Shift.Result.{IsShifted, run-IsShifted_after}

abbrev waiting : ShifterRegs
waiting = record { state = idle; shift_reg = 0; count = 0; direction = false }

-- 0b10010111 to the right, by 19 places, of which the counter reads three.
abbrev operand : ShifterInput
operand = record { i_valid = true; content = 151; shift = 19; sdir = true; i_ready = false }

run-IsShifted_after_example :
    ((shifter_outputs (shifter_run 8 4 (shifter_cycle 8 4 waiting operand) (operand ∷ []))).o_valid
      ≡ (length (operand ∷ []) == trunc 4 19))
    × IsShifted 8 true 151
        (trunc 4 19)
        (shifter_run 8 4 (shifter_cycle 8 4 waiting operand) (operand ∷ operand ∷ operand ∷ []))
run-IsShifted_after_example =
    run-IsShifted_after 7 4 waiting operand (operand ∷ []) (operand ∷ operand ∷ operand ∷ []) refl
      refl (omega arith) refl
