-- ===== src/Trap/Tests.antt =====
-- Runs of the trap unit of fu/trap at concrete inputs: a trap of a problem state program and the
-- return to it, a move to the machine state register, and a return without HV.
use libresoc_soc.Common.{
  ◌-◌, ap, ◌∙◌, ◌+◌, ◌^◌, ◌%◌, ◌≡◌, refl, arith, Bool, true, false, ◌||◌, ◌==◌, if◌then◌else◌,
  trunc, bit,
}
use libresoc_soc.Alu.Types.{Extend}
use libresoc_soc.Trap.Types.{Register, Consts, TrapInsn, TrapOp, TrapInput, op_trap, op_mtmsrd}
use libresoc_soc.Trap.Stage.{should_trap, trap_main}
use libresoc_soc.Trap.Isa.{IsIsa, IsProper}
use libresoc_soc.Trap.Moves.{isa_consts, IsMoved, doubleword, trap_main-IsMoved}
use libresoc_soc.Trap.RoundTrip.{IsExtend, returning, IsReturn, trapped, interrupt-rfid-IsReturn}

abbrev ext : Extend
ext = record {
  exts = λ x from to. x % 2 ^ from + (if bit x (from - 1) then 2 ^ to - 2 ^ from else 0);
  extz = λ x from to. x % 2 ^ from;
}

no_sign : (b : Bool) → (if b then 2 ^ 62 - 2 ^ 62 else 0) ≡ 0
no_sign true = refl
no_sign false = refl

ext-IsExtend : IsExtend ext
ext-IsExtend = record {
  same = λ x h.
      ap (λ s. x % 2 ^ 62 + s) (no_sign (bit x 61))
      ∙ (let w : x % 2 ^ 62 + 0 ≡ x = omega arith in w);
}

abbrev consts : Consts
consts = isa_consts (record { priv = 2; fp = 1; addr = 8; memexc = 32; illeg = 64 })

consts-IsIsa : IsIsa consts
consts-IsIsa = record { msr = refl; pi = refl; field = λ n. refl }

-- EE, PR, IR, DR and SF.
abbrev problem_state : Register
problem_state n = n == 63 || n == 15 || n == 14 || n == 5 || n == 4

problem_state-IsProper : IsProper problem_state
problem_state-IsProper = record { ee = λ h. refl; ir = λ h. refl; dr = λ h. refl }

-- `tw` with TO of 00100, on equal operands.
abbrev op_of : TrapInsn → TrapOp
op_of n = record {
  insn_type = n;
  msr = problem_state;
  cia = 0x1000;
  svstate = 7;
  is_32bit = true;
  traptype = 0;
  trapaddr = 0x70;
  ldst_exc = record { invalid = false; badtree = false; perm_error = false; rc_error = false };
  to = 4;
  l = false;
  hrfid = false;
}

abbrev input_of : TrapInsn → TrapInput
input_of n = record {
  op = op_of n;
  a = 2 ^ 32 + 5;
  b = 5;
  srr0 = 0x2000;
  srr1 = λ n. n == 60 || n == 14;
  svsrr0 = 9;
}

traps : should_trap ext (input_of op_trap) ≡ true
unfolding should_trap
traps = refl

interrupt-rfid-IsReturn_example : IsReturn problem_state (trunc 64 0x1000) (
    trap_main ext consts
      (returning (input_of op_trap) (trap_main ext consts (input_of op_trap)) false))
interrupt-rfid-IsReturn_example =
    interrupt-rfid-IsReturn ext ext-IsExtend consts consts-IsIsa (input_of op_trap)
      problem_state-IsProper false 0x1000 refl (trapped refl traps)

trap_main-IsMoved_example :
    ((trap_main ext consts (input_of op_mtmsrd)).msr.ok ≡ true)
    × IsMoved (input_of op_mtmsrd) (trap_main ext consts (input_of op_mtmsrd)).msr.content
trap_main-IsMoved_example =
    trap_main-IsMoved ext consts consts-IsIsa (input_of op_mtmsrd) (doubleword refl)
