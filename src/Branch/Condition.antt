-- ===== src/Branch/Condition.antt =====
-- The decision of the conditional branches of fu/branch/main_stage.py, against the rule of the
-- instruction set: a counter test and a condition test.
use libresoc_soc.Common.{ℕ, ◌-◌, ◌^◌, ◌<◌, ◌≡◌, ◌∙◌, ap₂, arith}
use libresoc_soc.Common.{Bool, true, false, not, ◌&&◌, ◌||◌, xor, ◌==◌, bit, slice, if◌then◌else◌}
use libresoc_soc.Alu.Types.{Extend, record_of}
use libresoc_soc.Branch.Types.{BranchInsn, op_bc, op_bcreg, BranchInput}
use libresoc_soc.Branch.Stage.{
  cr_bit, ctr_n, ctr_zero_bo1, bc_taken, br_taken, ctr_write, ctr_ok, ctr_data, branch_stage,
}

-- Whether the counter, before it is decremented, lets the branch through: it is not tested, or it
-- reaches zero as the field asks.
abbrev pub counter_allows : ℕ → ℕ → Bool
counter_allows bo ctr = bit bo 2 || not (xor (ctr == 1) (bit bo 1))

-- Whether the condition bit lets the branch through: it is not tested, or it is as the field asks.
abbrev pub condition_allows : ℕ → Bool → Bool
condition_allows bo cr = bit bo 4 || not (xor cr (bit bo 3))

zero-counter : (i : BranchInput) → i.fast1 < 2 ^ 64 → (ctr_n i == 0) ≡ (i.fast1 == 1)
unfolding ctr_n
zero-counter i h = ground arith

allows_counter :
    (i : BranchInput) → i.fast1 < 2 ^ 64 → ctr_zero_bo1 i ≡ not (xor (i.fast1 == 1) (bit i.op.bo 1))
unfolding ctr_zero_bo1
allows_counter i h = rw (zero-counter i h) (flip (i.fast1 == 1) (bit i.op.bo 1))
  where
    flip : (z b : Bool) → xor b (not z) ≡ not (xor z b)
    flip z b = ground arith

neither : (bo : ℕ) → (slice bo 3 5 == 0) ≡ (not (bit bo 3) && not (bit bo 4))
neither bo = ground arith

only_third : (bo : ℕ) → (slice bo 3 5 == 1) ≡ (bit bo 3 && not (bit bo 4))
only_third bo = ground arith

cases_of :
    (b2 b3 b4 cr ctr : Bool)
    → (if b2
        then not (xor cr b3) || b4
        else if not b3 && not b4
        then ctr && not cr
        else if b3 && not b4
        then ctr && cr
        else if b4
        then ctr
        else false)
      ≡ ((b2 || ctr) && (b4 || not (xor cr b3)))
cases_of b2 b3 b4 cr ctr = ground arith

pub bc_taken-rule :
    (i : BranchInput)
    → i.fast1 < 2 ^ 64
    → bc_taken i ≡ (counter_allows i.op.bo i.fast1 && condition_allows i.op.bo (cr_bit i))
unfolding bc_taken
bc_taken-rule i h =
    rw (neither i.op.bo, only_third i.op.bo, allows_counter i h)
      (cases_of (bit i.op.bo 2) (bit i.op.bo 3) (bit i.op.bo 4) (cr_bit i)
        (not (xor (i.fast1 == 1) (bit i.op.bo 1))))

-- Whether the operation is a conditional branch.
abbrev pub conditional : BranchInsn → Bool
conditional op_bc = true
conditional op_bcreg = true
conditional _ = false

taken_of : (n : BranchInsn) (i : BranchInput) → conditional n ≡ true → br_taken n i ≡ bc_taken i
unfolding br_taken
taken_of n i c = ground arith

written_of :
    (n : BranchInsn) (i : BranchInput) → conditional n ≡ true → ctr_ok n i ≡ not (bit i.op.bo 2)
unfolding ctr_ok ctr_write
written_of n i c = ground arith

less_one :
    (i : BranchInput)
    → i.fast1 < 2 ^ 64
    → ctr_data i ≡ (if bit i.op.bo 2 then 0 else if i.fast1 == 0 then 2 ^ 64 - 1 else i.fast1 - 1)
unfolding ctr_data ctr_n
less_one i h = ground arith

-- A conditional branch in the mode of 64 bits, with a counter of 64 bits, is taken exactly if the counter test and the
-- condition test of its BO field allow it. It writes the counter exactly if the field asks for the
-- test, and then with the counter less one, where zero wraps to all ones.
pub branch_stage-conditional :
    (ext : Extend) (i : BranchInput)
    → conditional i.op.insn_type ≡ true
    → i.op.is_32bit ≡ false
    → i.fast1 < 2 ^ 64
    → ((branch_stage ext i).nia.ok
        ≡ (counter_allows i.op.bo i.fast1 && condition_allows i.op.bo (cr_bit i)))
      × ((branch_stage ext i).ctr ≡ record {
        content = if bit i.op.bo 2 then 0 else if i.fast1 == 0 then 2 ^ 64 - 1 else i.fast1 - 1;
        ok = not (bit i.op.bo 2);
      })
unfolding branch_stage
branch_stage-conditional ext i c mode h = (taken, ap₂ record_of lower written)
  where
    taken :
        br_taken i.op.insn_type i
        ≡ (counter_allows i.op.bo i.fast1 && condition_allows i.op.bo (cr_bit i))
    taken = taken_of i.op.insn_type i c ∙ bc_taken-rule i h

    written : ctr_ok i.op.insn_type i ≡ not (bit i.op.bo 2)
    written = written_of i.op.insn_type i c

    lower :
        ctr_data i ≡ (if bit i.op.bo 2 then 0 else if i.fast1 == 0 then 2 ^ 64 - 1 else i.fast1 - 1)
    lower = less_one i h
