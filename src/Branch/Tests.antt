-- ===== src/Branch/Tests.antt =====
-- Runs of the branch unit of fu/branch at concrete inputs: a counted loop of three rounds.
use libresoc_soc.Common.{
  ◌+◌, ◌-◌, ◌%◌, ◌^◌, ◌≡◌, refl, arith, true, false, not, ◌&&◌, bit, if◌then◌else◌, ◌==◌, ltb,
}
use libresoc_soc.Alu.Types.{Extend}
use libresoc_soc.Branch.Types.{BranchOp, BranchInput, op_bc}
use libresoc_soc.Branch.Stage.{branch_stage, br_addr, br_imm_addr, cr_bit}
use libresoc_soc.Branch.Condition.{branch_stage-conditional, counter_allows, condition_allows}
use libresoc_soc.Branch.Counting.{taken_at, ctr_at, IsBdnz, loop-counts, branch_stage-width}

-- Extension of the low bits, as arithmetic.
abbrev ext : Extend
ext = record {
  exts = λ x from to. x % 2 ^ from + (if bit x (from - 1) then 2 ^ to - 2 ^ from else 0);
  extz = λ x from to. x % 2 ^ from;
}

-- `bdnz` back by four instructions.
abbrev bdnz : BranchOp
bdnz = record {
  insn_type = op_bc;
  cia = 4096;
  lk = true;
  is_32bit = false;
  aa = false;
  li = 0;
  bd = 16380;
  bo = 16;
  bi = 0;
  xo = 0;
}

abbrev three_rounds : BranchInput
three_rounds = record { op = bdnz; fast1 = 3; fast2 = 0; cr = 0 }

three_rounds-IsBdnz : IsBdnz three_rounds
three_rounds-IsBdnz = record {
  insn = refl;
  tests = refl;
  nonzero = refl;
  always = refl;
  mode = refl;
}

goes_back : (branch_stage ext three_rounds).nia.content ≡ 4080
unfolding branch_stage br_addr br_imm_addr
goes_back = refl

loop-counts_example :
    (taken_at ext 2 three_rounds ≡ ltb (2 + 1) 3) × (ctr_at ext (2 + 1) three_rounds ≡ 3 - (2 + 1))
loop-counts_example = loop-counts ext three_rounds three_rounds-IsBdnz 2 (omega arith) (omega arith)

branch_stage-conditional_example :
    ((branch_stage ext three_rounds).nia.ok
      ≡ (counter_allows 16 3 && condition_allows 16 (cr_bit three_rounds)))
    × ((branch_stage ext three_rounds).ctr ≡ record {
      content = if bit 16 2 then 0 else if 3 == 0 then 2 ^ 64 - 1 else 3 - 1;
      ok = not (bit 16 2);
    })
branch_stage-conditional_example = branch_stage-conditional ext three_rounds refl refl (omega arith)

branch_stage-width_example :
    ((branch_stage ext (record three_rounds { op = record bdnz { is_32bit = true } })).nia
      ≡ (branch_stage ext three_rounds).nia)
    × ((branch_stage ext (record three_rounds { op = record bdnz { is_32bit = true } })).ctr
        ≡ (branch_stage ext three_rounds).ctr)
    × ((branch_stage ext (record three_rounds { op = record bdnz { is_32bit = true } })).lr
        ≡ (branch_stage ext three_rounds).lr)
branch_stage-width_example = branch_stage-width ext three_rounds true
