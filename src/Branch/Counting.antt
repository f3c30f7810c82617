-- ===== src/Branch/Counting.antt =====
-- The counter of fu/branch/main_stage.py over a run of branches, and the width it is tested at.
use libresoc_soc.Common.{ℕ, zero, suc, ◌+◌, ◌-◌, ◌^◌, ◌≤◌, ◌<◌, ◌≡◌, refl, ap, ap₂, ◌∙◌, arith}
use libresoc_soc.Common.{Bool, true, false, not, ◌==◌, bit, if◌then◌else◌, ltb}
use libresoc_soc.Alu.Types.{Extend, record_of}
use libresoc_soc.Branch.Types.{BranchInsn, op_b, op_bc, op_bcreg, op_other, BranchInput}
use libresoc_soc.Branch.Stage.{
  cr_bit, ctr_n, ctr_zero_bo1, bc_taken, br_taken, ctr_write, ctr_ok, ctr_data, branch_stage,
  br_addr, lr_o, br_imm_addr, br_reg,
}
use libresoc_soc.Branch.Condition.{conditional, branch_stage-conditional}

-- The branches that decrement, test for non-zero and ignore the condition, `bdnz`, in the mode of 64 bits.
pub record IsBdnz (i : BranchInput) : Type 0 where
  pub insn : i.op.insn_type ≡ op_bc
  pub tests : bit i.op.bo 2 ≡ false
  pub nonzero : bit i.op.bo 1 ≡ false
  pub always : bit i.op.bo 4 ≡ true
  pub mode : i.op.is_32bit ≡ false

module _ (ext : Extend) where
  -- The counter register after a branch: the new one if it is written, else the old one.
  abbrev pub ctr_after : BranchInput → ℕ
  ctr_after i = let out = branch_stage ext i in if out.ctr.ok then out.ctr.content else i.fast1

  -- The counter register after so many runs of one branch.
  unfoldable pub ctr_at : ℕ → BranchInput → ℕ
  ctr_at zero i = i.fast1
  ctr_at (suc k) i = ctr_after (record i { fast1 = ctr_at k i })

  -- Whether the branch is taken in the run after so many.
  unfoldable pub taken_at : ℕ → BranchInput → Bool
  unfolding ctr_at
  taken_at k i = (branch_stage ext (record i { fast1 = ctr_at k i })).nia.ok

  module _ (i : BranchInput) (is : IsBdnz i) where
    step : (c : ℕ) → 0 < c → c < 2 ^ 64 → ctr_after (record i { fast1 = c }) ≡ c - 1
    step c h h' =
        ground (
          arith,
          (branch_stage-conditional ext (record i { fast1 = c }) insn is.mode h').1,
          is.tests,
        )
      where
        insn : conditional i.op.insn_type ≡ true
        insn = rw is.insn refl

    runs : (c : ℕ) → c < 2 ^ 64 → (branch_stage ext (record i { fast1 = c })).nia.ok ≡ not (c == 1)
    runs c h' =
        (branch_stage-conditional ext (record i { fast1 = c }) (rw is.insn refl) is.mode h').0
        ∙ rw (is.tests, is.nonzero, is.always) (ground arith)

    ctr_at-counts : (k : ℕ) → k ≤ i.fast1 → i.fast1 < 2 ^ 64 → ctr_at k i ≡ i.fast1 - k
    unfolding ctr_at
    ctr_at-counts zero h h' = omega arith
    ctr_at-counts (suc k) h h' =
        ap (λ c. ctr_after (record i { fast1 = c })) (ctr_at-counts k (omega arith) h')
        ∙ step (i.fast1 - k) (omega arith) (omega arith)
        ∙ omega arith

    -- The branches that end a counted loop, `bdnz`, in the mode of 64 bits, each with the counter that the one before left: starting
    -- from a counter n of 64 bits, the runs before the n-th are taken, the n-th is not, and the
    -- counter then is zero; after k runs it is n - k.
    pub loop-counts :
        (k : ℕ)
        → k < i.fast1
        → i.fast1 < 2 ^ 64
        → (taken_at k i ≡ ltb (k + 1) i.fast1) × (ctr_at (k + 1) i ≡ i.fast1 - (k + 1))
    unfolding taken_at
    loop-counts k h h' = (
      ap (λ c. (branch_stage ext (record i { fast1 = c })).nia.ok)
            (ctr_at-counts k (omega arith) h')
          ∙ runs (i.fast1 - k) (omega arith)
          ∙ ground arith,
      ctr_at-counts (k + 1) (omega arith) h',
    )

module _ (ext : Extend) (i : BranchInput) (b : Bool) where
  abbrev in_mode : BranchInput
  in_mode = record i { op = record i.op { is_32bit = b } }

  taken_same : (n : BranchInsn) → br_taken n in_mode ≡ br_taken n i
  unfolding br_taken bc_taken cr_bit ctr_zero_bo1 ctr_n
  taken_same op_b = refl
  taken_same op_bc = refl
  taken_same op_bcreg = refl
  taken_same op_other = refl

  written_same : (n : BranchInsn) → ctr_ok n in_mode ≡ ctr_ok n i
  unfolding ctr_ok ctr_write
  written_same op_b = refl
  written_same op_bc = refl
  written_same op_bcreg = refl
  written_same op_other = refl

  target_same : (n : BranchInsn) → br_imm_addr ext n in_mode ≡ br_imm_addr ext n i
  unfolding br_imm_addr br_reg
  target_same op_b = refl
  target_same op_bc = refl
  target_same op_bcreg = refl
  target_same op_other = refl

  addr_same : br_addr ext in_mode ≡ br_addr ext i
  unfolding br_addr
  addr_same = rw (target_same i.op.insn_type) refl

  counter_same : ctr_data in_mode ≡ ctr_data i
  unfolding ctr_data ctr_n
  counter_same = refl

-- The branch unit takes no account of the mode of 32 bits: setting or clearing the mode of an
-- operation changes none of its results.
pub branch_stage-width :
    (ext : Extend) (i : BranchInput) (b : Bool)
    → ((branch_stage ext (record i { op = record i.op { is_32bit = b } })).nia
        ≡ (branch_stage ext i).nia)
      × ((branch_stage ext (record i { op = record i.op { is_32bit = b } })).ctr
          ≡ (branch_stage ext i).ctr)
      × ((branch_stage ext (record i { op = record i.op { is_32bit = b } })).lr
          ≡ (branch_stage ext i).lr)
unfolding branch_stage lr_o
branch_stage-width ext i b = (
  ap₂ record_of (addr_same ext i b) (taken_same ext i b i.op.insn_type),
  ap₂ record_of (counter_same ext i b) (written_same ext i b i.op.insn_type),
  refl,
)
