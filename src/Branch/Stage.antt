-- ===== src/Branch/Stage.antt =====
-- fu/branch/main_stage.py: the condition, the counter, the target and the link register.
use libresoc_soc.Common.{ℕ, ◌+◌, ◌-◌, Bool, true, false, not, ◌&&◌, ◌||◌, xor, ◌==◌}
use libresoc_soc.Common.{bit, slice, cat, trunc, sub, if◌then◌else◌}
use libresoc_soc.Alu.Types.{Extend, Data, no_data}
use libresoc_soc.Branch.Types.{
  BranchInsn, op_b, op_bc, op_bcreg, op_other, BranchOp, BranchInput, BranchOutput,
}

abbrev pub is_bcreg : BranchInsn → Bool
is_bcreg op_bcreg = true
is_bcreg _ = false

-- The bit of the condition register field that BI selects, counted from the top.
unfoldable pub cr_bit : BranchInput → Bool
cr_bit i = bit i.cr (3 - i.op.bi)

-- The counter less one.
unfoldable pub ctr_n : BranchInput → ℕ
ctr_n i = sub 64 i.fast1 1

-- `bo[1] ^ ctr_n.any()`.
unfoldable pub ctr_zero_bo1 : BranchInput → Bool
unfolding ctr_n
ctr_zero_bo1 i = xor (bit i.op.bo 1) (not (ctr_n i == 0))

-- Whether a conditional branch writes the counter.
unfoldable pub ctr_write : BranchOp → Bool
ctr_write op = not (bit op.bo 2)

-- Whether a conditional branch is taken.
unfoldable pub bc_taken : BranchInput → Bool
unfolding cr_bit ctr_zero_bo1
bc_taken i =
    let bo = i.op.bo in
    let cr = cr_bit i in
    let ctr_ok = ctr_zero_bo1 i in
    if bit bo 2
    then not (xor cr (bit bo 3)) || bit bo 4
    else if slice bo 3 5 == 0
    then ctr_ok && not cr
    else if slice bo 3 5 == 1
    then ctr_ok && cr
    else if bit bo 4
    then ctr_ok
    else false

-- The switch over the operation: whether the branch is taken.
unfoldable pub br_taken : BranchInsn → BranchInput → Bool
br_taken op_b i = true
br_taken op_bc i = bc_taken i
br_taken op_bcreg i = bc_taken i
br_taken op_other i = false

-- The switch over the operation: whether the counter is written.
unfoldable pub ctr_ok : BranchInsn → BranchInput → Bool
ctr_ok op_bc i = ctr_write i.op
ctr_ok op_bcreg i = ctr_write i.op
ctr_ok _ i = false

-- The target register without its low two bits.
unfoldable pub br_reg : BranchInput → ℕ
br_reg i =
    if bit i.op.xo 9 && not (bit i.op.xo 5)
    then cat 2 0 (slice i.fast1 2 64)
    else cat 2 0 (slice i.fast2 2 64)

unfoldable pub ctr_data : BranchInput → ℕ
unfolding ctr_n
ctr_data i = if bit i.op.bo 2 then 0 else ctr_n i

unfoldable pub lr_o : BranchOp → Data
lr_o op = if op.lk then record { content = trunc 64 (op.cia + 4); ok = true } else no_data

module _ (ext : Extend) where
  open ext use {exts}

  -- The sign-extended word offset, as a byte offset.
  unfoldable pub br_ext : ℕ → ℕ → ℕ
  br_ext width x = trunc 64 (cat 2 0 (exts x width 62))

  -- The switch over the operation: the immediate or register target.
  unfoldable pub br_imm_addr : BranchInsn → BranchInput → ℕ
  unfolding br_ext br_reg
  br_imm_addr op_b i = br_ext 24 i.op.li
  br_imm_addr op_bc i = br_ext 14 i.op.bd
  br_imm_addr op_bcreg i = br_reg i
  br_imm_addr op_other i = 0

  -- Absolute or relative to the current instruction.
  unfoldable pub br_addr : BranchInput → ℕ
  br_addr i =
      if i.op.aa || is_bcreg i.op.insn_type
      then br_imm_addr i.op.insn_type i
      else trunc 64 (br_imm_addr i.op.insn_type i + i.op.cia)

  unfoldable pub branch_stage : BranchInput → BranchOutput
  branch_stage i = record {
    op = i.op;
    ctr = record { content = ctr_data i; ok = ctr_ok i.op.insn_type i };
    lr = lr_o i.op;
    nia = record { content = br_addr i; ok = br_taken i.op.insn_type i };
  }
