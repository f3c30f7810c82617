-- ===== src/Branch/Target.antt =====
-- Where the branches of fu/branch/main_stage.py go: aligned targets and the link register.
use libresoc_soc.Common.{ℕ, ◌%◌, ◌≡◌, refl, arith}
use libresoc_soc.Alu.Types.{Extend}
use libresoc_soc.Branch.Types.{BranchInsn, op_b, op_bc, op_bcreg, op_other, BranchInput}
use libresoc_soc.Branch.Stage.{br_ext, br_reg, br_imm_addr, br_addr, branch_stage, lr_o}

br_ext-aligned : (ext : Extend) (width x : ℕ) → br_ext ext width x % 4 ≡ 0
unfolding br_ext
br_ext-aligned ext width x = omega arith

br_reg-aligned : (i : BranchInput) → br_reg i % 4 ≡ 0
unfolding br_reg
br_reg-aligned i = ground arith

br_imm_addr-aligned :
    (ext : Extend) (n : BranchInsn) (i : BranchInput) → br_imm_addr ext n i % 4 ≡ 0
unfolding br_imm_addr
br_imm_addr-aligned ext op_b i = br_ext-aligned ext 24 i.op.li
br_imm_addr-aligned ext op_bc i = br_ext-aligned ext 14 i.op.bd
br_imm_addr-aligned ext op_bcreg i = br_reg-aligned i
br_imm_addr-aligned ext op_other i = refl

-- If the address of the instruction is a multiple of four then so are the next instruction address
-- and the link address that the branch unit puts out, for every operation and every input.
branch_stage-aligned :
    (ext : Extend) (i : BranchInput)
    → i.op.cia % 4 ≡ 0
    → ((branch_stage ext i).nia.content % 4 ≡ 0) × ((branch_stage ext i).lr.content % 4 ≡ 0)
unfolding branch_stage br_addr lr_o
branch_stage-aligned ext i h = ground (arith, br_imm_addr-aligned ext i.op.insn_type i)
