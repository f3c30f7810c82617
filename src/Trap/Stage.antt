-- ===== src/Trap/Stage.antt =====
-- fu/trap/main_stage.py: the trap condition, the entry and the return, and the moves to and from the
-- machine state register.
use Prim.Native.Nat.{bit_and}
use libresoc_soc.Common.{
  ℕ, ◌+◌, ◌*◌, ◌/◌, ◌%◌, ◌^◌, Bool, true, not, ◌&&◌, ◌||◌, ◌==◌, ltb, if◌then◌else◌,
}
use libresoc_soc.Common.{bit, slice, trunc}
use libresoc_soc.Alu.Types.{Extend, no_data}
use libresoc_soc.Branch.Stage.{br_ext}
use libresoc_soc.Trap.Types.{
  Register, no_register, TrapInsn, op_trap, op_mtmsrd, op_mtmsr, op_mfmsr, op_rfid, op_sc, op_other,
  TrapOp, TrapInput, TrapOutput, Consts,
}
use libresoc_soc.Trap.Msr.{with_bit, copy_range, msr_copy, msr_check_pr, msr_exception, put_back}

-- `x < y` of two signals of 64 bits that are signed.
abbrev pub signed_lt : ℕ → ℕ → Bool
signed_lt x y = ltb ((x + 2 ^ 63) % 2 ^ 64) ((y + 2 ^ 63) % 2 ^ 64)

module _ (ext : Extend) where
  open ext use {exts}

  -- Whether one of the tests that TO asks for holds, or the decoder has set a kind of trap.
  unfoldable pub should_trap : TrapInput → Bool
  should_trap i =
      let a_s = if i.op.is_32bit then trunc 64 (exts i.a 32 64) else i.a in
      let b_s = if i.op.is_32bit then trunc 64 (exts i.b 32 64) else i.b in
      let a = if i.op.is_32bit then slice i.a 0 32 else i.a in
      let b = if i.op.is_32bit then slice i.b 0 32 else i.b in
      let to = i.op.to in
      (ltb b a && bit to 0)
      || (ltb a b && bit to 1)
      || (a == b && bit to 2)
      || (signed_lt b_s a_s && bit to 3)
      || (signed_lt a_s b_s && bit to 4)
      || not (i.op.traptype == 0)

-- No result.
unfoldable pub nothing : TrapInput → TrapOutput
nothing i = record {
  op = i.op;
  o = no_register;
  srr0 = no_data;
  srr1 = no_register;
  svsrr0 = no_data;
  nia = no_data;
  msr = no_register;
  svstate = no_data;
}

-- The new PC, and the old one, MSR and SVSTATE saved.
unfoldable pub trap : TrapInput → ℕ → ℕ → TrapOutput
unfolding nothing msr_copy
trap i trap_addr return_addr = record (nothing i) {
  nia = record { content = trunc 64 trap_addr; ok = true };
  srr0 = record { content = trunc 64 return_addr; ok = true };
  srr1 = record { content = msr_copy i.op.msr; ok = true };
  svsrr0 = record { content = i.op.svstate; ok = true };
}

module _ (k : Consts) where
  -- The bits of SRR1 that tell the kind of trap.
  unfoldable pub srr1_of : TrapOp → Register → Register
  srr1_of op srr1 =
      let is = λ (mask : ℕ). not (bit_and op.traptype mask == 0) in
      let e = op.ldst_exc in
      let s1 = if op.traptype == 0 then with_bit k.pi.trap true srr1 else srr1 in
      let s2 = if is k.tt.priv then with_bit k.pi.priv true s1 else s1 in
      let s3 = if is k.tt.fp then with_bit k.pi.fp true s2 else s2 in
      let s4 = if is k.tt.addr then with_bit k.pi.adr true s3 else s3 in
      let s5 =
        if is k.tt.memexc
        then with_bit k.pi.priv e.rc_error (
            with_bit k.pi.illeg e.badtree
              (with_bit k.pi.permerr e.perm_error (with_bit k.pi.invalid e.invalid s4)))
        else s4 in
      if is k.tt.illeg then with_bit k.pi.illeg true s5 else s5

  -- An interrupt, with the bits of SRR1 that tell its kind.
  unfoldable pub interrupt : TrapInput → ℕ → ℕ → (Register → Register) → TrapOutput
  unfolding trap msr_exception
  interrupt i trap_addr return_addr kind =
      let t = trap i trap_addr return_addr in
      record t {
        srr1 = record { content = kind t.srr1.content; ok = true };
        msr = record { content = msr_exception k i.op.msr; ok = true };
      }

  -- The new MSR of `mtmsr` and `mtmsrd` where L is 0, before the problem state is checked.
  unfoldable pub moved_msr : TrapInsn → Register → Register → Register
  unfolding put_back
  moved_msr op_mtmsrd msr_i a_i =
      put_back k msr_i a_i (copy_range 61 64 a_i (copy_range 13 60 a_i (copy_range 1 12 a_i msr_i)))
  moved_msr _ msr_i a_i = copy_range 13 32 a_i (copy_range 1 12 a_i msr_i)

  -- The same for both values of L.
  unfoldable pub updated_msr : TrapInput → Register
  unfolding msr_check_pr moved_msr
  updated_msr i =
      let m = k.msr in
      let a_i = bit i.a in
      if i.op.l
      then with_bit m.ee (a_i m.ee) (with_bit m.ri (a_i m.ri) i.op.msr)
      else msr_check_pr k (moved_msr i.op.insn_type i.op.msr a_i)

  -- Without HV, HV and ME are as they were.
  unfoldable pub restored_msr : Register → Register → Register
  restored_msr msr_i msr =
      let m = k.msr in
      if not (msr_i m.hv) then with_bit m.me (msr_i m.me) (with_bit m.hv (msr_i m.hv) msr) else msr

  unfoldable pub mtmsr_of : TrapInput → Register
  unfolding updated_msr restored_msr
  mtmsr_of i = restored_msr i.op.msr (updated_msr i)

  -- The new MSR of `rfid` and `hrfid`.
  unfoldable pub rfid_msr : TrapInput → Register
  unfolding msr_copy msr_check_pr put_back
  rfid_msr i =
      let msr_i = i.op.msr in
      let copy = msr_copy i.srr1 in
      let me = k.field 51 in
      let with_me =
        if not i.op.hrfid
        then (if msr_i (k.field 3)
            then with_bit me (i.srr1 me) copy
            else with_bit me (msr_i me) copy)
        else copy in
      put_back k msr_i i.srr1 (msr_check_pr k with_me)

module _ (ext : Extend) (k : Consts) where
  -- The return from an interrupt.
  unfoldable pub rfid : TrapInput → TrapOutput
  unfolding nothing rfid_msr
  rfid i = record (nothing i) {
    nia = record { content = br_ext ext 62 (i.srr0 / 4); ok = true };
    svstate = record { content = i.op.svstate; ok = true };
    msr = record { content = rfid_msr k i; ok = true };
  }

  -- The output of the stage.
  unfoldable pub trap_stage : TrapInsn → TrapInput → TrapOutput
  unfolding should_trap nothing interrupt srr1_of mtmsr_of rfid
  trap_stage op_trap i =
      if should_trap ext i
      then interrupt k i (i.op.trapaddr * 16) i.op.cia (srr1_of k i.op)
      else nothing i
  trap_stage op_mtmsrd i = record (nothing i) { msr = record { content = mtmsr_of k i; ok = true } }
  trap_stage op_mtmsr i = record (nothing i) { msr = record { content = mtmsr_of k i; ok = true } }
  trap_stage op_mfmsr i = record (nothing i) { o = record { content = i.op.msr; ok = true } }
  trap_stage op_rfid i = rfid i
  trap_stage op_sc i = interrupt k i 0xc00 (i.op.cia + 4) (λ srr1. srr1)
  trap_stage op_other i = nothing i

  unfoldable pub trap_main : TrapInput → TrapOutput
  unfolding trap_stage
  trap_main i = trap_stage i.op.insn_type i
