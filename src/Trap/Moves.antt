-- ===== src/Trap/Moves.antt =====
-- fu/trap/main_stage.py: what `mtmsr`, `mtmsrd`, `rfid` and `hrfid` can make of the machine state
-- register.
use libresoc_soc.Common.{
  ◌-◌, ◌≡◌, refl, sym, subst, arith, Bool, true, false, not, ◌&&◌, if◌then◌else◌, bit,
}
use libresoc_soc.Alu.Types.{Extend}
use libresoc_soc.Trap.Types.{Register, TrapInsn, TrapInput, op_mtmsr, op_mtmsrd, TtMasks, Consts}
use libresoc_soc.Trap.Msr.{with_bit, copy_range, msr_check_pr, put_back}
use libresoc_soc.Trap.Stage.{moved_msr, updated_msr, restored_msr, mtmsr_of, trap_stage, trap_main}
use libresoc_soc.Trap.Isa.{isa_msr, isa_pi, IsIsa}

-- The package's constants, and that `k` is no other.
abbrev pub isa_consts : TtMasks → Consts
isa_consts tt = record { msr = isa_msr; pi = isa_pi; tt = tt; field = λ n. 63 - n }

pub isa-consts : (k : Consts) → IsIsa k → k ≡ isa_consts k.tt
isa-consts k isa j = record {
  msr = isa.msr j;
  pi = isa.pi j;
  tt = k.tt;
  field = λ n. isa.field n j;
}

-- A property of both registers that a condition chooses from.
pub either :
    (P : Register → Type 0) (c : Bool) (x y : Register) → P x → P y → P (if c then x else y)
either P true x y p q = p
either P false x y p q = q

-- EE, IR and DR are on if the register is in the problem state.
pub record IsChecked (r : Register) : Type 0 where
  pub ee : r 14 ≡ true → r 15 ≡ true
  pub ir : r 14 ≡ true → r 5 ≡ true
  pub dr : r 14 ≡ true → r 4 ≡ true

module _ (tt : TtMasks) where
  pub msr_check_pr-IsChecked : (r : Register) → IsChecked (msr_check_pr (isa_consts tt) r)
  unfolding msr_check_pr
  msr_check_pr-IsChecked r = by_pr (r 14) refl
    where
      by_pr :
          (b : Bool)
          → r 14 ≡ b
          → IsChecked (if b then with_bit 4 true (with_bit 5 true (with_bit 15 true r)) else r)
      by_pr true e = record { ee = λ _. refl; ir = λ _. refl; dr = λ _. refl }
      by_pr false e = record {
        ee = λ h. ground arith;
        ir = λ h. ground arith;
        dr = λ h. ground arith;
      }

-- HV, ME and LE are the old ones.
pub record IsGuarded (old r : Register) : Type 0 where
  pub hv : r 60 ≡ old 60
  pub me : r 12 ≡ old 12
  pub le : r 0 ≡ old 0

-- What the move to the register by `i` makes of it.
pub record IsMoved (i : TrapInput) (r : Register) : Type 0 where
  pub guarded : IsGuarded i.op.msr r
  pub checked : i.op.l ≡ false → IsChecked r

module _ (tt : TtMasks) where
  -- The parts of the register that are put back are not guarded, nor those that the check sets.
  put_back-IsGuarded :
      (old a r : Register) → IsGuarded old r → IsGuarded old (put_back (isa_consts tt) old a r)
  unfolding put_back
  put_back-IsGuarded old a r g =
      either (IsGuarded old)
        ((not (old 34) && old 33 && not (old 32)) && (not (a 34) && not (a 33) && not (a 32)))
        (with_bit 32 (old 32) (with_bit 33 (old 33) (with_bit 34 (old 34) r))) r
        (record { hv = g.hv; me = g.me; le = g.le }) g

  msr_check_pr-IsGuarded :
      (old r : Register) → IsGuarded old r → IsGuarded old (msr_check_pr (isa_consts tt) r)
  unfolding msr_check_pr
  msr_check_pr-IsGuarded old r g =
      either (IsGuarded old) (r 14) (with_bit 4 true (with_bit 5 true (with_bit 15 true r))) r
        (record { hv = g.hv; me = g.me; le = g.le }) g

  moved_msr-IsGuarded :
      (op : TrapInsn) (old a : Register) → IsGuarded old (moved_msr (isa_consts tt) op old a)
  unfolding moved_msr
  moved_msr-IsGuarded op_mtmsrd old a =
      put_back-IsGuarded old a (copy_range 61 64 a (copy_range 13 60 a (copy_range 1 12 a old)))
        (record { hv = refl; me = refl; le = refl })
  moved_msr-IsGuarded _ old a = record { hv = refl; me = refl; le = refl }

  updated_msr-IsGuarded : (i : TrapInput) → IsGuarded i.op.msr (updated_msr (isa_consts tt) i)
  unfolding updated_msr
  updated_msr-IsGuarded i =
      let moved = moved_msr (isa_consts tt) i.op.insn_type i.op.msr (bit i.a) in
      either (IsGuarded i.op.msr) i.op.l
        (with_bit 15 (bit i.a 15) (with_bit 1 (bit i.a 1) i.op.msr))
        (msr_check_pr (isa_consts tt) moved) (record { hv = refl; me = refl; le = refl })
        (msr_check_pr-IsGuarded i.op.msr moved
          (moved_msr-IsGuarded i.op.insn_type i.op.msr (bit i.a)))

  restored_msr-IsGuarded :
      (old r : Register) → IsGuarded old r → IsGuarded old (restored_msr (isa_consts tt) old r)
  unfolding restored_msr
  restored_msr-IsGuarded old r g =
      either (IsGuarded old) (not (old 60)) (with_bit 12 (old 12) (with_bit 60 (old 60) r)) r
        (record { hv = refl; me = refl; le = g.le }) g

  restored_msr-IsChecked :
      (old r : Register) → IsChecked r → IsChecked (restored_msr (isa_consts tt) old r)
  unfolding restored_msr
  restored_msr-IsChecked old r c =
      either IsChecked (not (old 60)) (with_bit 12 (old 12) (with_bit 60 (old 60) r)) r
        (record { ee = c.ee; ir = c.ir; dr = c.dr }) c

  mtmsr_of-IsMoved : (i : TrapInput) → IsMoved i (mtmsr_of (isa_consts tt) i)
  unfolding mtmsr_of updated_msr
  mtmsr_of-IsMoved i = record {
    guarded =
        restored_msr-IsGuarded i.op.msr (updated_msr (isa_consts tt) i) (updated_msr-IsGuarded i);
    checked = λ e. restored_msr-IsChecked i.op.msr (updated_msr (isa_consts tt) i) (
        subst
          (λ b. IsChecked (
            if b
            then with_bit 15 (bit i.a 15) (with_bit 1 (bit i.a 1) i.op.msr)
            else msr_check_pr (isa_consts tt) moved))
          (sym e) (msr_check_pr-IsChecked tt moved));
  }
    where
      moved : Register
      moved = moved_msr (isa_consts tt) i.op.insn_type i.op.msr (bit i.a)

-- The two instructions that move a general register to MSR.
pub data Moves (i : TrapInput) : Type 0 where
  word : i.op.insn_type ≡ op_mtmsr → Moves i
  doubleword : i.op.insn_type ≡ op_mtmsrd → Moves i

-- `mtmsr` and `mtmsrd` write MSR and leave its HV, ME and LE alone, whatever L and the moved register
-- are, and where L is 0 the new MSR, if in the problem state, has EE, IR and DR set; the package's
-- numbers are those of `IsIsa`.
pub trap_main-IsMoved :
    (ext : Extend) (k : Consts) (isa : IsIsa k) (i : TrapInput)
    → Moves i
    → ((trap_main ext k i).msr.ok ≡ true) × IsMoved i (trap_main ext k i).msr.content
unfolding trap_main trap_stage
trap_main-IsMoved ext k isa i (word e) =
    subst
      (λ o. ((trap_stage ext k o i).msr.ok ≡ true) × IsMoved i (trap_stage ext k o i).msr.content)
      (sym e)
      (
        refl,
        subst (λ c. IsMoved i (mtmsr_of c i)) (sym (isa-consts k isa)) (mtmsr_of-IsMoved k.tt i),
      )
trap_main-IsMoved ext k isa i (doubleword e) =
    subst
      (λ o. ((trap_stage ext k o i).msr.ok ≡ true) × IsMoved i (trap_stage ext k o i).msr.content)
      (sym e)
      (
        refl,
        subst (λ c. IsMoved i (mtmsr_of c i)) (sym (isa-consts k isa)) (mtmsr_of-IsMoved k.tt i),
      )
