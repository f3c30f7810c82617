-- ===== src/Trap/Restore.antt =====
-- fu/trap/main_stage.py: the machine state register that `rfid` and `hrfid` make of SRR1.
use libresoc_soc.Common.{◌≡◌, refl, sym, subst, Bool, true, false, not, ◌&&◌, ◌||◌, if◌then◌else◌}
use libresoc_soc.Alu.Types.{Extend}
use libresoc_soc.Trap.Types.{Register, TrapInput, op_rfid, TtMasks, Consts}
use libresoc_soc.Trap.Msr.{with_bit, msr_copy, msr_check_pr, put_back}
use libresoc_soc.Trap.Stage.{rfid_msr, rfid, trap_stage, trap_main}
use libresoc_soc.Trap.Isa.{IsIsa}
use libresoc_soc.Trap.Moves.{isa_consts, isa-consts, either, IsChecked, msr_check_pr-IsChecked}

-- HV, PR and LE are SRR1's, and ME is `me`.
pub record IsTaken (srr1 : Register) (me : Bool) (r : Register) : Type 0 where
  pub hv : r 60 ≡ srr1 60
  pub pr : r 14 ≡ srr1 14
  pub le : r 0 ≡ srr1 0
  pub me_bit : r 12 ≡ me

-- ME is SRR1's for `hrfid` and for a hypervisor, and else the old one.
abbrev pub me_of : TrapInput → Bool
me_of i = if i.op.hrfid || i.op.msr 60 then i.srr1 12 else i.op.msr 12

module _ (tt : TtMasks) where
  put_back-IsTaken :
      (old a : Register) (me : Bool) (r : Register)
      → IsTaken a me r
      → IsTaken a me (put_back (isa_consts tt) old a r)
  unfolding put_back
  put_back-IsTaken old a me r t =
      either (IsTaken a me)
        ((not (old 34) && old 33 && not (old 32)) && (not (a 34) && not (a 33) && not (a 32)))
        (with_bit 32 (old 32) (with_bit 33 (old 33) (with_bit 34 (old 34) r))) r
        (record { hv = t.hv; pr = t.pr; le = t.le; me_bit = t.me_bit }) t

  put_back-IsChecked :
      (old a r : Register) → IsChecked r → IsChecked (put_back (isa_consts tt) old a r)
  unfolding put_back
  put_back-IsChecked old a r c =
      either IsChecked
        ((not (old 34) && old 33 && not (old 32)) && (not (a 34) && not (a 33) && not (a 32)))
        (with_bit 32 (old 32) (with_bit 33 (old 33) (with_bit 34 (old 34) r))) r
        (record { ee = c.ee; ir = c.ir; dr = c.dr }) c

  msr_check_pr-IsTaken :
      (a : Register) (me : Bool) (r : Register)
      → IsTaken a me r
      → IsTaken a me (msr_check_pr (isa_consts tt) r)
  unfolding msr_check_pr
  msr_check_pr-IsTaken a me r t =
      either (IsTaken a me) (r 14) (with_bit 4 true (with_bit 5 true (with_bit 15 true r))) r
        (record { hv = t.hv; pr = t.pr; le = t.le; me_bit = t.me_bit }) t

  -- The copy of SRR1, with ME as chosen.
  abbrev copied : TrapInput → Register
  copied i =
      if not i.op.hrfid
      then (if i.op.msr 60
          then with_bit 12 (i.srr1 12) (msr_copy i.srr1)
          else with_bit 12 (i.op.msr 12) (msr_copy i.srr1))
      else msr_copy i.srr1

  copied-IsTaken : (i : TrapInput) → IsTaken i.srr1 (me_of i) (copied i)
  unfolding msr_copy
  copied-IsTaken i = chosen i.op.hrfid (i.op.msr 60) i.srr1 (i.op.msr 12)
    where
      chosen :
          (h v : Bool) (a : Register) (old : Bool)
          → IsTaken a (if h || v then a 12 else old) (
              if not h
              then (if v then with_bit 12 (a 12) (msr_copy a) else with_bit 12 old (msr_copy a))
              else msr_copy a)
      chosen true v a old = record { hv = refl; pr = refl; le = refl; me_bit = refl }
      chosen false true a old = record { hv = refl; pr = refl; le = refl; me_bit = refl }
      chosen false false a old = record { hv = refl; pr = refl; le = refl; me_bit = refl }

  rfid_msr-IsTaken : (i : TrapInput) → IsTaken i.srr1 (me_of i) (rfid_msr (isa_consts tt) i)
  unfolding rfid_msr
  rfid_msr-IsTaken i =
      put_back-IsTaken i.op.msr i.srr1 (me_of i) (msr_check_pr (isa_consts tt) (copied i))
        (msr_check_pr-IsTaken i.srr1 (me_of i) (copied i) (copied-IsTaken i))

  rfid_msr-IsChecked : (i : TrapInput) → IsChecked (rfid_msr (isa_consts tt) i)
  unfolding rfid_msr
  rfid_msr-IsChecked i =
      put_back-IsChecked i.op.msr i.srr1 (msr_check_pr (isa_consts tt) (copied i))
        (msr_check_pr-IsChecked tt (copied i))

-- `rfid` and `hrfid` write MSR: HV, PR and LE are those of SRR1, also for a program without HV, ME is
-- that of SRR1 for `hrfid` or with HV and else stays as it is, and in the problem state EE, IR and DR
-- are set; the package's numbers are those of `IsIsa`.
rfid-IsTaken :
    (ext : Extend) (k : Consts) (isa : IsIsa k) (i : TrapInput)
    → i.op.insn_type ≡ op_rfid
    → ((trap_main ext k i).msr.ok ≡ true)
      × IsTaken i.srr1 (me_of i) (trap_main ext k i).msr.content
      × IsChecked (trap_main ext k i).msr.content
unfolding trap_main trap_stage rfid
rfid-IsTaken ext k isa i e =
    subst
      (λ o.
        ((trap_stage ext k o i).msr.ok ≡ true)
        × IsTaken i.srr1 (me_of i) (trap_stage ext k o i).msr.content
        × IsChecked (trap_stage ext k o i).msr.content)
      (sym e)
      (subst
        (λ c. (true ≡ true) × IsTaken i.srr1 (me_of i) (rfid_msr c i) × IsChecked (rfid_msr c i))
        (sym (isa-consts k isa)) (refl, rfid_msr-IsTaken k.tt i, rfid_msr-IsChecked k.tt i))
