-- ===== src/Trap/Return.antt =====
-- fu/trap/main_stage.py: an interrupt, and the `rfid` or `hrfid` that returns from it.
use libresoc_soc.Common.{ℕ, ◌≡◌, refl, sym, ap, ◌∙◌, Bool, true, false, not, if◌then◌else◌}
use libresoc_soc.Trap.Types.{Register, MsrBits, TrapInput, Consts}
use libresoc_soc.Trap.Msr.{with_bit, msr_copy, msr_check_pr}
use libresoc_soc.Trap.Stage.{rfid_msr}
use libresoc_soc.Trap.Isa.{isa_msr, IsIsa, full, IsProper}
use libresoc_soc.Trap.Bits.{with_bit-same, msr_check_pr-same, put_back-same}

-- The bits of the machine state register that `rfid` treats apart are as in the interrupted program's.
pub record IsHandler (k : Consts) (old msr : Register) : Type 0 where
  pub me : msr (k.field 51) ≡ old 12
  pub mid : msr (k.field 30) ≡ old 33

-- The content that a return gives the register, from the register at the interrupt.
abbrev pub restored : Register → Register
restored old n = if full n then old n else false

-- Whatever is chosen has the same bit.
chosen-same :
    (b c : Bool) (x y z : Register) (n : ℕ)
    → x n ≡ z n
    → y n ≡ z n
    → (if b then (if c then x else y) else z) n ≡ z n
chosen-same true true x y z n p q = p
chosen-same true false x y z n p q = q
chosen-same false c x y z n p q = refl

module _ (k : Consts) (isa : IsIsa k) (old : Register) (proper : IsProper old) (i : TrapInput)
    (copied : (n : ℕ) → msr_copy i.srr1 n ≡ restored old n) (handler : IsHandler k old i.op.msr)
    (me : i.srr1 (k.field 51) ≡ old 12) (mid : i.srr1 (k.field 30) ≡ old 33) where
  abbrev with_me : Register
  with_me =
      if not i.op.hrfid
      then (if i.op.msr (k.field 3)
          then with_bit (k.field 51) (i.srr1 (k.field 51)) (msr_copy i.srr1)
          else with_bit (k.field 51) (i.op.msr (k.field 51)) (msr_copy i.srr1))
      else msr_copy i.srr1

  with_me-restored : (n : ℕ) → with_me n ≡ restored old n
  with_me-restored n =
      let held = copied (k.field 51) ∙ ap (restored old) (isa.field 51) in
      chosen-same (not i.op.hrfid) (i.op.msr (k.field 3))
        (with_bit (k.field 51) (i.srr1 (k.field 51)) (msr_copy i.srr1))
        (with_bit (k.field 51) (i.op.msr (k.field 51)) (msr_copy i.srr1)) (msr_copy i.srr1) n
        (with_bit-same (k.field 51) _ (msr_copy i.srr1) (held ∙ sym me) n)
        (with_bit-same (k.field 51) _ (msr_copy i.srr1) (held ∙ sym handler.me) n)
      ∙ copied n

  at : (select : MsrBits → ℕ) → with_me (select k.msr) ≡ restored old (select isa_msr)
  at select = with_me-restored (select k.msr) ∙ ap (λ m. restored old (select m)) isa.msr

  pub rfid_msr-restored : (n : ℕ) → rfid_msr k i n ≡ restored old n
  unfolding rfid_msr
  rfid_msr-restored n =
      put_back-same k i.op.msr i.srr1 (msr_check_pr k with_me) (mid ∙ sym handler.mid) n
      ∙ msr_check_pr-same k with_me (λ h. at (λ m. m.ee) ∙ proper.ee (sym (at (λ m. m.pr)) ∙ h))
          (λ h. at (λ m. m.ir) ∙ proper.ir (sym (at (λ m. m.pr)) ∙ h))
          (λ h. at (λ m. m.dr) ∙ proper.dr (sym (at (λ m. m.pr)) ∙ h)) n
      ∙ with_me-restored n
