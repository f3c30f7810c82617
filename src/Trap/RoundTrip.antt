-- ===== src/Trap/RoundTrip.antt =====
-- fu/trap/main_stage.py: the state that an interrupt saves, and the return to it.
use Prim.Native.Nat.{bit_and}
use libresoc_soc.Common.{
  ℕ, ◌+◌, ◌*◌, ◌/◌, ◌%◌, ◌^◌, ◌≡◌, refl, sym, subst, ap, ◌∙◌, arith, Bool, true, false, not, ◌<◌,
  ◌==◌, if◌then◌else◌, Bool-cases, inl, inr, trunc,
}
use libresoc_soc.Alu.Types.{Extend}
use libresoc_soc.Branch.Stage.{br_ext}
use libresoc_soc.Trap.Types.{
  Register, PiBits, LdstException, TrapInput, TrapOutput, TrapOp, op_trap, op_sc, op_rfid, Consts,
}
use libresoc_soc.Trap.Msr.{with_bit, msr_copy, msr_exception}
use libresoc_soc.Trap.Stage.{
  nothing, should_trap, trap, interrupt, srr1_of, rfid, trap_stage, trap_main,
}
use libresoc_soc.Trap.Isa.{isa_pi, IsIsa, full, IsProper}
use libresoc_soc.Trap.Bits.{msr_copy-full}
use libresoc_soc.Trap.Return.{restored, IsHandler, rfid_msr-restored}

-- The `rfid`, or `hrfid`, with the registers as an interrupt left them.
abbrev pub returning : TrapInput → TrapOutput → Bool → TrapInput
returning i t hrfid = record {
  op = record i.op { insn_type = op_rfid; msr = t.msr.content; hrfid = hrfid };
  a = i.a;
  b = i.b;
  srr0 = t.srr0.content;
  srr1 = t.srr1.content;
  svsrr0 = t.svsrr0.content;
}

-- The return is to `address`, and the register is as in the interrupted program.
pub record IsReturn (old : Register) (address : ℕ) (r : TrapOutput) : Type 0 where
  pub nia : r.nia ≡ record { content = address; ok = true }
  pub msr : (n : ℕ) → r.msr.content n ≡ restored old n
  pub ok : r.msr.ok ≡ true

-- A write to another bit, and one that is made under a condition.
with_bit-other : (p n : ℕ) (b : Bool) (r : Register) → (n == p) ≡ false → with_bit p b r n ≡ r n
with_bit-other p n b r h = ap (λ x. if x then b else r n) h

either-same : (c : Bool) (x y : Register) (n : ℕ) → x n ≡ y n → (if c then x else y) n ≡ y n
either-same true x y n h = h
either-same false x y n h = refl

-- The bits that the kinds of trap use are none that an interrupt saves.
record IsUnmarked (p : PiBits) (n : ℕ) : Type 0 where
  trap : (n == p.trap) ≡ false
  priv : (n == p.priv) ≡ false
  fp : (n == p.fp) ≡ false
  adr : (n == p.adr) ≡ false
  invalid : (n == p.invalid) ≡ false
  permerr : (n == p.permerr) ≡ false
  illeg : (n == p.illeg) ≡ false

full-IsUnmarked : (n : ℕ) → full n ≡ true → IsUnmarked isa_pi n
full-IsUnmarked n h = record {
  trap = ground arith;
  priv = ground arith;
  fp = ground arith;
  adr = ground arith;
  invalid = ground arith;
  permerr = ground arith;
  illeg = ground arith;
}

module _ (k : Consts) (isa : IsIsa k) where
  srr1_of-full : (op : TrapOp) (s : Register) (n : ℕ) → full n ≡ true → srr1_of k op s n ≡ s n
  unfolding srr1_of
  srr1_of-full op s n h =
      either-same (is k.tt.illeg) (with_bit k.pi.illeg true s5) s5 n
        (with_bit-other k.pi.illeg n true s5 u.illeg)
      ∙ either-same (is k.tt.memexc) marked s4 n (
          with_bit-other k.pi.priv n e.rc_error m3 u.priv
          ∙ with_bit-other k.pi.illeg n e.badtree m2 u.illeg
          ∙ with_bit-other k.pi.permerr n e.perm_error m1 u.permerr
          ∙ with_bit-other k.pi.invalid n e.invalid s4 u.invalid)
      ∙ either-same (is k.tt.addr) (with_bit k.pi.adr true s3) s3 n
          (with_bit-other k.pi.adr n true s3 u.adr)
      ∙ either-same (is k.tt.fp) (with_bit k.pi.fp true s2) s2 n
          (with_bit-other k.pi.fp n true s2 u.fp)
      ∙ either-same (is k.tt.priv) (with_bit k.pi.priv true s1) s1 n
          (with_bit-other k.pi.priv n true s1 u.priv)
      ∙ either-same (op.traptype == 0) (with_bit k.pi.trap true s) s n
          (with_bit-other k.pi.trap n true s u.trap)
    where
      u : IsUnmarked k.pi n
      u = subst (λ p. IsUnmarked p n) (sym isa.pi) (full-IsUnmarked n h)

      e : LdstException
      e = op.ldst_exc

      is : ℕ → Bool
      is mask = not (bit_and op.traptype mask == 0)

      s1 : Register
      s1 = if op.traptype == 0 then with_bit k.pi.trap true s else s

      s2 : Register
      s2 = if is k.tt.priv then with_bit k.pi.priv true s1 else s1

      s3 : Register
      s3 = if is k.tt.fp then with_bit k.pi.fp true s2 else s2

      s4 : Register
      s4 = if is k.tt.addr then with_bit k.pi.adr true s3 else s3

      m1 : Register
      m1 = with_bit k.pi.invalid e.invalid s4

      m2 : Register
      m2 = with_bit k.pi.permerr e.perm_error m1

      m3 : Register
      m3 = with_bit k.pi.illeg e.badtree m2

      marked : Register
      marked = with_bit k.pi.priv e.rc_error m3

      s5 : Register
      s5 = if is k.tt.memexc then marked else s4

  msr_exception-IsHandler : (old : Register) → IsHandler k old (msr_exception k old)
  unfolding msr_exception
  msr_exception-IsHandler old = record {
    me =
        ap (λ n. msr_exception k old n) (isa.field 51)
        ∙ ap (λ m. msr_exception (record k { msr = m }) old 12) isa.msr;
    mid =
        ap (λ n. msr_exception k old n) (isa.field 30)
        ∙ ap (λ m. msr_exception (record k { msr = m }) old 33) isa.msr;
  }

-- What is saved and copied back.
saved-restored :
    (old s : Register)
    → ((n : ℕ) → full n ≡ true → s n ≡ msr_copy old n)
    → (n : ℕ) → msr_copy s n ≡ restored old n
saved-restored old s kept n = msr_copy-full s n ∙ elim (Bool-cases (full n)) [
  | inl e ↦ ap (λ c. if c then s n else false) e ∙ kept n e ∙ msr_copy-full old n
  | inr e ↦ ap (λ c. if c then s n else false) e ∙ sym (ap (λ c. if c then old n else false) e)
]

-- The sign extension of 62 bits to 62.
pub record IsExtend (ext : Extend) : Type 0 where
  pub same : (x : ℕ) → x < 2 ^ 62 → ext.exts x 62 62 ≡ x

br_ext-aligned :
    (ext : Extend)
    → IsExtend ext
    → (x : ℕ) → x % 4 ≡ 0
    → br_ext ext 62 (trunc 64 x / 4) ≡ trunc 64 x
unfolding br_ext
br_ext-aligned ext law x h =
    ap (λ y. trunc 64 (0 + y * 2 ^ 2)) (law.same (trunc 64 x / 4) narrow) ∙ whole
  where
    narrow : x % 2 ^ 64 / 4 < 2 ^ 62
    narrow = omega arith

    whole : (0 + x % 2 ^ 64 / 4 * 2 ^ 2) % 2 ^ 64 ≡ x % 2 ^ 64
    whole = omega arith

module _ (ext : Extend) (law : IsExtend ext) (k : Consts) (isa : IsIsa k) (i : TrapInput)
    (proper : IsProper i.op.msr) (hrfid : Bool) where
  -- A return from an interrupt whose kind changes none of the saved bits.
  interrupt-IsReturn :
      (addr address : ℕ) (kind : Register → Register)
      → ((s : Register) (n : ℕ) → full n ≡ true → kind s n ≡ s n)
      → address % 4 ≡ 0
      → IsReturn i.op.msr
          (trunc 64 address)
          (trap_main ext k (returning i (interrupt k i addr address kind) hrfid))
  unfolding trap_main trap_stage rfid interrupt trap
  interrupt-IsReturn addr address kind kept h = record {
    nia = ap (λ x. record { content = x; ok = true }) (br_ext-aligned ext law address h);
    msr =
        rfid_msr-restored k isa i.op.msr proper back
          (saved-restored i.op.msr saved (kept (msr_copy i.op.msr)))
          (msr_exception-IsHandler k isa i.op.msr) (at 51 12 (isa.field 51) refl)
          (at 30 33 (isa.field 30) refl);
    ok = refl;
  }
    where
      saved : Register
      saved = kind (msr_copy i.op.msr)

      back : TrapInput
      back = returning i (interrupt k i addr address kind) hrfid

      at : (f n : ℕ) → k.field f ≡ n → full n ≡ true → saved (k.field f) ≡ i.op.msr n
      at f n e on =
          ap saved e
          ∙ kept (msr_copy i.op.msr) n on
          ∙ msr_copy-full i.op.msr n
          ∙ ap (λ c. if c then i.op.msr n else false) on

-- The instructions that interrupt, with the address that the program goes on at: behind a system
-- call, and at the instruction that trapped.
pub data Interrupts (ext : Extend) (i : TrapInput) : ℕ → Type 0 where
  called : i.op.insn_type ≡ op_sc → Interrupts ext i (i.op.cia + 4)
  trapped : i.op.insn_type ≡ op_trap → should_trap ext i ≡ true → Interrupts ext i i.op.cia

-- The instruction after an interrupt is `rfid` or `hrfid`, with SRR0, SRR1 and MSR as the interrupt
-- left them: it goes on at the interrupted program's address, and gives MSR the bits that an
-- interrupt saves, where the interrupted program's MSR, if in the problem state, had EE, IR and DR
-- set; its other bits are 0. The address is a multiple of 4, `exts x 62 62` is x, and the package's
-- numbers are those of `IsIsa`.
pub interrupt-rfid-IsReturn :
    (ext : Extend) (law : IsExtend ext) (k : Consts) (isa : IsIsa k) (i : TrapInput)
    (proper : IsProper i.op.msr) (hrfid : Bool) (address : ℕ)
    → address % 4 ≡ 0
    → Interrupts ext i address
    → IsReturn i.op.msr (trunc 64 address) (trap_main ext k (returning i (trap_main ext k i) hrfid))
unfolding trap_main trap_stage
interrupt-rfid-IsReturn ext law k isa i proper hrfid _ h (called e) =
    subst
      (λ o.
        IsReturn i.op.msr (trunc 64 (i.op.cia + 4))
          (trap_main ext k (returning i (trap_stage ext k o i) hrfid)))
      (sym e)
      (interrupt-IsReturn ext law k isa i proper hrfid 0xc00 (i.op.cia + 4) (λ s. s)
        (λ s n on. refl) h)
interrupt-rfid-IsReturn ext law k isa i proper hrfid _ h (trapped e on) =
    subst
      (λ o.
        IsReturn i.op.msr (trunc 64 i.op.cia)
          (trap_main ext k (returning i (trap_stage ext k o i) hrfid)))
      (sym e)
      (subst
        (λ b. IsReturn i.op.msr (trunc 64 i.op.cia) (
          trap_main ext k (
            returning i
              (if b
                then interrupt k i (i.op.trapaddr * 16) i.op.cia (srr1_of k i.op)
                else nothing i)
              hrfid)))
        (sym on)
        (interrupt-IsReturn ext law k isa i proper hrfid (i.op.trapaddr * 16) i.op.cia
          (srr1_of k i.op) (srr1_of-full k isa i.op) h))
