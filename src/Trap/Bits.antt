-- ===== src/Trap/Bits.antt =====
-- The helpers of fu/trap/main_stage.py on the machine state register, bit by bit.
use libresoc_soc.Common.{
  ℕ, ◌≡◌, refl, sym, ap, ◌∙◌, arith, Bool, true, false, not, ◌&&◌, ◌||◌, ◌==◌, leb, ltb,
  if◌then◌else◌, Bool-cases, inl, inr,
}
use libresoc_soc.Trap.Types.{Register, Consts}
use libresoc_soc.Trap.Msr.{with_bit, msr_copy, msr_check_pr, put_back}
use libresoc_soc.Trap.Isa.{full}

-- A bit that is written with what it holds.
pub with_bit-same : (n : ℕ) (b : Bool) (r : Register) (h : r n ≡ b) (m : ℕ) → with_bit n b r m ≡ r m
with_bit-same n b r h m = elim (Bool-cases (m == n)) [
  | inl e ↦ ap (λ c. if c then b else r m) e ∙ sym (ap r (same e) ∙ h)
  | inr e ↦ ap (λ c. if c then b else r m) e
]
  where
    same : (m == n) ≡ true → m ≡ n
    same e = ground arith

-- Only the bits that an interrupt saves are copied.
pub msr_copy-full : (r : Register) (n : ℕ) → msr_copy r n ≡ (if full n then r n else false)
unfolding msr_copy
msr_copy-full r n = merged (leb 31 n && ltb n 64) (leb 22 n && ltb n 27) (leb 0 n && ltb n 16) (r n)
  where
    merged :
        (x y z b : Bool)
        → (if x then b else (if y then b else (if z then b else false)))
          ≡ (if x || (y || z) then b else false)
    merged true y z b = refl
    merged false true z b = refl
    merged false false z b = refl

-- A check that the problem state already meets changes nothing.
pub msr_check_pr-same :
    (k : Consts) (r : Register) (ee : r k.msr.pr ≡ true → r k.msr.ee ≡ true)
    (ir : r k.msr.pr ≡ true → r k.msr.ir ≡ true) (dr : r k.msr.pr ≡ true → r k.msr.dr ≡ true)
    (n : ℕ)
    → msr_check_pr k r n ≡ r n
unfolding msr_check_pr
msr_check_pr-same k r ee ir dr n = elim (Bool-cases (r k.msr.pr)) [
  | inl e ↦ ap (λ c. choose c n) e ∙ set (ee e) (ir e) (dr e)
  | inr e ↦ ap (λ c. choose c n) e
]
  where
    with_ee : Register
    with_ee = with_bit k.msr.ee true r

    with_ir : Register
    with_ir = with_bit k.msr.ir true with_ee

    with_dr : Register
    with_dr = with_bit k.msr.dr true with_ir

    choose : Bool → Register
    choose c = if c then with_dr else r

    set : r k.msr.ee ≡ true → r k.msr.ir ≡ true → r k.msr.dr ≡ true → with_dr n ≡ r n
    set he hi hd =
        let on_ee = with_bit-same k.msr.ee true r he in
        let on_ir = with_bit-same k.msr.ir true with_ee (on_ee k.msr.ir ∙ hi) in
        with_bit-same k.msr.dr true with_ir (on_ir k.msr.dr ∙ on_ee k.msr.dr ∙ hd) n
        ∙ on_ir n
        ∙ on_ee n

-- Nothing is put back where the middle bit is the same in both registers.
pub put_back-same :
    (k : Consts) (msr_i src r : Register)
    → src (k.field 30) ≡ msr_i (k.field 30)
    → (n : ℕ) → put_back k msr_i src r n ≡ r n
unfolding put_back
put_back-same k msr_i src r e n =
    ap
      (λ c.
        (if c
            then with_bit (k.field 31) (msr_i (k.field 31)) (
                with_bit (k.field 30) (msr_i (k.field 30))
                  (with_bit (k.field 29) (msr_i (k.field 29)) r))
            else r)
          n)
      (ap
          (λ b.
            (not (msr_i (k.field 29)) && msr_i (k.field 30) && not (msr_i (k.field 31)))
            && (not (src (k.field 29)) && not b && not (src (k.field 31))))
          e
        ∙ never (msr_i (k.field 29)) (msr_i (k.field 30)) (msr_i (k.field 31)) (src (k.field 29))
            (src (k.field 31)))
  where
    never : (t m l s z : Bool) → ((not t && m && not l) && (not s && not m && not z)) ≡ false
    never t m l s z = ground arith
