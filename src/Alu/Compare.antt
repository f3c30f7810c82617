-- ===== src/Alu/Compare.antt =====
-- Comparisons of fu/alu against the order of the operands.
use libresoc_soc.Common.{ℕ, ◌+◌, ◌-◌, ◌*◌, ◌%◌, ◌^◌, ◌<◌, ◌≡◌, refl, ap, ◌∙◌, arith}
use libresoc_soc.Common.{
  Bool, true, false, not, ◌&&◌, xor, ltb, leb, ◌==◌, bit, slice, b2n, inv, if◌then◌else◌,
}
use libresoc_soc.Alu.Types.{AluOp, AluInput, Extend, op_cmp, cry_one}
use libresoc_soc.Alu.Types.{record_of}
use libresoc_soc.Alu.InputStage.{input_stage}
use libresoc_soc.Alu.MainStage.{tval_of, cmp_cr0, add_of, add_o, main_stage, cmp_result, is_32bit}
use libresoc_soc.Alu.OutputStage.{output_stage, alu}
use libresoc_soc.Alu.Addition.{add_of-sum}

-- The order of two numbers of w bits, read as signed numbers or not.
abbrev pub less : ℕ → Bool → ℕ → ℕ → Bool
less w is_signed x y =
    if is_signed then ltb ((x + 2 ^ (w - 1)) % 2 ^ w) ((y + 2 ^ (w - 1)) % 2 ^ w) else ltb x y

-- CR0 of a comparison: summary overflow, equal, greater, less.
abbrev pub order_cr0 : ℕ → Bool → Bool → ℕ → ℕ → ℕ
order_cr0 w is_signed so x y =
    b2n so + b2n (x == y) * 2 + b2n (less w is_signed y x) * 4 + b2n (less w is_signed x y) * 8

-- What the comparison bits are from the four tests: equal, the sign bits, and the carry.
abbrev tval_from : Bool → Bool → Bool → Bool → ℕ
tval_from e msb_a msb_b a_lt =
    if e
    then 4
    else if xor msb_a msb_b
    then b2n msb_a + b2n msb_b * 2 + b2n msb_b * 8 + b2n msb_a * 16
    else b2n (not a_lt) + b2n a_lt * 2 + b2n (not a_lt) * 8 + b2n a_lt * 16

abbrev less_from : Bool → Bool → Bool → Bool → Bool
less_from is_signed msb_a msb_b a_lt =
    if xor msb_a msb_b then (if is_signed then msb_a else msb_b) else a_lt

cr0_from :
    (is_signed so e msb_a msb_b a_lt : Bool)
    → cmp_cr0 is_signed so (tval_from e msb_a msb_b a_lt)
      ≡ b2n so
        + b2n e * 2
        + b2n (not e && not (less_from is_signed msb_a msb_b a_lt)) * 4
        + b2n (not e && less_from is_signed msb_a msb_b a_lt) * 8
unfolding cmp_cr0
cr0_from is_signed so e msb_a msb_b a_lt = ground arith

module _ (a b : ℕ) (ha : a < 2 ^ 64) (hb : b < 2 ^ 64) where
  inverted : inv 64 (inv 64 a) ≡ a
  inverted = omega arith

  sum_is : add_of (inv 64 a) b true ≡ 2 * (2 ^ 64 + b - a)
  sum_is = omega (arith, add_of-sum (inv 64 a) b true (omega arith) hb)

  carry_64 : bit (add_of (inv 64 a) b true) 65 ≡ leb a b
  carry_64 = rw sum_is (ground arith)

  equal_64 : (slice a 0 32 == slice b 0 32 && slice a 32 64 == slice b 32 64) ≡ (a == b)
  equal_64 = ground arith

  carry_32 :
      xor (xor (bit (add_of (inv 64 a) b true) 33) (bit (inv 64 a) 32)) (bit b 32)
      ≡ leb (a % 2 ^ 32) (b % 2 ^ 32)
  carry_32 = rw sum_is (ground arith)

  abbrev sum : ℕ
  sum = add_of (inv 64 a) b true

  tval_64 : tval_of false (inv 64 a) b sum ≡ tval_from (a == b) (bit a 63) (bit b 63) (leb a b)
  unfolding tval_of
  tval_64 = rw (inverted, carry_64, equal_64) refl

  equal_32 : (slice a 0 32 == slice b 0 32 && true) ≡ (a % 2 ^ 32 == b % 2 ^ 32)
  equal_32 = ground arith

  tval_32 :
      tval_of true (inv 64 a) b sum
      ≡ tval_from (a % 2 ^ 32 == b % 2 ^ 32) (bit a 31) (bit b 31) (leb (a % 2 ^ 32) (b % 2 ^ 32))
  unfolding tval_of
  tval_32 = rw (inverted, carry_32, equal_32) refl

  less_64 :
      (s : Bool) → (not (a == b) && less_from s (bit a 63) (bit b 63) (leb a b)) ≡ less 64 s a b
  less_64 s = ground arith

  more_64 :
      (s : Bool)
      → (not (a == b) && not (less_from s (bit a 63) (bit b 63) (leb a b))) ≡ less 64 s b a
  more_64 s = ground arith

  less_32 :
      (s : Bool)
      → (not (a % 2 ^ 32 == b % 2 ^ 32)
          && less_from s (bit a 31) (bit b 31) (leb (a % 2 ^ 32) (b % 2 ^ 32)))
        ≡ less 32 s (a % 2 ^ 32) (b % 2 ^ 32)
  less_32 s = ground arith

  more_32 :
      (s : Bool)
      → (not (a % 2 ^ 32 == b % 2 ^ 32)
          && not (less_from s (bit a 31) (bit b 31) (leb (a % 2 ^ 32) (b % 2 ^ 32))))
        ≡ less 32 s (b % 2 ^ 32) (a % 2 ^ 32)
  more_32 s = ground arith

  cmp_64 : (s so : Bool) → cmp_cr0 s so (tval_of false (inv 64 a) b sum) ≡ order_cr0 64 s so a b
  cmp_64 s so =
      rw (tval_64)
        (cr0_from s so (a == b) (bit a 63) (bit b 63) (leb a b) ∙ rw (less_64 s, more_64 s) refl)

  cmp_32 :
      (s so : Bool)
      → cmp_cr0 s so (tval_of true (inv 64 a) b sum) ≡ order_cr0 32 s so (a % 2 ^ 32) (b % 2 ^ 32)
  cmp_32 s so = rw (tval_32) (
      cr0_from s so (a % 2 ^ 32 == b % 2 ^ 32) (bit a 31) (bit b 31) (leb (a % 2 ^ 32) (b % 2 ^ 32))
      ∙ rw (less_32 s, more_32 s) refl)

-- A comparison as the decoder asks for it: the first operand is inverted and the carry is 1.
pub record IsCompare (op : AluOp) : Type 0 where
  pub insn : op.insn_type ≡ op_cmp
  pub source : op.sv_pred_sz ≡ false
  pub inverts : op.invert_in ≡ true
  pub carries : op.input_carry ≡ cry_one

cmp_input :
    (i : AluInput) → IsCompare i.op → input_stage i ≡ record i { a = inv 64 i.a; xer_ca = 3 }
unfolding input_stage
cmp_input i is = ground arith

cmp_output :
    (ext : Extend) (i : AluInput)
    → i.op.insn_type ≡ op_cmp
    → (output_stage (main_stage ext i)).cr0 ≡ record {
      content =
          cmp_cr0 i.op.is_signed i.xer_so
            (tval_of (not i.op.l) i.a i.b (add_of i.a i.b (bit i.xer_ca 0)));
      ok = i.op.write_cr0;
    }
unfolding output_stage main_stage cmp_result add_o is_32bit
cmp_output ext i e = ground arith

-- A comparison of 64-bit operands sets CR0 to the summary overflow, and to one of equal, greater and
-- less: the order of the first operand to the second, of all 64 bits if the L field is 1 and of the
-- low 32 if it is 0, signed or unsigned as the operation says.
pub alu-compare :
    (ext : Extend) (i : AluInput)
    → IsCompare i.op
    → i.a < 2 ^ 64
    → i.b < 2 ^ 64
    → (alu ext i).cr0 ≡ record {
      content =
          if i.op.l
          then order_cr0 64 i.op.is_signed i.xer_so i.a i.b
          else order_cr0 32 i.op.is_signed i.xer_so (i.a % 2 ^ 32) (i.b % 2 ^ 32);
      ok = i.op.write_cr0;
    }
unfolding alu
alu-compare ext i is ha hb = rw (cmp_input i is) (
    cmp_output ext (record i { a = inv 64 i.a; xer_ca = 3 }) is.insn
    ∙ ap (λ (c : ℕ). record_of c i.op.write_cr0) (by_width i.op.l))
  where
    by_width :
        (l : Bool)
        → cmp_cr0 i.op.is_signed i.xer_so
            (tval_of (not l) (inv 64 i.a) i.b (add_of (inv 64 i.a) i.b true))
          ≡ (if l
              then order_cr0 64 i.op.is_signed i.xer_so i.a i.b
              else order_cr0 32 i.op.is_signed i.xer_so (i.a % 2 ^ 32) (i.b % 2 ^ 32))
    by_width true = cmp_64 i.a i.b ha hb i.op.is_signed i.xer_so
    by_width false = cmp_32 i.a i.b ha hb i.op.is_signed i.xer_so
