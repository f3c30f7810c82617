-- ===== src/Cr/Logic.antt =====
-- fu/cr/main_stage.py: the logical operations on condition bits.
use libresoc_soc.Common.{
  ℕ, zero, suc, ◌-◌, ◌/◌, ◌%◌, ◌^◌, ◌≡◌, ◌<◌, refl, sym, subst, ap, ◌∙◌, arith, Bool, true, not,
  ◌&&◌, ◌||◌, ◌==◌, if◌then◌else◌, bit, xor,
}
use libresoc_soc.Cr.Stage.{op_crop, CrInput, set_bit, bit_o, crop, cr_stage, cr_main}

-- A property of the four bits of a field.
each {ℓ} : (P : ℕ → Type ℓ) → P 0 → P 1 → P 2 → P 3 → (n : ℕ) → n < 4 → P n
each P a b c d zero h = a
each P a b c d (suc zero) h = b
each P a b c d (suc (suc zero)) h = c
each P a b c d (suc (suc (suc zero))) h = d
each P a b c d (suc (suc (suc (suc n)))) h = ground (arith, h)

-- One bit of a field is set, and the others are as they were.
abbrev Sets : ℕ → Bool → ℕ → ℕ → Type 0
Sets x b i k = bit (set_bit x i b) k ≡ (if k == i then b else bit x k)

set_bit-bit : (x : ℕ) (b : Bool) (i : ℕ) → i < 4 → (k : ℕ) → k < 4 → x < 16 → Sets x b i k
unfolding set_bit
set_bit-bit x b i p k q h =
    each (λ i. x < 16 → Sets x b i k)
      (each (λ k. x < 16 → Sets x b 0 k) (λ h. ground arith) (λ h. ground arith) (λ h. ground arith)
        (λ h. ground arith) k q)
      (each (λ k. x < 16 → Sets x b 1 k) (λ h. ground arith) (λ h. ground arith) (λ h. ground arith)
        (λ h. ground arith) k q)
      (each (λ k. x < 16 → Sets x b 2 k) (λ h. ground arith) (λ h. ground arith) (λ h. ground arith)
        (λ h. ground arith) k q)
      (each (λ k. x < 16 → Sets x b 3 k) (λ h. ground arith) (λ h. ground arith) (λ h. ground arith)
        (λ h. ground arith) k q)
      i p h

-- The eight logical operations on condition bits, with their extended opcodes and what they compute.
pub data CrLogic : Type 0 where
  crand cror crxor crnand crnor creqv crandc crorc : CrLogic

abbrev pub extended_opcode : CrLogic → ℕ
extended_opcode crand = 257
extended_opcode cror = 449
extended_opcode crxor = 193
extended_opcode crnand = 225
extended_opcode crnor = 33
extended_opcode creqv = 289
extended_opcode crandc = 129
extended_opcode crorc = 417

abbrev pub meaning : CrLogic → Bool → Bool → Bool
meaning crand a b = a && b
meaning cror a b = a || b
meaning crxor a b = xor a b
meaning crnand a b = not (a && b)
meaning crnor a b = not (a || b)
meaning creqv a b = not (xor a b)
meaning crandc a b = a && not b
meaning crorc a b = a || not b

-- Bit `k` of a field, from the top.
abbrev pub field_bit : ℕ → ℕ → Bool
field_bit x k = bit x (3 - k)

looked_up :
    (l : CrLogic) (a b : Bool)
    → (if b
        then (if a
            then bit (extended_opcode l / 2 ^ 5 % 2 ^ 4) 3
            else bit (extended_opcode l / 2 ^ 5 % 2 ^ 4) 1)
        else (if a
            then bit (extended_opcode l / 2 ^ 5 % 2 ^ 4) 2
            else bit (extended_opcode l / 2 ^ 5 % 2 ^ 4) 0))
      ≡ meaning l a b
looked_up crand a b = ground arith
looked_up cror a b = ground arith
looked_up crxor a b = ground arith
looked_up crnand a b = ground arith
looked_up crnor a b = ground arith
looked_up creqv a b = ground arith
looked_up crandc a b = ground arith
looked_up crorc a b = ground arith

bit_o-meaning :
    (l : CrLogic) (i : CrInput)
    → i.op.lut ≡ extended_opcode l / 2 ^ 5 % 2 ^ 4
    → bit_o i ≡ meaning l (field_bit i.cr_a i.op.ba) (field_bit i.cr_b i.op.bb)
unfolding bit_o
bit_o-meaning l i e =
    ap
      (λ t.
        if field_bit i.cr_b i.op.bb
        then (if field_bit i.cr_a i.op.ba then bit t 3 else bit t 1)
        else (if field_bit i.cr_a i.op.ba then bit t 2 else bit t 0))
      e
    ∙ looked_up l (field_bit i.cr_a i.op.ba) (field_bit i.cr_b i.op.bb)

-- A logical operation writes the field of its target with the bit that its name says of the two
-- selected bits in place of the selected bit, and every other bit of the field as it was. The lookup
-- table is that of the operation's extended opcode, and bits are numbered from the top.
pub cr_main-logic :
    (l : CrLogic) (i : CrInput) (k : ℕ)
    → i.op.insn_type ≡ op_crop
    → i.op.lut ≡ extended_opcode l / 2 ^ 5 % 2 ^ 4
    → i.op.bt < 4
    → k < 4
    → i.cr_c < 16
    → ((cr_main i).cr.ok ≡ true)
      × (field_bit (cr_main i).cr.content k ≡ (
          if k == i.op.bt
          then meaning l (field_bit i.cr_a i.op.ba) (field_bit i.cr_b i.op.bb)
          else field_bit i.cr_c k))
unfolding cr_main cr_stage crop
cr_main-logic l i k e lut bt lt c =
    subst
      (λ o.
        ((cr_stage o i).cr.ok ≡ true)
        × (field_bit (cr_stage o i).cr.content k ≡ (
            if k == i.op.bt
            then meaning l (field_bit i.cr_a i.op.ba) (field_bit i.cr_b i.op.bb)
            else field_bit i.cr_c k)))
      (sym e)
      (
        refl,
        set_bit-bit i.cr_c (bit_o i) (3 - i.op.bt) (omega arith) (3 - k) (omega arith) c
            ∙ same_index k i.op.bt (bit_o i) (field_bit i.cr_c k) lt bt
            ∙ ap (λ v. if k == i.op.bt then v else field_bit i.cr_c k) (bit_o-meaning l i lut),
      )
  where
    same_index :
        (k t : ℕ) (x y : Bool)
        → k < 4
        → t < 4
        → (if 3 - k == 3 - t then x else y) ≡ (if k == t then x else y)
    same_index k t x y h g = ground arith
