-- ===== src/Spr/Xer.antt =====
-- fu/spr/main_stage.py: what a move from a special register reads after a move to it.
use libresoc_soc.Common.{ℕ, ◌≡◌, refl, sym, subst, ◌∙◌, true, false, if◌then◌else◌}
use libresoc_soc.Trap.Types.{Register, RegisterData}
use libresoc_soc.Trap.Msr.{with_bit, copy_range}
use libresoc_soc.Trap.Bits.{with_bit-same}
use libresoc_soc.Spr.Stage.{
  op_mtspr, op_mfspr, SprNumber, ctr, lr, tar, srr0, srr1, xer, dec, slow, XerPart, XerData,
  SprInput, SprOutput, XerBits, mtspr, xer_read, mfspr, spr_stage, spr_main,
}

-- The numbers of fu/spr/pipe_data.py.
abbrev pub xer_bits : XerBits
xer_bits = record { so = 32; ov = 33; ov32 = 44; ca = 34; ca32 = 45 }

-- A register file's content after a write.
abbrev pub held : RegisterData → Register → Register
held d old = if d.ok then d.content else old

abbrev pub held_part : XerData → XerPart → XerPart
held_part d old = if d.ok then d.content else old

-- The move from the register, with the register files as the move to it has left them.
abbrev pub reading : SprInput → SprOutput → SprInput
reading i w = record {
  op = record i.op { insn_type = op_mfspr };
  a = i.a;
  spr1 = held w.spr1 i.spr1;
  fast1 = held w.fast1 i.fast1;
  xer_so = held_part w.xer_so i.xer_so;
  xer_ov = held_part w.xer_ov i.xer_ov;
  xer_ca = held_part w.xer_ca i.xer_ca;
}

-- The bits that are kept: all, and of XER those of the low word that are not reserved.
abbrev pub kept_bits : SprNumber → Register → Register
kept_bits xer a = copy_range 20 29 (λ n. false) (copy_range 32 64 (λ n. false) a)
kept_bits _ a = a

-- The registers that are written where they are read: all but the two halves of the time base.
pub data Writable : SprNumber → Type 0 where
  writable_ctr : Writable ctr
  writable_lr : Writable lr
  writable_tar : Writable tar
  writable_srr0 : Writable srr0
  writable_srr1 : Writable srr1
  writable_xer : Writable xer
  writable_dec : Writable dec
  writable_slow : Writable slow

-- XER's parts are the bits of the register that was moved.
xer_read-kept :
    (i : SprInput) (n : ℕ)
    → i.xer_so.low ≡ i.fast1 31
    → i.xer_ov.low ≡ i.fast1 30
    → i.xer_ov.high ≡ i.fast1 19
    → i.xer_ca.low ≡ i.fast1 29
    → i.xer_ca.high ≡ i.fast1 18
    → xer_read xer_bits i n ≡ kept_bits xer i.fast1 n
unfolding xer_read
xer_read-kept i n so ov ov32 ca ca32 =
    with_bit-same 18 i.xer_ca.high w4 (in_4 18 ∙ sym ca32) n ∙ in_4 n
  where
    w0 : Register
    w0 = kept_bits xer i.fast1

    w1 : Register
    w1 = with_bit 31 i.xer_so.low w0

    w2 : Register
    w2 = with_bit 30 i.xer_ov.low w1

    w3 : Register
    w3 = with_bit 19 i.xer_ov.high w2

    w4 : Register
    w4 = with_bit 29 i.xer_ca.low w3

    in_1 : (m : ℕ) → w1 m ≡ w0 m
    in_1 m = with_bit-same 31 i.xer_so.low w0 (sym so) m

    in_2 : (m : ℕ) → w2 m ≡ w0 m
    in_2 m = with_bit-same 30 i.xer_ov.low w1 (in_1 30 ∙ sym ov) m ∙ in_1 m

    in_3 : (m : ℕ) → w3 m ≡ w0 m
    in_3 m = with_bit-same 19 i.xer_ov.high w2 (in_2 19 ∙ sym ov32) m ∙ in_2 m

    in_4 : (m : ℕ) → w4 m ≡ w0 m
    in_4 m = with_bit-same 29 i.xer_ca.low w3 (in_3 29 ∙ sym ca) m ∙ in_3 m

reads :
    (s : SprNumber)
    → Writable s
    → (i : SprInput) (n : ℕ)
    → mfspr xer_bits s (reading i (mtspr xer_bits s i)) n ≡ kept_bits s i.a n
unfolding mfspr mtspr
reads _ writable_xer i n =
    xer_read-kept (reading i (mtspr xer_bits xer i)) n refl refl refl refl refl
reads _ writable_ctr i n = refl
reads _ writable_lr i n = refl
reads _ writable_tar i n = refl
reads _ writable_srr0 i n = refl
reads _ writable_srr1 i n = refl
reads _ writable_dec i n = refl
reads _ writable_slow i n = refl

-- A move to a special register, other than the time base, and a move from it right after read the
-- whole register that was moved; of XER they read 0 for the high word and the reserved bits. The
-- package's numbers of XER's bits are those of `xer_bits`.
pub mtspr-mfspr :
    (k : XerBits) (documented : k ≡ xer_bits) (i : SprInput) (n : ℕ)
    → i.op.insn_type ≡ op_mtspr
    → Writable i.op.spr
    → ((spr_main k (reading i (spr_main k i))).o.ok ≡ true)
      × ((spr_main k (reading i (spr_main k i))).o.content n ≡ kept_bits i.op.spr i.a n)
unfolding spr_main spr_stage
mtspr-mfspr k documented i n e w =
    subst
      (λ c.
        ((spr_main c (reading i (spr_main c i))).o.ok ≡ true)
        × ((spr_main c (reading i (spr_main c i))).o.content n ≡ kept_bits i.op.spr i.a n))
      (sym documented)
      (subst
        (λ o.
          ((spr_main xer_bits (reading i (spr_stage xer_bits o i))).o.ok ≡ true)
          × ((spr_main xer_bits (reading i (spr_stage xer_bits o i))).o.content n
              ≡ kept_bits i.op.spr i.a n))
        (sym e) (refl, reads i.op.spr w i n))
