-- ===== src/Spr/Stage.antt =====
-- fu/spr/main_stage.py, with the data of fu/spr/pipe_data.py and the operation of
-- fu/spr/spr_input_record.py. A register is the function that gives its bits, from the lowest.
use libresoc_soc.Common.{ℕ, ◌+◌, ◌-◌, Bool, true, false}
use libresoc_soc.Trap.Types.{Register, RegisterData, no_register}
use libresoc_soc.Trap.Msr.{with_bit, copy_range}

-- The operations that the stage tells apart; `op_other` is any other.
pub data SprInsn : Type 0 where
  op_mtspr op_mfspr op_other : SprInsn

-- The registers that the stage tells apart, of the decoder's enumeration; `slow` is any other.
pub data SprNumber : Type 0 where
  ctr lr tar srr0 srr1 xer dec tb tbu slow : SprNumber

-- The operation, with the number that the decoder's library cuts from the instruction.
pub record SprOp : Type 0 where
  pub insn_type : SprInsn
  pub spr : SprNumber

-- A part of XER: SO has one bit, the others two.
pub record XerPart : Type 0 where
  pub low : Bool
  pub high : Bool

pub record XerData : Type 0 where
  pub content : XerPart
  pub ok : Bool

abbrev pub no_xer : XerData
no_xer = record { content = record { low = false; high = false }; ok = false }

pub record SprInput : Type 0 where
  pub op : SprOp
  pub a : Register
  pub spr1 : Register
  pub fast1 : Register
  pub xer_so : XerPart
  pub xer_ov : XerPart
  pub xer_ca : XerPart

pub record SprOutput : Type 0 where
  pub op : SprOp
  pub o : RegisterData
  pub spr1 : RegisterData
  pub fast1 : RegisterData
  pub xer_so : XerData
  pub xer_ov : XerData
  pub xer_ca : XerData

-- The openpower package's numbers of the bits of XER, from the top.
pub record XerBits : Type 0 where
  pub so : ℕ
  pub ov : ℕ
  pub ov32 : ℕ
  pub ca : ℕ
  pub ca32 : ℕ

unfoldable pub no_spr : SprInput → SprOutput
no_spr i = record {
  op = i.op;
  o = no_register;
  spr1 = no_register;
  fast1 = no_register;
  xer_so = no_xer;
  xer_ov = no_xer;
  xer_ca = no_xer;
}

abbrev pub spr_data : Register → RegisterData
spr_data r = record { content = r; ok = true }

module _ (k : XerBits) where
  -- A move to a register: the fast ones, XER in its parts too, and the slow ones.
  unfoldable pub mtspr : SprNumber → SprInput → SprOutput
  unfolding no_spr
  mtspr xer i =
      let a_i = i.a in
      record (no_spr i) {
        fast1 = spr_data a_i;
        xer_so = record { content = record { low = a_i (63 - k.so); high = false }; ok = true };
        xer_ov = record {
          content = record { low = a_i (63 - k.ov); high = a_i (63 - k.ov32) };
          ok = true;
        };
        xer_ca = record {
          content = record { low = a_i (63 - k.ca); high = a_i (63 - k.ca32) };
          ok = true;
        };
      }
  mtspr tb i = record (no_spr i) { spr1 = spr_data i.a }
  mtspr tbu i = record (no_spr i) { spr1 = spr_data i.a }
  mtspr slow i = record (no_spr i) { spr1 = spr_data i.a }
  mtspr _ i = record (no_spr i) { fast1 = spr_data i.a }

  -- XER as it is read: reserved bits are 0, and the parts come from their own registers.
  unfoldable pub xer_read : SprInput → Register
  xer_read i = with_bit (63 - k.ca32) i.xer_ca.high (
      with_bit (63 - k.ca) i.xer_ca.low (
        with_bit (63 - k.ov32) i.xer_ov.high (
          with_bit (63 - k.ov) i.xer_ov.low (
            with_bit (63 - k.so) i.xer_so.low
              (copy_range 20 29 (λ n. false) (copy_range 32 64 (λ n. false) i.fast1))))))

  -- A move from a register.
  unfoldable pub mfspr : SprNumber → SprInput → Register
  unfolding xer_read
  mfspr xer i = xer_read i
  mfspr tbu i = copy_range 0 32 (λ n. i.fast1 (n + 32)) (λ n. false)
  mfspr slow i = i.spr1
  mfspr _ i = i.fast1

  unfoldable pub spr_stage : SprInsn → SprInput → SprOutput
  unfolding no_spr mtspr mfspr
  spr_stage op_mtspr i = mtspr i.op.spr i
  spr_stage op_mfspr i = record (no_spr i) { o = spr_data (mfspr i.op.spr i) }
  spr_stage op_other i = no_spr i

  unfoldable pub spr_main : SprInput → SprOutput
  unfolding spr_stage
  spr_main i = spr_stage i.op.insn_type i
