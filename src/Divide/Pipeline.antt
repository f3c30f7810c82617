-- ===== src/Divide/Pipeline.antt =====
-- The chain of fu/div/pipeline.py with the state machine of fu/div/fsm.py as its core.
use native.Mathlib.Nat.{div-add-mod, mod-lt, mul-le-mul_left}
use libresoc_soc.Common.{ℕ, ◌-◌, ◌*◌, ◌/◌, ◌%◌, ◌^◌, ◌<◌, ◌≡◌, ap, ◌∙◌, subst, arith}
use libresoc_soc.Common.{true, false, List, length, b2n, if◌then◌else◌}
use libresoc_soc.Mul.Types.{Eq32}
use libresoc_soc.Mul.Product.{IsEq32}
use libresoc_soc.Div.Fsm.{FsmState, CoreInputData, FsmInput, FsmOutput, registers, outputs, run}
use libresoc_soc.Div.Correct.{Takes, Stalls, outputs-division}
use libresoc_soc.Div.Latency.{outputs-offered}
use libresoc_soc.Divide.Types.{DivOperands, CoreBase, DivOutput}
use libresoc_soc.Divide.Stages.{div_setup, div_output}
use libresoc_soc.Divide.Numbers.{size, overflows, value_of}
use libresoc_soc.Divide.Core.{setup-divisor}
use libresoc_soc.Divide.Result.{behind, IsDivision, size-lt, wide_enough, divide-result}

-- What the output stages make of the core's outputs in a cycle.
unfoldable pub divided : FsmOutput CoreBase → DivOutput
divided o =
    div_output
      (record { quotient_root = o.quotient_root; remainder = o.core_remainder; base = o.ctx })

-- Where the quotient exists and fits, the dividend is in the core's range.
in_range : (m d : ℕ) → 0 < d → m / d < 2 ^ 64 → m < d * 2 ^ 64
in_range m d pos h = omega (
  arith,
  div-add-mod m d,
  mod-lt m pos,
  mul-le-mul_left {m = m / d} {n = 2 ^ 64 - 1} d (omega arith),
)

module _ (eq32 : Eq32) (is : IsEq32 eq32) (i : DivOperands) (ha : i.a < 2 ^ 64)
    (hb : i.b < 2 ^ 64) where
  narrow_of : (div_setup eq32 i).divisor_radicand < 2 ^ 64
  narrow_of =
      rw (setup-divisor eq32 is i ha hb)
        (wide_enough i.op.is_32bit (size i.op i.b) (size-lt i.op i.b))

  module _ (s : FsmState CoreBase) (x : FsmInput CoreBase) (xs ys : List (FsmInput CoreBase))
      (z : FsmInput CoreBase) (from : x.i_data ≡ div_setup eq32 i) (e : s.empty ≡ true)
      (v : x.i_valid ≡ true) (n : length xs ≡ 62) (h : Stalls ys) where
    abbrev o : FsmOutput CoreBase
    o = outputs (run (run (registers s x) xs) ys) z

    takes_of :
        (d : CoreInputData CoreBase)
        → x.i_data ≡ d
        → d.divisor_radicand < 2 ^ 64
        → 0 < d.divisor_radicand
        → d.dividend / d.divisor_radicand < 2 ^ 64
        → (o.quotient_root ≡ d.dividend / d.divisor_radicand)
          × (o.core_remainder ≡ d.dividend % d.divisor_radicand * 2 ^ 64)
    takes_of d p l pos q =
        subst
          (λ (t : CoreInputData CoreBase).
            (o.quotient_root ≡ t.dividend / t.divisor_radicand)
            × (o.core_remainder ≡ t.dividend % t.divisor_radicand * 2 ^ 64))
          p
          (
            ap (λ (t : FsmOutput CoreBase). t.quotient_root) r,
            ap (λ (t : FsmOutput CoreBase). t.core_remainder) r,
          )
      where
        takes : Takes s x
        takes = record {
          empty = e;
          valid = v;
          narrow = rw p l;
          fits = rw p (in_range d.dividend d.divisor_radicand pos q);
        }

        r : o ≡ record {
          o_valid = true;
          o_ready = false;
          quotient_root = x.i_data.dividend / x.i_data.divisor_radicand;
          core_remainder = x.i_data.dividend % x.i_data.divisor_radicand * 2 ^ 64;
          ctx = x.i_data.ctx;
        }
        r = (outputs-division s x xs ys z takes n h).0

    core-IsDivision : IsDivision (div_setup eq32 i) o.quotient_root o.core_remainder
    core-IsDivision = record {
      quotient = λ p q. (takes_of (div_setup eq32 i) from narrow_of p q).0;
      remainder = λ p q. (takes_of (div_setup eq32 i) from narrow_of p q).1;
    }

-- A divider whose core is empty takes any operands of 64 bits that the setup stage has prepared. From
-- the 64th cycle on, through any number of cycles in which the next stage is not ready, it offers the
-- quotient or remainder of the operands as numbers of the operation's width, with both overflow flags
-- clear; or, for a divisor of zero or a quotient that is no number of that width, 0 and both flags.
pub divider-result :
    (eq32 : Eq32)
    → IsEq32 eq32
    → (i : DivOperands) → i.a < 2 ^ 64
    → i.b < 2 ^ 64
    → (s : FsmState CoreBase) (x : FsmInput CoreBase) (xs ys : List (FsmInput CoreBase))
      (z : FsmInput CoreBase)
    → x.i_data ≡ div_setup eq32 i
    → s.empty ≡ true
    → x.i_valid ≡ true
    → length xs ≡ 62
    → Stalls ys
    → ((outputs (run (run (registers s x) xs) ys) z).o_valid ≡ true)
      × ((divided (outputs (run (run (registers s x) xs) ys) z)).xer_ov
          ≡ record { content = b2n (overflows i) * 3; ok = true })
      × ((divided (outputs (run (run (registers s x) xs) ys) z)).o
          ≡ record { content = if overflows i then 0 else value_of i.op.insn_type i; ok = true })
unfolding divided
divider-result eq32 is i ha hb s x xs ys z from e v n h =
    let t = outputs (run (run (registers s x) xs) ys) z in
    let l = outputs-offered s x xs ys z e v n h in
    let f =
      divide-result eq32 is i ha hb t.quotient_root t.core_remainder
        (core-IsDivision eq32 is i ha hb s x xs ys z from e v n h) in
    let same : divided t ≡ div_output (behind (div_setup eq32 i) t.quotient_root t.core_remainder) =
      ap
        (λ (c : CoreBase).
          div_output
            (record { quotient_root = t.quotient_root; remainder = t.core_remainder; base = c }))
        (l.1 ∙ ap (λ (m : CoreInputData CoreBase). m.ctx) from) in
    (l.0, ap (λ (m : DivOutput). m.xer_ov) same ∙ f.0, ap (λ (m : DivOutput). m.o) same ∙ f.1)
