-- ===== src/Issuer/Round.antt =====
-- simple/issuer.py: one element of a vector, from PRED_SKIP through the core and back.
use libresoc_soc.Common.{
  ℕ, ◌+◌, ◌/◌, ◌%◌, ◌^◌, ◌≤◌, ◌<◌, ◌≡◌, refl, ap, ap₂, ◌∙◌, arith, Bool, true, false, ◌||◌, ◌==◌,
  leb, if◌then◌else◌, none, some, bit, List, [], ◌∷◌,
}
use libresoc_soc.Issuer.Types.{
  IssueState, issue_start, pred_skip, decode_sv, execute_wait, ExecState, insn_start, insn_active,
  Svstate, CoreInput, IssueRegs, IssueInput,
}
use libresoc_soc.Issuer.Execute.{exec_insn_o_ready, exec_pc_o_valid, next_exec, changed_next}
use libresoc_soc.Issuer.Issue.{
  running, delta_of, skip_srcstep, skip_dststep, past_vl, next_step, is_last, ended, stepped,
  next_issue, new_svstate,
}
use libresoc_soc.Issuer.Cycle.{
  stopped, pc_i_ready, base_svstate, core_next, skips, or_else, issue_cycle, issue_run,
}
use libresoc_soc.Issuer.Skip.{delta-le, shifted-on, shifted-lt}

-- The registers in two states, with the vector state, the masks and the core's copies, and with no
-- change of PC or SVSTATE by the instruction.
abbrev pub regs : IssueState → ExecState → Svstate → ℕ → ℕ → Bool → Bool → CoreInput → IssueRegs
regs i e v m d a b c = record {
  issue = i;
  exec = e;
  svstate = v;
  srcmask = m;
  dstmask = d;
  pc_changed = false;
  sv_changed = false;
  sv_pred_sm = a;
  sv_pred_dm = b;
  core = c;
}

-- An input of a vector loop: the core runs, nothing else writes the masks, PC or SVSTATE, and the
-- predicates do not zero.
abbrev pub quiet : Bool → IssueInput → IssueInput
quiet busy x = record x {
  core_stop = false;
  core_rst = false;
  is_svp64_mode = true;
  pred_srcmask = none;
  pred_dstmask = none;
  pred_sz = false;
  pred_dz = false;
  loop_continue = true;
  core_busy = busy;
  nia_wen_pc = false;
  nia_wen_sv = false;
}

-- The clocks of an element: the skip, the decoding, the hand-over, the wait for the core and its end.
abbrev pub waits : List IssueInput → IssueInput → List IssueInput
waits [] l = quiet false l ∷ []
waits (w ∷ ws) l = quiet true w ∷ waits ws l

abbrev pub round :
    IssueInput → IssueInput → IssueInput → List IssueInput → IssueInput → List IssueInput
round x y z ws l = quiet true x ∷ quiet true y ∷ quiet true z ∷ waits ws l

neither : (n t u : ℕ) → t < n → u < n → (leb n t || leb n u) ≡ false
neither n t u h g = ground (arith, h, g)

-- The core's copies of an instruction, and of the current state with the vector state.
abbrev pub latched : IssueInput → Svstate → CoreInput
latched y v = record { decoded = y.dec; state = record { words = y.cur_words; vector = v } }

-- The registers after the last clock of an element.
abbrev pub after : Svstate → ℕ → ℕ → Bool → Bool → CoreInput → IssueRegs
after v m d a b c =
    if next_step v.srcstep == v.vl
    then regs issue_start insn_start (stepped v 0 0) m d a b c
    else regs pred_skip insn_start (stepped v (next_step v.srcstep) (next_step v.dststep)) m d a b c

last-after :
    (v : Svstate) (m d : ℕ) (a b : Bool) (c : CoreInput) (l : IssueInput)
    → issue_cycle true (regs execute_wait insn_active v m d a b c) (quiet false l)
      ≡ after v m d a b c
unfolding issue_cycle next_issue new_svstate ended is_last running exec_pc_o_valid next_exec
    changed_next pc_i_ready stopped base_svstate core_next skips
last-after v m d a b c l = ends (next_step v.srcstep == v.vl)
  where
    ends :
        (k : Bool)
        → regs
            (if k then issue_start else pred_skip)
            insn_start
            (or_else
              (if k
                then some (stepped v 0 0)
                else some (stepped v (next_step v.srcstep) (next_step v.dststep)))
              v)
            m
            d
            a
            b
            c
          ≡ (if k
              then regs issue_start insn_start (stepped v 0 0) m d a b c
              else regs pred_skip insn_start
                  (stepped v (next_step v.srcstep) (next_step v.dststep))
                  m
                  d
                  a
                  b
                  c)
    ends true = refl
    ends false = refl

waits-after :
    (v : Svstate) (m d : ℕ) (a b : Bool) (c : CoreInput) (ws : List IssueInput) (l : IssueInput)
    → issue_run true (regs execute_wait insn_active v m d a b c) (waits ws l) ≡ after v m d a b c
unfolding issue_run issue_cycle next_issue new_svstate ended is_last running exec_pc_o_valid
    next_exec changed_next pc_i_ready stopped base_svstate core_next skips
waits-after v m d a b c [] l = last-after v m d a b c l
waits-after v m d a b c (w ∷ ws) l = waits-after v m d a b c ws l

executed :
    (v : Svstate) (m d : ℕ) (a b : Bool) (c : CoreInput) (y z : IssueInput) (ws : List IssueInput)
    (l : IssueInput)
    → issue_run true
        (regs decode_sv insn_start v m d a b c)
        (quiet true y ∷ quiet true z ∷ waits ws l)
      ≡ after v m d a b (latched y v)
unfolding issue_run issue_cycle next_issue new_svstate running exec_insn_o_ready next_exec
    changed_next pc_i_ready stopped base_svstate core_next skips
executed v m d a b c y z ws l = waits-after v m d a b (latched y v) ws l

module _ (v : Svstate) (m d : ℕ) (a b : Bool) (c : CoreInput) (ml : m < 2 ^ 64) (dl : d < 2 ^ 64)
    (sl : v.srcstep < 64) (tl : v.dststep < 64) where
  -- The next elements of both masks.
  abbrev pub src_next : ℕ
  src_next = v.srcstep + delta_of false (m / 2 ^ v.srcstep)

  abbrev pub dst_next : ℕ
  dst_next = v.dststep + delta_of false (d / 2 ^ v.dststep)

  abbrev at_skip : IssueRegs
  at_skip = regs pred_skip insn_start v (m / 2 ^ v.srcstep) (d / 2 ^ v.dststep) a b c

  small : (s k : ℕ) → s < 64 → k ≤ 64 → (s + k) % 2 ^ 7 ≡ s + k
  small s k h g = omega (arith, h, g)

  src_skip : (x : IssueInput) → skip_srcstep at_skip (quiet true x) ≡ src_next
  unfolding skip_srcstep
  src_skip x =
      small v.srcstep (delta_of false (m / 2 ^ v.srcstep)) sl
        (delta-le (m / 2 ^ v.srcstep) (shifted-lt m v.srcstep ml))

  dst_skip : (x : IssueInput) → skip_dststep at_skip (quiet true x) ≡ dst_next
  unfolding skip_dststep
  dst_skip x =
      small v.dststep (delta_of false (d / 2 ^ v.dststep)) tl
        (delta-le (d / 2 ^ v.dststep) (shifted-lt d v.dststep dl))

  past_next :
      (x : IssueInput) → past_vl at_skip (quiet true x) ≡ (leb v.vl src_next || leb v.vl dst_next)
  unfolding past_vl
  past_next x = ap₂ (λ t u. leb v.vl t || leb v.vl u) (src_skip x) (dst_skip x)

  pub skipped :
      (x : IssueInput)
      → src_next < v.vl
      → dst_next < v.vl
      → issue_cycle true at_skip (quiet true x)
        ≡ regs decode_sv insn_start
            (stepped v src_next dst_next)
            (m / 2 ^ (src_next + 1))
            (d / 2 ^ (dst_next + 1))
            (bit (m / 2 ^ v.srcstep) 0)
            (bit (d / 2 ^ v.dststep) 0)
            c
  unfolding issue_cycle next_issue new_svstate running next_exec changed_next pc_i_ready stopped
      base_svstate core_next skips
  skipped x h g =
      from (past_vl at_skip (quiet true x)) below (skip_srcstep at_skip (quiet true x))
        (skip_dststep at_skip (quiet true x)) (src_skip x) (dst_skip x)
        (m / 2 ^ v.srcstep / 2 ^ (delta_of false (m / 2 ^ v.srcstep) + 1))
        (d / 2 ^ v.dststep / 2 ^ (delta_of false (d / 2 ^ v.dststep) + 1))
        (shifted-on m v.srcstep (delta_of false (m / 2 ^ v.srcstep)))
        (shifted-on d v.dststep (delta_of false (d / 2 ^ v.dststep)))
    where
      below : past_vl at_skip (quiet true x) ≡ false
      below = past_next x ∙ neither v.vl src_next dst_next h g

      from :
          (k : Bool)
          → k ≡ false
          → (t u : ℕ) → t ≡ src_next
          → u ≡ dst_next
          → (p q : ℕ) → p ≡ m / 2 ^ (src_next + 1)
          → q ≡ d / 2 ^ (dst_next + 1)
          → regs
              (if k then issue_start else decode_sv)
              insn_start
              (if k then stepped v 0 0 else stepped v t u)
              p
              q
              (bit (m / 2 ^ v.srcstep) 0)
              (bit (d / 2 ^ v.dststep) 0)
              c
            ≡ regs decode_sv insn_start
                (stepped v src_next dst_next)
                (m / 2 ^ (src_next + 1))
                (d / 2 ^ (dst_next + 1))
                (bit (m / 2 ^ v.srcstep) 0)
                (bit (d / 2 ^ v.dststep) 0)
                c
      from true e t u f g p q i j = ground (arith, e)
      from false e t u f g p q i j =
          ap₂
            (λ t u.
              regs decode_sv insn_start (stepped v t u) p q (bit (m / 2 ^ v.srcstep) 0)
                (bit (d / 2 ^ v.dststep) 0) c)
            f g
          ∙ ap₂
              (λ p q.
                regs decode_sv insn_start (stepped v src_next dst_next) p q
                  (bit (m / 2 ^ v.srcstep) 0) (bit (d / 2 ^ v.dststep) 0) c)
              i j

  -- From PRED_SKIP with steps below 64 and masks that have lost the bits of the steps before: if the
  -- next elements of both masks are below VL, and neither the debugger nor the instruction interferes,
  -- then the element is executed, however long the core is busy with it, and afterwards the machine is
  -- back in PRED_SKIP with both steps one further, or in ISSUE_START with both steps 0 if the source
  -- element was the last one of VL.
  pub round_lem :
      (x y z : IssueInput) (ws : List IssueInput) (l : IssueInput)
      → src_next < v.vl
      → dst_next < v.vl
      → issue_run true at_skip (round x y z ws l)
        ≡ after
            (stepped v src_next dst_next)
            (m / 2 ^ (src_next + 1))
            (d / 2 ^ (dst_next + 1))
            (bit (m / 2 ^ v.srcstep) 0)
            (bit (d / 2 ^ v.dststep) 0)
            (latched y (stepped v src_next dst_next))
  unfolding issue_run
  round_lem x y z ws l h g =
      ap (λ r. issue_run true r (quiet true y ∷ quiet true z ∷ waits ws l)) (skipped x h g)
      ∙ executed (stepped v src_next dst_next) (m / 2 ^ (src_next + 1)) (d / 2 ^ (dst_next + 1))
          (bit (m / 2 ^ v.srcstep) 0) (bit (d / 2 ^ v.dststep) 0) c y z ws l
