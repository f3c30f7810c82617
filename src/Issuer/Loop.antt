-- ===== src/Issuer/Loop.antt =====
-- simple/issuer.py: the loop over the elements of a vector without predicates.
use native.Mathlib.Nat.{one-le-pow, pow-succ'}
use libresoc_soc.Common.{
  ℕ, zero, suc, ◌+◌, ◌-◌, ◌*◌, ◌/◌, ◌%◌, ◌^◌, ◌≤◌, ◌<◌, ◌≡◌, refl, sym, ap, ap₂, ◌∙◌, arith, Bool,
  true, false, ◌&&◌, ◌==◌, if◌then◌else◌, bit, length, List, [], ◌∷◌, ◌++◌,
}
use libresoc_soc.Issuer.Types.{
  issue_start, pred_skip, decode_sv, execute_wait, insn_start, insn_active, Svstate, CoreInput,
  IssueRegs, IssueInput,
}
use libresoc_soc.Issuer.Execute.{exec_insn_o_ready, exec_pc_o_valid, next_exec, changed_next}
use libresoc_soc.Issuer.Issue.{
  running, priority_encoder, delta_of, next_step, stepped, next_issue, new_svstate,
}
use libresoc_soc.Issuer.Cycle.{
  in_insn_execute, stopped, pc_i_ready, base_svstate, core_next, skips, issue_cycle, issue_run,
}
use libresoc_soc.Issuer.Skip.{bit-shifted, bit-half}
use libresoc_soc.Issuer.Round.{regs, quiet, waits, round, latched, after, skipped, round_lem}

-- The inputs of the clocks of an element.
pub record Round : Type 0 where
  pub skip : IssueInput
  pub decode : IssueInput
  pub hand : IssueInput
  pub busy : List IssueInput
  pub end : IssueInput

abbrev pub rounds : List Round → List IssueInput
rounds [] = []
rounds (k ∷ ks) = round k.skip k.decode k.hand k.busy k.end ++ rounds ks

-- All bits of a mask, as for an instruction without a predicate.
abbrev pub ones : ℕ
ones = 2 ^ 64 - 1

ones-bit : (n s : ℕ) → s < n → bit (2 ^ n - 1) s ≡ true
ones-bit zero s h = ground (arith, h)
ones-bit (suc n) zero h =
    ap (λ k. (k - 1) / 2 ^ 0 % 2 == 1) (pow-succ' 2 n) ∙ odd (2 ^ n) (one-le-pow n 2 (omega arith))
  where
    odd : (p : ℕ) → 1 ≤ p → ((2 * p - 1) / 2 ^ 0 % 2 == 1) ≡ true
    odd p h = ground (arith, h)
ones-bit (suc n) (suc s) h =
    sym (bit-half (2 ^ suc n - 1) s)
    ∙ ap (λ k. bit k s)
        (ap (λ k. (k - 1) / 2) (pow-succ' 2 n) ∙ half (2 ^ n) (one-le-pow n 2 (omega arith)))
    ∙ ones-bit n s (omega (arith, h))
  where
    half : (p : ℕ) → 1 ≤ p → (2 * p - 1) / 2 ≡ p - 1
    half p h = omega (arith, h)

-- Nothing is skipped.
ones-delta : (s : ℕ) → s < 64 → delta_of false (ones / 2 ^ s) ≡ 0
unfolding delta_of priority_encoder
ones-delta s h =
    ap (λ k. if k then 0 else suc (priority_encoder 64 ((ones / 2 ^ s + 2 ^ 64) / 2)))
      (guarded (ones / 2 ^ s)
        ∙ bit-shifted ones s 0
        ∙ ap (bit ones) (let e : s + 0 ≡ s = omega arith in e)
        ∙ ones-bit 64 s h)
  where
    guarded : (m : ℕ) → bit (m + 2 ^ 64) 0 ≡ bit m 0
    guarded m = ground arith

-- The steps in the core's copy of the state with which it is given an instruction.
unfoldable pub handed : IssueRegs → List IssueInput → List ℕ
handed r [] = []
handed r (x ∷ xs) =
    let rest = handed (issue_cycle true r x) xs in
    if in_insn_execute r.issue && exec_insn_o_ready r.exec
    then r.core.state.vector.srcstep ∷ rest
    else rest

issue_run-append :
    (r : IssueRegs) (xs ys : List IssueInput)
    → issue_run true r (xs ++ ys) ≡ issue_run true (issue_run true r xs) ys
unfolding issue_run
issue_run-append r [] ys = refl
issue_run-append r (x ∷ xs) ys = issue_run-append (issue_cycle true r x) xs ys

handed-append :
    (r : IssueRegs) (xs ys : List IssueInput)
    → handed r (xs ++ ys) ≡ handed r xs ++ handed (issue_run true r xs) ys
unfolding handed issue_run
handed-append r [] ys = refl
handed-append r (x ∷ xs) ys =
    ap
      (λ l.
        if in_insn_execute r.issue && exec_insn_o_ready r.exec
        then r.core.state.vector.srcstep ∷ l
        else l)
      (handed-append (issue_cycle true r x) xs ys)
    ∙ inside (in_insn_execute r.issue && exec_insn_o_ready r.exec)
  where
    inside :
        (k : Bool)
        → (if k
            then r.core.state.vector.srcstep
              ∷ (handed (issue_cycle true r x) xs
                  ++ handed (issue_run true (issue_cycle true r x) xs) ys)
            else handed (issue_cycle true r x) xs
              ++ handed (issue_run true (issue_cycle true r x) xs) ys)
          ≡ (if k
              then r.core.state.vector.srcstep ∷ handed (issue_cycle true r x) xs
              else handed (issue_cycle true r x) xs)
            ++ handed (issue_run true (issue_cycle true r x) xs) ys
    inside true = refl
    inside false = refl

waits-handed :
    (v : Svstate) (m d : ℕ) (a b : Bool) (c : CoreInput) (ws : List IssueInput) (l : IssueInput)
    → handed (regs execute_wait insn_active v m d a b c) (waits ws l) ≡ []
unfolding handed issue_cycle next_issue new_svstate running exec_pc_o_valid next_exec changed_next
    pc_i_ready stopped base_svstate core_next skips
waits-handed v m d a b c [] l = refl
waits-handed v m d a b c (w ∷ ws) l = waits-handed v m d a b c ws l

-- From the decoding on, the core is given one element.
decoded-handed :
    (v : Svstate) (m d : ℕ) (a b : Bool) (c : CoreInput) (y z : IssueInput) (ws : List IssueInput)
    (l : IssueInput)
    → handed (regs decode_sv insn_start v m d a b c) (quiet true y ∷ quiet true z ∷ waits ws l)
      ≡ v.srcstep ∷ []
unfolding handed issue_cycle next_issue new_svstate running exec_insn_o_ready next_exec changed_next
    pc_i_ready stopped base_svstate core_next skips
decoded-handed v m d a b c y z ws l = ap (◌∷◌ v.srcstep) (waits-handed v m d a b (latched y v) ws l)

abbrev pub steps_from : ℕ → ℕ → List ℕ
steps_from s zero = []
steps_from s (suc n) = s ∷ steps_from (suc s) n

abbrev pub looping : Svstate → Bool → Bool → CoreInput → IssueRegs
looping v a b c = regs pred_skip insn_start v (ones / 2 ^ v.srcstep) (ones / 2 ^ v.dststep) a b c

module _ (v : Svstate) (a b : Bool) (c : CoreInput) (h : v.srcstep < v.vl) (g : v.dststep < v.vl)
    (l : v.vl ≤ 64) (k : Round) where
  abbrev bits : ℕ → Bool
  bits s = bit (ones / 2 ^ s) 0

  here : (s : ℕ) → s < v.vl → s + delta_of false (ones / 2 ^ s) ≡ s
  here s i =
      (let z : delta_of false (ones / 2 ^ s) ≡ 0 = ones-delta s (omega (arith, i, l)) in
        omega (arith, z))

  below : (s t : ℕ) → s < v.vl → t ≡ s → t < v.vl
  below s t i e = omega (arith, i, e)

  round-after :
      issue_run true (looping v a b c) (round k.skip k.decode k.hand k.busy k.end)
      ≡ after v
          (ones / 2 ^ (v.srcstep + 1))
          (ones / 2 ^ (v.dststep + 1))
          (bits v.srcstep)
          (bits v.dststep)
          (latched k.decode v)
  round-after =
      round_lem v ones ones a b c (omega arith) (omega arith) (omega (arith, h, l))
        (omega (arith, g, l)) k.skip k.decode k.hand k.busy k.end
        (below v.srcstep (v.srcstep + delta_of false (ones / 2 ^ v.srcstep)) h (here v.srcstep h))
        (below v.dststep (v.dststep + delta_of false (ones / 2 ^ v.dststep)) g (here v.dststep g))
      ∙ ap₂
          (λ t u.
            after (stepped v t u) (ones / 2 ^ (t + 1)) (ones / 2 ^ (u + 1)) (bits v.srcstep)
              (bits v.dststep) (latched k.decode (stepped v t u)))
          (here v.srcstep h) (here v.dststep g)

  round-handed :
      handed (looping v a b c) (round k.skip k.decode k.hand k.busy k.end) ≡ v.srcstep ∷ []
  unfolding handed
  round-handed =
      ap (λ r. handed r (quiet true k.decode ∷ quiet true k.hand ∷ waits k.busy k.end))
        (skipped v ones ones a b c (omega arith) (omega arith) (omega (arith, h, l))
          (omega (arith, g, l)) k.skip
          (below v.srcstep (v.srcstep + delta_of false (ones / 2 ^ v.srcstep)) h (here v.srcstep h))
          (below v.dststep (v.dststep + delta_of false (ones / 2 ^ v.dststep)) g
            (here v.dststep g)))
      ∙ decoded-handed _ _ _ _ _ _ k.decode k.hand k.busy k.end
      ∙ ap (λ s. s ∷ []) (here v.srcstep h)

-- What a run of the loop does: the steps that the core is given, and the state after it.
pub record IsLooped (v : Svstate) (r : IssueRegs) (xs : List IssueInput) (n : ℕ) : Type 0 where
  pub steps : handed r xs ≡ steps_from v.srcstep n
  pub issue : (issue_run true r xs).issue ≡ issue_start
  pub svstate : (issue_run true r xs).svstate ≡ stepped v 0 0

stepping : (s n : ℕ) → s < n → n ≤ 64 → next_step s ≡ s + 1
unfolding next_step
stepping s n h l = omega (arith, h, l)

same : (m n : ℕ) → m ≡ n → (m == n) ≡ true
same m n e = ground (arith, e)

other : (m n : ℕ) → m < n → (m == n) ≡ false
other m n h = ground (arith, h)

-- After the last element, and after another one.
no-more :
    (v : Svstate) (m d : ℕ) (a b : Bool) (c : CoreInput)
    → next_step v.srcstep ≡ v.vl
    → after v m d a b c ≡ regs issue_start insn_start (stepped v 0 0) m d a b c
no-more v m d a b c e =
    ap
      (λ k.
        if k
        then regs issue_start insn_start (stepped v 0 0) m d a b c
        else regs pred_skip insn_start (stepped v (next_step v.srcstep) (next_step v.dststep)) m d a
            b c)
      (same (next_step v.srcstep) v.vl e)

one-more :
    (v : Svstate) (m d : ℕ) (a b : Bool) (c : CoreInput)
    → v.srcstep + 1 < v.vl
    → v.dststep ≤ v.srcstep
    → v.vl ≤ 64
    → after v m d a b c
      ≡ regs pred_skip insn_start (stepped v (v.srcstep + 1) (v.dststep + 1)) m d a b c
one-more v m d a b c h g l =
    let t : next_step v.srcstep ≡ v.srcstep + 1 = stepping v.srcstep v.vl (omega (arith, h)) l in
    let u : next_step v.dststep ≡ v.dststep + 1 = stepping v.dststep v.vl (omega (arith, h, g)) l in
    ap
      (λ k.
        if k
        then regs issue_start insn_start (stepped v 0 0) m d a b c
        else regs pred_skip insn_start (stepped v (next_step v.srcstep) (next_step v.dststep)) m d a
            b c)
      (other (next_step v.srcstep) v.vl (omega (arith, h, t)))
    ∙ ap₂ (λ t u. regs pred_skip insn_start (stepped v t u) m d a b c) t u

joined :
    (v : Svstate) (r s : IssueRegs) (xs ys : List IssueInput) (n : ℕ)
    → handed r xs ≡ v.srcstep ∷ []
    → issue_run true r xs ≡ s
    → handed s ys ≡ steps_from (suc v.srcstep) n
    → (issue_run true s ys).issue ≡ issue_start
    → (issue_run true s ys).svstate ≡ stepped v 0 0
    → IsLooped v r (xs ++ ys) (suc n)
joined v r s xs ys n h e steps issue svstate = record {
  steps = handed-append r xs ys ∙ ap₂ (λ l r. l ++ handed r ys) h e ∙ ap (◌∷◌ v.srcstep) steps;
  issue = ap (λ r. r.issue) (issue_run-append r xs ys ∙ ap (λ r. issue_run true r ys) e) ∙ issue;
  svstate =
      ap (λ r. r.svstate) (issue_run-append r xs ys ∙ ap (λ r. issue_run true r ys) e) ∙ svstate;
}

-- Without predicates, with a destination step not above the source step, at most 64 elements and
-- nothing that interferes: as many rounds as there are elements left give the core each step from the
-- source step up to VL, once and in order, however long it is busy with each, and leave the machine in
-- ISSUE_START with both steps 0.
pub loop-IsLooped :
    (v : Svstate) (a b : Bool) (c : CoreInput) (ks : List Round)
    → v.srcstep < v.vl
    → v.dststep ≤ v.srcstep
    → v.vl ≤ 64
    → v.srcstep + length ks ≡ v.vl
    → IsLooped v (looping v a b c) (rounds ks) (length ks)
unfolding handed issue_run
loop-IsLooped v a b c [] h g l e = ground (arith, h, e)
loop-IsLooped v a b c (k ∷ []) h g l e =
    joined v (looping v a b c)
      (regs issue_start insn_start (stepped v 0 0) (ones / 2 ^ (v.srcstep + 1))
        (ones / 2 ^ (v.dststep + 1)) (bit (ones / 2 ^ v.srcstep) 0) (bit (ones / 2 ^ v.dststep) 0)
        (latched k.decode v))
      (round k.skip k.decode k.hand k.busy k.end) [] 0
      (round-handed v a b c h (omega (arith, h, g)) l k)
      (round-after v a b c h (omega (arith, h, g)) l k
        ∙ no-more v _ _ _ _ _ (stepping v.srcstep v.vl h l ∙ omega (arith, e)))
      refl refl refl
loop-IsLooped v a b c (k ∷ k2 ∷ ks) h g l e =
    let w : Svstate = stepped v (v.srcstep + 1) (v.dststep + 1) in
    let next : IsLooped w
        (looping w (bit (ones / 2 ^ v.srcstep) 0) (bit (ones / 2 ^ v.dststep) 0)
          (latched k.decode v))
        (rounds (k2 ∷ ks)) (length (k2 ∷ ks)) =
      loop-IsLooped w (bit (ones / 2 ^ v.srcstep) 0) (bit (ones / 2 ^ v.dststep) 0)
        (latched k.decode v) (k2 ∷ ks) (omega (arith, e)) (omega (arith, g)) l (omega (arith, e)) in
    joined v (looping v a b c)
      (looping w (bit (ones / 2 ^ v.srcstep) 0) (bit (ones / 2 ^ v.dststep) 0) (latched k.decode v))
      (round k.skip k.decode k.hand k.busy k.end) (rounds (k2 ∷ ks)) (length (k2 ∷ ks))
      (round-handed v a b c h (omega (arith, h, g)) l k)
      (round-after v a b c h (omega (arith, h, g)) l k
        ∙ one-more v _ _ _ _ _ (omega (arith, e)) g l)
      (next.steps
        ∙ ap (λ s. steps_from s (length (k2 ∷ ks)))
            (let f : v.srcstep + 1 ≡ suc v.srcstep = omega arith in f))
      next.issue next.svstate
