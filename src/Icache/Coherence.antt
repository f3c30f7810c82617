-- ===== src/Icache/Coherence.antt =====
-- experiment/icache.py: the invariant of the cache and the memory behind it, over any clocks.
use libresoc_soc.Common.{
  ℕ, ◌+◌, ◌-◌, ◌/◌, ◌%◌, ◌≤◌, ◌≡◌, refl, sym, ap, subst, ◌∙◌, arith, Bool, true, false, ◌&&◌, ◌==◌,
  ltb, if◌then◌else◌, b2n, Bool-cases, inl, inr, List, [], ◌∷◌,
}
use libresoc_soc.Icache.Types.{
  IcacheState, idle, clr_tag, wait_ack, IcacheRegs, IcacheInput, get_index,
}
use libresoc_soc.Icache.Lookup.{real_addr, req_is_miss}
use libresoc_soc.Icache.Cycle.{
  completes, icache_cycle, cycle_in, icache_miss, miss_state, icache_miss_idle, icache_miss_clr_tag,
  icache_miss_wait_ack, wait_answer, wait_request, invalidated, icache_hit, itlb_update,
  maybe_plrus, rams,
}
use libresoc_soc.Icache.Bus.{System, Answers, pending_next, system_cycle, system_run, rows_from}
use libresoc_soc.Icache.Counting.{
  line_of, IsCounted, accepts, stb_next, sent_next, pending_after, completes_iff, wait-IsCounted,
}
use libresoc_soc.Icache.Requests.{answered-le}
use libresoc_soc.Icache.Filled.{wait-IsFilled}
use libresoc_soc.Icache.Contents.{IsFilled, IsLoading, wait-IsLoading}
use libresoc_soc.Icache.Start.{incomplete, clr_tag-IsCounted, clr_tag-IsLoading, clr_tag-IsFilled}
use libresoc_soc.Icache.Request.{idle-pending, idle-IsFilled, miss-IsCounted}

-- What is on the way in each state: nothing, the requests of a line of which no row has arrived, or
-- those of a line that has some of its rows.
pub data IsPhase (mem : ℕ → ℕ) (s : IcacheRegs) (p : List ℕ) : Type 0 where
  at_idle : s.r.state ≡ idle → s.r.stb ≡ false → p ≡ [] → IsPhase mem s p
  at_clr_tag :
      (b : ℕ)
      → s.r.state ≡ clr_tag
      → IsCounted s.r p b 0 0
      → ((j : ℕ) → s.r.rows_valid j ≡ false)
      → IsPhase mem s p
  at_wait :
      (b a n : ℕ)
      → s.r.state ≡ wait_ack
      → IsCounted s.r p b a n
      → IsLoading mem s b a
      → IsPhase mem s p

-- The cache agrees with the memory.
pub record IsCoherent (mem : ℕ → ℕ) (s : System) : Type 0 where
  pub lines : IsFilled mem s.cache
  pub phase : IsPhase mem s.cache s.pending

-- The request stays in its line for the clock that clears the tag.
abbrev pub IsStable : System → IcacheInput → Type 0
IsStable s x = s.cache.r.state ≡ clr_tag → get_index x.i_in.nia ≡ s.cache.r.store_index

module _ (mem : ℕ → ℕ) (s : IcacheRegs) (x : IcacheInput) (p : List ℕ)
    (q : Answers mem x.wb_in p) where
  abbrev next_pending : List ℕ
  next_pending = pending_next (record { cache = s; pending = p }) x

  -- The clock in a state leads to a phase, with lines that agree with the memory.
  record IsNext (state : IcacheState) : Type 0 where
    lines : IsFilled mem (cycle_in state s x)
    phase : IsPhase mem (cycle_in state s x) next_pending

  idle-IsPhase :
      s.r.state ≡ idle → s.r.stb ≡ false → p ≡ [] → IsPhase mem (cycle_in idle s x) next_pending
  unfolding cycle_in icache_miss miss_state icache_miss_idle invalidated icache_hit itlb_update
      maybe_plrus rams
  idle-IsPhase e stb none = elim (Bool-cases (req_is_miss s x)) [
    | inl m ↦
        at_clr_tag (real_addr s x / 8 % 8) (ap (λ k. if k then clr_tag else s.r.state) m)
          (miss-IsCounted mem s x p stb none q m) (λ j. refl)
    | inr m ↦
        at_idle (ap (λ k. if k then clr_tag else s.r.state) m ∙ e)
          (ap (λ k. if k then true else s.r.stb) m ∙ stb) (idle-pending mem s x p stb none q)
  ]

  -- The last row ends the reload.
  last-IsPhase :
      (b a n : ℕ)
      → IsCounted s.r p b a n
      → completes x s ≡ true
      → IsPhase mem (cycle_in wait_ack s x) next_pending
  unfolding cycle_in icache_miss miss_state icache_miss_wait_ack wait_answer wait_request
      invalidated icache_hit itlb_update maybe_plrus rams
  last-IsPhase b a n c e =
      let counted : (x.wb_in.ack && a == 7) ≡ true = sym (completes_iff mem s x p b a n c q) ∙ e in
      let eight : a + b2n x.wb_in.ack ≡ 8 = eighth x.wb_in.ack counted in
      let up : a + b2n x.wb_in.ack ≤ n =
        answered-le mem x.wb_in p (line_of s.r) b a n q c.pending c.gone_le in
      let sent : n + b2n (accepts s x) ≤ 8 = sent_next s x p b a n c in
      at_idle (ap (λ k. if k then idle else s.r.state) e)
        (stb_next s x p b a n c ∙ over (n + b2n (accepts s x)) (omega (arith, eight, up)))
        (pending_after mem s x p b a n c q
          ∙ ap (rows_from (line_of s.r) (b + (a + b2n x.wb_in.ack))) (
              let z : n + b2n (accepts s x) - (a + b2n x.wb_in.ack) ≡ 0 =
                omega (arith, eight, sent) in
              z))
    where
      eighth : (k : Bool) → (k && a == 7) ≡ true → a + b2n k ≡ 8
      eighth k h = ground (arith, h)

      over : (m : ℕ) → 8 ≤ m → ltb m 8 ≡ false
      over m h = ground (arith, h)

  wait-IsPhase :
      (b a n : ℕ)
      → s.r.state ≡ wait_ack
      → IsCounted s.r p b a n
      → IsFilled mem s
      → IsLoading mem s b a
      → completes x s ≡ false
      → IsPhase mem (cycle_in wait_ack s x) next_pending
  unfolding cycle_in icache_miss miss_state icache_miss_wait_ack wait_answer wait_request
      invalidated icache_hit itlb_update maybe_plrus rams
  wait-IsPhase b a n st c f l e =
      at_wait b (a + b2n x.wb_in.ack) (n + b2n (accepts s x))
        (ap (λ k. if k then idle else s.r.state) e ∙ st) (wait-IsCounted mem s x p b a n c q e)
        (wait-IsLoading mem s x p b a n c q st f l e)

  clr_tag-IsPhase :
      (b : ℕ)
      → IsCounted s.r p b 0 0
      → IsFilled mem s
      → ((j : ℕ) → s.r.rows_valid j ≡ false)
      → get_index x.i_in.nia ≡ s.r.store_index
      → IsPhase mem (cycle_in clr_tag s x) next_pending
  unfolding cycle_in icache_miss miss_state icache_miss_clr_tag icache_miss_wait_ack wait_answer
      wait_request invalidated icache_hit itlb_update maybe_plrus rams
  clr_tag-IsPhase b c f u same =
      at_wait b (0 + b2n x.wb_in.ack) (0 + b2n (accepts s x))
        (ap (λ k. if k then idle else wait_ack) (incomplete mem s x p b c q f u same))
        (clr_tag-IsCounted mem s x p b c q f u same) (clr_tag-IsLoading mem s x p b c q f u same)

  -- One clock.
  cycle-IsNext :
      IsFilled mem s
      → IsPhase mem s p
      → (s.r.state ≡ clr_tag → get_index x.i_in.nia ≡ s.r.store_index)
      → IsNext s.r.state
  cycle-IsNext f (at_idle e stb none) h =
      subst IsNext (sym e)
        (record { lines = idle-IsFilled mem s x p stb none q f; phase = idle-IsPhase e stb none })
  cycle-IsNext f (at_clr_tag b e c u) h = subst IsNext (sym e) (record {
    lines = clr_tag-IsFilled mem s x p b c q f u (h e);
    phase = clr_tag-IsPhase b c f u (h e);
  })
  cycle-IsNext f (at_wait b a n e c l) h = subst IsNext (sym e) (record {
    lines = wait-IsFilled mem s x p b a n c q e f l;
    phase = elim (Bool-cases (completes x s)) [
      | inl d ↦ last-IsPhase b a n c d
      | inr d ↦ wait-IsPhase b a n e c f l d
    ];
  })

-- A clock keeps the agreement.
pub system_cycle-IsCoherent :
    (mem : ℕ → ℕ) (s : System) (x : IcacheInput)
    → IsCoherent mem s
    → Answers mem x.wb_in s.pending
    → IsStable s x
    → IsCoherent mem (system_cycle s x)
unfolding system_cycle icache_cycle
system_cycle-IsCoherent mem s x c q h =
    let n : IsNext mem s.cache x s.pending q s.cache.r.state =
      cycle-IsNext mem s.cache x s.pending q c.lines c.phase h in
    record { lines = n.lines; phase = n.phase }

-- The clocks of a run, each with an answer of the memory and a stable request.
pub data IsServed (mem : ℕ → ℕ) : System → List IcacheInput → Type 0 where
  done : (s : System) → IsServed mem s []
  clock :
      (s : System) (x : IcacheInput) (xs : List IcacheInput)
      → Answers mem x.wb_in s.pending
      → IsStable s x
      → IsServed mem (system_cycle s x) xs
      → IsServed mem s (x ∷ xs)

-- If every valid line and the reload that is under way agree with the memory, they do after a run in
-- which the memory answers the requests in their order, at any time, and the request stays in its line
-- in each clock that clears a tag.
pub system_run-IsCoherent :
    (mem : ℕ → ℕ) (s : System) (xs : List IcacheInput)
    → IsCoherent mem s
    → IsServed mem s xs
    → IsCoherent mem (system_run s xs)
unfolding system_run
system_run-IsCoherent mem s [] c (done _) = c
system_run-IsCoherent mem s (x ∷ xs) c (clock _ _ _ q h r) =
    system_run-IsCoherent mem (system_cycle s x) xs (system_cycle-IsCoherent mem s x c q h) r
