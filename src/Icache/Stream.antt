-- ===== src/Icache/Stream.antt =====
-- experiment/icache.py: the instructions that the fetch unit is given.
use libresoc_soc.Common.{
  ℕ, ◌+◌, ◌*◌, ◌/◌, ◌%◌, ◌^◌, ◌≡◌, sym, ap₂, subst, ◌∙◌, arith, true, false, not, ◌&&◌, ◌||◌, ◌==◌,
  slice, List,
}
use libresoc_soc.Icache.Types.{IcacheInput}
use libresoc_soc.Icache.Lookup.{real_addr, use_previous, req_is_hit, icache_outputs}
use libresoc_soc.Icache.Bus.{System, system_cycle, system_run}
use libresoc_soc.Icache.Start.{real_addr-page}
use libresoc_soc.Icache.Coherence.{IsServed, system_run-IsCoherent}
use libresoc_soc.Icache.Fetch.{row_at, word_at}
use libresoc_soc.Icache.Reset.{system_reset, system_reset-IsCoherent}
use libresoc_soc.Icache.Presented.{
  IsFetched, IsPresented, presented-IsFetched, hit-IsPresented, previous-IsPresented, held,
  held-IsPresented,
}

module _ (mem : ℕ → ℕ) (ram : ℕ → ℕ → ℕ) (ws : List IcacheInput) (x : IcacheInput)
    (xs : List IcacheInput) (v : IsServed mem (system_reset ram) ws)
    (h : req_is_hit (system_run (system_reset ram) ws).cache x ≡ true)
    (k : (x.stall_in || use_previous (system_run (system_reset ram) ws).cache x) ≡ false)
    (t : held xs ≡ true) where
  -- A run from the reset, a clock in which the request hits, and the stalls after it.
  abbrev fetching : System
  fetching = system_run (system_reset ram) ws

  abbrev holding : System
  holding = system_run (system_cycle fetching x) xs

  holding-IsPresented :
      IsPresented holding.cache x.i_in.nia (row_at mem (real_addr fetching.cache x))
  unfolding system_cycle
  holding-IsPresented =
      held-IsPresented (system_cycle fetching x) xs x.i_in.nia
        (row_at mem (real_addr fetching.cache x))
        (hit-IsPresented mem fetching x
          (system_run-IsCoherent mem (system_reset ram) ws (system_reset-IsCoherent mem ram) v) h k)
        t

  -- After a run from the reset with a memory behind the bus that answers the requests in their order,
  -- at any time, in which the request stays in its line in the clock that clears a tag: if a request
  -- hits, with permission and without a flush, while the unit is not stalled and does not use the last
  -- row, then from the next clock on, and for as long as the unit is stalled and not flushed, the unit
  -- offers the request's address with the memory's word at its real address.
  pub fetch-IsFetched :
      (y : IcacheInput)
      → IsFetched
          (icache_outputs holding.cache y).i_out
          x.i_in.nia
          (word_at mem (real_addr fetching.cache x))
  fetch-IsFetched y =
      subst
        (λ k.
          IsFetched (icache_outputs holding.cache y).i_out x.i_in.nia
            (row_at mem (real_addr fetching.cache x) / 2 ^ (32 * k) % 2 ^ 32))
        (half (real_addr fetching.cache x) x.i_in.nia (real_addr-page fetching.cache x))
        (presented-IsFetched holding.cache y x.i_in.nia (row_at mem (real_addr fetching.cache x))
          holding-IsPresented)
    where
      half : (a n : ℕ) → a % 2 ^ 12 ≡ n % 2 ^ 12 → slice n 2 3 ≡ slice a 2 3
      half a n h = omega (arith, h)

  -- After such a hit at the start of a row of 8 bytes and such stalls, a sequential request of the
  -- next instruction, without a stall or a flush, is offered with the memory's next word.
  pub sequential-IsFetched :
      (y z : IcacheInput)
      → x.i_in.nia % 8 ≡ 0
      → y.i_in.nia ≡ x.i_in.nia + 4
      → y.i_in.sequential ≡ true
      → y.stall_in ≡ false
      → y.flush_in ≡ false
      → IsFetched
          (icache_outputs (system_cycle holding y).cache z).i_out
          y.i_in.nia
          (word_at mem (real_addr fetching.cache x + 4))
  unfolding system_cycle use_previous
  sequential-IsFetched y z e n q st f =
      subst (IsFetched (icache_outputs (system_cycle holding y).cache z).i_out y.i_in.nia) words (
        presented-IsFetched (system_cycle holding y).cache z y.i_in.nia
          (row_at mem (real_addr fetching.cache x))
          (previous-IsPresented holding.cache y x.i_in.nia (row_at mem (real_addr fetching.cache x))
            holding-IsPresented
            (ap₂ (λ o q. not o && (q && holding.cache.r.hit_valid)) (odd y.i_in.nia x.i_in.nia e n)
                q
              ∙ holding-IsPresented.valid)
            st f))
    where
      odd : (m n : ℕ) → n % 8 ≡ 0 → m ≡ n + 4 → (slice m 2 3 == 0) ≡ false
      odd m n e h = ground (arith, e, h)

      same_row : (a n : ℕ) → a % 2 ^ 12 ≡ n % 2 ^ 12 → n % 8 ≡ 0 → (a + 4) / 8 ≡ a / 8
      same_row a n g e = omega (arith, g, e)

      second :
          (a n m : ℕ)
          → a % 2 ^ 12 ≡ n % 2 ^ 12
          → m ≡ n + 4
          → n % 8 ≡ 0
          → slice m 2 3 ≡ slice (a + 4) 2 3
      second a n m g h e = omega (arith, g, h, e)

      words :
          row_at mem (real_addr fetching.cache x) / 2 ^ (32 * slice y.i_in.nia 2 3) % 2 ^ 32
          ≡ word_at mem (real_addr fetching.cache x + 4)
      words =
          ap₂ (λ r k. mem (r % 2 ^ 32) / 2 ^ (32 * k) % 2 ^ 32)
            (sym (
              same_row (real_addr fetching.cache x) x.i_in.nia (real_addr-page fetching.cache x) e))
            (second (real_addr fetching.cache x) x.i_in.nia y.i_in.nia
              (real_addr-page fetching.cache x) n e)
