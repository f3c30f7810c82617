-- ===== src/Icache/Served.antt =====
-- experiment/icache.py: a miss is served by eight rows, and then hits.
use libresoc_soc.Common.{
  ℕ, zero, suc, ◌+◌, ◌/◌, ◌%◌, ◌<◌, ◌≡◌, sym, ap, ap₂, subst, ◌∙◌, arith, Bool, true, false, not,
  ◌&&◌, ◌||◌, ◌==◌, List, [],
}
use libresoc_soc.Icache.Types.{idle, IcacheRegs, IcacheInput, get_index, get_tag}
use libresoc_soc.Icache.Lookup.{real_addr, hitcond, way_hit, is_hit, req_is_miss}
use libresoc_soc.Icache.Cycle.{icache_cycle, cycle_in}
use libresoc_soc.Icache.Bus.{System, Answers, pending_next, system_cycle, system_run}
use libresoc_soc.Icache.Coherence.{
  IsPhase, at_idle, at_clr_tag, at_wait, IsCoherent, IsStable, IsServed, system_cycle-IsCoherent,
  system_run-IsCoherent,
}
use libresoc_soc.Icache.Reload.{IsReloading, marking, loading}
use libresoc_soc.Icache.Completion.{
  acks, keeps, miss-IsReloading, reload-run, IsLine, last-state, last-cyc, last-IsLine,
}

-- Nothing is on the way any more.
pub record IsEnded (s : System) : Type 0 where
  pub state : s.cache.r.state ≡ idle
  pub cyc : s.cache.r.cyc ≡ false
  pub stb : s.cache.r.stb ≡ false
  pub pending : s.pending ≡ []

ended :
    (mem : ℕ → ℕ) (s : IcacheRegs) (p : List ℕ)
    → IsPhase mem s p
    → s.r.state ≡ idle
    → s.r.cyc ≡ false
    → IsEnded (record { cache = s; pending = p })
ended mem s p (at_idle e t n) h c = record { state = h; cyc = c; stb = t; pending = n }
ended mem s p (at_clr_tag b e _ _) h c = ground (arith, e, h)
ended mem s p (at_wait b a n e _ _) h c = ground (arith, e, h)

-- A way with the line hits.
line-hits :
    (s : IcacheRegs) (y : IcacheInput) (tag index w : ℕ)
    → IsLine s tag index w true
    → y.i_in.req ≡ true
    → get_index y.i_in.nia ≡ index
    → get_tag (real_addr s y) ≡ tag
    → is_hit s y ≡ true
unfolding is_hit way_hit
line-hits s y tag index w l q i t = ap₂ ◌&&◌ q (some_way (way_hit s y) w l.way_lt hits)
  where
    some_way : (f : ℕ → Bool) (w : ℕ) → w < 4 → f w ≡ true → (f 0 || f 1 || f 2 || f 3) ≡ true
    some_way f zero h e = ground (arith, e)
    some_way f (suc zero) h e = ground (arith, e)
    some_way f (suc (suc zero)) h e = ground (arith, e)
    some_way f (suc (suc (suc zero))) h e = ground (arith, e)
    some_way f (suc (suc (suc (suc n)))) h e = ground (arith, h)

    both : (v k : Bool) (a b : ℕ) → v ≡ true → a ≡ b → ((v || k) && a == b) ≡ true
    both v k a b h e = ground (arith, h, e)

    hits : way_hit s y w ≡ true
    hits =
        both (s.cache_valid_bits (get_index y.i_in.nia) w) (hitcond s y && w == s.r.store_way)
          (s.cache_tags (get_index y.i_in.nia) w) (get_tag (real_addr s y))
          (ap (λ i. s.cache_valid_bits i w) i ∙ l.valid)
          (ap (λ i. s.cache_tags i w) i ∙ l.tagged ∙ sym t)

-- The last row of a reload.
data IsLast (s : IcacheRegs) (tag index : ℕ) (ok : Bool) : Type 0 where
  last_row :
      (w : ℕ) → IsLine s tag index w ok → s.r.state ≡ idle → s.r.cyc ≡ false → IsLast s tag index ok

last_lem :
    (mem : ℕ → ℕ) (s : IcacheRegs) (x : IcacheInput) (p : List ℕ) (b tag index : ℕ) (ok : Bool)
    → Answers mem x.wb_in p
    → x.wb_in.ack ≡ true
    → IsReloading mem s p b tag index ok 7
    → IsLast (icache_cycle s x) tag index (ok && not x.inval_in)
unfolding icache_cycle
last_lem mem s x p b tag index ok q ack (marking _ _ _ _ _ _ z) = ground (arith, z)
last_lem mem s x p b tag index ok q ack (loading n e c l t i v w) =
    subst (λ k. IsLast (cycle_in k s x) tag index (ok && not x.inval_in)) (sym e)
      (last_row s.r.store_way (last-IsLine mem s x p b tag index ok q ack n e c l t i v w)
        (last-state mem s x p b tag index ok q ack n c)
        (last-cyc mem s x p b tag index ok q ack n c))

module _ (mem : ℕ → ℕ) (s : System) (x : IcacheInput) (xs : List IcacheInput) (z : IcacheInput)
    (c : IsCoherent mem s) (q : Answers mem x.wb_in s.pending) (e : s.cache.r.state ≡ idle)
    (m : req_is_miss s.cache x ≡ true) (v : IsServed mem (system_cycle s x) xs) (rows : acks xs ≡ 7)
    (w : Answers mem z.wb_in (system_run (system_cycle s x) xs).pending)
    (ack : z.wb_in.ack ≡ true) where
  -- A clock that misses, and a run in which seven rows arrive.
  abbrev seventh : System
  seventh = system_run (system_cycle s x) xs

  started-IsCoherent : IsCoherent mem (system_cycle s x)
  started-IsCoherent = system_cycle-IsCoherent mem s x c q (λ h. ground (arith, e, h))

  seventh-IsCoherent : IsCoherent mem seventh
  seventh-IsCoherent = system_run-IsCoherent mem (system_cycle s x) xs started-IsCoherent v

  seventh-IsReloading :
      IsReloading mem seventh.cache seventh.pending
        (real_addr s.cache x / 8 % 8)
        (get_tag (real_addr s.cache x))
        (get_index x.i_in.nia)
        (keeps xs)
        7
  seventh-IsReloading =
      subst
        (IsReloading mem seventh.cache seventh.pending (real_addr s.cache x / 8 % 8)
          (get_tag (real_addr s.cache x)) (get_index x.i_in.nia) (keeps xs))
        seven
        (reload-run mem (system_cycle s x) xs (real_addr s.cache x / 8 % 8)
          (get_tag (real_addr s.cache x)) (get_index x.i_in.nia) true 0 started-IsCoherent
          (miss-IsReloading mem s x c q e m) v (omega (arith, rows)))
    where
      seven : 0 + acks xs ≡ 7
      seven = omega (arith, rows)

  eighth-IsLast :
      IsLast
        (icache_cycle seventh.cache z)
        (get_tag (real_addr s.cache x))
        (get_index x.i_in.nia)
        (keeps xs && not z.inval_in)
  eighth-IsLast =
      last_lem mem seventh.cache z seventh.pending (real_addr s.cache x / 8 % 8)
        (get_tag (real_addr s.cache x)) (get_index x.i_in.nia) (keeps xs) w ack seventh-IsReloading

  -- If an idle cache that agrees with the memory misses, and then the memory answers eight times in
  -- clocks in which the request stays in its line while the tag is cleared, then the cache is idle
  -- after the eighth answer, without a request on the bus or one that is not answered.
  pub reload-IsEnded : IsEnded (system_cycle seventh z)
  unfolding system_cycle
  reload-IsEnded =
      from eighth-IsLast
        (system_cycle-IsCoherent mem seventh z seventh-IsCoherent w (settled seventh-IsReloading))
    where
      settled :
          IsReloading mem seventh.cache seventh.pending
            (real_addr s.cache x / 8 % 8)
            (get_tag (real_addr s.cache x))
            (get_index x.i_in.nia)
            (keeps xs)
            7
          → IsStable seventh z
      settled (marking _ _ _ _ _ _ z) h = ground (arith, z)
      settled (loading n e _ _ _ _ _ _) h = ground (arith, e, h)

      from :
          IsLast
            (icache_cycle seventh.cache z)
            (get_tag (real_addr s.cache x))
            (get_index x.i_in.nia)
            (keeps xs && not z.inval_in)
          → IsCoherent mem (system_cycle seventh z)
          → IsEnded (system_cycle seventh z)
      from (last_row w l h c) k =
          ended mem (icache_cycle seventh.cache z) (pending_next seventh z) k.phase h c

  -- If the cache is not invalidated between that miss and the eighth answer, a request of the line with
  -- the tag of the real address that was missed hits after it.
  pub reload-hits :
      (y : IcacheInput)
      → (keeps xs && not z.inval_in) ≡ true
      → y.i_in.req ≡ true
      → get_index y.i_in.nia ≡ get_index x.i_in.nia
      → get_tag (real_addr (system_cycle seventh z).cache y) ≡ get_tag (real_addr s.cache x)
      → is_hit (system_cycle seventh z).cache y ≡ true
  unfolding system_cycle
  reload-hits y k r i t = from eighth-IsLast
    where
      from :
          IsLast
            (icache_cycle seventh.cache z)
            (get_tag (real_addr s.cache x))
            (get_index x.i_in.nia)
            (keeps xs && not z.inval_in)
          → is_hit (icache_cycle seventh.cache z) y ≡ true
      from (last_row w l h c) =
          line-hits (icache_cycle seventh.cache z) y (get_tag (real_addr s.cache x))
            (get_index x.i_in.nia) w
            (subst
              (IsLine (icache_cycle seventh.cache z) (get_tag (real_addr s.cache x))
                (get_index x.i_in.nia) w)
              k l)
            r i t
