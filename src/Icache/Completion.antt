-- ===== src/Icache/Completion.antt =====
-- experiment/icache.py: the end of a reload, and the hit that it makes.
use libresoc_soc.Common.{
  ℕ, ◌+◌, ◌/◌, ◌%◌, ◌<◌, ◌≡◌, refl, sym, ap, subst, ◌∙◌, arith, Bool, true, false, not, ◌&&◌, ◌==◌,
  if◌then◌else◌, b2n, List, [], ◌∷◌,
}
use libresoc_soc.Icache.Types.{idle, clr_tag, wait_ack, IcacheRegs, IcacheInput, get_index, get_tag}
use libresoc_soc.Icache.Lookup.{real_addr, req_is_miss}
use libresoc_soc.Icache.Cycle.{
  update, completes, icache_cycle, cycle_in, icache_miss, miss_state, icache_miss_idle,
  icache_miss_wait_ack, wait_answer, wait_request, invalidated, icache_hit, itlb_update,
  maybe_plrus, rams,
}
use libresoc_soc.Icache.Bus.{System, Answers, pending_next, system_cycle, system_run}
use libresoc_soc.Icache.Counting.{IsCounted, completes_iff}
use libresoc_soc.Icache.Contents.{IsLoading, replace-store_way}
use libresoc_soc.Icache.Tables.{update-twice}
use libresoc_soc.Icache.Request.{chosen, miss-IsCounted}
use libresoc_soc.Icache.Coherence.{
  IsPhase, at_idle, at_clr_tag, at_wait, IsCoherent, IsServed, done, clock, system_cycle-IsCoherent,
}
use libresoc_soc.Icache.Reload.{IsReloading, marking, reload-step}

-- How many rows arrive in a run, and whether nothing is invalidated.
unfoldable pub acks : List IcacheInput → ℕ
acks [] = 0
acks (x ∷ xs) = b2n x.wb_in.ack + acks xs

unfoldable pub keeps : List IcacheInput → Bool
keeps [] = true
keeps (x ∷ xs) = not x.inval_in && keeps xs

started :
    (mem : ℕ → ℕ) (s : IcacheRegs) (x : IcacheInput) (p : List ℕ)
    → s.r.stb ≡ false
    → p ≡ []
    → Answers mem x.wb_in p
    → req_is_miss s x ≡ true
    → IsReloading mem
        (cycle_in idle s x)
        (pending_next (record { cache = s; pending = p }) x)
        (real_addr s x / 8 % 8)
        (get_tag (real_addr s x))
        (get_index x.i_in.nia)
        true
        0
unfolding cycle_in icache_miss miss_state icache_miss_idle invalidated icache_hit itlb_update
    maybe_plrus rams
started mem s x p stb none q m =
    marking (chosen (req_is_miss s x) clr_tag s.r.state m) (miss-IsCounted mem s x p stb none q m)
      (λ j. refl) (chosen (req_is_miss s x) (get_tag (real_addr s x)) s.r.store_tag m)
      (chosen (req_is_miss s x) (get_index x.i_in.nia) s.r.store_index m)
      (chosen (req_is_miss s x) true (if x.inval_in then false else s.r.store_valid) m) refl

-- A miss starts a reload.
pub miss-IsReloading :
    (mem : ℕ → ℕ) (s : System) (x : IcacheInput)
    → IsCoherent mem s
    → Answers mem x.wb_in s.pending
    → s.cache.r.state ≡ idle
    → req_is_miss s.cache x ≡ true
    → IsReloading mem
        (system_cycle s x).cache
        (system_cycle s x).pending
        (real_addr s.cache x / 8 % 8)
        (get_tag (real_addr s.cache x))
        (get_index x.i_in.nia)
        true
        0
unfolding system_cycle icache_cycle
miss-IsReloading mem s x c q e m =
    subst
      (λ k.
        IsReloading mem (cycle_in k s.cache x) (pending_next s x) (real_addr s.cache x / 8 % 8)
          (get_tag (real_addr s.cache x)) (get_index x.i_in.nia) true 0)
      (sym e) (from c.phase)
  where
    from :
        IsPhase mem s.cache s.pending
        → IsReloading mem
            (cycle_in idle s.cache x)
            (pending_next s x)
            (real_addr s.cache x / 8 % 8)
            (get_tag (real_addr s.cache x))
            (get_index x.i_in.nia)
            true
            0
    from (at_clr_tag b g _ _) = ground (arith, e, g)
    from (at_wait b a n g _ _) = ground (arith, e, g)
    from (at_idle _ stb none) = started mem s.cache x s.pending stb none q m

-- The rows arrive one after the other.
pub reload-run :
    (mem : ℕ → ℕ) (s : System) (xs : List IcacheInput) (b tag index : ℕ) (ok : Bool) (a : ℕ)
    → IsCoherent mem s
    → IsReloading mem s.cache s.pending b tag index ok a
    → IsServed mem s xs
    → a + acks xs < 8
    → IsReloading mem
        (system_run s xs).cache
        (system_run s xs).pending
        b
        tag
        index
        (ok && keeps xs)
        (a + acks xs)
unfolding system_run system_cycle acks keeps
reload-run mem s [] b tag index ok a c r (done _) l =
    subst (λ k. IsReloading mem s.cache s.pending b tag index k (a + 0))
      (let e : ok ≡ (ok && true) = ground arith in e)
      (subst (IsReloading mem s.cache s.pending b tag index ok)
        (let e : a ≡ a + 0 = omega arith in e) r)
reload-run mem s (x ∷ xs) b tag index ok a c r (clock _ _ _ q h v) l =
    let t : System = system_cycle s x in
    let next : IsReloading mem t.cache t.pending b tag index (ok && not x.inval_in)
        (a + b2n x.wb_in.ack) =
      reload-step mem s.cache x s.pending b tag index ok q c.lines a r h (omega (arith, l)) in
    let end : IsReloading mem (system_run t xs).cache (system_run t xs).pending b tag index
        ((ok && not x.inval_in) && keeps xs) (a + b2n x.wb_in.ack + acks xs) =
      reload-run mem t xs b tag index (ok && not x.inval_in) (a + b2n x.wb_in.ack)
        (system_cycle-IsCoherent mem s x c q h) next v (omega (arith, l)) in
    subst
      (λ k.
        IsReloading mem (system_run t xs).cache (system_run t xs).pending b tag index k
          (a + (b2n x.wb_in.ack + acks xs)))
      (assoc ok (not x.inval_in) (keeps xs))
      (subst
        (IsReloading mem (system_run t xs).cache (system_run t xs).pending b tag index
          ((ok && not x.inval_in) && keeps xs))
        (let e : a + b2n x.wb_in.ack + acks xs ≡ a + (b2n x.wb_in.ack + acks xs) = omega arith in e)
        end)
  where
    assoc : (i j k : Bool) → ((i && j) && k) ≡ (i && (j && k))
    assoc i j k = ground arith

-- The line that is there once the last row has arrived.
pub record IsLine (s : IcacheRegs) (tag index : ℕ) (w : ℕ) (ok : Bool) : Type 0 where
  pub way_lt : w < 4
  pub tagged : s.cache_tags index w ≡ tag
  pub valid : s.cache_valid_bits index w ≡ ok

module _ (mem : ℕ → ℕ) (s : IcacheRegs) (x : IcacheInput) (p : List ℕ) (b tag index : ℕ) (ok : Bool)
    (q : Answers mem x.wb_in p) (ack : x.wb_in.ack ≡ true) where
  pub last : (n : ℕ) → IsCounted s.r p b 7 n → completes x s ≡ true
  last n c = completes_iff mem s x p b 7 n c q ∙ ap (λ k. k && 7 == 7) ack

  pub last-state : (n : ℕ) → IsCounted s.r p b 7 n → (cycle_in wait_ack s x).r.state ≡ idle
  unfolding cycle_in icache_miss miss_state icache_miss_wait_ack wait_answer wait_request
      invalidated icache_hit itlb_update maybe_plrus rams
  last-state n c = chosen (completes x s) idle s.r.state (last n c)

  pub last-cyc : (n : ℕ) → IsCounted s.r p b 7 n → (cycle_in wait_ack s x).r.cyc ≡ false
  unfolding cycle_in icache_miss miss_state icache_miss_wait_ack wait_answer wait_request
      invalidated icache_hit itlb_update maybe_plrus rams
  last-cyc n c = chosen (completes x s) false s.r.cyc (last n c)

  pub last-IsLine :
      (n : ℕ)
      → s.r.state ≡ wait_ack
      → IsCounted s.r p b 7 n
      → IsLoading mem s b 7
      → s.r.store_tag ≡ tag
      → s.r.store_index ≡ index
      → s.r.store_valid ≡ ok
      → s.r.store_way < 4
      → IsLine (cycle_in wait_ack s x) tag index s.r.store_way (ok && not x.inval_in)
  unfolding cycle_in icache_miss miss_state icache_miss_wait_ack wait_answer wait_request
      invalidated icache_hit itlb_update maybe_plrus rams
  last-IsLine n st c l t i v w = record {
    way_lt = w;
    tagged = ap (λ i. s.cache_tags i s.r.store_way) (sym i) ∙ l.tag ∙ t;
    valid =
        ap (λ i. (cycle_in wait_ack s x).cache_valid_bits i s.r.store_way) (sym i)
        ∙ ap (λ f. f s.r.store_index s.r.store_way) (chosen (completes x s) _ base (last n c))
        ∙ ap
            (λ k.
              update base s.r.store_index
                (update (s.cache_valid_bits s.r.store_index) k (s.r.store_valid && not x.inval_in))
                s.r.store_index s.r.store_way)
            (replace-store_way s st)
        ∙ update-twice base (s.cache_valid_bits s.r.store_index) s.r.store_index s.r.store_way
            (s.r.store_valid && not x.inval_in)
        ∙ ap (λ k. k && not x.inval_in) v;
  }
    where
      base : ℕ → ℕ → Bool
      base = if x.inval_in then (λ i w. false) else s.cache_valid_bits
