-- ===== src/Icache/Invalidation.antt =====
-- experiment/icache.py: what is left of the cache after a clock that invalidates it.
use libresoc_soc.Common.{
  ℕ, ◌≡◌, refl, sym, ap, ap₂, ◌∙◌, arith, Bool, true, false, not, ◌&&◌, ◌||◌, ◌==◌, if◌then◌else◌,
  Bool-cases, inl, inr,
}
use libresoc_soc.Icache.Types.{
  IcacheState, idle, clr_tag, wait_ack, IcacheRegs, IcacheInput, get_index,
}
use libresoc_soc.Icache.Lookup.{replace_way}
use libresoc_soc.Icache.Cycle.{
  update, completes, icache_cycle, cycle_in, icache_miss, miss_state, icache_miss_idle,
  icache_miss_clr_tag, icache_miss_wait_ack, wait_answer, wait_request, invalidated, icache_hit,
  itlb_update, maybe_plrus, rams,
}

-- A reload writes the valid bits of a line in this clock.
abbrev pub rewrites : IcacheState → IcacheRegs → IcacheInput → ℕ → Bool
rewrites idle s x i = false
rewrites clr_tag s x i = i == get_index x.i_in.nia || (completes x s && i == s.r.store_index)
rewrites wait_ack s x i = completes x s && i == s.r.store_index

-- A line whose bits are written from their old values, with one cleared.
written :
    (base g : ℕ → ℕ → Bool) (k : Bool) (r v i w : ℕ) (new : Bool)
    → new ≡ false
    → (if k then update base r (update (g r) v new) else base) i w
      ≡ (if k && i == r then not (w == v) && g i w else base i w)
written base g false r v i w new h = refl
written base g true r v i w new h = elim (Bool-cases (i == r)) [
  | inl e ↦
      (let here : r ≡ i = ground (arith, e) in
        ap (λ k. (if k then update (g r) v new else base i) w) e
        ∙ ap₂ (λ r n. if w == v then n else g r w) here h
        ∙ inside (w == v) (g i w)
        ∙ sym (ap (λ k. if k then not (w == v) && g i w else base i w) e))
  | inr e ↦
      ap (λ k. (if k then update (g r) v new else base i) w) e
      ∙ sym (ap (λ k. if k then not (w == v) && g i w else base i w) e)
]
  where
    inside : (k b : Bool) → (if k then false else b) ≡ (not k && b)
    inside true b = refl
    inside false b = refl

module _ (s : IcacheRegs) (x : IcacheInput) (h : x.inval_in ≡ true) (i w : ℕ) where
  none : ℕ → ℕ → Bool
  none = if x.inval_in then (λ i w. false) else s.cache_valid_bits

  none_lem : none i w ≡ false
  unfolding none
  none_lem = ap (λ k. (if k then (λ i w. false) else s.cache_valid_bits) i w) h

  cleared : (s.r.store_valid && not x.inval_in) ≡ false
  cleared = ap (λ k. s.r.store_valid && not k) h ∙ never s.r.store_valid
    where
      never : (k : Bool) → (k && not true) ≡ false
      never true = refl
      never false = refl

  invalidation_in :
      (t : IcacheState)
      → (cycle_in t s x).cache_valid_bits i w
        ≡ (rewrites t s x i && (not (w == replace_way s) && s.cache_valid_bits i w))
  unfolding none cycle_in icache_miss miss_state icache_miss_idle icache_miss_clr_tag
      icache_miss_wait_ack wait_answer wait_request invalidated icache_hit itlb_update maybe_plrus
      rams
  invalidation_in idle = none_lem
  invalidation_in wait_ack =
      written none s.cache_valid_bits (completes x s) s.r.store_index (replace_way s) i w
        (s.r.store_valid && not x.inval_in) cleared
      ∙ ap
          (λ b.
            if completes x s && i == s.r.store_index
            then not (w == replace_way s) && s.cache_valid_bits i w
            else b)
          none_lem
      ∙ as_and (completes x s && i == s.r.store_index)
          (not (w == replace_way s) && s.cache_valid_bits i w)
    where
      as_and : (k b : Bool) → (if k then b else false) ≡ (k && b)
      as_and true b = refl
      as_and false b = refl
  invalidation_in clr_tag =
      written
        (update none (get_index x.i_in.nia)
          (update (s.cache_valid_bits (get_index x.i_in.nia)) (replace_way s) false))
        s.cache_valid_bits (completes x s) s.r.store_index (replace_way s) i w
        (s.r.store_valid && not x.inval_in) cleared
      ∙ ap
          (λ b.
            if completes x s && i == s.r.store_index
            then not (w == replace_way s) && s.cache_valid_bits i w
            else b)
          (written none s.cache_valid_bits true (get_index x.i_in.nia) (replace_way s) i w false
              refl
            ∙ ap
                (λ b.
                  if i == get_index x.i_in.nia
                  then not (w == replace_way s) && s.cache_valid_bits i w
                  else b)
                none_lem)
      ∙ as_or (completes x s && i == s.r.store_index) (i == get_index x.i_in.nia)
          (not (w == replace_way s) && s.cache_valid_bits i w)
    where
      as_or : (k l b : Bool) → (if k then b else (if l then b else false)) ≡ ((l || k) && b)
      as_or k l b = ground arith

  -- After a clock with `inval_in` a line is valid exactly if it was before, in a way other than the one
  -- to replace, and a reload writes the valid bits of its index in this clock.
  pub invalidation_lem :
      (icache_cycle s x).cache_valid_bits i w
      ≡ (rewrites s.r.state s x i && (not (w == replace_way s) && s.cache_valid_bits i w))
  unfolding icache_cycle
  invalidation_lem = invalidation_in s.r.state
