-- ===== src/Icache/Reload.antt =====
-- experiment/icache.py: a reload, from the miss to the last row.
use libresoc_soc.Common.{
  ℕ, ◌+◌, ◌*◌, ◌^◌, ◌<◌, ◌≡◌, sym, ap, subst, ◌∙◌, arith, Bool, false, not, ◌&&◌, ◌==◌,
  if◌then◌else◌, b2n, List,
}
use libresoc_soc.Cache.Plru.{tree_at, node_next, lru_from, lru_o}
use libresoc_soc.Icache.Types.{
  IcacheState, idle, clr_tag, wait_ack, IcacheRegs, IcacheInput, get_index,
}
use libresoc_soc.Icache.Lookup.{in_clr_tag, replace_way}
use libresoc_soc.Icache.Cycle.{
  completes, icache_cycle, cycle_in, icache_miss, miss_state, icache_miss_clr_tag,
  icache_miss_wait_ack, wait_answer, wait_request, invalidated, icache_hit, itlb_update,
  maybe_plrus, rams,
}
use libresoc_soc.Icache.Bus.{Answers, pending_next}
use libresoc_soc.Icache.Counting.{IsCounted, accepts, completes_iff, wait-IsCounted}
use libresoc_soc.Icache.Contents.{IsFilled, IsLoading, wait-IsLoading}
use libresoc_soc.Icache.Start.{incomplete, clr_tag-IsCounted, clr_tag-IsLoading}

lru_o-lt : (tree : List Bool) → lru_o 2 tree < 4
unfolding lru_o lru_from
lru_o-lt tree = two (tree_at tree 0) (tree_at tree (node_next 2 0 (tree_at tree 0)))
  where
    two : (a b : Bool) → b2n a * 2 ^ 1 + (b2n b * 2 ^ 0 + 0) < 4
    two a b = ground arith

-- A line is being reloaded after a miss: its tag, its index, whether it is still to become valid and
-- how many rows have arrived.
pub data IsReloading (mem : ℕ → ℕ) (s : IcacheRegs) (p : List ℕ) (b tag index : ℕ) (ok : Bool)
    (a : ℕ) : Type 0 where
  marking :
      s.r.state ≡ clr_tag
      → IsCounted s.r p b 0 0
      → ((j : ℕ) → s.r.rows_valid j ≡ false)
      → s.r.store_tag ≡ tag
      → s.r.store_index ≡ index
      → s.r.store_valid ≡ ok
      → a ≡ 0
      → IsReloading mem s p b tag index ok a
  loading :
      (n : ℕ)
      → s.r.state ≡ wait_ack
      → IsCounted s.r p b a n
      → IsLoading mem s b a
      → s.r.store_tag ≡ tag
      → s.r.store_index ≡ index
      → s.r.store_valid ≡ ok
      → s.r.store_way < 4
      → IsReloading mem s p b tag index ok a

module _ (mem : ℕ → ℕ) (s : IcacheRegs) (x : IcacheInput) (p : List ℕ) (b tag index : ℕ) (ok : Bool)
    (q : Answers mem x.wb_in p) (f : IsFilled mem s) where
  valid_after :
      s.r.store_valid ≡ ok
      → (if x.inval_in then false else s.r.store_valid) ≡ (ok && not x.inval_in)
  valid_after v = both x.inval_in s.r.store_valid ok v
    where
      both : (t o k : Bool) → o ≡ k → (if t then false else o) ≡ (k && not t)
      both t o k e = ground (arith, e)

  marking-IsReloading :
      (a : ℕ)
      → IsCounted s.r p b 0 0
      → ((j : ℕ) → s.r.rows_valid j ≡ false)
      → s.r.store_tag ≡ tag
      → s.r.store_index ≡ index
      → s.r.store_valid ≡ ok
      → a ≡ 0
      → s.r.state ≡ clr_tag
      → get_index x.i_in.nia ≡ s.r.store_index
      → IsReloading mem
          (cycle_in clr_tag s x)
          (pending_next (record { cache = s; pending = p }) x)
          b
          tag
          index
          (ok && not x.inval_in)
          (a + b2n x.wb_in.ack)
  unfolding cycle_in icache_miss miss_state icache_miss_clr_tag icache_miss_wait_ack wait_answer
      wait_request invalidated icache_hit itlb_update maybe_plrus rams replace_way
  marking-IsReloading a c u t i v z e same =
      subst
        (IsReloading mem (cycle_in clr_tag s x) (pending_next (record { cache = s; pending = p }) x)
          b tag index (ok && not x.inval_in))
        (ap (λ a. a + b2n x.wb_in.ack) (sym z))
        (loading (0 + b2n (accepts s x))
          (ap (λ k. if k then idle else wait_ack) (incomplete mem s x p b c q f u same))
          (clr_tag-IsCounted mem s x p b c q f u same) (clr_tag-IsLoading mem s x p b c q f u same)
          t i (valid_after v) (replaced s.r.state e))
    where
      replaced :
          (k : IcacheState)
          → k ≡ clr_tag
          → (if in_clr_tag k then lru_o 2 (s.plru s.r.store_index) else s.r.store_way) < 4
      replaced idle e = ground (arith, e)
      replaced clr_tag e = lru_o-lt (s.plru s.r.store_index)
      replaced wait_ack e = ground (arith, e)

  loading-IsReloading :
      (a n : ℕ)
      → s.r.state ≡ wait_ack
      → IsCounted s.r p b a n
      → IsLoading mem s b a
      → s.r.store_tag ≡ tag
      → s.r.store_index ≡ index
      → s.r.store_valid ≡ ok
      → s.r.store_way < 4
      → completes x s ≡ false
      → IsReloading mem
          (cycle_in wait_ack s x)
          (pending_next (record { cache = s; pending = p }) x)
          b
          tag
          index
          (ok && not x.inval_in)
          (a + b2n x.wb_in.ack)
  unfolding cycle_in icache_miss miss_state icache_miss_wait_ack wait_answer wait_request
      invalidated icache_hit itlb_update maybe_plrus rams
  loading-IsReloading a n st c l t i v w e =
      loading (n + b2n (accepts s x)) (ap (λ k. if k then idle else s.r.state) e ∙ st)
        (wait-IsCounted mem s x p b a n c q e) (wait-IsLoading mem s x p b a n c q st f l e) t i
        (valid_after v) w

  -- A clock of a reload that is not the last.
  pub reload-step :
      (a : ℕ)
      → IsReloading mem s p b tag index ok a
      → (s.r.state ≡ clr_tag → get_index x.i_in.nia ≡ s.r.store_index)
      → a + b2n x.wb_in.ack < 8
      → IsReloading mem
          (icache_cycle s x)
          (pending_next (record { cache = s; pending = p }) x)
          b
          tag
          index
          (ok && not x.inval_in)
          (a + b2n x.wb_in.ack)
  unfolding icache_cycle
  reload-step a (marking e c u t i v z) h l =
      subst
        (λ k.
          IsReloading mem (cycle_in k s x) (pending_next (record { cache = s; pending = p }) x) b
            tag index (ok && not x.inval_in) (a + b2n x.wb_in.ack))
        (sym e) (marking-IsReloading a c u t i v z e (h e))
  reload-step a (loading n e c g t i v w) h l =
      subst
        (λ k.
          IsReloading mem (cycle_in k s x) (pending_next (record { cache = s; pending = p }) x) b
            tag index (ok && not x.inval_in) (a + b2n x.wb_in.ack))
        (sym e)
        (loading-IsReloading a n e c g t i v w
          (completes_iff mem s x p b a n c q ∙ fewer x.wb_in.ack l))
    where
      fewer : (k : Bool) → a + b2n k < 8 → (k && a == 7) ≡ false
      fewer k l = ground (arith, l)
