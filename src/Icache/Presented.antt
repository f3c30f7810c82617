-- ===== src/Icache/Presented.antt =====
-- experiment/icache.py: the instruction that the registers present to the fetch unit, clock by clock.
use libresoc_soc.Common.{
  ℕ, ◌*◌, ◌/◌, ◌%◌, ◌^◌, ◌≡◌, ap, ap₂, ◌∙◌, arith, Bool, true, false, not, ◌&&◌, ◌||◌,
  if◌then◌else◌, slice, List, [], ◌∷◌,
}
use libresoc_soc.Icache.Types.{get_row, IcacheRegs, IcacheInput, ICacheToDecode1}
use libresoc_soc.Icache.Lookup.{
  access_ok, real_addr, use_previous, is_hit, hit_way, req_is_hit, icache_outputs,
}
use libresoc_soc.Icache.Cycle.{icache_cycle, cycle_in}
use libresoc_soc.Icache.Bus.{System, system_cycle, system_run}
use libresoc_soc.Icache.Coherence.{IsCoherent}
use libresoc_soc.Icache.Fetch.{row_at, hit_row, hit_valid_in, hit_way_in, hit_nia_in, rd_data_in}

-- The fetch unit is given an instruction of an address.
pub record IsFetched (o : ICacheToDecode1) (addr word : ℕ) : Type 0 where
  pub valid : o.valid ≡ true
  pub nia : o.nia ≡ addr
  pub insn : o.insn ≡ word

-- The registers present an address, with a row.
pub record IsPresented (s : IcacheRegs) (addr row : ℕ) : Type 0 where
  pub valid : s.r.hit_valid ≡ true
  pub nia : s.r.hit_nia ≡ addr
  pub fetched : s.rd_data s.r.hit_way ≡ row

pub presented-IsFetched :
    (s : IcacheRegs) (y : IcacheInput) (addr row : ℕ)
    → IsPresented s addr row
    → IsFetched (icache_outputs s y).i_out addr (row / 2 ^ (32 * slice addr 2 3) % 2 ^ 32)
unfolding icache_outputs
presented-IsFetched s y addr row p = record {
  valid = p.valid;
  nia = p.nia;
  insn = ap₂ (λ r n. r / 2 ^ (32 * slice n 2 3) % 2 ^ 32) p.fetched p.nia;
}

hits : (s : IcacheRegs) (x : IcacheInput) → req_is_hit s x ≡ true → is_hit s x ≡ true
unfolding req_is_hit
hits s x h = right (x.i_in.req && access_ok s x && not x.flush_in) (is_hit s x) h
  where
    right : (k h : Bool) → (k && h) ≡ true → h ≡ true
    right k h e = ground (arith, e)

-- A clock in which the request hits.
pub hit-IsPresented :
    (mem : ℕ → ℕ) (s : System) (x : IcacheInput)
    → IsCoherent mem s
    → req_is_hit s.cache x ≡ true
    → (x.stall_in || use_previous s.cache x) ≡ false
    → IsPresented (icache_cycle s.cache x) x.i_in.nia (row_at mem (real_addr s.cache x))
unfolding icache_cycle
hit-IsPresented mem s x c h k = record {
  valid =
      hit_valid_in s.cache.r.state s.cache x
      ∙ ap
          (λ k.
            if k then (if x.flush_in then false else s.cache.r.hit_valid) else req_is_hit s.cache x)
          k
      ∙ h;
  nia =
      hit_nia_in s.cache.r.state s.cache x
      ∙ ap (λ k. if not k then x.i_in.nia else s.cache.r.hit_nia)
          (unstalled x.stall_in (use_previous s.cache x) k);
  fetched =
      ap (cycle_in s.cache.r.state s.cache x).rd_data (
        hit_way_in s.cache.r.state s.cache x
        ∙ ap₂ (λ k h. if not k && h then hit_way s.cache x else s.cache.r.hit_way) k h)
      ∙ rd_data_in s.cache.r.state s.cache x (hit_way s.cache x)
      ∙ ap
          (λ k.
            if not k
            then s.cache.ram (hit_way s.cache x) (get_row x.i_in.nia)
            else s.cache.rd_data (hit_way s.cache x))
          k
      ∙ hit_row mem s.cache x s.pending c.lines c.phase (hits s.cache x h);
}
  where
    unstalled : (k u : Bool) → (k || u) ≡ false → k ≡ false
    unstalled k u h = ground (arith, h)

-- A clock in which the fetch unit is stalled.
stall-IsPresented :
    (s : IcacheRegs) (x : IcacheInput) (addr row : ℕ)
    → IsPresented s addr row
    → x.stall_in ≡ true
    → x.flush_in ≡ false
    → IsPresented (icache_cycle s x) addr row
unfolding icache_cycle
stall-IsPresented s x addr row p t f = record {
  valid =
      hit_valid_in s.r.state s x
      ∙ ap₂
          (λ t f.
            if t || use_previous s x then (if f then false else s.r.hit_valid) else req_is_hit s x)
          t f
      ∙ p.valid;
  nia = hit_nia_in s.r.state s x ∙ ap (λ t. if not t then x.i_in.nia else s.r.hit_nia) t ∙ p.nia;
  fetched =
      ap (cycle_in s.r.state s x).rd_data (
        hit_way_in s.r.state s x
        ∙ ap
            (λ t.
              if not (t || use_previous s x) && req_is_hit s x then hit_way s x else s.r.hit_way)
            t)
      ∙ rd_data_in s.r.state s x s.r.hit_way
      ∙ ap
          (λ t.
            if not (t || use_previous s x)
            then s.ram s.r.hit_way (get_row x.i_in.nia)
            else s.rd_data s.r.hit_way)
          t
      ∙ p.fetched;
}

-- A clock in which the request is of the row that is presented.
pub previous-IsPresented :
    (s : IcacheRegs) (x : IcacheInput) (addr row : ℕ)
    → IsPresented s addr row
    → use_previous s x ≡ true
    → x.stall_in ≡ false
    → x.flush_in ≡ false
    → IsPresented (icache_cycle s x) x.i_in.nia row
unfolding icache_cycle
previous-IsPresented s x addr row p u t f = record {
  valid =
      hit_valid_in s.r.state s x
      ∙ ap₂ (λ k f. if k then (if f then false else s.r.hit_valid) else req_is_hit s x)
          (ap₂ ◌||◌ t u) f
      ∙ p.valid;
  nia = hit_nia_in s.r.state s x ∙ ap (λ t. if not t then x.i_in.nia else s.r.hit_nia) t;
  fetched =
      ap (cycle_in s.r.state s x).rd_data (
        hit_way_in s.r.state s x
        ∙ ap (λ k. if not k && req_is_hit s x then hit_way s x else s.r.hit_way) (ap₂ ◌||◌ t u))
      ∙ rd_data_in s.r.state s x s.r.hit_way
      ∙ ap (λ k. if not k then s.ram s.r.hit_way (get_row x.i_in.nia) else s.rd_data s.r.hit_way)
          (ap₂ ◌||◌ t u)
      ∙ p.fetched;
}

-- The fetch unit is stalled and not flushed.
unfoldable pub held : List IcacheInput → Bool
held [] = true
held (x ∷ xs) = (x.stall_in && not x.flush_in) && held xs

pub held-IsPresented :
    (s : System) (xs : List IcacheInput) (addr row : ℕ)
    → IsPresented s.cache addr row
    → held xs ≡ true
    → IsPresented (system_run s xs).cache addr row
unfolding held system_run system_cycle
held-IsPresented s [] addr row p h = p
held-IsPresented s (x ∷ xs) addr row p h =
    held-IsPresented (system_cycle s x) xs addr row
      (stall-IsPresented s.cache x addr row p (stalled x.stall_in x.flush_in (held xs) h)
        (unflushed x.stall_in x.flush_in (held xs) h))
      (still x.stall_in x.flush_in (held xs) h)
  where
    stalled : (t f k : Bool) → ((t && not f) && k) ≡ true → t ≡ true
    stalled t f k h = ground (arith, h)

    unflushed : (t f k : Bool) → ((t && not f) && k) ≡ true → f ≡ false
    unflushed t f k h = ground (arith, h)

    still : (t f k : Bool) → ((t && not f) && k) ≡ true → k ≡ true
    still t f k h = ground (arith, h)
