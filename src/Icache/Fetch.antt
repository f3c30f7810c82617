-- ===== src/Icache/Fetch.antt =====
-- experiment/icache.py: the instruction that a hit gives, in the clock after it and in the next ones.
use native.Mathlib.Nat.{mod-lt}
use libresoc_soc.Common.{
  ℕ, ◌+◌, ◌*◌, ◌/◌, ◌%◌, ◌^◌, ◌<◌, ◌≡◌, refl, sym, ap, ap₂, ◌∙◌, arith, Bool, true, false, not,
  ◌&&◌, ◌||◌, ◌==◌, if◌then◌else◌, slice, cat, Bool-cases, inl, inr, List,
}
use libresoc_soc.Icache.Types.{
  IcacheState, idle, clr_tag, wait_ack, IcacheRegs, IcacheInput, get_index, get_row, get_tag,
}
use libresoc_soc.Icache.Lookup.{
  pte_of, real_addr, use_previous, hitcond, way_hit, is_hit, hit_way, req_is_hit,
}
use libresoc_soc.Icache.Cycle.{
  way_read, cycle_in, icache_miss, miss_state, icache_miss_idle, icache_miss_clr_tag,
  icache_miss_wait_ack, wait_answer, wait_request, invalidated, icache_hit, itlb_update,
  maybe_plrus, rams,
}
use libresoc_soc.Icache.Bus.{row_address}
use libresoc_soc.Icache.Contents.{in_memory, IsFilled}
use libresoc_soc.Icache.Start.{real_addr-page}
use libresoc_soc.Icache.Coherence.{IsPhase, at_idle, at_clr_tag, at_wait}

-- The row of the memory with an address, and the word of 32 bits at it.
abbrev pub row_at : (ℕ → ℕ) → ℕ → ℕ
row_at mem addr = mem (addr / 8 % 2 ^ 32)

abbrev pub word_at : (ℕ → ℕ) → ℕ → ℕ
word_at mem addr = row_at mem addr / 2 ^ (32 * slice addr 2 3) % 2 ^ 32

real_addr-lt : (s : IcacheRegs) (x : IcacheInput) → real_addr s x < 2 ^ 56
unfolding real_addr
real_addr-lt s x = bounded x.i_in.virt_mode x.i_in.nia (pte_of s x)
  where
    bounded :
        (k : Bool) (n y : ℕ)
        → (if k then cat 12 (slice n 0 12) (slice y 12 56) else slice n 0 56) < 2 ^ 56
    bounded true n y = omega arith
    bounded false n y = omega arith

-- Why a way hits.
record IsValidWay (s : IcacheRegs) (x : IcacheInput) (w : ℕ) : Type 0 where
  tag : s.cache_tags (get_index x.i_in.nia) w ≡ get_tag (real_addr s x)
  there :
      (s.cache_valid_bits (get_index x.i_in.nia) w || (hitcond s x && w == s.r.store_way)) ≡ true

way_hit-IsValidWay :
    (s : IcacheRegs) (x : IcacheInput) (w : ℕ) → way_hit s x w ≡ true → IsValidWay s x w
unfolding way_hit
way_hit-IsValidWay s x w h = record {
  tag =
      right (s.cache_valid_bits (get_index x.i_in.nia) w || (hitcond s x && w == s.r.store_way))
        (s.cache_tags (get_index x.i_in.nia) w) (get_tag (real_addr s x)) h;
  there =
      left (s.cache_valid_bits (get_index x.i_in.nia) w || (hitcond s x && w == s.r.store_way))
        (s.cache_tags (get_index x.i_in.nia) w == get_tag (real_addr s x)) h;
}
  where
    left : (k e : Bool) → (k && e) ≡ true → k ≡ true
    left k e h = ground (arith, h)

    right : (k : Bool) (t u : ℕ) → (k && t == u) ≡ true → t ≡ u
    right k t u h = ground (arith, h)

-- The way that is chosen hits.
hit_way-hits :
    (s : IcacheRegs) (x : IcacheInput) → is_hit s x ≡ true → way_hit s x (hit_way s x) ≡ true
unfolding is_hit hit_way
hit_way-hits s x h = chosen x.i_in.req (way_hit s x) h
  where
    chosen :
        (q : Bool) (f : ℕ → Bool)
        → (q && (f 0 || f 1 || f 2 || f 3)) ≡ true
        → f (if q then (if f 3 then 3 else if f 2 then 2 else if f 1 then 1 else 0) else 0) ≡ true
    chosen q f h = elim (Bool-cases (f 3)) [
      | inl a ↦ ground (arith, h, a)
      | inr a ↦ elim (Bool-cases (f 2)) [
        | inl b ↦ ground (arith, h, a, b)
        | inr b ↦ elim (Bool-cases (f 1)) [
          | inl c ↦ ground (arith, h, a, b, c)
          | inr c ↦ ground (arith, h, a, b, c)
        ]
      ]
    ]

module _ (mem : ℕ → ℕ) (s : IcacheRegs) (x : IcacheInput) (p : List ℕ) (f : IsFilled mem s)
    (h : IsPhase mem s p) where
  -- A marked row of the line that is reloaded.
  marked_row :
      (w : ℕ)
      → (hitcond s x && w == s.r.store_way) ≡ true
      → s.ram w (get_index x.i_in.nia * 8 + x.i_in.nia / 8 % 8)
        ≡ in_memory mem
            (s.cache_tags (get_index x.i_in.nia) w)
            (get_index x.i_in.nia)
            (x.i_in.nia / 8 % 8)
  unfolding hitcond
  marked_row w e = from h
    where
      from :
          IsPhase mem s p
          → s.ram w (get_index x.i_in.nia * 8 + x.i_in.nia / 8 % 8)
            ≡ in_memory mem
                (s.cache_tags (get_index x.i_in.nia) w)
                (get_index x.i_in.nia)
                (x.i_in.nia / 8 % 8)
      from (at_idle g _ _) = ground (arith, e, g)
      from (at_clr_tag b g _ _) = ground (arith, e, g)
      from (at_wait b a n g c l) =
          let way : w ≡ s.r.store_way = ground (arith, e) in
          let index : get_index x.i_in.nia ≡ s.r.store_index = ground (arith, e) in
          let row : s.r.rows_valid (x.i_in.nia / 8 % 8) ≡ true = ground (arith, e) in
          ap₂ (λ w i. s.ram w (i * 8 + x.i_in.nia / 8 % 8)) way index
          ∙ l.marked (x.i_in.nia / 8 % 8) (mod-lt (x.i_in.nia / 8) (omega arith)) row
          ∙ ap (λ t. in_memory mem t s.r.store_index (x.i_in.nia / 8 % 8)) (sym l.tag)
          ∙ sym (ap₂ (λ w i. in_memory mem (s.cache_tags i w) i (x.i_in.nia / 8 % 8)) way index)

  -- The row of the way that is chosen is that of the address.
  pub hit_row :
      is_hit s x ≡ true → s.ram (hit_way s x) (get_row x.i_in.nia) ≡ row_at mem (real_addr s x)
  hit_row e =
      let w : ℕ = hit_way s x in
      let v : IsValidWay s x w = way_hit-IsValidWay s x w (hit_way-hits s x e) in
      ap (s.ram w) (rows x.i_in.nia)
      ∙ elim (Bool-cases (s.cache_valid_bits (get_index x.i_in.nia) w)) [
        | inl g ↦
            f.filled (get_index x.i_in.nia) w (x.i_in.nia / 8 % 8)
              (mod-lt (x.i_in.nia / 8) (omega arith)) g
        | inr g ↦
            marked_row w (sym (ap (λ k. k || (hitcond s x && w == s.r.store_way)) g) ∙ v.there)
      ]
      ∙ ap (λ t. in_memory mem t (get_index x.i_in.nia) (x.i_in.nia / 8 % 8)) v.tag
      ∙ ap mem (placed (real_addr s x) x.i_in.nia (real_addr-page s x) (real_addr-lt s x))
    where
      rows : (n : ℕ) → get_row n ≡ get_index n * 8 + n / 8 % 8
      rows n = omega arith

      placed :
          (a n : ℕ)
          → a % 2 ^ 12 ≡ n % 2 ^ 12
          → a < 2 ^ 56
          → row_address (get_tag a * 16 + get_index n) (n / 8 % 8) ≡ a / 8 % 2 ^ 32
      placed a n h l = ap (λ r. r % 2 ^ 32) (whole a n h l)
        where
          whole :
              (a n : ℕ)
              → a % 2 ^ 12 ≡ n % 2 ^ 12
              → a < 2 ^ 56
              → (get_tag a * 16 + get_index n) * 8 + n / 8 % 8 ≡ a / 8
          whole a n h l = omega (arith, h, l)

-- The hit register and the read registers after a clock, in each state.
pub hit_valid_in :
    (t : IcacheState) (s : IcacheRegs) (x : IcacheInput)
    → (cycle_in t s x).r.hit_valid ≡ (
        if x.stall_in || use_previous s x
        then (if x.flush_in then false else s.r.hit_valid)
        else req_is_hit s x)
unfolding cycle_in icache_miss miss_state icache_miss_idle icache_miss_clr_tag icache_miss_wait_ack
    wait_answer wait_request invalidated icache_hit itlb_update maybe_plrus rams
hit_valid_in idle s x = refl
hit_valid_in clr_tag s x = refl
hit_valid_in wait_ack s x = refl

pub hit_way_in :
    (t : IcacheState) (s : IcacheRegs) (x : IcacheInput)
    → (cycle_in t s x).r.hit_way ≡ (
        if not (x.stall_in || use_previous s x) && req_is_hit s x then hit_way s x else s.r.hit_way)
unfolding cycle_in icache_miss miss_state icache_miss_idle icache_miss_clr_tag icache_miss_wait_ack
    wait_answer wait_request invalidated icache_hit itlb_update maybe_plrus rams
hit_way_in idle s x = refl
hit_way_in clr_tag s x = refl
hit_way_in wait_ack s x = refl

pub hit_nia_in :
    (t : IcacheState) (s : IcacheRegs) (x : IcacheInput)
    → (cycle_in t s x).r.hit_nia ≡ (if not x.stall_in then x.i_in.nia else s.r.hit_nia)
unfolding cycle_in icache_miss miss_state icache_miss_idle icache_miss_clr_tag icache_miss_wait_ack
    wait_answer wait_request invalidated icache_hit itlb_update maybe_plrus rams
hit_nia_in idle s x = refl
hit_nia_in clr_tag s x = refl
hit_nia_in wait_ack s x = refl

pub rd_data_in :
    (t : IcacheState) (s : IcacheRegs) (x : IcacheInput) (w : ℕ)
    → (cycle_in t s x).rd_data w
      ≡ (if not (x.stall_in || use_previous s x) then s.ram w (get_row x.i_in.nia) else s.rd_data w)
unfolding cycle_in icache_miss miss_state icache_miss_idle icache_miss_clr_tag icache_miss_wait_ack
    wait_answer wait_request invalidated icache_hit itlb_update maybe_plrus rams way_read
rd_data_in idle s x w = refl
rd_data_in clr_tag s x w = refl
rd_data_in wait_ack s x w = refl
