-- ===== src/Icache/Contents.antt =====
-- What the lines of the cache of experiment/icache.py hold, before and after a clock of a reload.
use native.Mathlib.Nat.{mod-lt}
use libresoc_soc.Common.{
  ℕ, zero, suc, ◌+◌, ◌-◌, ◌*◌, ◌%◌, ◌<◌, ◌≡◌, inl, inr, refl, sym, ap, ap₂, ◌∙◌, arith, Bool, true,
  false, not, ◌&&◌, ◌==◌, if◌then◌else◌, b2n, Bool-cases, List, [], ◌∷◌,
}
use libresoc_soc.Icache.Types.{wait_ack, IcacheRegs, IcacheInput, WbSlaveOut}
use libresoc_soc.Icache.Lookup.{replace_way}
use libresoc_soc.Icache.Cycle.{
  update, way_ram, completes, cycle_in, icache_miss, miss_state, icache_miss_wait_ack, wait_answer,
  wait_request, invalidated, icache_hit, itlb_update, maybe_plrus, rams,
}
use libresoc_soc.Icache.Bus.{Answers, quiet, answer, row_address, rows_from}
use libresoc_soc.Icache.Counting.{line_of, IsCounted}

-- The content of a row of a line in memory.
abbrev pub in_memory : (ℕ → ℕ) → ℕ → ℕ → ℕ → ℕ
in_memory mem tag index j = mem (row_address (tag * 16 + index) j)

-- Every valid line of the cache is that of the memory with its tag and its index.
pub record IsFilled (mem : ℕ → ℕ) (s : IcacheRegs) : Type 0 where
  pub filled :
      (i w j : ℕ)
      → j < 8
      → s.cache_valid_bits i w ≡ true
      → s.ram w (i * 8 + j) ≡ in_memory mem (s.cache_tags i w) i j

-- The line that is reloaded has its tag and is not valid; the rows that have arrived, and those that
-- are marked, are those of the memory.
pub record IsLoading (mem : ℕ → ℕ) (s : IcacheRegs) (start gone : ℕ) : Type 0 where
  pub tag : s.cache_tags s.r.store_index s.r.store_way ≡ s.r.store_tag
  pub invalid : s.cache_valid_bits s.r.store_index s.r.store_way ≡ false
  pub loaded :
      (k : ℕ)
      → k < gone
      → s.ram s.r.store_way (s.r.store_index * 8 + (start + k) % 8)
        ≡ in_memory mem s.r.store_tag s.r.store_index ((start + k) % 8)
  pub marked :
      (j : ℕ)
      → j < 8
      → s.r.rows_valid j ≡ true
      → s.ram s.r.store_way (s.r.store_index * 8 + j)
        ≡ in_memory mem s.r.store_tag s.r.store_index j

-- The row that the memory answers with.
answer-content :
    (mem : ℕ → ℕ) (w : WbSlaveOut) (p : List ℕ) (l b a n : ℕ)
    → Answers mem w p
    → w.ack ≡ true
    → p ≡ rows_from l (b + a) (n - a)
    → w.content ≡ mem (row_address l ((b + a) % 8))
answer-content mem w p l b a n (quiet _ q) h e = ground (arith, q, h)
answer-content mem w _ l b a n (answer r q _ c) h e = first (n - a) e
  where
    head : List ℕ → ℕ
    head [] = r
    head (y ∷ ys) = y

    first :
        (d : ℕ) → (r ∷ q) ≡ rows_from l (b + a) d → w.content ≡ mem (row_address l ((b + a) % 8))
    first zero e = ground (arith, e)
    first (suc d) e = c ∙ ap mem (ap head e)

pub replace-store_way : (s : IcacheRegs) → s.r.state ≡ wait_ack → replace_way s ≡ s.r.store_way
unfolding replace_way
replace-store_way s e = ground (arith, e)

-- A row of the memories after a clock of a reload.
row_after :
    (s : IcacheRegs) (x : IcacheInput) (w r : ℕ)
    → s.r.state ≡ wait_ack
    → way_ram s x w r ≡ (
        if (x.wb_in.ack && s.r.store_way == w) && r == s.r.store_row
        then x.wb_in.content
        else s.ram w r)
unfolding way_ram
row_after s x w r e =
    ap
      (λ v.
        (if x.wb_in.ack && v == w then update (s.ram w) s.r.store_row x.wb_in.content else s.ram w)
          r)
      (replace-store_way s e)
    ∙ inside (x.wb_in.ack && s.r.store_way == w) (s.ram w)
  where
    inside :
        (k : Bool) (f : ℕ → ℕ)
        → (if k then update f s.r.store_row x.wb_in.content else f) r
          ≡ (if k && r == s.r.store_row then x.wb_in.content else f r)
    inside true f = refl
    inside false f = refl

module _ (mem : ℕ → ℕ) (s : IcacheRegs) (x : IcacheInput) (p : List ℕ) (b a n : ℕ)
    (c : IsCounted s.r p b a n) (q : Answers mem x.wb_in p) (st : s.r.state ≡ wait_ack)
    (f : IsFilled mem s) (l : IsLoading mem s b a) where
  -- A row of another line or way.
  pub row_elsewhere :
      (i w j : ℕ)
      → j < 8
      → s.cache_valid_bits i w ≡ true
      → way_ram s x w (i * 8 + j) ≡ s.ram w (i * 8 + j)
  row_elsewhere i w j h v =
      row_after s x w (i * 8 + j) st
      ∙ elim (Bool-cases ((x.wb_in.ack && s.r.store_way == w) && i * 8 + j == s.r.store_row)) [
        | inl e ↦
            (let same_way : s.r.store_way ≡ w = ground (arith, e) in
              let same_row : i * 8 + j ≡ s.r.store_row = ground (arith, e) in
              let same_index : s.r.store_index ≡ i = omega (arith, same_row, c.row, h) in
              let t : true ≡ false =
                sym v ∙ sym (ap₂ s.cache_valid_bits same_index same_way) ∙ l.invalid in
              ground (arith, t))
        | inr e ↦ ap (λ k. if k then x.wb_in.content else s.ram w (i * 8 + j)) e
      ]

  -- A row of the line that is reloaded.
  row_here :
      (j : ℕ)
      → j < 8
      → way_ram s x s.r.store_way (s.r.store_index * 8 + j) ≡ (
          if x.wb_in.ack && j == (b + a) % 8
          then in_memory mem s.r.store_tag s.r.store_index j
          else s.ram s.r.store_way (s.r.store_index * 8 + j))
  row_here j h =
      row_after s x s.r.store_way (s.r.store_index * 8 + j) st
      ∙ ap (λ k. if k then x.wb_in.content else s.ram s.r.store_way (s.r.store_index * 8 + j)) here
      ∙ elim (Bool-cases (x.wb_in.ack && j == (b + a) % 8)) [
        | inl e ↦
            (let acked : x.wb_in.ack ≡ true = ground (arith, e) in
              let place : (b + a) % 8 ≡ j = ground (arith, e) in
              ap (λ k. if k then x.wb_in.content else s.ram s.r.store_way (s.r.store_index * 8 + j))
                e
              ∙ answer-content mem x.wb_in p (line_of s.r) b a n q acked c.pending
              ∙ ap (in_memory mem s.r.store_tag s.r.store_index) place
              ∙ sym (
                  ap
                    (λ k.
                      if k
                      then in_memory mem s.r.store_tag s.r.store_index j
                      else s.ram s.r.store_way (s.r.store_index * 8 + j))
                    e))
        | inr e ↦
            ap (λ k. if k then x.wb_in.content else s.ram s.r.store_way (s.r.store_index * 8 + j)) e
            ∙ sym (
                ap
                  (λ k.
                    if k
                    then in_memory mem s.r.store_tag s.r.store_index j
                    else s.ram s.r.store_way (s.r.store_index * 8 + j))
                  e)
      ]
    where
      compared : (k : Bool) (w i m : ℕ) → ((k && w == w) && i * 8 + j == i * 8 + m) ≡ (k && j == m)
      compared k w i m = ground arith

      here :
          ((x.wb_in.ack && s.r.store_way == s.r.store_way)
            && s.r.store_index * 8 + j == s.r.store_row)
          ≡ (x.wb_in.ack && j == (b + a) % 8)
      here =
          ap (λ r. (x.wb_in.ack && s.r.store_way == s.r.store_way) && s.r.store_index * 8 + j == r)
            c.row
          ∙ compared x.wb_in.ack s.r.store_way s.r.store_index ((b + a) % 8)

  -- A row that was there, or that has just arrived.
  row_kept :
      (j : ℕ)
      → j < 8
      → ((x.wb_in.ack && j == (b + a) % 8) ≡ false
          → s.ram s.r.store_way (s.r.store_index * 8 + j)
            ≡ in_memory mem s.r.store_tag s.r.store_index j)
      → way_ram s x s.r.store_way (s.r.store_index * 8 + j)
        ≡ in_memory mem s.r.store_tag s.r.store_index j
  row_kept j h old = row_here j h ∙ elim (Bool-cases (x.wb_in.ack && j == (b + a) % 8)) [
    | inl e ↦
        ap
          (λ k.
            if k
            then in_memory mem s.r.store_tag s.r.store_index j
            else s.ram s.r.store_way (s.r.store_index * 8 + j))
          e
    | inr e ↦
        ap
          (λ k.
            if k
            then in_memory mem s.r.store_tag s.r.store_index j
            else s.ram s.r.store_way (s.r.store_index * 8 + j))
          e
        ∙ old e
  ]

  pub loaded_after :
      (k : ℕ)
      → k < a + b2n x.wb_in.ack
      → way_ram s x s.r.store_way (s.r.store_index * 8 + (b + k) % 8)
        ≡ in_memory mem s.r.store_tag s.r.store_index ((b + k) % 8)
  loaded_after k h =
      row_kept ((b + k) % 8) (mod-lt (b + k) (omega arith))
        (λ e. l.loaded k (earlier x.wb_in.ack e h))
    where
      earlier : (t : Bool) → (t && (b + k) % 8 == (b + a) % 8) ≡ false → k < a + b2n t → k < a
      earlier t e g = ground (arith, e, g, c.gone_lt)

  marked_after :
      (j : ℕ)
      → j < 8
      → (if x.wb_in.ack then update s.r.rows_valid (s.r.store_row % 8) true else s.r.rows_valid) j
        ≡ true
      → way_ram s x s.r.store_way (s.r.store_index * 8 + j)
        ≡ in_memory mem s.r.store_tag s.r.store_index j
  marked_after j h m =
      row_kept j h (λ e. l.marked j h (before x.wb_in.ack (s.r.store_row % 8) place e m))
    where
      place : s.r.store_row % 8 ≡ (b + a) % 8
      place = omega (arith, c.row)

      before :
          (t : Bool) (r : ℕ)
          → r ≡ (b + a) % 8
          → (t && j == (b + a) % 8) ≡ false
          → (if t then update s.r.rows_valid r true else s.r.rows_valid) j ≡ true
          → s.r.rows_valid j ≡ true
      before true r p e m = ground (arith, p, e, m)
      before false r p e m = m

  -- The reload goes on.
  pub wait-IsLoading :
      completes x s ≡ false → IsLoading mem (cycle_in wait_ack s x) b (a + b2n x.wb_in.ack)
  unfolding cycle_in icache_miss miss_state icache_miss_wait_ack wait_answer wait_request
      invalidated icache_hit itlb_update maybe_plrus rams
  wait-IsLoading e = record {
    tag = l.tag;
    invalid = still (completes x s) x.inval_in e;
    loaded = loaded_after;
    marked = marked_after;
  }
    where
      still :
          (k inval : Bool)
          → k ≡ false
          → (if k
                then update (if inval then (λ i w. false) else s.cache_valid_bits) s.r.store_index (
                    update
                      (s.cache_valid_bits s.r.store_index)
                      (replace_way s)
                      (s.r.store_valid && not inval))
                else (if inval then (λ i w. false) else s.cache_valid_bits))
              s.r.store_index s.r.store_way
            ≡ false
      still true inval h = ground (arith, h)
      still false true h = refl
      still false false h = l.invalid
