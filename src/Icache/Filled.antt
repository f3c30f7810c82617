-- ===== src/Icache/Filled.antt =====
-- experiment/icache.py: the valid lines after a clock of a reload, the line that it ends among them.
use native.Mathlib.Nat.{mod-lt}
use libresoc_soc.Common.{
  ℕ, ◌+◌, ◌-◌, ◌*◌, ◌%◌, ◌<◌, ◌≡◌, inl, inr, refl, sym, ap, ap₂, ◌∙◌, arith, Bool, true, false, not,
  ◌&&◌, ◌==◌, if◌then◌else◌, b2n, Bool-cases, List,
}
use libresoc_soc.Icache.Types.{wait_ack, IcacheRegs, IcacheInput}
use libresoc_soc.Icache.Lookup.{replace_way}
use libresoc_soc.Icache.Cycle.{
  update, way_ram, completes, cycle_in, icache_miss, miss_state, icache_miss_wait_ack, wait_answer,
  wait_request, invalidated, icache_hit, itlb_update, maybe_plrus, rams,
}
use libresoc_soc.Icache.Bus.{Answers}
use libresoc_soc.Icache.Counting.{IsCounted, completes_iff}
use libresoc_soc.Icache.Contents.{
  in_memory, IsFilled, IsLoading, replace-store_way, row_elsewhere, loaded_after,
}

module _ (mem : ℕ → ℕ) (s : IcacheRegs) (x : IcacheInput) (p : List ℕ) (b a n : ℕ)
    (c : IsCounted s.r p b a n) (q : Answers mem x.wb_in p) (st : s.r.state ≡ wait_ack)
    (f : IsFilled mem s) (l : IsLoading mem s b a) where
  -- The line that has just become valid.
  record IsNewlyValid (i w : ℕ) : Type 0 where
    last : completes x s ≡ true
    index : i ≡ s.r.store_index
    way : w ≡ s.r.store_way

  newly :
      (i w : ℕ) (k inval bit : Bool)
      → completes x s ≡ k
      → s.cache_valid_bits i w ≡ false
      → (if k
            then update
                (if inval then (λ i w. false) else s.cache_valid_bits)
                s.r.store_index
                (update (s.cache_valid_bits s.r.store_index) (replace_way s) bit)
            else (if inval then (λ i w. false) else s.cache_valid_bits))
          i w
        ≡ true
      → IsNewlyValid i w
  newly i w true inval bit h e v = elim (Bool-cases (i == s.r.store_index)) [
    | inl g ↦
        (let here : i ≡ s.r.store_index = ground (arith, g) in
          let u : update (s.cache_valid_bits s.r.store_index) (replace_way s) bit w ≡ true =
            sym (
              ap
                (λ k.
                  (if k
                      then update (s.cache_valid_bits s.r.store_index) (replace_way s) bit
                      else base inval i)
                    w)
                g)
            ∙ v in
          let not_before : s.cache_valid_bits s.r.store_index w ≡ false =
            sym (ap (λ i. s.cache_valid_bits i w) here) ∙ e in
          record {
            last = h;
            index = here;
            way =
                newest w (replace_way s) bit (s.cache_valid_bits s.r.store_index w) u not_before
                ∙ replace-store_way s st;
          })
    | inr g ↦
        (let u : base inval i w ≡ true =
            sym (
              ap
                (λ k.
                  (if k
                      then update (s.cache_valid_bits s.r.store_index) (replace_way s) bit
                      else base inval i)
                    w)
                g)
            ∙ v in
          never inval u)
  ]
    where
      base : Bool → ℕ → ℕ → Bool
      base inval = if inval then (λ i w. false) else s.cache_valid_bits

      newest :
          (w r : ℕ) (bit old : Bool) → (if w == r then bit else old) ≡ true → old ≡ false → w ≡ r
      newest w r bit old u o = ground (arith, u, o)

      never : (inval : Bool) → base inval i w ≡ true → IsNewlyValid i w
      never true u = ground (arith, u)
      never false u = ground (arith, u, e)
  newly i w false true bit h e v = ground (arith, v)
  newly i w false false bit h e v = ground (arith, v, e)

  -- All its rows have arrived.
  whole :
      (i w j : ℕ)
      → j < 8
      → IsNewlyValid i w
      → way_ram s x w (i * 8 + j) ≡ in_memory mem (s.cache_tags i w) i j
  whole i w j h v =
      ap₂ (λ w i. way_ram s x w (i * 8 + j)) v.way v.index
      ∙ ap (λ m. way_ram s x s.r.store_way (s.r.store_index * 8 + m)) (sym around)
      ∙ loaded_after mem s x p b a n c q st f l k all
      ∙ ap (in_memory mem s.r.store_tag s.r.store_index) around
      ∙ ap (λ t. in_memory mem t s.r.store_index j) (sym l.tag)
      ∙ sym (ap₂ (λ w i. in_memory mem (s.cache_tags i w) i j) v.way v.index)
    where
      k : ℕ
      k = (j + 8 - b) % 8

      around : (b + k) % 8 ≡ j
      around = omega (arith, h, c.start_lt)

      counted : (t : Bool) → (t && a == 7) ≡ true → k < a + b2n t
      counted t e = (let k8 : k < 8 = mod-lt (j + 8 - b) (omega arith) in ground (arith, e, k8))

      all : k < a + b2n x.wb_in.ack
      all = counted x.wb_in.ack (sym (completes_iff mem s x p b a n c q) ∙ v.last)

  pub wait-IsFilled : IsFilled mem (cycle_in wait_ack s x)
  unfolding cycle_in icache_miss miss_state icache_miss_wait_ack wait_answer wait_request
      invalidated icache_hit itlb_update maybe_plrus rams
  wait-IsFilled = record {
    filled = λ i w j h v. elim (Bool-cases (s.cache_valid_bits i w)) [
      | inl e ↦ row_elsewhere mem s x p b a n c q st f l i w j h e ∙ f.filled i w j h e
      | inr e ↦
          (let n : IsNewlyValid i w =
              newly i w (completes x s) x.inval_in (s.r.store_valid && not x.inval_in) refl e v in
            whole i w j h n)
    ];
  }
