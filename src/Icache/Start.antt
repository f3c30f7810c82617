-- ===== src/Icache/Start.antt =====
-- experiment/icache.py: the miss that starts a reload, and the clock that clears the tag.
use libresoc_soc.Common.{
  ℕ, ◌+◌, ◌*◌, ◌%◌, ◌^◌, ◌<◌, ◌≡◌, sym, ap, ◌∙◌, arith, Bool, true, false, not, ◌&&◌, ◌==◌,
  if◌then◌else◌, b2n, slice, cat, List, [],
}
use libresoc_soc.Icache.Types.{
  clr_tag, IcacheRegs, IcacheInput, WbSlaveOut, get_index, get_row_of_line,
}
use libresoc_soc.Icache.Lookup.{pte_of, replace_way, real_addr}
use libresoc_soc.Icache.Cycle.{
  update, way_ram, completes, stbs_done, cycle_in, icache_miss, miss_state, icache_miss_clr_tag,
  icache_miss_wait_ack, wait_answer, wait_request, invalidated, icache_hit, itlb_update,
  maybe_plrus, rams,
}
use libresoc_soc.Icache.Tables.{update-twice, update-other, IsStillValid, still-valid, cleared}
use libresoc_soc.Icache.Bus.{Answers, quiet, answer, pending_next}
use libresoc_soc.Icache.Counting.{IsCounted, accepts, wait-IsCounted}
use libresoc_soc.Icache.Contents.{in_memory, IsFilled, IsLoading}

-- With nothing requested nothing is answered.
pub none-quiet :
    (mem : ℕ → ℕ) (w : WbSlaveOut) (p : List ℕ) → Answers mem w p → p ≡ [] → w.ack ≡ false
none-quiet mem w p (quiet _ q) e = q
none-quiet mem w _ (answer r q h c) e = ground (arith, e)

pub quiet_ram :
    (s : IcacheRegs) (x : IcacheInput) (w r : ℕ) → x.wb_in.ack ≡ false → way_ram s x w r ≡ s.ram w r
unfolding way_ram
quiet_ram s x w r h =
    ap
      (λ k.
        (if k && replace_way s == w
            then update (s.ram w) s.r.store_row x.wb_in.content
            else s.ram w)
          r)
      h

-- Within a page an address is the same before and after the translation.
pub real_addr-page :
    (s : IcacheRegs) (x : IcacheInput) → real_addr s x % 2 ^ 12 ≡ x.i_in.nia % 2 ^ 12
unfolding real_addr
real_addr-page s x = page x.i_in.virt_mode x.i_in.nia (slice (pte_of s x) 12 56)
  where
    page :
        (k : Bool) (n y : ℕ)
        → (if k then cat 12 (slice n 0 12) y else slice n 0 56) % 2 ^ 12 ≡ n % 2 ^ 12
    page true n y = omega arith
    page false n y = omega arith

module _ (mem : ℕ → ℕ) (s : IcacheRegs) (x : IcacheInput) (p : List ℕ) (b : ℕ)
    (c : IsCounted s.r p b 0 0) (q : Answers mem x.wb_in p) (f : IsFilled mem s)
    (unmarked : (j : ℕ) → s.r.rows_valid j ≡ false)
    (same : get_index x.i_in.nia ≡ s.r.store_index) where
  acked : x.wb_in.ack ≡ false
  acked = none-quiet mem x.wb_in p q c.pending

  pub incomplete : completes x s ≡ false
  unfolding completes
  incomplete =
      ap (λ k. k && (stbs_done x s && get_row_of_line s.r.store_row == s.r.end_row_ix)) acked

  pub clr_tag-IsCounted :
      IsCounted
        (cycle_in clr_tag s x).r
        (pending_next (record { cache = s; pending = p }) x)
        b
        (0 + b2n x.wb_in.ack)
        (0 + b2n (accepts s x))
  unfolding cycle_in icache_miss miss_state icache_miss_clr_tag icache_miss_wait_ack wait_answer
      wait_request invalidated icache_hit itlb_update maybe_plrus rams
  clr_tag-IsCounted =
      let w = wait-IsCounted mem s x p b 0 0 c q incomplete in
      record {
        start_lt = w.start_lt;
        gone_le = w.gone_le;
        sent_le = w.sent_le;
        gone_lt = w.gone_lt;
        index_lt = w.index_lt;
        row = w.row;
        end_row = w.end_row;
        cyc = w.cyc;
        stb = w.stb;
        adr = w.adr;
        pending = w.pending;
      }

  marks :
      (j : ℕ)
      → (if x.wb_in.ack then update s.r.rows_valid (s.r.store_row % 8) true else s.r.rows_valid) j
        ≡ true
      → true ≡ false
  marks j m =
      sym m
      ∙ ap (λ k. (if k then update s.r.rows_valid (s.r.store_row % 8) true else s.r.rows_valid) j)
          acked
      ∙ unmarked j

  pub clr_tag-IsLoading : IsLoading mem (cycle_in clr_tag s x) b (0 + b2n x.wb_in.ack)
  unfolding cycle_in icache_miss miss_state icache_miss_clr_tag icache_miss_wait_ack wait_answer
      wait_request invalidated icache_hit itlb_update maybe_plrus rams
  clr_tag-IsLoading = record {
    tag =
        update-twice s.cache_tags (s.cache_tags s.r.store_index) s.r.store_index (replace_way s)
          s.r.store_tag;
    invalid =
        cleared _ _ (s.cache_valid_bits (get_index x.i_in.nia)) (completes x s)
          (get_index x.i_in.nia) s.r.store_index (replace_way s) incomplete same;
    loaded = λ k h. ground (arith, h, acked);
    marked = λ j h m. ground (arith, marks j m);
  }

  pub clr_tag-IsFilled : IsFilled mem (cycle_in clr_tag s x)
  unfolding cycle_in icache_miss miss_state icache_miss_clr_tag icache_miss_wait_ack wait_answer
      wait_request invalidated icache_hit itlb_update maybe_plrus rams
  clr_tag-IsFilled = record {
    filled = λ i w j h v. kept i w j h (
        still-valid s.cache_valid_bits x.inval_in (get_index x.i_in.nia) (replace_way s) i w
          (bit_of i w (completes x s) incomplete v));
  }
    where
      bit_of :
          (i w : ℕ) (k : Bool)
          → k ≡ false
          → (if k
                then update
                    (update
                      (if x.inval_in then (λ i w. false) else s.cache_valid_bits)
                      (get_index x.i_in.nia)
                      (update (s.cache_valid_bits (get_index x.i_in.nia)) (replace_way s) false))
                    s.r.store_index
                    (update
                      (s.cache_valid_bits s.r.store_index)
                      (replace_way s)
                      (s.r.store_valid && not x.inval_in))
                else update
                    (if x.inval_in then (λ i w. false) else s.cache_valid_bits)
                    (get_index x.i_in.nia)
                    (update (s.cache_valid_bits (get_index x.i_in.nia)) (replace_way s) false))
              i w
            ≡ true
          → update
              (if x.inval_in then (λ i w. false) else s.cache_valid_bits)
              (get_index x.i_in.nia)
              (update (s.cache_valid_bits (get_index x.i_in.nia)) (replace_way s) false)
              i
              w
            ≡ true
      bit_of i w true h v = ground (arith, h)
      bit_of i w false h v = v

      kept :
          (i w j : ℕ)
          → j < 8
          → IsStillValid s.cache_valid_bits (get_index x.i_in.nia) (replace_way s) i w
          → way_ram s x w (i * 8 + j)
            ≡ in_memory mem
                (update s.cache_tags s.r.store_index
                  (update (s.cache_tags s.r.store_index) (replace_way s) s.r.store_tag)
                  i
                  w)
                i
                j
      kept i w j h v =
          quiet_ram s x w (i * 8 + j) acked
          ∙ f.filled i w j h v.old
          ∙ ap (λ t. in_memory mem t i j)
              (sym (
                update-other s.cache_tags s.r.store_index (replace_way s) s.r.store_tag i w
                  (ap (λ r. i == r && w == replace_way s) (sym same) ∙ v.other)))
