-- ===== src/Icache/Request.antt =====
-- experiment/icache.py: the clock in which nothing is reloaded, with a miss that asks for a reload.
use native.Mathlib.Nat.{mod-lt}
use libresoc_soc.Common.{
  ℕ, ◌+◌, ◌*◌, ◌/◌, ◌%◌, ◌^◌, ◌<◌, ◌≡◌, refl, sym, ap, ap₂, ◌∙◌, arith, Bool, true, false, not,
  ◌&&◌, if◌then◌else◌, slice, List, [], ◌∷◌, ◌++◌,
}
use libresoc_soc.Icache.Types.{
  idle, IcacheRegs, IcacheInput, get_index, get_row, get_row_of_line, get_tag,
}
use libresoc_soc.Icache.Lookup.{real_addr, req_laddr, req_is_miss, icache_outputs}
use libresoc_soc.Icache.Cycle.{
  cycle_in, icache_miss, miss_state, icache_miss_idle, invalidated, icache_hit, itlb_update,
  maybe_plrus, rams,
}
use libresoc_soc.Icache.Bus.{Answers, rest, pending_next}
use libresoc_soc.Icache.Counting.{IsCounted}
use libresoc_soc.Icache.Contents.{IsFilled}
use libresoc_soc.Icache.Start.{none-quiet, quiet_ram, real_addr-page}

-- The address of a row, from its line and its place.
laddr_lem :
    (a n : ℕ)
    → a % 2 ^ 12 ≡ n % 2 ^ 12
    → slice a 3 56 * 8 ≡ (get_tag a * 16 + get_index n) * 64 + (a / 8 % 8 + 0) % 8 * 8
laddr_lem a n h = omega (arith, h)

row_lem :
    (a n : ℕ)
    → a % 2 ^ 12 ≡ n % 2 ^ 12
    → get_row (slice a 3 56 * 8) ≡ get_index n * 8 + (a / 8 % 8 + 0) % 8
row_lem a n h = omega (arith, h)

end_row_lem : (a : ℕ) → (get_row_of_line (get_row (slice a 3 56 * 8)) + 7) % 8 ≡ (a / 8 % 8 + 7) % 8
end_row_lem a = omega arith

pub chosen {ℓ} : {A : Type ℓ} (k : Bool) (t e : A) → k ≡ true → (if k then t else e) ≡ t
chosen true t e h = refl
chosen false t e h = ground (arith, h)

module _ (mem : ℕ → ℕ) (s : IcacheRegs) (x : IcacheInput) (p : List ℕ) (stb : s.r.stb ≡ false)
    (none : p ≡ []) (q : Answers mem x.wb_in p) where
  pub idle-pending : pending_next (record { cache = s; pending = p }) x ≡ []
  unfolding pending_next icache_outputs
  idle-pending =
      ap₂
        (λ l k.
          rest x.wb_in.ack l
          ++ (if not x.wb_in.stall && k then s.r.req_adr / 8 % 2 ^ 32 ∷ [] else []))
        none stb
      ∙ empty x.wb_in.ack x.wb_in.stall
    where
      empty :
          (k t : Bool)
          → rest k [] ++ (if not t && false then s.r.req_adr / 8 % 2 ^ 32 ∷ [] else []) ≡ []
      empty true true = refl
      empty true false = refl
      empty false true = refl
      empty false false = refl

  pub idle-IsFilled : IsFilled mem s → IsFilled mem (cycle_in idle s x)
  unfolding cycle_in icache_miss miss_state icache_miss_idle invalidated icache_hit itlb_update
      maybe_plrus rams
  idle-IsFilled f = record {
    filled = λ i w j h v.
        quiet_ram s x w (i * 8 + j) (none-quiet mem x.wb_in p q none)
        ∙ f.filled i w j h (before x.inval_in i w v);
  }
    where
      before :
          (inval : Bool) (i w : ℕ)
          → (if inval then (λ i w. false) else s.cache_valid_bits) i w ≡ true
          → s.cache_valid_bits i w ≡ true
      before true i w v = ground (arith, v)
      before false i w v = v

  -- A miss asks for the rows of the line from the missed one on.
  pub miss-IsCounted :
      req_is_miss s x ≡ true
      → IsCounted
          (cycle_in idle s x).r
          (pending_next (record { cache = s; pending = p }) x)
          (real_addr s x / 8 % 8)
          0
          0
  unfolding cycle_in icache_miss miss_state icache_miss_idle invalidated icache_hit itlb_update
      maybe_plrus rams req_laddr
  miss-IsCounted m =
      let index : (if req_is_miss s x then get_index x.i_in.nia else s.r.store_index)
          ≡ get_index x.i_in.nia =
        chosen (req_is_miss s x) (get_index x.i_in.nia) s.r.store_index m in
      let tag : (if req_is_miss s x then get_tag (real_addr s x) else s.r.store_tag)
          ≡ get_tag (real_addr s x) =
        chosen (req_is_miss s x) (get_tag (real_addr s x)) s.r.store_tag m in
      record {
        start_lt = mod-lt (real_addr s x / 8) (omega arith);
        gone_le = omega arith;
        sent_le = omega arith;
        gone_lt = omega arith;
        index_lt =
            (let u : get_index x.i_in.nia < 16 = mod-lt (x.i_in.nia / 2 ^ 6) (omega arith) in
              omega (arith, index, u));
        row =
            chosen (req_is_miss s x) _ s.r.store_row m
            ∙ row_lem (real_addr s x) x.i_in.nia (real_addr-page s x)
            ∙ ap (λ i. i * 8 + (real_addr s x / 8 % 8 + 0) % 8) (sym index);
        end_row = chosen (req_is_miss s x) _ s.r.end_row_ix m ∙ end_row_lem (real_addr s x);
        cyc = chosen (req_is_miss s x) true s.r.cyc m;
        stb = chosen (req_is_miss s x) true s.r.stb m;
        adr =
            chosen (req_is_miss s x) _ s.r.req_adr m
            ∙ laddr_lem (real_addr s x) x.i_in.nia (real_addr-page s x)
            ∙ sym (ap₂ (λ t i. (t * 16 + i) * 64 + (real_addr s x / 8 % 8 + 0) % 8 * 8) tag index);
        pending = idle-pending;
      }
