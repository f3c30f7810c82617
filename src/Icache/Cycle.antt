-- ===== src/Icache/Cycle.antt =====
-- The clocked parts of experiment/icache.py: the translations, the memories with their read registers,
-- the replacement trees, the hit, and the reload with its handlers. A handler takes the registers in
-- the clock and what has been assigned to them before it, and gives each register what it is assigned.
use libresoc_soc.Common.{
  ℕ, ◌/◌, ◌%◌, ◌*◌, ◌+◌, Bool, true, false, not, ◌&&◌, ◌||◌, ◌==◌, if◌then◌else◌, slice, trunc,
}
use libresoc_soc.Cache.Plru.{plru_cycle}
use libresoc_soc.Icache.Types.{
  IcacheState, idle, clr_tag, wait_ack, RegInternal, IcacheRegs, IcacheInput, get_index, get_row,
  get_row_of_line, get_tag,
}
use libresoc_soc.Icache.Lookup.{
  hash_ea, real_addr, access_ok, use_previous, req_laddr, hit_way, req_is_hit, req_is_miss,
  replace_way,
}

-- An entry of an array, assigned.
abbrev pub update {ℓ} : {A : Type ℓ} → (ℕ → A) → ℕ → A → ℕ → A
update f i a j = if j == i then a else f j

-- The same row in the line, one further.
unfoldable pub next_row : ℕ → ℕ
next_row row = (row % 8 + 1) % 8 + row / 8 * 8

unfoldable pub itlb_update : IcacheInput → IcacheRegs → IcacheRegs
unfolding hash_ea
itlb_update x s =
    let m = x.m_in in
    let wr_index = hash_ea m.addr in
    let load = not m.tlbie && m.tlbld in
    record s {
      itlb_valid_bits =
          if m.tlbie && m.doall
          then (λ i. false)
          else if m.tlbie
          then update s.itlb_valid_bits wr_index false
          else if m.tlbld
          then update s.itlb_valid_bits wr_index true
          else s.itlb_valid_bits;
      itlb_tags = if load then update s.itlb_tags wr_index (slice m.addr 18 64) else s.itlb_tags;
      itlb_ptes = if load then update s.itlb_ptes wr_index m.pte else s.itlb_ptes;
    }

-- The memory of a way: the row that is written, and the read register.
unfoldable pub way_ram : IcacheRegs → IcacheInput → ℕ → ℕ → ℕ
unfolding replace_way
way_ram s x i =
    if x.wb_in.ack && replace_way s == i
    then update (s.ram i) s.r.store_row x.wb_in.content
    else s.ram i

unfoldable pub way_read : IcacheRegs → IcacheInput → ℕ → ℕ
unfolding use_previous
way_read s x i =
    if not (x.stall_in || use_previous s x) then s.ram i (get_row x.i_in.nia) else s.rd_data i

unfoldable pub rams : IcacheInput → IcacheRegs → IcacheRegs → IcacheRegs
unfolding way_ram way_read
rams x s v = record v { ram = way_ram s x; rd_data = way_read s x }

unfoldable pub maybe_plrus : IcacheRegs → IcacheRegs → IcacheRegs
maybe_plrus s v = record v {
  plru = λ i.
      plru_cycle 2 (s.plru i) (get_index s.r.hit_nia == i && s.r.hit_valid) (trunc 2 s.r.hit_way);
}

unfoldable pub icache_hit : IcacheInput → IcacheRegs → RegInternal → RegInternal
unfolding use_previous req_is_hit hit_way
icache_hit x s v =
    let kept = x.stall_in || use_previous s x in
    record v {
      hit_valid = if kept then (if x.flush_in then false else v.hit_valid) else req_is_hit s x;
      hit_way = if not kept && req_is_hit s x then hit_way s x else v.hit_way;
      hit_smark = if not x.stall_in then x.i_in.stop_mark else v.hit_smark;
      hit_nia = if not x.stall_in then x.i_in.nia else v.hit_nia;
    }

-- A miss starts a reload at the row that is missed.
unfoldable pub icache_miss_idle : IcacheInput → IcacheRegs → RegInternal → RegInternal
unfolding req_is_miss req_laddr real_addr
icache_miss_idle x s v =
    let miss = req_is_miss s x in
    let st_row = get_row (req_laddr s x) in
    record v {
      rows_valid = λ i. false;
      store_index = if miss then get_index x.i_in.nia else v.store_index;
      store_row = if miss then st_row else v.store_row;
      store_tag = if miss then get_tag (real_addr s x) else v.store_tag;
      store_valid = if miss then true else v.store_valid;
      end_row_ix = if miss then (get_row_of_line st_row + 7) % 8 else v.end_row_ix;
      req_adr = if miss then req_laddr s x else v.req_adr;
      cyc = if miss then true else v.cyc;
      stb = if miss then true else v.stb;
      state = if miss then clr_tag else v.state;
    }

-- The way to replace: its tag is written, and its valid bit cleared, in the line of the request.
unfoldable pub icache_miss_clr_tag : IcacheInput → IcacheRegs → IcacheRegs → IcacheRegs
unfolding replace_way
icache_miss_clr_tag x s v =
    let req_index = get_index x.i_in.nia in
    let r = s.r in
    record v {
      r = record v.r { store_way = replace_way s; state = wait_ack };
      cache_valid_bits =
          update v.cache_valid_bits req_index
            (update (s.cache_valid_bits req_index) (replace_way s) false);
      cache_tags =
          update v.cache_tags r.store_index
            (update (s.cache_tags r.store_index) (replace_way s) r.store_tag);
    }

-- The last request of a line is accepted in this clock, or was before.
unfoldable pub stbs_done : IcacheInput → IcacheRegs → Bool
stbs_done x s =
    let r = s.r in not r.stb || (not x.wb_in.stall && slice r.req_adr 3 6 == r.end_row_ix)

-- A request is accepted.
unfoldable pub wait_request : IcacheInput → IcacheRegs → RegInternal → RegInternal
wait_request x s v =
    let r = s.r in
    let accepted = not x.wb_in.stall && r.stb in
    record v {
      stb = if accepted && slice r.req_adr 3 6 == r.end_row_ix then false else v.stb;
      req_adr =
          if accepted
          then slice r.req_adr 0 3 + (slice r.req_adr 3 6 + 1) % 8 * 8 + r.req_adr / 64 * 64
          else v.req_adr;
    }

-- The last row of the line arrives.
unfoldable pub completes : IcacheInput → IcacheRegs → Bool
unfolding stbs_done
completes x s = x.wb_in.ack && (stbs_done x s && get_row_of_line s.r.store_row == s.r.end_row_ix)

-- A row arrives, the last one or not.
unfoldable pub wait_answer : IcacheInput → IcacheRegs → IcacheRegs → IcacheRegs
unfolding completes replace_way next_row
wait_answer x s v =
    let r = s.r in
    let last = completes x s in
    record v {
      r = record v.r {
        rows_valid =
            if x.wb_in.ack
            then update v.r.rows_valid (get_row_of_line r.store_row) true
            else v.r.rows_valid;
        cyc = if last then false else v.r.cyc;
        req_adr = if last then 0 else v.r.req_adr;
        state = if last then idle else v.r.state;
        store_row = if x.wb_in.ack && not last then next_row r.store_row else v.r.store_row;
      };
      cache_valid_bits =
          if last
          then update v.cache_valid_bits r.store_index (
              update (s.cache_valid_bits r.store_index) (replace_way s)
                (r.store_valid && not x.inval_in))
          else v.cache_valid_bits;
    }

unfoldable pub icache_miss_wait_ack : IcacheInput → IcacheRegs → IcacheRegs → IcacheRegs
unfolding wait_request wait_answer
icache_miss_wait_ack x s v = wait_answer x s (record v { r = wait_request x s v.r })

unfoldable pub invalidated : IcacheInput → IcacheRegs → IcacheRegs
invalidated x v = record v {
  cache_valid_bits = if x.inval_in then (λ i w. false) else v.cache_valid_bits;
  r = record v.r { store_valid = if x.inval_in then false else v.r.store_valid };
}

-- The switch over the state.
unfoldable pub miss_state : IcacheState → IcacheInput → IcacheRegs → IcacheRegs → IcacheRegs
unfolding icache_miss_idle icache_miss_clr_tag icache_miss_wait_ack
miss_state idle x s v = record v { r = icache_miss_idle x s v.r }
miss_state clr_tag x s v = icache_miss_wait_ack x s (icache_miss_clr_tag x s v)
miss_state wait_ack x s v = icache_miss_wait_ack x s v

unfoldable pub fetch_failed_next : IcacheInput → IcacheRegs → Bool
unfolding access_ok
fetch_failed_next x s =
    if x.flush_in || x.m_in.tlbld
    then false
    else if x.i_in.req && not (access_ok s x) && not x.stall_in
    then true
    else s.r.fetch_failed

-- Cache invalidation, and the switch over the state.
unfoldable pub icache_miss : IcacheState → IcacheInput → IcacheRegs → IcacheRegs → IcacheRegs
unfolding invalidated miss_state fetch_failed_next
icache_miss state x s v =
    let next = miss_state state x s (invalidated x v) in
    record next { r = record next.r { fetch_failed = fetch_failed_next x s } }

-- The registers after a clock in a state, composed as ICache.elaborate does.
unfoldable pub cycle_in : IcacheState → IcacheRegs → IcacheInput → IcacheRegs
unfolding rams maybe_plrus itlb_update icache_hit icache_miss
cycle_in state s x =
    let v = itlb_update x (maybe_plrus s (rams x s s)) in
    icache_miss state x s (record v { r = icache_hit x s v.r })

unfoldable pub icache_cycle : IcacheRegs → IcacheInput → IcacheRegs
unfolding cycle_in
icache_cycle s x = cycle_in s.r.state s x
