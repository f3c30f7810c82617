-- ===== src/Icache/Lookup.antt =====
-- ICache.itlb_lookup and ICache.icache_comb of experiment/icache.py: the address of a fetch, the hit,
-- the way to replace and the outputs.
use Prim.Native.Nat.{bit_xor}
use libresoc_soc.Common.{
  ℕ, ◌/◌, ◌%◌, ◌*◌, ◌^◌, Bool, true, false, not, ◌&&◌, ◌||◌, ◌==◌, if◌then◌else◌, slice, trunc, bit,
  cat,
}
use libresoc_soc.Cache.Plru.{lru_o}
use libresoc_soc.Icache.Types.{
  IcacheState, clr_tag, wait_ack, IcacheRegs, IcacheInput, IcacheOutput, get_index, get_row,
  get_row_of_line, get_tag,
}

abbrev pub in_clr_tag : IcacheState → Bool
in_clr_tag clr_tag = true
in_clr_tag _ = false

abbrev pub in_wait_ack : IcacheState → Bool
in_wait_ack wait_ack = true
in_wait_ack _ = false

-- The index of a translation.
unfoldable pub hash_ea : ℕ → ℕ
hash_ea addr = bit_xor (bit_xor (slice addr 12 18) (slice addr 18 24)) (slice addr 24 30)

unfoldable pub pte_of : IcacheRegs → IcacheInput → ℕ
unfolding hash_ea
pte_of s x = s.itlb_ptes (hash_ea x.i_in.nia)

unfoldable pub real_addr : IcacheRegs → IcacheInput → ℕ
unfolding pte_of
real_addr s x =
    if x.i_in.virt_mode
    then cat 12 (slice x.i_in.nia 0 12) (slice (pte_of s x) 12 56)
    else slice x.i_in.nia 0 56

unfoldable pub ra_valid : IcacheRegs → IcacheInput → Bool
unfolding hash_ea
ra_valid s x =
    if x.i_in.virt_mode
    then s.itlb_tags (hash_ea x.i_in.nia) == slice x.i_in.nia 18 64
      && s.itlb_valid_bits (hash_ea x.i_in.nia)
    else true

unfoldable pub eaa_priv : IcacheRegs → IcacheInput → Bool
unfolding pte_of
eaa_priv s x = if x.i_in.virt_mode then bit (pte_of s x) 3 else true

unfoldable pub access_ok : IcacheRegs → IcacheInput → Bool
unfolding ra_valid eaa_priv
access_ok s x = ra_valid s x && not (eaa_priv s x && not x.i_in.priv_mode)

-- The row that was read in the last clock has the next instruction too.
unfoldable pub use_previous : IcacheRegs → IcacheInput → Bool
use_previous s x = not (slice x.i_in.nia 2 3 == 0) && (x.i_in.sequential && s.r.hit_valid)

-- The address of the row.
unfoldable pub req_laddr : IcacheRegs → IcacheInput → ℕ
unfolding real_addr
req_laddr s x = slice (real_addr s x) 3 56 * 8

-- The line is being reloaded, and this row of it is there.
unfoldable pub hitcond : IcacheRegs → IcacheInput → Bool
hitcond s x =
    in_wait_ack s.r.state
    && get_index x.i_in.nia == s.r.store_index
    && s.r.rows_valid (get_row_of_line (get_row x.i_in.nia))

-- Whether a way has the row.
unfoldable pub way_hit : IcacheRegs → IcacheInput → ℕ → Bool
unfolding hitcond real_addr
way_hit s x i =
    let index = get_index x.i_in.nia in
    (s.cache_valid_bits index i || (hitcond s x && i == s.r.store_way))
    && s.cache_tags index i == get_tag (real_addr s x)

unfoldable pub is_hit : IcacheRegs → IcacheInput → Bool
unfolding way_hit
is_hit s x = x.i_in.req && (way_hit s x 0 || way_hit s x 1 || way_hit s x 2 || way_hit s x 3)

-- The last of the ways that hit.
unfoldable pub hit_way : IcacheRegs → IcacheInput → ℕ
unfolding way_hit
hit_way s x =
    if x.i_in.req
    then (if way_hit s x 3 then 3 else if way_hit s x 2 then 2 else if way_hit s x 1 then 1 else 0)
    else 0

unfoldable pub req_is_hit : IcacheRegs → IcacheInput → Bool
unfolding access_ok is_hit
req_is_hit s x = (x.i_in.req && access_ok s x && not x.flush_in) && is_hit s x

unfoldable pub req_is_miss : IcacheRegs → IcacheInput → Bool
unfolding access_ok is_hit
req_is_miss s x = (x.i_in.req && access_ok s x && not x.flush_in) && not (is_hit s x)

unfoldable pub replace_way : IcacheRegs → ℕ
replace_way s = if in_clr_tag s.r.state then lru_o 2 (s.plru s.r.store_index) else s.r.store_way

-- The outputs in a clock; an address of the bus has 32 bits.
unfoldable pub icache_outputs : IcacheRegs → IcacheInput → IcacheOutput
unfolding is_hit access_ok
icache_outputs s x = record {
  i_out = record {
    valid = s.r.hit_valid;
    stop_mark = s.r.hit_smark;
    fetch_failed = s.r.fetch_failed;
    nia = s.r.hit_nia;
    insn = s.rd_data s.r.hit_way / 2 ^ (32 * slice s.r.hit_nia 2 3) % 2 ^ 32;
  };
  stall_out = not (is_hit s x && access_ok s x);
  wb_out = record { adr = trunc 32 (s.r.req_adr / 8); cyc = s.r.cyc; stb = s.r.stb };
}
