-- ===== src/Icache/Tests.antt =====
-- The cache of experiment/icache.py on the reload of one line.
use libresoc_soc.Common.{
  ℕ, ◌+◌, ◌≡◌, refl, Bool, true, false, not, ◌||◌, ◌&&◌, ◌==◌, slice, List, [], ◌∷◌,
}
use libresoc_soc.Cache.Plru.{tree_at, node_next, lru_from, lru_o, plru_cycle}
use libresoc_soc.Icache.Types.{idle, IcacheInput, WbSlaveOut}
use libresoc_soc.Icache.Lookup.{
  hash_ea, pte_of, real_addr, ra_valid, eaa_priv, access_ok, use_previous, req_laddr, hitcond,
  way_hit, is_hit, hit_way, req_is_hit, req_is_miss, replace_way, icache_outputs,
}
use libresoc_soc.Icache.Cycle.{
  next_row, itlb_update, way_ram, way_read, rams, maybe_plrus, icache_hit, icache_miss_idle,
  icache_miss_clr_tag, stbs_done, wait_request, completes, wait_answer, icache_miss_wait_ack,
  invalidated, miss_state, fetch_failed_next, icache_miss, cycle_in, icache_cycle,
}
use libresoc_soc.Icache.Bus.{System, Answers, quiet, answer, pending_next, system_cycle, system_run}
use libresoc_soc.Icache.Coherence.{IsCoherent, IsServed, done, clock, system_run-IsCoherent}
use libresoc_soc.Icache.Reset.{icache_reset, system_reset, system_reset-IsCoherent}
use libresoc_soc.Icache.Completion.{acks, keeps}
use libresoc_soc.Icache.Served.{IsEnded, reload-IsEnded, reload-hits}
use libresoc_soc.Icache.Fetch.{word_at}
use libresoc_soc.Icache.Presented.{IsFetched, held}
use libresoc_soc.Icache.Stream.{fetch-IsFetched, sequential-IsFetched}
use libresoc_soc.Icache.Invalidation.{rewrites, invalidation_lem}

-- The content of a row is its address.
abbrev mem : ℕ → ℕ
mem a = a

abbrev ram : ℕ → ℕ → ℕ
ram w r = 0

-- A request, with the bus silent or answering.
abbrev asks : ℕ → Bool → WbSlaveOut → IcacheInput
asks nia sequential bus = record {
  i_in = record {
    req = true;
    virt_mode = false;
    priv_mode = true;
    stop_mark = false;
    sequential = sequential;
    nia = nia;
  };
  m_in = record { tlbld = false; tlbie = false; doall = false; addr = 0; pte = 0 };
  stall_in = false;
  flush_in = false;
  inval_in = false;
  wb_in = bus;
}

abbrev silent : WbSlaveOut
silent = record { content = 0; ack = false; stall = false }

abbrev answers : ℕ → WbSlaveOut
answers c = record { content = c; ack = true; stall = false }

abbrev missing : IcacheInput
missing = asks 0x1008 false silent

abbrev row : ℕ → IcacheInput
row c = asks 0x1008 false (answers c)

abbrev seven_rows : List IcacheInput
seven_rows = missing ∷ row 513 ∷ row 514 ∷ row 515 ∷ row 516 ∷ row 517 ∷ row 518 ∷ row 519 ∷ []

abbrev after_miss : System
after_miss = system_cycle (system_reset ram) missing

seven_rows-IsServed : IsServed mem after_miss seven_rows
unfolding hash_ea pte_of real_addr ra_valid eaa_priv access_ok use_previous req_laddr hitcond
    way_hit is_hit hit_way req_is_hit req_is_miss replace_way icache_outputs next_row itlb_update
    way_ram way_read rams maybe_plrus icache_hit icache_miss_idle icache_miss_clr_tag stbs_done
    wait_request completes wait_answer icache_miss_wait_ack invalidated miss_state fetch_failed_next
    icache_miss cycle_in icache_cycle pending_next system_cycle system_run icache_reset system_reset
seven_rows-IsServed =
    clock _ missing _ (quiet _ refl) (λ e. refl)
      (clock _ (row 513) _ (answer 513 [] refl refl) (λ e. refl)
        (clock _ (row 514) _ (answer 514 [] refl refl) (λ e. refl)
          (clock _ (row 515) _ (answer 515 [] refl refl) (λ e. refl)
            (clock _ (row 516) _ (answer 516 [] refl refl) (λ e. refl)
              (clock _ (row 517) _ (answer 517 [] refl refl) (λ e. refl)
                (clock _ (row 518) _ (answer 518 [] refl refl) (λ e. refl)
                  (clock _ (row 519) _ (answer 519 [] refl refl) (λ e. refl) (done _))))))))

-- All the clocks of the reload, with another request in it for a row that has arrived.
abbrev whole_reload : List IcacheInput
whole_reload =
    missing
    ∷ missing
    ∷ row 513
    ∷ row 514
    ∷ row 515
    ∷ row 516
    ∷ row 517
    ∷ row 518
    ∷ row 519
    ∷ row 512
    ∷ []

whole_reload-IsServed : IsServed mem (system_reset ram) whole_reload
unfolding hash_ea pte_of real_addr ra_valid eaa_priv access_ok use_previous req_laddr hitcond
    way_hit is_hit hit_way req_is_hit req_is_miss replace_way icache_outputs next_row itlb_update
    way_ram way_read rams maybe_plrus icache_hit icache_miss_idle icache_miss_clr_tag stbs_done
    wait_request completes wait_answer icache_miss_wait_ack invalidated miss_state fetch_failed_next
    icache_miss cycle_in icache_cycle pending_next system_cycle system_run icache_reset system_reset
whole_reload-IsServed =
    clock _ missing _ (quiet _ refl) (λ e. refl)
      (clock _ missing _ (quiet _ refl) (λ e. refl)
        (clock _ (row 513) _ (answer 513 [] refl refl) (λ e. refl)
          (clock _ (row 514) _ (answer 514 [] refl refl) (λ e. refl)
            (clock _ (row 515) _ (answer 515 [] refl refl) (λ e. refl)
              (clock _ (row 516) _ (answer 516 [] refl refl) (λ e. refl)
                (clock _ (row 517) _ (answer 517 [] refl refl) (λ e. refl)
                  (clock _ (row 518) _ (answer 518 [] refl refl) (λ e. refl)
                    (clock _ (row 519) _ (answer 519 [] refl refl) (λ e. refl)
                      (clock _ (row 512) _ (answer 512 [] refl refl) (λ e. refl) (done _))))))))))

abbrev next_word : IcacheInput
next_word = asks 0x100c true silent

abbrev stalled : IcacheInput
stalled = record missing { stall_in = true }

abbrev loaded : System
loaded = system_run (system_reset ram) whole_reload

system_run-IsCoherent_example : IsCoherent mem (system_run (system_reset ram) whole_reload)
system_run-IsCoherent_example =
    system_run-IsCoherent mem (system_reset ram) whole_reload (system_reset-IsCoherent mem ram)
      whole_reload-IsServed

hit_there : req_is_hit loaded.cache missing ≡ true
unfolding hash_ea pte_of real_addr ra_valid eaa_priv access_ok use_previous req_laddr hitcond
    way_hit is_hit hit_way req_is_hit req_is_miss replace_way icache_outputs next_row itlb_update
    way_ram way_read rams maybe_plrus icache_hit icache_miss_idle icache_miss_clr_tag stbs_done
    wait_request completes wait_answer icache_miss_wait_ack invalidated miss_state fetch_failed_next
    icache_miss cycle_in icache_cycle pending_next system_cycle system_run icache_reset system_reset
    lru_o lru_from tree_at plru_cycle node_next
hit_there = refl

not_kept : (false || use_previous loaded.cache missing) ≡ false
unfolding hash_ea pte_of real_addr ra_valid eaa_priv access_ok use_previous req_laddr hitcond
    way_hit is_hit hit_way req_is_hit req_is_miss replace_way icache_outputs next_row itlb_update
    way_ram way_read rams maybe_plrus icache_hit icache_miss_idle icache_miss_clr_tag stbs_done
    wait_request completes wait_answer icache_miss_wait_ack invalidated miss_state fetch_failed_next
    icache_miss cycle_in icache_cycle pending_next system_cycle system_run icache_reset system_reset
not_kept = refl

held_once : held (stalled ∷ []) ≡ true
unfolding held
held_once = refl

fetch-IsFetched_example :
    IsFetched
      (icache_outputs (system_run (system_cycle loaded missing) (stalled ∷ [])).cache missing).i_out
      0x1008
      (word_at mem (real_addr loaded.cache missing))
fetch-IsFetched_example =
    fetch-IsFetched mem ram whole_reload missing (stalled ∷ []) whole_reload-IsServed hit_there
      not_kept held_once missing

sequential-IsFetched_example :
    IsFetched
      (icache_outputs
        (system_cycle (system_run (system_cycle loaded missing) (stalled ∷ [])) next_word).cache
        missing).i_out
      0x100c
      (word_at mem (real_addr loaded.cache missing + 4))
sequential-IsFetched_example =
    sequential-IsFetched mem ram whole_reload missing (stalled ∷ []) whole_reload-IsServed hit_there
      not_kept held_once next_word missing refl refl refl refl refl

misses : req_is_miss (system_reset ram).cache missing ≡ true
unfolding hash_ea pte_of real_addr ra_valid eaa_priv access_ok use_previous req_laddr hitcond
    way_hit is_hit hit_way req_is_hit req_is_miss replace_way icache_outputs next_row itlb_update
    way_ram way_read rams maybe_plrus icache_hit icache_miss_idle icache_miss_clr_tag stbs_done
    wait_request completes wait_answer icache_miss_wait_ack invalidated miss_state fetch_failed_next
    icache_miss cycle_in icache_cycle pending_next system_cycle system_run icache_reset system_reset
misses = refl

idle_first : (system_reset ram).cache.r.state ≡ idle
unfolding system_reset icache_reset
idle_first = refl

seven_arrive : acks seven_rows ≡ 7
unfolding acks
seven_arrive = refl

last_answer : Answers mem (answers 512) (system_run after_miss seven_rows).pending
unfolding hash_ea pte_of real_addr ra_valid eaa_priv access_ok use_previous req_laddr hitcond
    way_hit is_hit hit_way req_is_hit req_is_miss replace_way icache_outputs next_row itlb_update
    way_ram way_read rams maybe_plrus icache_hit icache_miss_idle icache_miss_clr_tag stbs_done
    wait_request completes wait_answer icache_miss_wait_ack invalidated miss_state fetch_failed_next
    icache_miss cycle_in icache_cycle pending_next system_cycle system_run icache_reset system_reset
last_answer = answer 512 [] refl refl

reload-IsEnded_example : IsEnded (system_cycle (system_run after_miss seven_rows) (row 512))
reload-IsEnded_example =
    reload-IsEnded mem (system_reset ram) missing seven_rows (row 512)
      (system_reset-IsCoherent mem ram) (quiet _ refl) idle_first misses seven_rows-IsServed
      seven_arrive last_answer refl

none_invalidated : (keeps seven_rows && not false) ≡ true
unfolding keeps
none_invalidated = refl

same_tag :
    slice
      (real_addr (system_cycle (system_run after_miss seven_rows) (row 512)).cache next_word)
      10
      56
    ≡ slice (real_addr (system_reset ram).cache missing) 10 56
unfolding real_addr
same_tag = refl

reload-hits_example :
    is_hit (system_cycle (system_run after_miss seven_rows) (row 512)).cache next_word ≡ true
reload-hits_example =
    reload-hits mem (system_reset ram) missing seven_rows (row 512)
      (system_reset-IsCoherent mem ram) (quiet _ refl) idle_first misses seven_rows-IsServed
      seven_arrive last_answer refl next_word none_invalidated refl refl same_tag

abbrev invalidating : IcacheInput
invalidating = record missing { inval_in = true }

invalidation_lem_example : (icache_cycle after_miss.cache invalidating).cache_valid_bits 0 1 ≡ (
    rewrites after_miss.cache.r.state after_miss.cache invalidating 0
    && (not (1 == replace_way after_miss.cache) && after_miss.cache.cache_valid_bits 0 1))
invalidation_lem_example = invalidation_lem after_miss.cache invalidating refl 0 1
