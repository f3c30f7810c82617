-- ===== src/LoadStore/Tests.antt =====
-- Runs of fu/ldst/loadstore.py at concrete inputs: a load that hits, one that needs a translation, one
-- that is refused again, one that is not aligned, and one whose translation fails.
use libresoc_soc.Common.{◌-◌, ◌%◌, ◌^◌, ◌≡◌, refl, Bool, true, false, none, [], ◌∷◌}
use libresoc_soc.Mmu.Types.{RegStage, Nmutil, MmuToLoadStore1, radix_finish}
use libresoc_soc.LoadStore.Types.{
  LdstState, idle, mmu_lookup, LdstRequest, cleared_request, LdstRegs, LdstInput,
  DCacheToLoadStore1,
}
use libresoc_soc.LoadStore.Cycle.{set_rd_addr, set_wr_addr, ldst_cycle, ldst_run, ldst_outputs}
use libresoc_soc.LoadStore.Access.{asked, IsTaken, IsQuiet, IsAnswer, IsDone}
use libresoc_soc.LoadStore.Lookup.{
  IsMiss, IsPending, IsTranslated, IsAsked, lookup-IsDone, retry-IsAsked,
}
use libresoc_soc.LoadStore.System.{
  no_request, LdstMmu, SystemInput, ldst_input, ldst_mmu_run, error-stays_busy,
}

-- A word at 0x1000 of a program in the problem state.
abbrev word_request : LdstRequest
word_request = record {
  load = true;
  dcbz = false;
  addr = 0x1000;
  byte_sel = 15;
  nc = false;
  virt_mode = true;
  priv_mode = false;
  align_intr = false;
}

request-is :
    set_rd_addr false (record { addr = 0x1000; mask = 15; misalign = false; msr_pr = true })
    ≡ word_request
unfolding set_rd_addr
request-is = refl

peripheral_uncached :
    (set_rd_addr false
      (record { addr = 0xc0002000; mask = 15; misalign = false; msr_pr = true })).nc
    ≡ true
unfolding set_rd_addr
peripheral_uncached = refl

store_cached :
    (set_wr_addr false false
      (record { addr = 0xc0002000; mask = 15; misalign = false; msr_pr = true })).nc
    ≡ false
unfolding set_wr_addr
store_cached = refl

abbrev registers_in : LdstState → LdstRegs
registers_in s = record {
  state = s;
  ldst_r = cleared_request;
  dsisr = λ n. false;
  dar = 0;
  d_data = 0;
}

abbrev no_answer : DCacheToLoadStore1
no_answer = record { valid = false; content = 0; error = false; cache_paradox = false }

abbrev mmu_says : Bool → MmuToLoadStore1
mmu_says done = record {
  done = done;
  err = false;
  invalid = false;
  badtree = false;
  segerr = false;
  perm_error = false;
  rc_error = false;
  sprval = 0;
}

abbrev clock_with : Bool → LdstRequest → DCacheToLoadStore1 → Bool → LdstInput
clock_with blip q d done = record {
  d_validblip = blip;
  req = q;
  wr_data = none;
  d_in = d;
  m_in = mmu_says done;
}

abbrev request_clock : LdstInput
request_clock = clock_with true word_request no_answer false

abbrev wait : LdstInput
wait = clock_with false cleared_request no_answer false

abbrev answer : LdstInput
answer =
    clock_with false cleared_request
      (record { valid = true; content = 77; error = false; cache_paradox = false }) false

abbrev miss : LdstInput
miss =
    clock_with false cleared_request
      (record { valid = false; content = 0; error = true; cache_paradox = false }) false

abbrev translated : LdstInput
translated = clock_with false cleared_request no_answer true

taken : IsTaken (registers_in idle) request_clock
taken = record { state = refl; blip = refl; aligned = refl }

wait-IsQuiet : IsQuiet wait
wait-IsQuiet = record { blip = refl; valid = refl; error = refl }

wait-IsPending : IsPending wait
wait-IsPending = record { blip = refl; done = refl; err = refl }

answer-IsAnswer : IsAnswer answer
answer-IsAnswer = record { valid = refl; error = refl }

miss-IsMiss : IsMiss miss
miss-IsMiss = record { blip = refl; valid = refl; error = refl; paradox = refl }

translated-IsTranslated : IsTranslated translated
translated-IsTranslated = record { blip = refl; done = refl; err = refl }

abbrev asking : LdstRegs
asking = ldst_run (ldst_cycle (registers_in idle) request_clock) (wait ∷ [])

abbrev looking : LdstRegs
looking = ldst_run (ldst_cycle asking miss) (wait ∷ wait ∷ [])

abbrev retrying : LdstRegs
retrying = ldst_run (ldst_cycle looking translated) (wait ∷ [])

lookup-IsDone_example :
    IsAsked word_request asking miss
    × ((ldst_outputs looking translated).d_out ≡ asked word_request looking.d_data)
    × IsDone retrying answer
lookup-IsDone_example =
    lookup-IsDone (registers_in idle) request_clock (wait ∷ []) miss (wait ∷ wait ∷ []) translated
      (wait ∷ []) taken (wait-IsQuiet, tt) miss-IsMiss (wait-IsPending, (wait-IsPending, tt))
      translated-IsTranslated (wait-IsQuiet, tt) answer answer-IsAnswer

retry-IsAsked_example : IsAsked cleared_request retrying miss
retry-IsAsked_example =
    retry-IsAsked (registers_in idle) request_clock (wait ∷ []) miss (wait ∷ wait ∷ []) translated
      (wait ∷ []) taken (wait-IsQuiet, tt) miss-IsMiss (wait-IsPending, (wait-IsPending, tt))
      translated-IsTranslated (wait-IsQuiet, tt) miss miss-IsMiss

abbrev odd : LdstInput
odd = clock_with true (record word_request { addr = 0x1006; align_intr = true }) no_answer false

-- A walk that has found no valid entry.
abbrev failed_walk : RegStage
failed_walk = record {
  valid = false;
  iside = false;
  store = false;
  priv = false;
  addr = 0x1000;
  inval_all = false;
  prtbl = 0;
  pid = 1;
  state = radix_finish;
  done = false;
  err = true;
  pgtbl0 = 0;
  pt0_valid = true;
  pgtbl3 = 0;
  pt3_valid = false;
  shift = 0;
  mask_size = 0;
  pgbase = 0;
  pde = 0;
  invalid = true;
  badtree = false;
  segerror = false;
  perm_err = false;
  rc_error = false;
}

abbrev failing : LdstMmu
failing = record { ldst = registers_in mmu_lookup; mmu = failed_walk }

abbrev nm : Nmutil
nm = record { mask = λ w n. 2 ^ n - 1; masked = λ w n x. x % 2 ^ n; byte_reverse = λ n x. x }

abbrev clock : SystemInput
clock = record {
  ldst = wait;
  own = no_request;
  d_in = record { stall = false; done = false; err = false; content = 0 };
}

error-stays_busy_example :
    ((ldst_outputs failing.ldst (ldst_input failing clock)).exc.happened ≡ true)
    × ((ldst_outputs
          (ldst_mmu_run nm failing (clock ∷ clock ∷ [])).ldst
          (ldst_input (ldst_mmu_run nm failing (clock ∷ clock ∷ [])) clock)).busy
        ≡ true)
    × ((ldst_outputs
          (ldst_mmu_run nm failing (clock ∷ clock ∷ [])).ldst
          (ldst_input (ldst_mmu_run nm failing (clock ∷ clock ∷ [])) clock)).done
        ≡ false)
error-stays_busy_example =
    error-stays_busy nm failing (clock ∷ clock ∷ []) clock refl refl refl refl (refl, (refl, tt))
