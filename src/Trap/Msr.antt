-- ===== src/Trap/Msr.antt =====
-- The helpers of fu/trap/main_stage.py on the machine state register: copies of ranges of bits, the
-- check of the problem state, and the bits that an interrupt sets.
use libresoc_soc.Common.{ℕ, Bool, true, false, not, ◌&&◌, ◌==◌, leb, ltb, if◌then◌else◌}
use libresoc_soc.Trap.Types.{Register, Consts}

-- `dst[n].eq(b)`.
abbrev pub with_bit : ℕ → Bool → Register → Register
with_bit n b dst m = if m == n then b else dst m

-- `dst[stt:end].eq(src[stt:end])`.
abbrev pub copy_range : ℕ → ℕ → Register → Register → Register
copy_range stt end src dst m = if leb stt m && ltb m end then src m else dst m

-- The bits that interrupts save and restore, on a register that is 0: this is what `zero_me` asks
-- for, and what an output that nothing else assigns is without it.
unfoldable pub msr_copy : Register → Register
msr_copy msr_i =
    copy_range 31 64 msr_i (copy_range 22 27 msr_i (copy_range 0 16 msr_i (λ n. false)))

module _ (k : Consts) where
  -- No assignment that follows is to the bit that is tested.
  unfoldable pub msr_check_pr : Register → Register
  msr_check_pr msr =
      if msr k.msr.pr
      then with_bit k.msr.dr true (with_bit k.msr.ir true (with_bit k.msr.ee true msr))
      else msr

  unfoldable pub msr_exception : Register → Register
  msr_exception msr_i =
      let m = k.msr in
      with_bit m.und false (
        with_bit m.tee false (
          with_bit m.tes false (
            with_bit m.pmm false (
              with_bit m.fp false (
                with_bit m.vec false (
                  with_bit m.tm false (
                    with_bit m.vsx false (
                      with_bit m.fe1 false (
                        with_bit m.fe0 false (
                          with_bit m.le true (
                            with_bit m.ri false (
                              with_bit m.dr false (
                                with_bit m.ir false (
                                  with_bit m.pr false
                                    (with_bit m.ee false (with_bit m.sf true msr_i))))))))))))))))

  -- Bits 29 to 31, numbered from the top, are put back if they were 010 and would become 000.
  unfoldable pub put_back : Register → Register → Register → Register
  put_back msr_i src msr =
      let low = k.field 31 in
      let mid = k.field 30 in
      let top = k.field 29 in
      if (not (msr_i top) && msr_i mid && not (msr_i low))
        && (not (src top) && not (src mid) && not (src low))
      then with_bit low (msr_i low) (with_bit mid (msr_i mid) (with_bit top (msr_i top) msr))
      else msr
