-- ===== src/LoadStore/Cycle.antt =====
-- LoadStore1 of fu/ldst/loadstore.py: the requests of the port, the state machine and the outputs.
use libresoc_soc.Common.{
  ℕ, ◌/◌, ◌^◌, Bool, true, false, not, ◌&&◌, ◌||◌, ◌==◌, if◌then◌else◌, Option, some, none, List,
  [], ◌∷◌, trunc,
}
use libresoc_soc.Trap.Msr.{with_bit}
use libresoc_soc.LoadStore.Types.{
  LdstState, idle, ack_wait, mmu_lookup, tlbie_wait, LdstRequest, cleared_request, PortCall,
  LdstRegs, LdstInput, LdstOutput,
}

-- Signals of the unit that nothing assigns.
abbrev pub load : Bool
load = false

abbrev pub tlbie : Bool
tlbie = false

abbrev pub instr_fault : Bool
instr_fault = false

-- A store of the port, with `disable_cache` and the port's `is_dcbz`.
unfoldable pub set_wr_addr : Bool → Bool → PortCall → LdstRequest
set_wr_addr disable_cache is_dcbz c = record {
  load = false;
  dcbz = is_dcbz;
  addr = trunc 64 c.addr;
  byte_sel = trunc 8 c.mask;
  nc = disable_cache;
  virt_mode = c.msr_pr;
  priv_mode = not c.msr_pr;
  align_intr = c.misalign;
}

-- A load of the port; addresses of peripherals are not cached.
unfoldable pub set_rd_addr : Bool → PortCall → LdstRequest
set_rd_addr disable_cache c = record {
  load = true;
  dcbz = false;
  addr = trunc 64 c.addr;
  byte_sel = trunc 8 c.mask;
  nc = (c.addr / 2 ^ 28 == 0xc) || disable_cache;
  virt_mode = c.msr_pr;
  priv_mode = not c.msr_pr;
  align_intr = c.misalign;
}

-- The request in hand: the new one with the pulse, else the latched one.
unfoldable pub current : LdstRegs → LdstInput → LdstRequest
current r x = if x.d_validblip then x.req else r.ldst_r

-- The exceptions of the state machine.
unfoldable pub fsm_exception : LdstState → LdstInput → Bool
fsm_exception ack_wait x = x.d_in.error && x.d_in.cache_paradox
fsm_exception mmu_lookup x = (x.m_in.done && instr_fault) || x.m_in.err
fsm_exception _ x = false

-- `exc.happened`.
unfoldable pub exc_happened : LdstRegs → LdstInput → Bool
unfolding current fsm_exception
exc_happened r x = fsm_exception r.state x || (current r x).align_intr

-- The request of a translation.
unfoldable pub mmureq : LdstState → LdstInput → Bool
mmureq ack_wait x = x.d_in.error && not x.d_in.cache_paradox
mmureq _ x = false

unfoldable pub ldst_idle : LdstInput → Bool → LdstRegs → LdstRegs
ldst_idle x happened r =
    if x.d_validblip && not happened
    then record r { state = ack_wait; ldst_r = x.req }
    else record r { ldst_r = cleared_request }

-- An error of the D-cache, and its answer, which overrides what the error has set.
unfoldable pub ldst_ack_wait : LdstInput → LdstRegs → LdstRegs
ldst_ack_wait x r =
    let d = x.d_in in
    let paradox = record r {
      state = idle;
      ldst_r = cleared_request;
      dsisr = with_bit 28 d.cache_paradox (with_bit 25 (not load) r.dsisr);
    } in
    let after =
      if d.error
      then (if d.cache_paradox then paradox else record r { state = mmu_lookup })
      else r in
    if d.valid then record after { state = idle; ldst_r = cleared_request } else after

-- The end of a translation, and its error.
unfoldable pub ldst_mmu_lookup : LdstInput → ℕ → LdstRegs → LdstRegs
ldst_mmu_lookup x addr r =
    let m = x.m_in in
    let after =
      if m.done
      then (if not instr_fault
          then record r { state = ack_wait; ldst_r = cleared_request }
          else record r { dar = addr })
      else r in
    if m.err
    then record after {
      dsisr = with_bit 18 m.rc_error (
          with_bit 19 m.badtree
            (with_bit 25 load (with_bit 27 m.perm_error (with_bit 30 m.invalid after.dsisr))));
    }
    else after

-- The switch over the state.
unfoldable pub ldst_fsm : LdstState → LdstInput → Bool → ℕ → LdstRegs → LdstRegs
unfolding ldst_idle ldst_ack_wait ldst_mmu_lookup
ldst_fsm idle x happened addr r = ldst_idle x happened r
ldst_fsm ack_wait x happened addr r = ldst_ack_wait x r
ldst_fsm mmu_lookup x happened addr r = ldst_mmu_lookup x addr r
ldst_fsm tlbie_wait x happened addr r = r

abbrev pub data_or : ℕ → Option ℕ → ℕ
data_or old none = old
data_or old (some new) = trunc 64 new

-- The registers after a clock.
unfoldable pub ldst_cycle : LdstRegs → LdstInput → LdstRegs
unfolding ldst_fsm exc_happened
ldst_cycle r x =
    let c = current r x in
    let next = ldst_fsm r.state x (exc_happened r x) c.addr r in
    record next {
      dar = if c.align_intr then c.addr else next.dar;
      d_data = data_or r.d_data x.wr_data;
    }

unfoldable pub ldst_run : LdstRegs → List LdstInput → LdstRegs
ldst_run r [] = r
ldst_run r (x ∷ xs) = ldst_run (ldst_cycle r x) xs

unfoldable pub busy_of : LdstState → LdstInput → Bool → Bool
busy_of idle x happened = x.d_validblip && not happened
busy_of ack_wait x happened = not happened
busy_of mmu_lookup x happened = true
busy_of tlbie_wait x happened = false

abbrev pub in_ack_wait : LdstState → Bool
in_ack_wait ack_wait = true
in_ack_wait _ = false

abbrev pub in_mmu_lookup : LdstState → Bool
in_mmu_lookup mmu_lookup = true
in_mmu_lookup _ = false

-- The outputs in a clock.
unfoldable pub ldst_outputs : LdstRegs → LdstInput → LdstOutput
unfolding current exc_happened mmureq busy_of
ldst_outputs r x =
    let c = current r x in
    let happened = exc_happened r x in
    let req = mmureq r.state x in
    record {
      busy = busy_of r.state x happened;
      done = in_ack_wait r.state && x.d_in.valid && not req;
      load_data = x.d_in.content;
      exc = record {
        happened = happened;
        alignment = c.align_intr;
        instr_fault = instr_fault;
        invalid = x.m_in.invalid;
        badtree = x.m_in.badtree;
        perm_error = x.m_in.perm_error;
        rc_error = x.m_in.rc_error;
        segment_fault = x.m_in.segerr;
      };
      d_out = record {
        valid =
            if x.d_validblip
            then not happened
            else in_mmu_lookup r.state && x.m_in.done && not instr_fault && not happened;
        load = c.load;
        dcbz = c.dcbz;
        nc = c.nc;
        virt_mode = c.virt_mode;
        priv_mode = c.priv_mode;
        addr = c.addr;
        content = r.d_data;
        byte_sel = c.byte_sel;
      };
      m_out = record {
        valid = req;
        tlbie = tlbie;
        slbia = false;
        mtspr = false;
        iside = instr_fault;
        load = r.ldst_r.load;
        priv = false;
        sprn = 0;
        addr = c.addr;
        rs = 0;
      };
    }
