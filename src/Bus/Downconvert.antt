-- ===== src/Bus/Downconvert.antt =====
-- `WishboneDownConvert` of bus/wb_downconvert.py: its state machine, its counter and its datapath.
use libresoc_soc.Common.{ℕ, ◌+◌, ◌-◌, ◌*◌, ◌/◌, Bool, true, false, not, ◌&&◌, ◌==◌}
use libresoc_soc.Common.{List, [], ◌∷◌, slice, cat, trunc, ltb, if◌then◌else◌}

-- The widths of the two buses: data of the master and of the slave, the slave's select lines and
-- address, and the counter, `log2_int` of the ratio.
pub record Widths : Type 0 where
  pub dw_from : ℕ
  pub dw_to : ℕ
  pub slen : ℕ
  pub adr_wid : ℕ
  pub counter_wid : ℕ

unfoldable pub ratio : Widths → ℕ
ratio c = c.dw_from / c.dw_to

pub data ConvertState : Type 0 where
  idle write read : ConvertState

pub record Converter : Type 0 where
  pub fsm : ConvertState
  pub counter : ℕ
  pub cached_data : ℕ

-- The inputs in a cycle: the master's request and the slave's answer.
pub record BusInput : Type 0 where
  pub stb : Bool
  pub cyc : Bool
  pub we : Bool
  pub adr : ℕ
  pub sel : ℕ
  pub dat_w : ℕ
  pub ack : Bool
  pub dat_r : ℕ

-- The outputs in a cycle: the slave's request and the master's answer.
pub record BusOutput : Type 0 where
  pub we : Bool
  pub cyc : Bool
  pub stb : Bool
  pub adr : ℕ
  pub sel : ℕ
  pub dat_w : ℕ
  pub cti : ℕ
  pub ack : Bool
  pub dat_r : ℕ

abbrev pub in_idle : ConvertState → Bool
in_idle idle = true
in_idle _ = false

abbrev pub in_write : ConvertState → Bool
in_write write = true
in_write _ = false

abbrev pub in_read : ConvertState → Bool
in_read read = true
in_read _ = false

module _ (c : Widths) where
  unfoldable pub counter_done : Converter → Bool
  counter_done s = s.counter == ratio c - 1

  unfoldable pub counter_ce : Converter → BusInput → Bool
  counter_ce s x = not (in_idle s.fsm) && (x.stb && x.cyc && x.ack)

  unfoldable pub shift_reg : Converter → BusInput → ℕ
  shift_reg s x = cat (c.dw_from - c.dw_to) (slice s.cached_data c.dw_to c.dw_from) x.dat_r

  -- The state after IDLE, and after WRITE or READ.
  unfoldable pub start : BusInput → ConvertState
  start x = if x.stb && x.cyc then (if x.we then write else read) else idle

  unfoldable pub continue : Converter → BusInput → ConvertState
  continue s x =
      if x.stb && x.cyc
      then (if x.ack && counter_done s then idle else s.fsm)
      else if not x.cyc
      then idle
      else s.fsm

  unfoldable pub next_fsm : ConvertState → Converter → BusInput → ConvertState
  next_fsm idle s x = start x
  next_fsm write s x = continue s x
  next_fsm read s x = continue s x

  -- One clock.
  unfoldable pub convert_cycle : Converter → BusInput → Converter
  convert_cycle s x = record {
    fsm = next_fsm s.fsm s x;
    counter =
        if in_idle s.fsm
        then 0
        else if counter_ce s x
        then trunc c.counter_wid (s.counter + 1)
        else s.counter;
    cached_data =
        if in_idle s.fsm
        then 0
        else if in_read s.fsm && counter_ce s x
        then shift_reg s x
        else s.cached_data;
  }

  -- The fragment of the master's word, or of its select lines, that the counter selects.
  unfoldable pub fragment : ℕ → ℕ → ℕ → ℕ
  fragment width counter x =
      if ltb counter (ratio c) then slice x (counter * width) ((counter + 1) * width) else 0

  unfoldable pub convert_outputs : Converter → BusInput → BusOutput
  convert_outputs s x = record {
    we = in_write s.fsm;
    cyc = not (in_idle s.fsm);
    stb = not (in_idle s.fsm) && (x.stb && x.cyc);
    adr = trunc c.adr_wid (cat c.counter_wid s.counter x.adr);
    sel = fragment c.slen s.counter x.sel;
    dat_w = fragment c.dw_to s.counter x.dat_w;
    cti = if counter_done s then 7 else 2;
    ack = counter_ce s x && counter_done s;
    dat_r = if in_read s.fsm && (counter_ce s x && counter_done s) then shift_reg s x else 0;
  }

  unfoldable pub convert_run : Converter → List BusInput → Converter
  convert_run s [] = s
  convert_run s (x ∷ xs) = convert_run (convert_cycle s x) xs
