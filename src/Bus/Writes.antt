-- ===== src/Bus/Writes.antt =====
-- What a write through the converter of bus/wb_downconvert.py leaves on the narrow bus.
use libresoc_soc.Common.{ℕ, zero, suc, ◌+◌, ◌*◌, ◌^◌, ◌%◌, ◌≤◌, ◌<◌, ◌≡◌, refl, arith}
use libresoc_soc.Common.{true, false, ◌&&◌, List, [], ◌∷◌, slice, cat, trunc, ltb, if◌then◌else◌}
use libresoc_soc.Bus.Downconvert.{
  Widths, ratio, idle, write, Converter, BusInput, counter_done, counter_ce, next_fsm, continue,
  convert_cycle, fragment, convert_outputs,
}
use native.Mathlib.Nat.{mod-eq_of_lt}

-- A write that the slave takes.
pub record Access : Type 0 where
  pub adr : ℕ
  pub sel : ℕ
  pub dat_w : ℕ

-- What a master holds on its side during a write.
pub record Request : Type 0 where
  pub adr : ℕ
  pub sel : ℕ
  pub dat_w : ℕ

-- The master holds its write.
pub record Holds (q : Request) (x : BusInput) : Type 0 where
  pub stb : x.stb ≡ true
  pub cyc : x.cyc ≡ true
  pub we : x.we ≡ true
  pub adr : x.adr ≡ q.adr
  pub sel : x.sel ≡ q.sel
  pub dat_w : x.dat_w ≡ q.dat_w

pub data AllHold (q : Request) : List BusInput → Type 0 where
  none_left : AllHold q []
  one_more : {x : BusInput} {xs : List BusInput} → Holds q x → AllHold q xs → AllHold q (x ∷ xs)

-- How often the slave acknowledges.
abbrev pub acks : List BusInput → ℕ
acks [] = 0
acks (x ∷ xs) = let rest = acks xs in if x.ack then suc rest else rest

module _ (c : Widths) where
  -- The writes that the slave takes in a run, in order.
  unfoldable pub taken_writes : Converter → List BusInput → List Access
  taken_writes s [] = []
  taken_writes s (x ∷ xs) =
      let rest = taken_writes (convert_cycle c s x) xs in
      let o = convert_outputs c s x in
      if o.cyc && o.stb && o.we && x.ack
      then record { adr = o.adr; sel = o.sel; dat_w = o.dat_w } ∷ rest
      else rest

  -- The k-th fragment of a write, at the address of that fragment.
  abbrev pub piece : Request → ℕ → Access
  piece q k = record {
    adr = trunc c.adr_wid (cat c.counter_wid k q.adr);
    sel = slice q.sel (k * c.slen) ((k + 1) * c.slen);
    dat_w = slice q.dat_w (k * c.dw_to) ((k + 1) * c.dw_to);
  }

  -- The fragments of a write from the k-th on, so many of them.
  unfoldable pub fragments : Request → ℕ → ℕ → List Access
  fragments q k zero = []
  fragments q k (suc n) = piece q k ∷ fragments q (k + 1) n

-- The converter in a write whose next fragment is the k-th.
pub record IsWriting (k : ℕ) (s : Converter) : Type 0 where
  pub fsm : s.fsm ≡ write
  pub counter : s.counter ≡ k

module _ (c : Widths) (fits : ratio c ≤ 2 ^ c.counter_wid) (q : Request) where
  pub clock-waits :
      (k : ℕ) (s : Converter) (x : BusInput)
      → IsWriting k s
      → Holds q x
      → x.ack ≡ false
      → IsWriting k (convert_cycle c s x)
  unfolding convert_cycle counter_ce next_fsm continue
  clock-waits k s x w h a = record { fsm = ground arith; counter = ground arith }

  pub clock-moves :
      (k : ℕ) (s : Converter) (x : BusInput)
      → IsWriting k s
      → Holds q x
      → x.ack ≡ true
      → k + 1 < ratio c
      → IsWriting (k + 1) (convert_cycle c s x)
  unfolding convert_cycle counter_ce next_fsm continue counter_done
  clock-moves k s x w h a more = record { fsm = ground arith; counter = next }
    where
      wraps : (k + 1) % 2 ^ c.counter_wid ≡ k + 1
      wraps = mod-eq_of_lt (omega arith)

      next : (convert_cycle c s x).counter ≡ k + 1
      next = rw (w.fsm, h.stb, h.cyc, a, w.counter) wraps

  pub clock-ends :
      (k : ℕ) (s : Converter) (x : BusInput)
      → IsWriting k s
      → Holds q x
      → x.ack ≡ true
      → k + 1 ≡ ratio c
      → ((convert_cycle c s x).fsm ≡ idle) × ((convert_outputs c s x).ack ≡ true)
  unfolding convert_cycle counter_ce next_fsm continue counter_done convert_outputs
  clock-ends k s x w h a last = (ground arith, ground arith)

  pub taken_writes-waits :
      (k : ℕ) (s : Converter) (x : BusInput) (xs : List BusInput)
      → x.ack ≡ false
      → taken_writes c s (x ∷ xs) ≡ taken_writes c (convert_cycle c s x) xs
  unfolding taken_writes
  taken_writes-waits k s x xs a = ground arith

  pub taken_writes-moves :
      (k : ℕ) (s : Converter) (x : BusInput) (xs : List BusInput)
      → IsWriting k s
      → Holds q x
      → x.ack ≡ true
      → k < ratio c
      → taken_writes c s (x ∷ xs) ≡ piece c q k ∷ taken_writes c (convert_cycle c s x) xs
  unfolding taken_writes convert_outputs fragment
  taken_writes-moves k s x xs w h a more =
      rw (w.fsm, h.stb, h.cyc, a, w.counter, h.adr, h.sel, h.dat_w, inside) refl
    where
      inside : ltb k (ratio c) ≡ true
      inside = ground arith
