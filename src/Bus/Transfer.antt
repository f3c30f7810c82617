-- ===== src/Bus/Transfer.antt =====
-- A whole write through the converter of bus/wb_downconvert.py, from the request to the answer.
use libresoc_soc.Common.{
  ℕ, suc, ◌+◌, ◌^◌, ◌≤◌, ◌<◌, ◌≡◌, refl, sym, ap, subst, ◌∙◌, arith, inl, inr,
}
use libresoc_soc.Common.{Bool, true, false, List, [], ◌∷◌, ◌++◌, Bool-cases, if◌then◌else◌}
use libresoc_soc.Bus.Downconvert.{
  Widths, ratio, idle, Converter, BusInput, convert_cycle, convert_outputs, convert_run, next_fsm,
  start,
}
use libresoc_soc.Bus.Writes.{
  Request, Holds, AllHold, one_more, acks, taken_writes, piece, fragments, IsWriting, clock-waits,
  clock-moves, clock-ends, taken_writes-waits, taken_writes-moves,
}

module _ (c : Widths) (fits : ratio c ≤ 2 ^ c.counter_wid) (q : Request) (z : BusInput)
    (held : Holds q z) (acked : z.ack ≡ true) where
  -- What a run that ends with z does from fragment k on.
  record Delivers (k n : ℕ) (s : Converter) (xs : List BusInput) : Type 0 where
    accesses : taken_writes c s (xs ++ z ∷ []) ≡ fragments c q k (suc n)
    answered : (convert_outputs c (convert_run c s xs) z).ack ≡ true
    finished : (convert_run c s (xs ++ z ∷ [])).fsm ≡ idle

  last-Delivers : (k : ℕ) (s : Converter) → IsWriting k s → k + 1 ≡ ratio c → Delivers k 0 s []
  unfolding convert_run fragments taken_writes
  last-Delivers k s w last = record {
    accesses = taken_writes-moves c fits q k s z [] w held acked (omega arith);
    answered = (clock-ends c fits q k s z w held acked last).1;
    finished = (clock-ends c fits q k s z w held acked last).0;
  }

  Delivers-waits :
      (k n : ℕ) (s : Converter) (x : BusInput) (xs : List BusInput)
      → x.ack ≡ false
      → Delivers k n (convert_cycle c s x) xs
      → Delivers k n s (x ∷ xs)
  unfolding convert_run
  Delivers-waits k n s x xs a d = record {
    accesses = taken_writes-waits c fits q k s x (xs ++ z ∷ []) a ∙ d.accesses;
    answered = d.answered;
    finished = d.finished;
  }

  Delivers-moves :
      (k n : ℕ) (s : Converter) (x : BusInput) (xs : List BusInput)
      → IsWriting k s
      → Holds q x
      → x.ack ≡ true
      → k < ratio c
      → Delivers (k + 1) n (convert_cycle c s x) xs
      → Delivers k (suc n) s (x ∷ xs)
  unfolding convert_run fragments
  Delivers-moves k n s x xs w h a more d = record {
    accesses =
        taken_writes-moves c fits q k s x (xs ++ z ∷ []) w h a more
        ∙ ap (λ r. piece c q k ∷ r) d.accesses;
    answered = d.answered;
    finished = d.finished;
  }

  all-Delivers :
      (k : ℕ) (s : Converter) (xs : List BusInput)
      → IsWriting k s
      → AllHold q xs
      → k + acks xs + 1 ≡ ratio c
      → Delivers k (acks xs) s xs
  all-Delivers k s [] w hs n = last-Delivers k s w (omega arith)
  all-Delivers k s (x ∷ xs) w (one_more h hs) n = elim (Bool-cases x.ack) [
    | inr a ↦
        let e : acks (x ∷ xs) ≡ acks xs = counted a in
        subst (λ m. Delivers k m s (x ∷ xs)) (sym e)
          (Delivers-waits k (acks xs) s x xs a (
            all-Delivers k (convert_cycle c s x) xs (clock-waits c fits q k s x w h a) hs
              (omega (arith, e))))
    | inl a ↦
        let e : acks (x ∷ xs) ≡ suc (acks xs) = counted a in
        subst (λ m. Delivers k m s (x ∷ xs)) (sym e)
          (Delivers-moves k (acks xs) s x xs w h a (omega (arith, e)) (
            all-Delivers (k + 1) (convert_cycle c s x) xs
              (clock-moves c fits q k s x w h a (omega (arith, e))) hs (omega (arith, e))))
  ]
    where
      counted : {b : Bool} → x.ack ≡ b → acks (x ∷ xs) ≡ (if b then suc (acks xs) else acks xs)
      counted a = ap (λ b. if b then suc (acks xs) else acks xs) a

-- The clock in which the converter is idle.
started :
    (c : Widths) (q : Request) (s : Converter) (x : BusInput)
    → s.fsm ≡ idle
    → Holds q x
    → IsWriting 0 (convert_cycle c s x)
unfolding convert_cycle next_fsm start
started c q s x i h = record { fsm = ground arith; counter = ground arith }

idle_takes :
    (c : Widths) (s : Converter) (x : BusInput) (xs : List BusInput)
    → s.fsm ≡ idle
    → taken_writes c s (x ∷ xs) ≡ taken_writes c (convert_cycle c s x) xs
unfolding taken_writes convert_outputs
idle_takes c s x xs i = rw i refl

-- A converter that is idle and whose counter can count to the ratio of the widths takes a write that
-- the master holds, x and then xs and z. If the slave acknowledges as often in xs as the ratio less
-- one, and z, then with any waiting cycles between, what the slave has taken is the fragments of the
-- word in order, each with its select lines and at its address; the master is answered in z, and the
-- converter is idle again.
pub write-delivers :
    (c : Widths)
    → ratio c ≤ 2 ^ c.counter_wid
    → (q : Request) (s : Converter) (x : BusInput) (xs : List BusInput) (z : BusInput)
    → s.fsm ≡ idle
    → Holds q x
    → AllHold q xs
    → Holds q z
    → z.ack ≡ true
    → acks xs + 1 ≡ ratio c
    → (taken_writes c s (x ∷ (xs ++ z ∷ [])) ≡ fragments c q 0 (ratio c))
      × ((convert_outputs c (convert_run c s (x ∷ xs)) z).ack ≡ true)
      × ((convert_run c s (x ∷ (xs ++ z ∷ []))).fsm ≡ idle)
unfolding convert_run
write-delivers c fits q s x xs z i h hs held acked n =
    let d =
      all-Delivers c fits q z held acked 0 (convert_cycle c s x) xs (started c q s x i h) hs
        (omega (arith, n)) in
    (
      idle_takes c s x (xs ++ z ∷ []) i ∙ d.accesses ∙ ap (fragments c q 0) (omega (arith, n)),
      d.answered,
      d.finished,
    )
