-- ===== src/Bus/Collect.antt =====
-- A whole read through the converter of bus/wb_downconvert.py, from the request to the answer.
use libresoc_soc.Common.{
  ℕ, suc, ◌+◌, ◌-◌, ◌*◌, ◌^◌, ◌≤◌, ◌<◌, ◌≡◌, refl, sym, ap, subst, ◌∙◌, arith, inl, inr,
}
use libresoc_soc.Common.{Bool, true, false, ◌==◌, List, [], ◌∷◌, ◌++◌, Bool-cases, if◌then◌else◌}
use libresoc_soc.Bus.Downconvert.{
  Widths, ratio, idle, read, Converter, BusInput, convert_cycle, convert_outputs, convert_run,
  next_fsm, start, continue, counter_ce, counter_done, shift_reg,
}
use libresoc_soc.Bus.Writes.{acks}
use libresoc_soc.Bus.Reads.{
  Reads, AllRead, one_more, word_from, word_from-skips, word_from-takes, IsReading,
  shift_reg-collects, grows,
}
use libresoc_soc.Div.Step.{pow-split}
use native.Mathlib.Nat.{mod-eq_of_lt, suc-mul}

module _ (c : Widths) (exact : c.dw_from ≡ ratio c * c.dw_to)
    (room : ratio c ≤ 2 ^ c.counter_wid) where
  read-waits :
      (k j acc : ℕ) (s : Converter) (x : BusInput)
      → IsReading c k j acc s
      → Reads c.dw_to x
      → x.ack ≡ false
      → IsReading c k j acc (convert_cycle c s x)
  unfolding convert_cycle counter_ce next_fsm continue
  read-waits k j acc s x r h a = record {
    fsm = ground (arith, r.fsm);
    counter = ground (arith, r.counter, r.fsm);
    all = r.all;
    cached = rw (r.fsm, h.stb, h.cyc, a) r.cached;
    fits = r.fits;
  }

  next_data :
      (s : Converter) (x : BusInput)
      → s.fsm ≡ read
      → Reads c.dw_to x
      → x.ack ≡ true
      → (convert_cycle c s x).cached_data ≡ shift_reg c s x
  unfolding convert_cycle counter_ce
  next_data s x f h a = rw (f, h.stb, h.cyc, a) refl

  read-moves :
      (k j acc : ℕ) (s : Converter) (x : BusInput)
      → IsReading c k (suc (suc j)) acc s
      → Reads c.dw_to x
      → x.ack ≡ true
      → IsReading c (k + 1) (suc j) (acc + x.dat_r * 2 ^ (k * c.dw_to)) (convert_cycle c s x)
  unfolding convert_cycle counter_ce next_fsm continue counter_done
  read-moves k j acc s x r h a = record {
    fsm = ground (arith, r.fsm, r.all, r.counter);
    counter = next;
    all = omega (arith, r.all);
    cached = next_data s x r.fsm h a ∙ shift_reg-collects c exact k (suc j) acc s x r;
    fits = larger;
  }
    where
      next : (convert_cycle c s x).counter ≡ k + 1
      next = rw (r.fsm, h.stb, h.cyc, a, r.counter) (mod-eq_of_lt (omega (arith, r.all)))

      power : 2 ^ ((k + 1) * c.dw_to) ≡ 2 ^ c.dw_to * 2 ^ (k * c.dw_to)
      power =
          let e : (k + 1) * c.dw_to ≡ c.dw_to + k * c.dw_to = omega (arith, suc-mul k c.dw_to) in
          ap (λ m. 2 ^ m) e ∙ pow-split c.dw_to (k * c.dw_to)

      larger : acc + x.dat_r * 2 ^ (k * c.dw_to) < 2 ^ ((k + 1) * c.dw_to)
      larger = rw power (grows (2 ^ (k * c.dw_to)) (2 ^ c.dw_to) acc x.dat_r r.fits h.narrow)

  read-ends :
      (k acc : ℕ) (s : Converter) (x : BusInput)
      → IsReading c k 1 acc s
      → Reads c.dw_to x
      → x.ack ≡ true
      → ((convert_outputs c s x).ack ≡ true)
        × ((convert_outputs c s x).dat_r ≡ acc + x.dat_r * 2 ^ (k * c.dw_to))
        × ((convert_cycle c s x).fsm ≡ idle)
  unfolding convert_outputs convert_cycle counter_ce next_fsm continue counter_done shift_reg
  read-ends k acc s x r h a = (
    rw (r.fsm, h.stb, h.cyc, a, last) refl,
    rw (r.fsm, h.stb, h.cyc, a, last) whole,
    rw (r.fsm, h.stb, h.cyc, a, last) refl,
  )
    where
      last : (s.counter == ratio c - 1) ≡ true
      last = ground (arith, r.all, r.counter)

      unit :
          (acc + x.dat_r * 2 ^ (k * c.dw_to)) * 2 ^ (0 * c.dw_to)
          ≡ acc + x.dat_r * 2 ^ (k * c.dw_to)
      unit =
          let e : 0 * c.dw_to ≡ 0 = omega arith in
          ap (λ m. (acc + x.dat_r * 2 ^ (k * c.dw_to)) * 2 ^ m) e ∙ omega arith

      whole : shift_reg c s x ≡ acc + x.dat_r * 2 ^ (k * c.dw_to)
      whole = shift_reg-collects c exact k 0 acc s x r ∙ unit

  module _ (z : BusInput) (asks : Reads c.dw_to z) (acked : z.ack ≡ true) where
    -- What a run that ends with z does from fragment k on.
    record Answers (k acc : ℕ) (s : Converter) (xs : List BusInput) : Type 0 where
      answered : (convert_outputs c (convert_run c s xs) z).ack ≡ true
      word :
          (convert_outputs c (convert_run c s xs) z).dat_r
          ≡ acc + word_from c.dw_to k (xs ++ z ∷ [])
      finished : (convert_run c s (xs ++ z ∷ [])).fsm ≡ idle

    last-Answers : (k acc : ℕ) (s : Converter) → IsReading c k 1 acc s → Answers k acc s []
    unfolding convert_run word_from
    last-Answers k acc s r =
        let e = read-ends k acc s z r asks acked in
        record {
          answered = e.0;
          word = omega (arith, e.1, word_from-takes c.dw_to k z [] acked);
          finished = e.2;
        }

    Answers-waits :
        (k acc : ℕ) (s : Converter) (x : BusInput) (xs : List BusInput)
        → x.ack ≡ false
        → Answers k acc (convert_cycle c s x) xs
        → Answers k acc s (x ∷ xs)
    unfolding convert_run
    Answers-waits k acc s x xs a d = record {
      answered = d.answered;
      word = d.word ∙ ap (λ m. acc + m) (sym (word_from-skips c.dw_to k x (xs ++ z ∷ []) a));
      finished = d.finished;
    }

    Answers-moves :
        (k acc : ℕ) (s : Converter) (x : BusInput) (xs : List BusInput)
        → x.ack ≡ true
        → Answers (k + 1) (acc + x.dat_r * 2 ^ (k * c.dw_to)) (convert_cycle c s x) xs
        → Answers k acc s (x ∷ xs)
    unfolding convert_run
    Answers-moves k acc s x xs a d = record {
      answered = d.answered;
      word = omega (arith, d.word, word_from-takes c.dw_to k x (xs ++ z ∷ []) a);
      finished = d.finished;
    }

    all-Answers :
        (k acc : ℕ) (s : Converter) (xs : List BusInput)
        → IsReading c k (suc (acks xs)) acc s
        → AllRead c.dw_to xs
        → Answers k acc s xs
    all-Answers k acc s [] r hs = last-Answers k acc s r
    all-Answers k acc s (x ∷ xs) r (one_more h hs) = elim (Bool-cases x.ack) [
      | inr a ↦
          let r' : IsReading c k (suc (acks xs)) acc s =
            subst (λ m. IsReading c k (suc m) acc s) (counted a) r in
          Answers-waits k acc s x xs a (
            all-Answers k acc (convert_cycle c s x) xs (read-waits k (suc (acks xs)) acc s x r' h a)
              hs)
      | inl a ↦
          let r' : IsReading c k (suc (suc (acks xs))) acc s =
            subst (λ m. IsReading c k (suc m) acc s) (counted a) r in
          Answers-moves k acc s x xs a (
            all-Answers (k + 1) (acc + x.dat_r * 2 ^ (k * c.dw_to)) (convert_cycle c s x) xs
              (read-moves k (acks xs) acc s x r' h a) hs)
    ]
      where
        counted : {b : Bool} → x.ack ≡ b → acks (x ∷ xs) ≡ (if b then suc (acks xs) else acks xs)
        counted a = ap (λ b. if b then suc (acks xs) else acks xs) a

-- The clock in which the converter is idle.
read_started :
    (c : Widths) (n : ℕ) (s : Converter) (x : BusInput)
    → s.fsm ≡ idle
    → Reads c.dw_to x
    → n ≡ ratio c
    → IsReading c 0 n 0 (convert_cycle c s x)
unfolding convert_cycle next_fsm start
read_started c n s x i h e = record {
  fsm = ground (arith, i);
  counter = ground (arith, i);
  all = omega (arith, e);
  cached = rw i (omega arith);
  fits = (let z : 0 * c.dw_to ≡ 0 = omega arith in rw z (omega arith));
}

-- A converter that is idle, for a ratio of widths without remainder that its counter can count to,
-- takes a read that the master holds, x and then xs and z. If the slave acknowledges as often in xs
-- as the ratio less one, and z, then with any waiting cycles between, the master is answered in z
-- with the acknowledged data side by side, the first lowest, and the converter is idle again.
pub read-collects :
    (c : Widths)
    → c.dw_from ≡ ratio c * c.dw_to
    → ratio c ≤ 2 ^ c.counter_wid
    → (s : Converter) (x : BusInput) (xs : List BusInput) (z : BusInput) → s.fsm ≡ idle
    → Reads c.dw_to x
    → AllRead c.dw_to xs
    → Reads c.dw_to z
    → z.ack ≡ true
    → acks xs + 1 ≡ ratio c
    → ((convert_outputs c (convert_run c s (x ∷ xs)) z).ack ≡ true)
      × ((convert_outputs c (convert_run c s (x ∷ xs)) z).dat_r
          ≡ word_from c.dw_to 0 (xs ++ z ∷ []))
      × ((convert_run c s (x ∷ (xs ++ z ∷ []))).fsm ≡ idle)
unfolding convert_run
read-collects c exact room s x xs z i h hs asks acked n =
    let d =
      all-Answers c exact room z asks acked 0 0 (convert_cycle c s x) xs
        (read_started c (suc (acks xs)) s x i h (omega (arith, n))) hs in
    (d.answered, d.word ∙ omega arith, d.finished)
