-- ===== src/Icache/Counting.antt =====
-- The requests and answers of a reload of experiment/icache.py, counted: the rows of the line from
-- the missed one on and around, each once.
use libresoc_soc.Common.{
  ℕ, suc, ◌+◌, ◌-◌, ◌*◌, ◌/◌, ◌%◌, ◌^◌, ◌≤◌, ◌<◌, ◌≡◌, refl, sym, ap, ap₂, ◌∙◌, arith, Bool, true,
  false, not, ◌&&◌, ◌||◌, ◌==◌, ltb, if◌then◌else◌, slice, trunc, b2n, Bool-cases, inl, inr, List,
  [], ◌∷◌, ◌++◌,
}
use libresoc_soc.Icache.Types.{wait_ack, RegInternal, IcacheRegs, IcacheInput, get_row_of_line}
use libresoc_soc.Icache.Lookup.{icache_outputs}
use libresoc_soc.Icache.Cycle.{
  next_row, stbs_done, completes, cycle_in, icache_miss, miss_state, icache_miss_wait_ack,
  wait_answer, wait_request, invalidated, icache_hit, itlb_update, maybe_plrus, rams,
}
use libresoc_soc.Icache.Bus.{Answers, pending_next, row_address, rows_from}
use libresoc_soc.Icache.Requests.{ack-lt, answered, requested, answered-le}

-- The line that is reloaded.
abbrev pub line_of : RegInternal → ℕ
line_of r = r.store_tag * 16 + r.store_index

-- From the row `start`, `gone` rows have arrived, of `sent` that are requested.
pub record IsCounted (r : RegInternal) (requests : List ℕ) (start gone sent : ℕ) : Type 0 where
  pub start_lt : start < 8
  pub gone_le : gone ≤ sent
  pub sent_le : sent ≤ 8
  pub gone_lt : gone < 8
  pub index_lt : r.store_index < 16
  pub row : r.store_row ≡ r.store_index * 8 + (start + gone) % 8
  pub end_row : r.end_row_ix ≡ (start + 7) % 8
  pub cyc : r.cyc ≡ true
  pub stb : r.stb ≡ ltb sent 8
  pub adr : r.req_adr ≡ line_of r * 64 + (start + sent) % 8 * 8
  pub pending : requests ≡ rows_from (line_of r) (start + gone) (sent - gone)

abbrev pub accepts : IcacheRegs → IcacheInput → Bool
accepts s x = not x.wb_in.stall && s.r.stb

pub otherwise : (k : Bool) (t e : ℕ) → k ≡ false → (if k then t else e) ≡ e
otherwise true t e h = ground (arith, h)
otherwise false t e h = refl

module _ (s : IcacheRegs) (x : IcacheInput) (p : List ℕ) (b a n : ℕ)
    (c : IsCounted s.r p b a n) where
  -- The next request is the last one exactly if seven are sent.
  last_sent : n < 8 → (slice s.r.req_adr 3 6 == s.r.end_row_ix) ≡ (n == 7)
  last_sent h =
      ap₂ (λ t e. (t / 8 % 8 == e)) c.adr c.end_row ∙ compared (line_of s.r) b n h c.start_lt
    where
      compared :
          (l b n : ℕ)
          → n < 8
          → b < 8
          → ((l * 64 + (b + n) % 8 * 8) / 8 % 8 == (b + 7) % 8) ≡ (n == 7)
      compared l b n h g = ground arith

  last_gone : (get_row_of_line s.r.store_row == s.r.end_row_ix) ≡ (a == 7)
  last_gone =
      ap₂ (λ t e. (t % 8 == e)) c.row c.end_row ∙ compared s.r.store_index b a c.gone_lt c.start_lt
    where
      compared : (i b a : ℕ) → a < 8 → b < 8 → ((i * 8 + (b + a) % 8) % 8 == (b + 7) % 8) ≡ (a == 7)
      compared i b a h g = ground arith

  -- The last row arrives exactly if seven have, and all are requested by then.
  completes_when : (mem : ℕ → ℕ) → Answers mem x.wb_in p → completes x s ≡ (x.wb_in.ack && a == 7)
  unfolding completes stbs_done
  completes_when mem q =
      split x.wb_in.ack s.r.stb (get_row_of_line s.r.store_row == s.r.end_row_ix)
        (not x.wb_in.stall && slice s.r.req_adr 3 6 == s.r.end_row_ix) last_gone
        (λ h e.
          c.stb
          ∙ (let g : a < n = ack-lt mem x.wb_in p (line_of s.r) b a n q h c.pending c.gone_le in
              ground (arith, g, e, c.sent_le)))
    where
      split :
          (ack stb last next : Bool)
          → last ≡ (a == 7)
          → (ack ≡ true → (a == 7) ≡ true → stb ≡ false)
          → (ack && ((not stb || next) && last)) ≡ (ack && a == 7)
      split ack stb last next e f = ground (arith, e, f)

  pub stb_next :
      (if accepts s x && slice s.r.req_adr 3 6 == s.r.end_row_ix then false else s.r.stb)
      ≡ ltb (n + b2n (accepts s x)) 8
  stb_next = elim (Bool-cases (ltb n 8)) [
    | inl h ↦
        ap (λ l. if accepts s x && l then false else s.r.stb) (last_sent (ground (arith, h)))
        ∙ counted x.wb_in.stall s.r.stb n (c.stb ∙ h) h
    | inr h ↦ done x.wb_in.stall s.r.stb (slice s.r.req_adr 3 6 == s.r.end_row_ix) n (c.stb ∙ h) h
  ]
    where
      counted :
          (stall stb : Bool) (n : ℕ)
          → stb ≡ true
          → ltb n 8 ≡ true
          → (if (not stall && stb) && n == 7 then false else stb)
            ≡ ltb (n + b2n (not stall && stb)) 8
      counted stall stb n e h = ground (arith, e, h)

      done :
          (stall stb last : Bool) (n : ℕ)
          → stb ≡ false
          → ltb n 8 ≡ false
          → (if (not stall && stb) && last then false else stb) ≡ ltb (n + b2n (not stall && stb)) 8
      done stall stb last n e h = ground (arith, e, h)

  pub sent_next : n + b2n (accepts s x) ≤ 8
  sent_next = bounded x.wb_in.stall s.r.stb c.stb
    where
      bounded : (stall stb : Bool) → stb ≡ ltb n 8 → n + b2n (not stall && stb) ≤ 8
      bounded stall stb e = ground (arith, e, c.sent_le)

  adr_next :
      (if accepts s x
        then slice s.r.req_adr 0 3 + (slice s.r.req_adr 3 6 + 1) % 8 * 8 + s.r.req_adr / 64 * 64
        else s.r.req_adr)
      ≡ line_of s.r * 64 + (b + (n + b2n (accepts s x))) % 8 * 8
  adr_next =
      ap (λ t. if accepts s x then slice t 0 3 + (slice t 3 6 + 1) % 8 * 8 + t / 64 * 64 else t)
        c.adr
      ∙ moved (accepts s x) (line_of s.r) b n
    where
      moved :
          (k : Bool) (l b n : ℕ)
          → (if k
              then slice (l * 64 + (b + n) % 8 * 8) 0 3
                + (slice (l * 64 + (b + n) % 8 * 8) 3 6 + 1) % 8 * 8
                + (l * 64 + (b + n) % 8 * 8) / 64 * 64
              else l * 64 + (b + n) % 8 * 8)
            ≡ l * 64 + (b + (n + b2n k)) % 8 * 8
      moved true l b n = omega arith
      moved false l b n = ap (λ m. l * 64 + (b + m) % 8 * 8) (let e : n ≡ n + 0 = omega arith in e)

  row_next : next_row s.r.store_row ≡ s.r.store_index * 8 + (b + suc a) % 8
  unfolding next_row
  row_next = ap (λ t. (t % 8 + 1) % 8 + t / 8 * 8) c.row ∙ moved s.r.store_index b a
    where
      moved :
          (i b a : ℕ)
          → ((i * 8 + (b + a) % 8) % 8 + 1) % 8 + (i * 8 + (b + a) % 8) / 8 * 8
            ≡ i * 8 + (b + suc a) % 8
      moved i b a = omega arith

  -- The request that the bus sees is of the next row.
  adr_seen : trunc 32 (s.r.req_adr / 8) ≡ row_address (line_of s.r) ((b + n) % 8)
  adr_seen = ap (λ t. t / 8 % 2 ^ 32) c.adr ∙ ap (λ t. t % 2 ^ 32) (seen (line_of s.r) b n)
    where
      seen : (l b n : ℕ) → (l * 64 + (b + n) % 8 * 8) / 8 ≡ l * 8 + (b + n) % 8
      seen l b n = omega arith

module _ (mem : ℕ → ℕ) (s : IcacheRegs) (x : IcacheInput) (p : List ℕ) (b a n : ℕ)
    (c : IsCounted s.r p b a n) (q : Answers mem x.wb_in p) where
  abbrev gone_after : ℕ
  gone_after = a + b2n x.wb_in.ack

  abbrev sent_after : ℕ
  sent_after = n + b2n (accepts s x)

  pub pending_after :
      pending_next (record { cache = s; pending = p }) x
      ≡ rows_from (line_of s.r) (b + gone_after) (sent_after - gone_after)
  unfolding pending_next icache_outputs
  pending_after =
      ap₂ (λ f (r : ℕ). f ++ (if accepts s x then r ∷ [] else []))
        (answered mem x.wb_in p (line_of s.r) b a n q c.pending c.gone_le) (adr_seen s x p b a n c)
      ∙ requested (accepts s x) (line_of s.r) b gone_after n
          (answered-le mem x.wb_in p (line_of s.r) b a n q c.pending c.gone_le)

  pub completes_iff : completes x s ≡ (x.wb_in.ack && a == 7)
  completes_iff = completes_when s x p b a n c mem q

  -- The reload goes on.
  pub wait-IsCounted :
      completes x s ≡ false
      → IsCounted
          (cycle_in wait_ack s x).r
          (pending_next (record { cache = s; pending = p }) x)
          b
          gone_after
          sent_after
  unfolding cycle_in icache_miss miss_state icache_miss_wait_ack wait_answer wait_request
      invalidated icache_hit itlb_update maybe_plrus rams
  wait-IsCounted e = record {
    start_lt = c.start_lt;
    gone_le =
        (let l : gone_after ≤ n =
            answered-le mem x.wb_in p (line_of s.r) b a n q c.pending c.gone_le in
          omega (arith, l));
    sent_le = sent_next s x p b a n c;
    gone_lt = fewer x.wb_in.ack (sym completes_iff ∙ e);
    index_lt = c.index_lt;
    row =
        ap (λ f. if x.wb_in.ack && not f then next_row s.r.store_row else s.r.store_row) e
        ∙ row_after x.wb_in.ack;
    end_row = c.end_row;
    cyc = ap (λ k. if k then false else s.r.cyc) e ∙ c.cyc;
    stb = stb_next s x p b a n c;
    adr = otherwise (completes x s) 0 _ e ∙ adr_next s x p b a n c;
    pending = pending_after;
  }
    where
      row_after :
          (k : Bool)
          → (if k && not false then next_row s.r.store_row else s.r.store_row)
            ≡ s.r.store_index * 8 + (b + (a + b2n k)) % 8
      row_after true =
          row_next s x p b a n c
          ∙ ap (λ m. s.r.store_index * 8 + (b + m) % 8) (let u : suc a ≡ a + 1 = omega arith in u)
      row_after false =
          c.row ∙ ap (λ m. s.r.store_index * 8 + (b + m) % 8) (let u : a ≡ a + 0 = omega arith in u)

      fewer : (k : Bool) → (k && a == 7) ≡ false → a + b2n k < 8
      fewer k f = ground (arith, f, c.gone_lt)
