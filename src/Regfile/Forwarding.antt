-- ===== src/Regfile/Forwarding.antt =====
-- regfile/regfile.py: what a read port of the file shows.
use Prim.Native.Nat.{bit_or, bit_or-bitwise, digits, max}
use libresoc_soc.Common.{
  ℕ, zero, suc, ◌+◌, ◌*◌, ◌/◌, ◌%◌, ◌≡◌, ◌≢◌, ◌≤◌, ◌<◌, refl, sym, ap, ap₂, ◌∙◌, arith, Bool, true,
  false, not, ◌||◌, if◌then◌else◌, Bool-cases, inl, inr, List, [], ◌∷◌, length, get_or,
}
use libresoc_soc.Regfile.{
  WritePort, last_write, wr_detect, read_data, FilePort, ports_of, write_regs, read_regs,
  ortreereduce, FileState, any_enabled, file_cycle, synced_data, comb_data,
}

zero-bit_or : (b : ℕ) → bit_or 0 b ≡ b
zero-bit_or b = bit_or-bitwise 0 b

digits-zero : (n a : ℕ) → a ≤ n → digits (λ b. b) max n a 0 ≡ a
digits-zero zero a h = omega arith
digits-zero (suc n) zero h = refl
digits-zero (suc n) (suc a) h =
    let half : suc a / 2 ≤ n = omega arith in
    ap (λ x. x * 2 + max (suc a % 2) 0) (digits-zero n (suc a / 2) half)
    ∙ (let e : suc a / 2 * 2 + max (suc a % 2) 0 ≡ suc a = omega arith in e)

bit_or-zero : (a : ℕ) → bit_or a 0 ≡ a
bit_or-zero a = bit_or-bitwise a 0 ∙ digits-zero a a (omega arith)

-- With a write the old content does not matter, and without one it stays.
last_write-detected :
    (wps : List WritePort) (x y : ℕ) → wr_detect wps ≡ true → last_write x wps ≡ last_write y wps
unfolding last_write wr_detect
last_write-detected [] x y h = ground arith
last_write-detected (wp ∷ wps) x y h = elim (Bool-cases wp.wen) [
  | inl e ↦
      ap (λ c. last_write (if c then wp.i_data else x) wps) e
      ∙ sym (ap (λ c. last_write (if c then wp.i_data else y) wps) e)
  | inr e ↦
      ap (λ c. last_write (if c then wp.i_data else x) wps) e
      ∙ last_write-detected wps x y (sym (ap (λ c. c || wr_detect wps) e) ∙ h)
      ∙ sym (ap (λ c. last_write (if c then wp.i_data else y) wps) e)
]

last_write-undetected :
    (wps : List WritePort) (x : ℕ) → wr_detect wps ≡ false → last_write x wps ≡ x
unfolding last_write wr_detect
last_write-undetected [] x h = refl
last_write-undetected (wp ∷ wps) x h = elim (Bool-cases wp.wen) [
  | inl e ↦ ground (arith, e, h)
  | inr e ↦
      ap (λ c. last_write (if c then wp.i_data else x) wps) e
      ∙ last_write-undetected wps x (sym (ap (λ c. c || wr_detect wps) e) ∙ h)
]

-- A forwarding read is of the content after the clock.
read_data-last_write :
    (wps : List WritePort) (reg : ℕ) → read_data true true wps reg ≡ last_write reg wps
unfolding read_data
read_data-last_write wps reg = elim (Bool-cases (wr_detect wps)) [
  | inl e ↦ ap (λ c. if not c then reg else last_write 0 wps) e ∙ last_write-detected wps 0 reg e
  | inr e ↦
      ap (λ c. if not c then reg else last_write 0 wps) e ∙ sym (last_write-undetected wps reg e)
]

-- The enables of a read of one register.
pub record IsOneHot (ren : ℕ → Bool) (j : ℕ) : Type 0 where
  pub on : ren j ≡ true
  pub off : (n : ℕ) → n ≢ j → ren n ≡ false

module _ (ren : ℕ → Bool) (j : ℕ) (hot : IsOneHot ren j) (ps : List FilePort) where
  -- A register that is not read shows 0.
  unread : (i r : ℕ) → i ≢ j → read_data true (ren i) (ports_of i ps) r ≡ 0
  unfolding read_data
  unread i r h = ground (arith, hot.off i h)

  none_read : (i : ℕ) (rs : List ℕ) → j < i → ortreereduce (read_regs true ren ps i rs) ≡ 0
  unfolding ortreereduce read_regs
  none_read i [] h = refl
  none_read i (r ∷ rs) h =
      ap₂ bit_or (unread i r (omega (arith, h))) (none_read (suc i) rs (omega (arith, h)))
      ∙ zero-bit_or 0

  one_read :
      (i d : ℕ) (rs : List ℕ)
      → j ≡ i + d
      → d < length rs
      → ortreereduce (read_regs true ren ps i rs) ≡ get_or (write_regs ps i rs) d 0
  unfolding ortreereduce read_regs write_regs
  one_read i d [] e h = ground (arith, h)
  one_read i zero (r ∷ rs) e h =
      let here : j ≡ i = omega (arith, e) in
      ap₂ bit_or
        (ap (λ b. read_data true b (ports_of i ps) r) (sym (ap ren here) ∙ hot.on)
          ∙ read_data-last_write (ports_of i ps) r)
        (none_read (suc i) rs (omega (arith, e)))
      ∙ bit_or-zero (last_write r (ports_of i ps))
  one_read i (suc d) (r ∷ rs) e h =
      ap₂ bit_or (unread i r (omega (arith, e)))
        (one_read (suc i) d rs (omega (arith, e)) (omega (arith, h)))
      ∙ zero-bit_or (get_or (write_regs ps (suc i) rs) d 0)

  enabled : (i d : ℕ) (rs : List ℕ) → j ≡ i + d → d < length rs → any_enabled ren i rs ≡ true
  unfolding any_enabled
  enabled i d [] e h = ground (arith, h)
  enabled i zero (r ∷ rs) e h =
      let here : j ≡ i = omega (arith, e) in
      ap (λ b. b || any_enabled ren (suc i) rs) (sym (ap ren here) ∙ hot.on)
  enabled i (suc d) (r ∷ rs) e h =
      ap (λ b. b || any_enabled ren (suc i) rs) (hot.off i (omega (arith, e)))
      ∙ enabled (suc i) d rs (omega (arith, e)) (omega (arith, h))

-- A read of one register of a file that forwards writes shows the content that this register has
-- after the clock, whatever the write ports do in it, several at once included: in the combinatorial
-- form in the same clock, in the synchronous form in the next.
pub read-forwards :
    (ren : ℕ → Bool) (j : ℕ) (hot : IsOneHot ren j) (ps : List FilePort) (s : FileState)
    → j < length s.regs
    → (comb_data true ren ps s ≡ get_or (file_cycle true ren ps s).regs j 0)
      × (synced_data (file_cycle true ren ps s) ≡ get_or (file_cycle true ren ps s).regs j 0)
unfolding comb_data synced_data file_cycle
read-forwards ren j hot ps s h =
    let e = one_read ren j hot ps 0 j s.regs (omega arith) h in
    (
      e,
      ap (λ b. if b then ortreereduce (read_regs true ren ps 0 s.regs) else 0)
            (enabled ren j hot ps 0 j s.regs (omega arith) h)
          ∙ e,
    )
