-- ===== src/Regfile.antt =====
-- The register file of regfile/regfile.py that has an enable for each register and port: Register and
-- RegFileArray. The registers are a list, from the lowest; what is shown of a write is one port's
-- enable for one register with the port's data.
use Prim.Native.Nat.{bit_or}
use libresoc_soc.Common.{
  ℕ, zero, suc, ◌+◌, Bool, true, false, not, ◌&&◌, ◌||◌, if◌then◌else◌, List, [], ◌∷◌,
}
pub mod Forwarding
pub mod Tests

-- A write port of a register.
pub record WritePort : Type 0 where
  pub wen : Bool
  pub i_data : ℕ

-- The last of the enabled writes; they are assigned in the order of the ports.
unfoldable pub last_write : ℕ → List WritePort → ℕ
last_write old [] = old
last_write old (wp ∷ wps) = last_write (if wp.wen then wp.i_data else old) wps

unfoldable pub wr_detect : List WritePort → Bool
wr_detect [] = false
wr_detect (wp ∷ wps) = wp.wen || wr_detect wps

-- What a read port of a register is assigned.
unfoldable pub read_data : Bool → Bool → List WritePort → ℕ → ℕ
unfolding last_write wr_detect
read_data writethru ren wps reg =
    if ren
    then (if writethru then (if not (wr_detect wps) then reg else last_write 0 wps) else reg)
    else 0

-- A write port of the file: an enable for each register, and the data.
pub record FilePort : Type 0 where
  pub wen : ℕ → Bool
  pub i_data : ℕ

-- The write ports of register `i`.
unfoldable pub ports_of : ℕ → List FilePort → List WritePort
ports_of i [] = []
ports_of i (p ∷ ps) = record { wen = p.wen i; i_data = p.i_data } ∷ ports_of i ps

-- The registers after a clock, from register `i` on.
unfoldable pub write_regs : List FilePort → ℕ → List ℕ → List ℕ
unfolding last_write ports_of
write_regs ps i [] = []
write_regs ps i (r ∷ rs) = last_write r (ports_of i ps) ∷ write_regs ps (suc i) rs

-- What the read ports of the registers are assigned for the enables of a port of the file.
unfoldable pub read_regs : Bool → (ℕ → Bool) → List FilePort → ℕ → List ℕ → List ℕ
unfolding read_data ports_of
read_regs writethru ren ps i [] = []
read_regs writethru ren ps i (r ∷ rs) =
    read_data writethru (ren i) (ports_of i ps) r ∷ read_regs writethru ren ps (suc i) rs

-- `ortreereduce`.
unfoldable pub ortreereduce : List ℕ → ℕ
ortreereduce [] = 0
ortreereduce (x ∷ xs) = bit_or x (ortreereduce xs)

-- The file with a read port: the registers, and in the synchronous form the read data of each
-- register and whether there was a read.
pub record FileState : Type 0 where
  pub regs : List ℕ
  pub latched : List ℕ
  pub ren_delay : Bool

unfoldable pub any_enabled : (ℕ → Bool) → ℕ → List ℕ → Bool
any_enabled ren i [] = false
any_enabled ren i (r ∷ rs) = ren i || any_enabled ren (suc i) rs

-- A clock of the file.
unfoldable pub file_cycle : Bool → (ℕ → Bool) → List FilePort → FileState → FileState
unfolding write_regs read_regs any_enabled
file_cycle writethru ren ps s = record {
  regs = write_regs ps 0 s.regs;
  latched = read_regs writethru ren ps 0 s.regs;
  ren_delay = any_enabled ren 0 s.regs;
}

-- The data at the read port in the synchronous form.
unfoldable pub synced_data : FileState → ℕ
unfolding ortreereduce
synced_data s = if s.ren_delay then ortreereduce s.latched else 0

-- The data at the read port in the combinatorial form.
unfoldable pub comb_data : Bool → (ℕ → Bool) → List FilePort → FileState → ℕ
unfolding ortreereduce read_regs
comb_data writethru ren ps s = ortreereduce (read_regs writethru ren ps 0 s.regs)
