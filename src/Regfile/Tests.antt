-- ===== src/Regfile/Tests.antt =====
-- A run of regfile/regfile.py at a concrete input: two writes to the register that is read.
use libresoc_soc.Common.{ℕ, ◌≡◌, refl, arith, Bool, true, false, ◌==◌, ◌||◌, List, [], ◌∷◌, get_or}
use libresoc_soc.Regfile.{FilePort, FileState, file_cycle, synced_data, comb_data}
use libresoc_soc.Regfile.Forwarding.{IsOneHot, read-forwards}

abbrev second : ℕ → Bool
second n = n == 1

second-IsOneHot : IsOneHot second 1
second-IsOneHot = record { on = refl; off = λ n h. ground (arith, h) }

abbrev file : FileState
file = record { regs = 7 ∷ 8 ∷ 9 ∷ []; latched = []; ren_delay = false }

abbrev writes : List FilePort
writes =
    record { wen = λ n. n == 1 || n == 2; i_data = 5 }
    ∷ record { wen = λ n. n == 1; i_data = 6 }
    ∷ record { wen = λ n. n == 0; i_data = 4 }
    ∷ []

last_wins : get_or (file_cycle true second writes file).regs 1 0 ≡ 6
unfolding file_cycle
last_wins = refl

read-forwards_example :
    (comb_data true second writes file ≡ get_or (file_cycle true second writes file).regs 1 0)
    × (synced_data (file_cycle true second writes file)
        ≡ get_or (file_cycle true second writes file).regs 1 0)
read-forwards_example = read-forwards second 1 second-IsOneHot writes file (omega arith)
