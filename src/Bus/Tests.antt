-- ===== src/Bus/Tests.antt =====
-- Runs of the converter of bus/wb_downconvert.py at concrete inputs: 64 bits on 32.
use libresoc_soc.Common.{◌+◌, ◌*◌, ◌^◌, ◌≡◌, refl, arith, true, false, List, [], ◌∷◌, ◌++◌}
use libresoc_soc.Bus.Downconvert.{
  Widths, ratio, idle, Converter, BusInput, convert_outputs, convert_run,
}
use libresoc_soc.Bus.Writes.{Request, Holds, none_left, one_more, taken_writes, fragments}
use libresoc_soc.Bus.Transfer.{write-delivers}
use libresoc_soc.Bus.Reads.{Reads, AllRead, word_from}
use libresoc_soc.Bus.Collect.{read-collects}

abbrev wide : Widths
wide = record { dw_from = 64; dw_to = 32; slen = 4; adr_wid = 30; counter_wid = 1 }

abbrev resting : Converter
resting = record { fsm = idle; counter = 1; cached_data = 7 }

abbrev word : Request
word = record { adr = 5; sel = 255; dat_w = 81985529216486895 }

-- The master's request, with no acknowledgement.
abbrev asks : BusInput
asks = record {
  stb = true;
  cyc = true;
  we = true;
  adr = 5;
  sel = 255;
  dat_w = 81985529216486895;
  ack = false;
  dat_r = 0;
}

abbrev taken : BusInput
taken = record asks { ack = true }

asks-Holds : Holds word asks
asks-Holds = record { stb = refl; cyc = refl; we = refl; adr = refl; sel = refl; dat_w = refl }

taken-Holds : Holds word taken
taken-Holds = record { stb = refl; cyc = refl; we = refl; adr = refl; sel = refl; dat_w = refl }

abbrev between : List BusInput
between = asks ∷ taken ∷ asks ∷ []

write-delivers_example :
    (taken_writes wide resting (asks ∷ (between ++ taken ∷ []))
      ≡ fragments wide word 0 (ratio wide))
    × ((convert_outputs wide (convert_run wide resting (asks ∷ between)) taken).ack ≡ true)
    × ((convert_run wide resting (asks ∷ (between ++ taken ∷ []))).fsm ≡ idle)
unfolding ratio
write-delivers_example =
    write-delivers wide (omega arith) word resting asks between taken refl asks-Holds
      (one_more asks-Holds (one_more taken-Holds (one_more asks-Holds none_left))) taken-Holds refl
      refl

two_fragments :
    fragments wide word 0 2
    ≡ record { adr = 10; sel = 15; dat_w = 2309737967 }
      ∷ record { adr = 11; sel = 15; dat_w = 19088743 }
      ∷ []
unfolding fragments
two_fragments = refl

-- A read whose two halves are 9 and 7.
abbrev reads : BusInput
reads = record asks { we = false; dat_r = 3 }

abbrev nine : BusInput
nine = record reads { ack = true; dat_r = 9 }

abbrev seven : BusInput
seven = record reads { ack = true; dat_r = 7 }

reads-Reads : Reads 32 reads
reads-Reads = record { stb = refl; cyc = refl; we = refl; narrow = omega arith }

nine-Reads : Reads 32 nine
nine-Reads = record { stb = refl; cyc = refl; we = refl; narrow = omega arith }

seven-Reads : Reads 32 seven
seven-Reads = record { stb = refl; cyc = refl; we = refl; narrow = omega arith }

side_by_side : word_from 32 0 (nine ∷ reads ∷ seven ∷ []) ≡ 9 + 7 * 2 ^ 32
unfolding word_from
side_by_side = refl

read-collects_example :
    ((convert_outputs wide (convert_run wide resting (reads ∷ nine ∷ reads ∷ [])) seven).ack ≡ true)
    × ((convert_outputs wide (convert_run wide resting (reads ∷ nine ∷ reads ∷ [])) seven).dat_r
        ≡ word_from 32 0 ((nine ∷ reads ∷ []) ++ seven ∷ []))
    × ((convert_run wide resting (reads ∷ ((nine ∷ reads ∷ []) ++ seven ∷ []))).fsm ≡ idle)
unfolding ratio
read-collects_example =
    read-collects wide refl (omega arith) resting reads (nine ∷ reads ∷ []) seven refl reads-Reads
      (AllRead.one_more nine-Reads (AllRead.one_more reads-Reads AllRead.none_left)) seven-Reads
      refl refl
