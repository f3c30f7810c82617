-- ===== src/Issuer/Tests.antt =====
-- The machines of simple/issuer.py on a vector of three elements with the mask 0b110.
use libresoc_soc.Common.{ℕ, ◌^◌, ◌==◌, if◌then◌else◌, refl, arith, true, false, none, List, [], ◌∷◌}
use libresoc_soc.Issuer.Types.{
  pred_skip, insn_start, Svstate, Decoded, CoreInput, StateWords, IssueRegs, IssueInput,
}
use libresoc_soc.Issuer.Cycle.{issue_run}
use libresoc_soc.Issuer.Pairing.{IsPaired, issue_run-IsPaired}
use libresoc_soc.Issuer.Element.{IsSkipped, skip-IsSkipped}
use libresoc_soc.Issuer.Round.{regs}
use libresoc_soc.Issuer.Fetch.{fetch_idle, FetchRegs, Prefix, FetchInput}
use libresoc_soc.Issuer.Loop.{Round, rounds, looping, IsLooped, loop-IsLooped}

abbrev vector : Svstate
vector = record { svstep = 0; subvl = 0; dststep = 0; srcstep = 0; vl = 3; maxvl = 3 }

abbrev add : Decoded
add = record {
  e = 7;
  raw_insn = 7;
  bigendian = false;
  sv_rm = 1;
  sv_a_nz = false;
  svp64_mode = true;
  svp64_ldst = false;
}

abbrev words : StateWords
words = record { pc = 0x1000; msr = 0; eint = false; dec_spr = 0 }

abbrev before : CoreInput
before = record { decoded = add; state = record { words = words; vector = vector } }

abbrev input : IssueInput
input = record {
  core_stop = false;
  core_rst = false;
  fetch_pc_o_ready = true;
  fetch_insn_o_valid = true;
  fetched_svstate = vector;
  nia = 0x1008;
  is_svp64_mode = true;
  pred_insn_o_ready = true;
  pred_mask_o_valid = true;
  pred_srcmask = none;
  pred_dstmask = none;
  pred_sz = false;
  pred_dz = false;
  loop_continue = true;
  dec = add;
  cur_words = words;
  pc_i = none;
  svstate_i = none;
  core_busy = false;
  insn_is_nop = false;
  nia_wen_pc = false;
  nia_wen_sv = false;
}

abbrev skipping : IssueRegs
skipping = regs pred_skip insn_start vector 6 6 false false before

issue_run-IsPaired_example : IsPaired (issue_run true skipping (input ∷ input ∷ input ∷ []))
issue_run-IsPaired_example =
    issue_run-IsPaired true skipping (input ∷ input ∷ input ∷ []) (record { active = refl })

skip-IsSkipped_example : IsSkipped skipping input 6 6
skip-IsSkipped_example =
    skip-IsSkipped skipping input 6 6 refl refl refl refl refl refl (omega arith) (omega arith) refl
      refl (omega arith) (omega arith)

-- Three elements from the first on, the first of them with a busy core.
abbrev element : List IssueInput → Round
element ws = record { skip = input; decode = input; hand = input; busy = ws; end = input }

loop-IsLooped_example :
    IsLooped vector
      (looping vector false false before)
      (rounds (element (input ∷ input ∷ []) ∷ element [] ∷ element [] ∷ []))
      3
loop-IsLooped_example =
    loop-IsLooped vector false false before
      (element (input ∷ input ∷ []) ∷ element [] ∷ element [] ∷ []) (omega arith) (omega arith)
      (omega arith) refl

-- A prefixed instruction at 0x1004, whose second word is in the next row.
abbrev no_input : FetchInput
no_input = record {
  core_rst = false;
  pc = 0x1004;
  pc_i_valid = true;
  insn_i_ready = false;
  f_busy_o = false;
  f_instr_o = 0;
  msr = 0;
}

abbrev fetching : FetchRegs
fetching = record {
  fetch = fetch_idle;
  msr_read = true;
  cur_pc = 0x1000;
  cur_msr = 0;
  nia = 0x1004;
  is_svp64_mode = false;
  dec_svp64_mode = false;
  dec_sv_rm = 0;
  dec_opcode = 0;
}

abbrev decoder : ℕ → Prefix
decoder insn = record { is_prefix = insn == 1; rm = 0 }

abbrev rows : ℕ → ℕ
rows a = if a == 0x200 then 2 ^ 32 else 9
