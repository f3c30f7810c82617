-- ===== src/Issuer/Execute.antt =====
-- simple/issuer.py: execute_fsm, which gives the core an instruction and waits for its end, and
-- tb_dec_fsm, which counts the decrementer down and the time base up.
use libresoc_soc.Common.{
  ℕ, ◌+◌, Bool, true, false, not, ◌&&◌, if◌then◌else◌, Option, none, some, sub, trunc,
}
use libresoc_soc.Issuer.Types.{
  ExecState, insn_start, insn_active, DecTbState, dec_read, dec_write, tb_read, tb_write,
  IssueInput,
}

unfoldable pub exec_insn_o_ready : ExecState → Bool
exec_insn_o_ready insn_start = true
exec_insn_o_ready insn_active = false

unfoldable pub exec_pc_o_valid : ExecState → IssueInput → Bool
exec_pc_o_valid insn_start x = false
exec_pc_o_valid insn_active x = not x.core_busy

-- The machine's next state, from the issue machine's side of both handshakes.
unfoldable pub next_exec : ExecState → IssueInput → Bool → Bool → ExecState
next_exec insn_start x insn_i_valid pc_i_ready = if insn_i_valid then insn_active else insn_start
next_exec insn_active x insn_i_valid pc_i_ready =
    if not x.core_busy && pc_i_ready then insn_start else insn_active

-- `core.issue_i` and `core.ivalid_i`.
unfoldable core_issue_i : ExecState → Bool → Bool
core_issue_i insn_start insn_i_valid = insn_i_valid
core_issue_i insn_active insn_i_valid = false

unfoldable core_ivalid_i : ExecState → IssueInput → Bool → Bool
core_ivalid_i insn_start x insn_i_valid = insn_i_valid
core_ivalid_i insn_active x insn_i_valid = not x.insn_is_nop

-- Whether PC or SVSTATE was written by the instruction: a flag after the clock, with the write enable
-- of its register.
unfoldable pub changed_next : ExecState → Bool → Bool → Bool → Bool
changed_next insn_start insn_i_valid wen old = if insn_i_valid then false else old
changed_next insn_active insn_i_valid wen old = if wen then true else old

-- The decrementer and the time base, one after the other.
unfoldable next_dec_tb : DecTbState → DecTbState
next_dec_tb dec_read = dec_write
next_dec_tb dec_write = tb_read
next_dec_tb tb_read = tb_write
next_dec_tb tb_write = dec_read

unfoldable dec_of : DecTbState → ℕ → Option ℕ
dec_of dec_write o_data = some (sub 64 o_data 1)
dec_of _ o_data = none

unfoldable tb_of : DecTbState → ℕ → Option ℕ
tb_of tb_write o_data = some (trunc 64 (o_data + 1))
tb_of _ o_data = none
