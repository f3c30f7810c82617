-- ===== src/Trap.antt =====
-- The trap unit of fu/trap: fu/trap/main_stage.py, its inputs and outputs of fu/trap/pipe_data.py and
-- its operation record of fu/trap/trap_input_record.py.
pub mod Types
pub mod Msr
pub mod Stage
pub mod Isa
pub mod Bits
pub mod Return
pub mod Moves
pub mod Tests
pub mod RoundTrip
pub mod Restore
