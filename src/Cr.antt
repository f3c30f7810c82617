-- ===== src/Cr.antt =====
-- The condition register unit of fu/cr: fu/cr/main_stage.py, with the data of fu/cr/pipe_data.py and
-- the operation of fu/cr/cr_input_record.py.
pub mod Stage
pub mod Logic
pub mod Tests
