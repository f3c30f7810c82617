-- ===== src/Spr.antt =====
-- The special register unit of fu/spr: fu/spr/main_stage.py, with the data of fu/spr/pipe_data.py.
pub mod Stage
pub mod Xer
pub mod Tests
