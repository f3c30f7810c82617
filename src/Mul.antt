-- ===== src/Mul.antt =====
-- The multiplier of fu/mul: its three stages, fu/mul/pre_stage.py, fu/mul/main_stage.py and
-- fu/mul/post_stage.py, on the data of fu/mul/pipe_data.py and fu/div/pipe_data.py.
pub mod Types
pub mod Stages
pub mod Product
pub mod Select
mod Tests
