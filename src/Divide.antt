-- ===== src/Divide.antt =====
-- The divider pipeline of fu/div around its core: fu/div/setup_stage.py and fu/div/output_stage.py on
-- the data of fu/div/pipe_data.py, and their chain with the core of fu/div/fsm.py.
pub mod Types
pub mod Stages
pub mod Signed
pub mod Numbers
pub mod Core
pub mod Result
pub mod Pipeline
mod Tests
