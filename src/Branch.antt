-- ===== src/Branch.antt =====
-- The branch unit of fu/branch: fu/branch/main_stage.py, its inputs and outputs of
-- fu/branch/pipe_data.py and its operation record of fu/branch/br_input_record.py.
pub mod Types
pub mod Stage
pub mod Condition
pub mod Target
pub mod Counting
mod Tests
