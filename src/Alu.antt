-- ===== src/Alu.antt =====
-- The arithmetic pipeline of fu/alu: the stages of fu/common_input_stage.py, fu/alu/main_stage.py,
-- fu/common_output_stage.py and fu/alu/output_stage.py, and their composition in fu/alu/pipeline.py.
pub mod Types
pub mod InputStage
pub mod MainStage
pub mod OutputStage
pub mod Addition
pub mod Sum
pub mod Flags
pub mod Compare
mod Tests
