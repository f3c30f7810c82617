-- ===== src/Mmu.antt =====
-- The radix MMU of experiment/mmu.py.
pub mod Types
pub mod Handlers
pub mod Cycle
pub mod Outputs
pub mod Walk
pub mod Report
pub mod Liveness
pub mod Permission
pub mod Shift
mod Tests
