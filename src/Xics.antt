-- ===== src/Xics.antt =====
-- The interrupt controller of interrupts/xics.py: the source side (ICS), the presentation side (ICP)
-- and the two wired together.
pub mod Types
pub mod Icp
pub mod Ics
pub mod Arbiter
pub mod Acceptance
pub mod System
pub mod Presentation
pub mod Response
mod Tests
