-- ===== src/Bus.antt =====
-- The width converter of bus/wb_downconvert.py: a Wishbone master of a wide bus on a narrow slave.
pub mod Downconvert
pub mod Writes
pub mod Transfer
pub mod Reads
pub mod Collect
mod Tests
