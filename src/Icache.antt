-- ===== src/Icache.antt =====
-- The instruction cache: experiment/icache.py with the memories of experiment/cache_ram.py and the
-- replacement trees of experiment/plru.py.
pub mod Types
pub mod Lookup
pub mod Cycle
pub mod Bus
pub mod Requests
pub mod Counting
pub mod Contents
pub mod Filled
pub mod Tables
pub mod Start
pub mod Request
pub mod Coherence
pub mod Fetch
pub mod Presented
pub mod Stream
pub mod Reset
pub mod Reload
pub mod Completion
pub mod Served
pub mod Invalidation
mod Tests
