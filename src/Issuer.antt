-- ===== src/Issuer.antt =====
-- The issuer: simple/issuer.py, the state machines that issue and execute instructions.
pub mod Types
pub mod Issue
pub mod Execute
pub mod Cycle
pub mod Pairing
pub mod Skip
pub mod Element
pub mod Round
pub mod Loop
mod Tests
pub mod Fetch
pub mod Fetched
