-- ===== src/LoadStore.antt =====
-- The state machine between the load and store units, the D-cache and the memory management unit:
-- fu/ldst/loadstore.py, with its links of experiment/mem_types.py.
pub mod Types
pub mod Cycle
pub mod Access
pub mod Lookup
pub mod System
pub mod Tests
