-- ===== src/Cache.antt =====
-- The caches of experiment/: the replacement policy of experiment/plru.py.
pub mod Plru
