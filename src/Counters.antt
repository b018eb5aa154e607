-- ===== src/Counters.antt =====
-- The counters that nodes report: the cache of their snapshots and the rates between two snapshots.
pub mod Cache
pub mod Rate
