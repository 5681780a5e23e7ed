-- ===== src/Collector/Invariants.antt =====
-- What a collection run keeps true of the store.
pub mod Presences
pub mod Times
pub mod Uniqueness
pub mod Outcomes
pub mod Completeness
pub mod Counts
pub mod Misses
