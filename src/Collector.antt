-- ===== src/Collector.antt =====
-- The collector of services/collector.
pub mod Domain
pub mod Changes
pub mod Repository
pub mod Presence
pub mod Service
pub mod Rows
pub mod Invariants
mod Samples
mod Tests
