-- ===== src/Decision.antt =====
-- The decision stage of services/decision.
pub mod Domain
pub mod Config
pub mod Classification
pub mod Workflow
pub mod Reasons
pub mod Orchestrator
pub mod Gate
pub mod Validation
pub mod BlindMetrics
pub mod Blind
pub mod Ranking
mod Samples
mod Tests
