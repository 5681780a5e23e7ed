-- ===== src/Valuation.antt =====
-- The valuation service, services/valuation/src/home_radar_valuation.
mod Tests
pub mod Domain
pub mod Config
pub mod Aggregation
pub mod Comparables
pub mod Engine
pub mod Confidence
pub mod Adjustments
pub mod Scoring
pub mod Warnings
