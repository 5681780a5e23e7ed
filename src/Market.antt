-- ===== src/Market.antt =====
-- The market baselines of services/market.
pub mod Slices
pub mod Windows
pub mod Latest
mod Tests
