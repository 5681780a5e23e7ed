-- ===== src/Pipeline.antt =====
-- scripts/daily_update_pipeline.py: the daily run over the services, its exit code, and what the
-- scheduler makes of it.
pub mod Jobs
pub mod Health
pub mod Run
mod Tests
