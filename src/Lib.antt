-- ===== src/Lib.antt =====
-- Shanghai Home Radar: a research tool that collects resale listings, values them and ranks those
-- worth following. This library models its deterministic core.
--
-- Parts and files:
-- - Prelude: shared names, lists, Python's `Decimal` as the whole number of its millionths (the
--   database columns and the configuration hold at most six decimals, but for coordinates, which are
--   only copied, and the modelled code only compares, negates and rounds them), exceptions as
--   `Result`, dictionaries as their entries.
-- - Sorting: Python's stable `sorted` and the order of key tuples.
-- - Decision (services/decision/src/home_radar_decision): Domain (domain.py), Config (config.py),
--   Classification (classification.py), Workflow (workflow.py), Reasons (why_ranked.py), Orchestrator
--   (orchestrator.py) and Ranking (ranking.py). `evaluate` runs the checks, the classification, the
--   gates and the reasons in the order of `DecisionOrchestrator.evaluate`; `rank_eligible` sorts what
--   it returns.
-- - Decision/Gate (p56_metrics.py, p56_config.py): the gate of the validation on real listings.
-- - Decision/Validation (real_world_validation.py, p56_metrics.py): a run of that validation. Entries
--   creates it, Stages labels and freezes, Generation adds what the model says, Closing reveals, reviews
--   and finalizes, Metrics counts. A snapshot that an entry brings is its keys and an opaque document,
--   without a `listing_id` of its own. Lifecycle is the step relation of these operations; the hashes, the
--   assessments and the runtime check's entries are its environment.
-- - Decision/Blind (blind_validation.py) and Decision/BlindMetrics (validation.py): blind batches and
--   their metrics. The rows of one batch are its state, here and in Decision/Validation, so a batch that is not there is not modelled.
-- - Collector (services/collector/src/home_radar_collector, packages/models/src/home_radar_models):
--   Domain (the rows, contracts.py), Changes (change_detection.py), Repository and Presence
--   (repository.py), Service, Service/Items and Service/Collect (service.py). The database is a record of tables,
--   each a list of rows; a method of the repository maps the store to the store after it. `collect`
--   is the whole run: what the source's adapter answers, the clock, the lock of the scope and the
--   items that the database refuses are its arguments, and a rollback returns to the store from
--   before. Collector/Invariants proves what a run keeps; Service/Preserve carries a property of the
--   store through all steps of a run.
-- - Scheduler (scripts/daily_scheduler.py): the next run, the reason for a run at start-up, and the
--   retries; the pipeline's exit codes are an argument.
-- - Pipeline (scripts/daily_update_pipeline.py): Jobs (the wait for a job, the acceptance of a
--   collection), Health (the health of the output) and Run (the stages, the lock and the exit codes).
--   What the services answer in one run is a record, and the calls that reach beyond the run, of the
--   webhook, the artifact and the alert, are logged in their order. An exception that escapes from the
--   alert takes the place of the run's failure. Run/Sends joins it with the scheduler's retries.
-- - Market (services/market/src/home_radar_market): Slices and Latest (domain.py) and Windows (windows.py).
-- - Keyed: the dictionary that keeps the newest element of each key, for Market and Valuation.
-- - Arithmetic: what the valuation does with Python's `Decimal`, which rounds every result to 28 digits,
--   as a record of operations with the laws that correct rounding gives; Arithmetic/Fixed shows with
--   whole millionths that the laws can hold.
-- - Valuation (services/valuation/src/home_radar_valuation): Domain (domain.py), Config (config.py),
--   Comparables and Comparables/Selection (comparables.py), Adjustments (adjustments.py), Aggregation
--   (aggregation.py), Confidence (confidence.py), Scoring (scoring.py), Warnings (warnings.py) and
--   Engine (engine.py, history.py), whose `evaluate_property` composes them as `evaluate` does. The
--   configuration's decimals are exact, all computed ones are over the abstract arithmetic.
--
-- All loops are structural recursion on the list that the source iterates over, or, in the
-- scheduler, on the number of attempts left; the wait for a job runs on fuel, a round for each second
-- of its time-out and one more, which is shown to be enough where the pause is a second or more.
--
-- Not modelled: the web application, the HTTP API, the database schema and its migrations, the
-- notification and scoring helpers, browser automation, the other scripts, the database fingerprints
-- and the reports of the validation, the materializers, the rest of the market service, the
-- fingerprint, explanations and cache of the valuation, and the forecasting service; a database that
-- fails outside of a single item.
pub mod Prelude
pub mod Sorting
pub mod Decision
pub mod Collector
pub mod Scheduler
pub mod Pipeline
pub mod Arithmetic
pub mod Keyed
pub mod Market
pub mod Valuation
