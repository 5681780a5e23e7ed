-- ===== src/Pipeline/Jobs.antt =====
-- scripts/daily_update_pipeline.py: `_wait_for_job` and `run_collection`. What a job is at each poll is
-- an argument, as is what the collector gave.
pub mod Waits
use shanghai_home_radar.Prelude.{
  ℕ, zero, suc, ◌+◌, ◌*◌, Bool, true, false, not, ◌&&◌, ◌||◌, Option, none, some, String, Result,
  ok, err, ltb, if◌then◌else◌,
}
use shanghai_home_radar.Collector.Domain.{DataMode}
use shanghai_home_radar.Collector.Service.{
  CollectionResult, is_succeeded, is_complete, is_partial, is_live,
}

-- The counts that the result of a job may hold; a key that is missing counts as 0.
pub record JobCounts : Type 0 where
  pub evaluated : ℕ
  pub failed : ℕ
  pub skipped_insufficient_data : ℕ

-- What a poll finds; the result is absent where it is no dictionary.
pub data Polled : Type 0 where
  pending failed : Polled
  finished : Option JobCounts → Polled

pub record StepResult : Type 0 where
  pub success : Bool
  pub error : Option String
  pub result : Option JobCounts

abbrev pub failures_of : Option JobCounts → ℕ
failures_of none = 0
failures_of (some r) = r.failed

-- The return of the loop's body, where it returns.
unfoldable pub settled : Polled → Option StepResult
settled pending = none
settled failed = some (record { success = false; error = some "Job failed"; result = none })
settled (finished r) = some (
    if ltb 0 (failures_of r)
    then record { success = false; error = some "Job completed with item failures"; result = r }
    else record { success = true; error = none; result = r })

abbrev pub timed_out : StepResult
timed_out = record { success = false; error = some "Job timeout"; result = none }

-- The loop, with as many rounds as the last argument says: none where they are not enough. The poll
-- of round `round` is at `elapsed`.
unfoldable pub wait_from : (ℕ → Polled) → ℕ → ℕ → ℕ → ℕ → ℕ → Option StepResult
wait_from polls timeout poll_seconds round elapsed zero = none
wait_from polls timeout poll_seconds round elapsed (suc left) =
    let rest = wait_from polls timeout poll_seconds (suc round) (elapsed + poll_seconds) left in
    if ltb elapsed timeout
    then elim (settled (polls round)) [ some r ↦ some r | none ↦ rest ]
    else some timed_out

-- `_wait_for_job`: a round for each second, and one that finds the time over.
unfoldable pub wait_for_job : (ℕ → Polled) → ℕ → ℕ → Option StepResult
wait_for_job polls timeout poll_seconds = wait_from polls timeout poll_seconds 0 0 (suc timeout)

-- The end of `run_collection`: whether a partial run is accepted, and the step's success.
unfoldable pub accepted_partial : DataMode → CollectionResult → Bool
accepted_partial mode r =
    not (is_live mode) && is_partial r.completeness && ltb 0 r.normalized_item_count

unfoldable pub collection_succeeds : DataMode → Result CollectionResult → Bool
unfolding accepted_partial
collection_succeeds mode (err e) = false
collection_succeeds mode (ok r) =
    is_succeeded r.status && (is_complete r.completeness || accepted_partial mode r)
