-- ===== src/Pipeline/Run.antt =====
-- scripts/daily_update_pipeline.py: `daily_pipeline`, `run_locked_pipeline` and `main`. What the
-- services answer in one run is an argument.
pub mod Exits
pub mod Sends
use shanghai_home_radar.Prelude.{
  ℕ, suc, ℤ, pos, Bool, true, false, not, ◌&&◌, ◌||◌, Option, none, some, List, [], ◌∷◌, ◌++◌,
  Result, if◌then◌else◌,
}
use shanghai_home_radar.Collector.Domain.{DataMode}
use shanghai_home_radar.Collector.Repository.{any}
use shanghai_home_radar.Collector.Service.{CollectionResult}
use shanghai_home_radar.Pipeline.Jobs.{
  Polled, StepResult, wait_for_job, collection_succeeds, JobCounts,
}
use shanghai_home_radar.Pipeline.Health.{
  Snapshot, HealthStatus, blocked, assess_opportunity_output, Health,
}

-- `current_stage`
pub data Stage : Type 0 where
  collection market_baseline valuation future_assessment decision daily_report opportunity_health
        delivery artifact_persistence :
      Stage

-- What the call of `deliver_daily_digest` ends in: a webhook that took the digest, an error that is
-- caught, or another exception.
pub data Delivery : Type 0 where
  delivered failed raised : Delivery

-- What `send_alert` does: it returns, as it also does without a webhook and behind an error of HTTP,
-- or another exception escapes from it.
pub data Alert : Type 0 where
  returns escapes : Alert

-- What `lock.acquire` ends in, and what `lock.release` does: an expired lock is only logged, another
-- error of Redis is raised.
pub data Lock : Type 0 where
  acquired busy unavailable : Lock

pub data Release : Type 0 where
  released lock_lost broken : Release

-- The answers of the services in one run. A job that could not be enqueued is absent. The snapshot is
-- absent where the report or it fails. A record that cannot be written is never written in the run.
pub record World : Type 0 where
  pub mode : DataMode
  pub ratio_num : ℕ
  pub ratio_den : ℕ
  pub collected : Result CollectionResult
  pub market_job : Option (ℕ → Polled)
  pub valuation_job : Option (ℕ → Polled)
  pub future_job : Option (ℕ → Polled)
  pub decision_job : Option (ℕ → Polled)
  pub snapshot : Option Snapshot
  pub digest_built : Bool
  pub webhook_configured : Bool
  pub delivery_outcome : Delivery
  pub artifact_written : Bool
  pub alert : Alert
  pub lock : Lock
  pub release : Release

-- How a part of the `try` block ends: it passes, or an exception leaves it at a stage.
pub data Checked {ℓ} (A : Type ℓ) : Type ℓ where
  passed : A → Checked A
  stopped : Stage → Checked A

-- The calls of a run that reach beyond it, in their order.
pub data Effect : Type 0 where
  calls_webhook writes_artifact calls_alert : Effect

-- A part of the `try` block: the calls that it made, which an exception does not undo, and its end.
pub record Step {ℓ} (A : Type ℓ) : Type ℓ where
  pub effects : List Effect
  pub ending : Checked A

module _ {ℓ κ} {A : Type ℓ} {B : Type κ} where
  -- The calls of the first part, then those of the rest, if it is reached.
  abbrev pub resume : List Effect → Checked A → (A → Step B) → Step B
  resume effects (passed a) rest = record {
    effects = effects ++ (rest a).effects;
    ending = (rest a).ending;
  }
  resume effects (stopped s) rest = record { effects = effects; ending = stopped s }

  infixl 5 ◌>>=◌
  abbrev pub ◌>>=◌ : Step A → (A → Step B) → Step B
  step >>= rest = resume step.effects step.ending rest

module _ {ℓ} {B : Type ℓ} where
  infixl 5 ◌>>◌
  abbrev pub ◌>>◌ : Step (Unit {0}) → Step B → Step B
  step >> rest = step >>= λ _. rest

abbrev pub pure {ℓ} : {A : Type ℓ} → A → Step A
pure a = record { effects = []; ending = passed a }

abbrev pub raise {ℓ} : {A : Type ℓ} → Stage → Step A
raise stage = record { effects = []; ending = stopped stage }

abbrev pub tell : Effect → Step (Unit {0})
tell effect = record { effects = effect ∷ []; ending = passed tt }

abbrev pub require : Bool → Stage → Step (Unit {0})
require test stage = if test then pure tt else raise stage

-- The result of a step that waits for a job; one that runs out of rounds does not occur.
unfoldable pub job_result : Option (ℕ → Polled) → ℕ → ℕ → Option StepResult
job_result none timeout poll_seconds = none
job_result (some polls) timeout poll_seconds = wait_for_job polls timeout poll_seconds

abbrev pub is_success : Option StepResult → Bool
is_success none = false
is_success (some r) = r.success

abbrev pub counts_of : Option StepResult → Option JobCounts
counts_of none = none
counts_of (some r) = r.result

abbrev pub from_option {ℓ} : {A : Type ℓ} → Stage → Option A → Step A
from_option stage none = raise stage
from_option stage (some a) = pure a

abbrev pub is_blocked : HealthStatus → Bool
is_blocked blocked = true
is_blocked _ = false

-- The steps of `daily_pipeline` before the delivery.
unfoldable pub before_delivery : World → Step Health
before_delivery w = do
  require (collection_succeeds w.mode w.collected) collection
  require (is_success (job_result w.market_job 300 5)) market_baseline
  require (is_success (job_result w.valuation_job 1800 10)) valuation
  require (is_success (job_result w.future_job 900 10)) future_assessment
  require (is_success (job_result w.decision_job 600 10)) decision
  snapshot ← from_option daily_report w.snapshot
  let health =
      assess_opportunity_output snapshot (counts_of (job_result w.decision_job 600 10)) w.mode
        w.ratio_num w.ratio_den
  require (not (is_blocked health.status)) opportunity_health
  pure health

abbrev pub is_delivered : Delivery → Bool
is_delivered delivered = true
is_delivered _ = false

-- `deliver_daily_result`, with the test of its status.
unfoldable pub deliver_daily_result : World → Step (Unit {0})
deliver_daily_result w = do
  require w.digest_built delivery
  if not w.webhook_configured
      then pure tt
      else (tell calls_webhook >> require (is_delivered w.delivery_outcome) delivery)

-- `persist_run_artifact`
abbrev pub persist_run_artifact : World → Step (Unit {0})
persist_run_artifact w = tell writes_artifact >> require w.artifact_written artifact_persistence

-- The `try` block of `daily_pipeline`.
unfoldable pub pipeline_steps : World → Step (Unit {0})
pipeline_steps w = do health ← before_delivery w; deliver_daily_result w; persist_run_artifact w

-- What leaves a run: a result, a `DailyPipelineFailure` of a stage, or another exception.
pub data Outcome : Type 0 where
  returned escaped : Outcome
  pipeline_failure : Stage → Outcome

pub record Run : Type 0 where
  pub calls : List Effect
  pub outcome : Outcome

-- The handler: the record of the failed run, whose own failure is caught, and then the alert, whose
-- failure is not, except for an error of HTTP.
abbrev pub failed_outcome : Alert → Stage → Outcome
failed_outcome returns stage = pipeline_failure stage
failed_outcome escapes stage = escaped

abbrev pub handle : World → List Effect → Checked (Unit {0}) → Run
handle w effects (passed _) = record { calls = effects; outcome = returned }
handle w effects (stopped stage) = record {
  calls = effects ++ writes_artifact ∷ calls_alert ∷ [];
  outcome = failed_outcome w.alert stage;
}

unfoldable pub daily_pipeline : World → Run
daily_pipeline w = handle w (pipeline_steps w).effects (pipeline_steps w).ending

abbrev pub is_broken : Release → Bool
is_broken broken = true
is_broken _ = false

-- `run_locked_pipeline`: an error of the release takes the place of what the run ends in.
unfoldable pub run_locked_pipeline : World → Run
run_locked_pipeline w = elim w.lock [
  | unavailable ↦ record { calls = []; outcome = escaped }
  | busy ↦ record {
    calls = writes_artifact ∷ [];
    outcome = if w.artifact_written then returned else escaped;
  }
  | acquired ↦
      if is_broken w.release
      then record (daily_pipeline w) { outcome = escaped }
      else daily_pipeline w
]

-- `retryable` of a `DailyPipelineFailure`.
abbrev pub is_retryable_stage : Stage → Bool
is_retryable_stage delivery = false
is_retryable_stage artifact_persistence = false
is_retryable_stage _ = true

-- The exit code that `main` gives what leaves the run.
abbrev pub exit_code : Outcome → ℤ
exit_code returned = pos 0
exit_code escaped = pos 75
exit_code (pipeline_failure stage) = if is_retryable_stage stage then pos 75 else pos 1

unfoldable pub main : World → ℤ
main w = exit_code (run_locked_pipeline w).outcome

abbrev pub is_webhook_call : Effect → Bool
is_webhook_call calls_webhook = true
is_webhook_call _ = false

-- The calls of the run hold one of the webhook.
abbrev pub sends : World → Bool
sends w = any is_webhook_call (run_locked_pipeline w).calls
