-- ===== src/Pipeline/Tests.antt =====
-- Runs of the pipeline, and its theorems at them.
use shanghai_home_radar.Prelude.{
  ℕ, pos, ◌≡◌, ◌≤◌, ◌↔◌, ◌⊎◌, refl, true, false, some, [], ◌∷◌, ok, err, value_error, arith,
  if◌then◌else◌, leb,
}
use shanghai_home_radar.Collector.Domain.{DataMode, CrawlRunStatus, CrawlCompleteness, Meta}
use shanghai_home_radar.Collector.Service.{CollectionResult}
use shanghai_home_radar.Scheduler.{is_retryable, Attempts, run_pipeline_with_retries, attempts_from}
use shanghai_home_radar.Pipeline.Jobs.{
  Polled, pending, finished, StepResult, JobCounts, wait_for_job, wait_from, settled,
  collection_succeeds,
}
use shanghai_home_radar.Pipeline.Jobs.Waits.{Ends, wait_for_job-Ends}
use shanghai_home_radar.Pipeline.Health.{
  Snapshot, assess_opportunity_output, health_reasons, batch_reasons, healthy,
}
use shanghai_home_radar.Pipeline.Health.Verdicts.{Means, assess_opportunity_output-iff-Means}
use shanghai_home_radar.Pipeline.Run.{
  World, Delivery, delivered, failed, returns, escapes, acquired, released, job_result,
  before_delivery, deliver_daily_result, pipeline_steps, daily_pipeline, run_locked_pipeline, sends,
  main, is_broken, broken, busy, unavailable,
}
use shanghai_home_radar.Pipeline.Run.Exits.{FailsEarly, FailsLate, main-retryable_iff}
use shanghai_home_radar.Pipeline.Run.Sends.{
  IsReady, sends-IsReady, run_pipeline_with_retries-sends, sends_from,
}

abbrev counts : JobCounts
counts = record { evaluated = 8; failed = 0; skipped_insufficient_data = 2 }

-- The third poll finds the job finished.
abbrev third : ℕ → Polled
third i = if leb i 1 then pending else finished (some counts)

wait_for_job-Ends_example :
    (r : StepResult) × (wait_for_job third 300 5 ≡ some r) × Ends third 300 5 0 0 r
wait_for_job-Ends_example = wait_for_job-Ends third 300 5 (omega arith)

abbrev today : Snapshot
today = record {
  evaluated_count = 10;
  eligible_count = 3;
  classification_counts = ("QUALITY_AT_DISCOUNT", 4) ∷ ("INSUFFICIENT_DATA", 6) ∷ [];
}

assess_opportunity_output-iff-Means_example :
    ((assess_opportunity_output today (some counts) DataMode.live 1 2).status ≡ healthy)
    ↔ Means healthy today (some counts) DataMode.live 1 2
assess_opportunity_output-iff-Means_example =
    assess_opportunity_output-iff-Means today (some counts) DataMode.live 1 2 healthy

today_is_healthy :
    (assess_opportunity_output today (some counts) DataMode.live 1 2).status ≡ healthy
unfolding assess_opportunity_output health_reasons batch_reasons
today_is_healthy = refl

abbrev collected : CollectionResult
collected = record {
  run_id = 1;
  source = "beike";
  scope_key = "all";
  status = CrawlRunStatus.succeeded;
  completeness = CrawlCompleteness.complete;
  raw_item_count = 10;
  normalized_item_count = 10;
  parse_error_count = 0;
  reconciliation_performed = true;
  listings_missing_candidate = 0;
  listings_inactivated = 0;
  coverage_guard_triggered = false;
  coverage_guard_reason = Meta.null;
  previous_complete_count = Meta.null;
  current_count_ratio = Meta.null;
}

-- A day on which all goes well, with this webhook.
abbrev good_day : Delivery → World
good_day webhook = record {
  mode = DataMode.live;
  ratio_num = 1;
  ratio_den = 2;
  collected = ok collected;
  market_job = some (λ i. finished (some counts));
  valuation_job = some (λ i. finished (some counts));
  future_job = some (λ i. finished (some counts));
  decision_job = some (λ i. finished (some counts));
  snapshot = some today;
  digest_built = true;
  webhook_configured = true;
  delivery_outcome = webhook;
  artifact_written = true;
  alert = returns;
  lock = acquired;
  release = released;
}

-- A day without a collection.
abbrev bad_day : World
bad_day = record (good_day delivered) { collected = err (value_error "no feed") }

sends-good_day : sends (good_day delivered) ≡ true
unfolding run_locked_pipeline daily_pipeline pipeline_steps deliver_daily_result before_delivery
    collection_succeeds job_result wait_for_job wait_from settled assess_opportunity_output
    health_reasons batch_reasons
sends-good_day = refl

sends-IsReady_example : IsReady (good_day delivered)
sends-IsReady_example = sends-IsReady (good_day delivered) sends-good_day

-- The delivery fails, and an exception escapes from the alert behind it.
abbrev silent_day : World
silent_day = record (good_day failed) { alert = escapes }

-- The webhook was called, and the scheduler is asked to repeat the run.
silent_day_is_repeated : (sends silent_day ≡ true) × (main silent_day ≡ pos 75)
unfolding main run_locked_pipeline daily_pipeline pipeline_steps deliver_daily_result
    before_delivery collection_succeeds job_result wait_for_job wait_from settled
    assess_opportunity_output health_reasons batch_reasons
silent_day_is_repeated = (refl, refl)

main-retryable_iff_example : (is_retryable (main silent_day) ≡ true) ↔ (
    (acquired ≡ unavailable)
    ⊎ (((acquired ≡ busy) × (true ≡ false))
        ⊎ ((acquired ≡ acquired)
            × ((released ≡ broken)
                ⊎ (FailsEarly silent_day ⊎ (FailsLate silent_day × (escapes ≡ escapes)))))))
main-retryable_iff_example = main-retryable_iff silent_day

-- The second attempt succeeds.
abbrev days : ℕ → World
days i = if leb i 1 then bad_day else good_day delivered

two_attempts :
    (r : Attempts) × (run_pipeline_with_retries (λ i. main (days i)) 4 300 500 ≡ ok r)
    × (r.attempts ≡ 2)
unfolding run_pipeline_with_retries attempts_from main run_locked_pipeline daily_pipeline
    pipeline_steps deliver_daily_result before_delivery collection_succeeds job_result wait_for_job
    wait_from settled assess_opportunity_output health_reasons batch_reasons
two_attempts = (_, refl, refl)

whole_days : (i : ℕ) → is_broken (days i).release ≡ false
whole_days i = ground arith

heard_days : (i : ℕ) → (days i).alert ≡ returns
heard_days i = ground arith

run_pipeline_with_retries-sends_example : sends_from days 1 two_attempts.0.attempts ≤ 1
run_pipeline_with_retries-sends_example =
    run_pipeline_with_retries-sends days 4 300 500 two_attempts.0 whole_days heard_days
      two_attempts.1
