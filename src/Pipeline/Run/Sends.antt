-- ===== src/Pipeline/Run/Sends.antt =====
-- When the webhook is called, also over the retries of the scheduler.
use mathlib.Core.Path.{subst}
use shanghai_home_radar.Prelude.{
  ℕ, zero, suc, refl, ◌≡◌, ◌⊎◌, sym, ◌∙◌, ◌≤◌, ◌<◌, ◌+◌, ◌*◌, true, false, not, ◌||◌, ◌==◌, Option,
  none, some, [], Result, ok, err, arith, length, Bool-cases, inl, inr, if◌then◌else◌, Result-cases,
}
use shanghai_home_radar.Collector.Domain.{DataMode, CrawlRunStatus, CrawlCompleteness}
use shanghai_home_radar.Collector.Service.{CollectionResult, is_live}
use shanghai_home_radar.Scheduler.{is_retryable, Attempts, attempts_from, run_pipeline_with_retries}
use shanghai_home_radar.Scheduler.Retries.{attempts_from-Went}
use shanghai_home_radar.Pipeline.Jobs.{
  JobCounts, Polled, pending, failed, finished, StepResult, failures_of, settled, accepted_partial,
  collection_succeeds,
}
use shanghai_home_radar.Pipeline.Jobs.Waits.{Ends, wait_for_job-Ends}
use shanghai_home_radar.Pipeline.Health.{Snapshot, health_reasons, assess_opportunity_output}
use shanghai_home_radar.Pipeline.Health.Verdicts.{IsSound, health_reasons-IsSound}
use shanghai_home_radar.Pipeline.Run.{
  World, acquired, returns, job_result, is_success, counts_of, is_broken, before_delivery,
  deliver_daily_result, pipeline_steps, daily_pipeline, run_locked_pipeline, sends, main,
}

-- The run was complete, or on data that are not live partial with at least one item.
abbrev pub IsAccepted : DataMode → CollectionResult → Type 0
IsAccepted mode r =
    (r.status ≡ CrawlRunStatus.succeeded)
    × ((r.completeness ≡ CrawlCompleteness.complete)
        ⊎ ((is_live mode ≡ false)
            × (r.completeness ≡ CrawlCompleteness.partial)
            × (0 < r.normalized_item_count)))

-- A poll finds the job finished, with no failed item, before the time is over.
abbrev pub IsDone : Option (ℕ → Polled) → ℕ → ℕ → Type 0
IsDone job timeout poll_seconds =
    (polls : ℕ → Polled) × (round : ℕ) × (r : Option JobCounts) × (job ≡ some polls)
    × (polls round ≡ finished r)
    × (failures_of r ≡ 0)
    × (round * poll_seconds < timeout)

-- What the webhook's receiver may rely on: what the run has seen before it.
pub record IsReady (w : World) : Type 0 where
  pub locked : w.lock ≡ acquired
  pub accepted : (r : CollectionResult) × (w.collected ≡ ok r) × IsAccepted w.mode r
  pub market_done : IsDone w.market_job 300 5
  pub valuation_done : IsDone w.valuation_job 1800 10
  pub future_done : IsDone w.future_job 900 10
  pub decision_done : IsDone w.decision_job 600 10
  pub healthy :
      (snapshot : Snapshot) × (w.snapshot ≡ some snapshot)
      × ((is_live w.mode ≡ false)
          ⊎ IsSound snapshot (counts_of (job_result w.decision_job 600 10)) w.ratio_num w.ratio_den)
  pub configured : w.webhook_configured ≡ true

collection_succeeds-IsAccepted :
    (mode : DataMode) (collected : Result CollectionResult)
    → collection_succeeds mode collected ≡ true
    → (r : CollectionResult) × (collected ≡ ok r) × IsAccepted mode r
unfolding collection_succeeds accepted_partial
collection_succeeds-IsAccepted mode (err e) h = ground (arith, h)
collection_succeeds-IsAccepted mode (ok r) h = (r, refl, ground (arith, h))

settled-success :
    (p : Polled) (s : StepResult)
    → settled p ≡ some s
    → s.success ≡ true
    → (r : Option JobCounts) × (p ≡ finished r) × (failures_of r ≡ 0)
unfolding settled
settled-success pending s h k = ground (arith, h)
settled-success failed s h k = ground (arith, h, k)
settled-success (finished r) s h k = (r, refl, ground (arith, h, k))

Ends-IsDone :
    (polls : ℕ → Polled) (timeout poll_seconds : ℕ) (s : StepResult)
    → Ends polls timeout poll_seconds 0 0 s
    → s.success ≡ true
    → IsDone (some polls) timeout poll_seconds
Ends-IsDone polls timeout p s e k = elim e.ends [
  | inl (time, now) ↦
      let (r, found, none_failed) = settled-success (polls (0 + e.waits)) s now k in
      (polls, 0 + e.waits, r, refl, found, none_failed, grind (arith, time))
  | inr (over, same) ↦ ground (arith, same, k)
]

job_result-IsDone :
    (job : Option (ℕ → Polled)) (timeout poll_seconds : ℕ)
    → 1 ≤ poll_seconds
    → is_success (job_result job timeout poll_seconds) ≡ true
    → IsDone job timeout poll_seconds
unfolding job_result
job_result-IsDone none timeout p one h = ground (arith, h)
job_result-IsDone (some polls) timeout p one h =
    let (r, returned, e) = wait_for_job-Ends polls timeout p one in
    Ends-IsDone polls timeout p r e (ground (arith, h, returned))

-- What the guards before the delivery let through.
sends-guards :
    (w : World)
    → sends w ≡ true
    → (w.lock ≡ acquired)
      × (w.webhook_configured ≡ true)
      × (collection_succeeds w.mode w.collected ≡ true)
      × (is_success (job_result w.market_job 300 5) ≡ true)
      × (is_success (job_result w.valuation_job 1800 10) ≡ true)
      × (is_success (job_result w.future_job 900 10) ≡ true)
      × (is_success (job_result w.decision_job 600 10) ≡ true)
      × ((snapshot : Snapshot) × (w.snapshot ≡ some snapshot)
          × ((is_live w.mode ≡ false)
              ⊎ (health_reasons snapshot
                    (counts_of (job_result w.decision_job 600 10))
                    w.ratio_num
                    w.ratio_den
                  ≡ [])))
unfolding run_locked_pipeline daily_pipeline pipeline_steps deliver_daily_result before_delivery
    assess_opportunity_output
sends-guards w h = ground arith

-- A run calls the webhook only if it holds the lock and the webhook is configured, the collection
-- succeeded and was complete, or on data that are not live partial with an item, each of the four jobs
-- was found finished in time and without a failed item, and there is a snapshot, which on live data is
-- sound.
pub sends-IsReady : (w : World) → sends w ≡ true → IsReady w
sends-IsReady w h =
    let (
      locked,
      configured,
      collected,
      market,
      valuation,
      future,
      decision,
      (snapshot, found, sound),
    ) =
      sends-guards w h in
    record {
      locked = locked;
      accepted = collection_succeeds-IsAccepted w.mode w.collected collected;
      market_done = job_result-IsDone w.market_job 300 5 (omega arith) market;
      valuation_done = job_result-IsDone w.valuation_job 1800 10 (omega arith) valuation;
      future_done = job_result-IsDone w.future_job 900 10 (omega arith) future;
      decision_done = job_result-IsDone w.decision_job 600 10 (omega arith) decision;
      healthy = (
        snapshot,
        found,
        ground (
          arith,
          sound,
          health_reasons-IsSound snapshot (counts_of (job_result w.decision_job 600 10)) w.ratio_num
              w.ratio_den,
        ),
      );
      configured = configured;
    }

-- A run that called the webhook asks for no retry, unless the release of the lock broke or an
-- exception escaped from the alert.
sends-final :
    (w : World)
    → is_broken w.release ≡ false
    → w.alert ≡ returns
    → sends w ≡ true
    → is_retryable (main w) ≡ false
unfolding main run_locked_pipeline daily_pipeline pipeline_steps deliver_daily_result
    before_delivery
sends-final w b a h = ground arith

-- The calls in `n` runs from the one of `attempt` on.
abbrev pub sends_from : (ℕ → World) → ℕ → ℕ → ℕ
sends_from worlds attempt zero = 0
sends_from worlds attempt (suc n) =
    (if sends (worlds attempt) then 1 else 0) + sends_from worlds (attempt + 1) n

ok_injective : {a b : Attempts} → ok a ≡ ok b → a ≡ b
ok_injective e = ground (arith, e)

attempts_from-sends :
    (worlds : ℕ → World) (initial_delay max_delay max_attempts attempt left : ℕ) (r : Attempts)
    → ((i : ℕ) → is_broken (worlds i).release ≡ false)
    → ((i : ℕ) → (worlds i).alert ≡ returns)
    → attempts_from (λ i. main (worlds i)) initial_delay max_delay max_attempts attempt left ≡ ok r
    → sends_from worlds attempt (suc (length r.delays)) ≤ 1
unfolding attempts_from
attempts_from-sends worlds i m n attempt zero r b a e = ground (arith, e)
attempts_from-sends worlds i m n attempt (suc left) r b a e =
    let rest = attempts_from (λ j. main (worlds j)) i m n (attempt + 1) left in
    elim (Bool-cases (not (is_retryable (main (worlds attempt))) || attempt == n)) [
      | inl stop ↦ ground (arith, stop, e)
      | inr again ↦ elim (Result-cases rest) [
        | inl (r', later) ↦ ground (
          arith,
          again,
          later,
          e,
          sends-final (worlds attempt) (b attempt) (a attempt),
          attempts_from-sends worlds i m n (attempt + 1) left r' b a later,
        )
        | inr (error, later) ↦ ground (arith, again, later, e)
      ]
    ]

-- Over all the retries of one schedule the webhook is called in at most one run, if no release of the
-- lock breaks and no exception escapes from an alert.
pub run_pipeline_with_retries-sends :
    (worlds : ℕ → World) (max_attempts initial_delay max_delay : ℕ) (r : Attempts)
    → ((i : ℕ) → is_broken (worlds i).release ≡ false)
    → ((i : ℕ) → (worlds i).alert ≡ returns)
    → run_pipeline_with_retries (λ i. main (worlds i)) max_attempts initial_delay max_delay ≡ ok r
    → sends_from worlds 1 r.attempts ≤ 1
unfolding run_pipeline_with_retries
run_pipeline_with_retries-sends worlds zero i m r b a e = ground (arith, e)
run_pipeline_with_retries-sends worlds (suc left) i m r b a e =
    let (r', done, w) =
      attempts_from-Went (λ j. main (worlds j)) i m (suc left) 1 left (omega arith) in
    let inner : attempts_from (λ j. main (worlds j)) i m (suc left) 1 (suc left) ≡ ok r =
      ground (arith, e) in
    let same : r' ≡ r = ok_injective (sym done ∙ inner) in
    let rounds : suc (length r.delays) ≡ r.attempts = omega (arith, (rw same at w).slept) in
    subst (λ x. sends_from worlds 1 x ≤ 1) rounds
      (attempts_from-sends worlds i m (suc left) 1 (suc left) r b a inner)
