-- ===== src/Pipeline/Health.antt =====
-- scripts/daily_update_pipeline.py: `assess_opportunity_output`. The minimum of the coverage is a
-- quotient of two numbers, and the ratio, a float in the source, is compared exactly. A count that is
-- no number, which the source takes as 0, does not occur.
pub mod Verdicts
use shanghai_home_radar.Prelude.{
  ℕ, ◌+◌, ◌*◌, Bool, true, false, not, ◌&&◌, Option, none, some, List, [], ◌∷◌, ◌++◌, String,
  lookup, ltb, ◌==◌, is_empty, if◌then◌else◌,
}
use shanghai_home_radar.Collector.Domain.{DataMode}
use shanghai_home_radar.Collector.Service.{is_live}
use shanghai_home_radar.Pipeline.Jobs.{JobCounts}

pub record Snapshot : Type 0 where
  pub evaluated_count : ℕ
  pub eligible_count : ℕ
  pub classification_counts : List (String × ℕ)

pub data HealthStatus : Type 0 where
  healthy degraded blocked : HealthStatus

pub data HealthReason : Type 0 where
  no_active_decision_assessments classification_accounting_mismatch
        all_active_decisions_insufficient_data current_decision_batch_all_skipped
        current_decision_coverage_below_minimum :
      HealthReason

pub record Health : Type 0 where
  pub status : HealthStatus
  pub reasons : List HealthReason
  pub classified_count : ℕ
  pub insufficient_count : ℕ
  pub current_batch_total : ℕ

abbrev pub total_count : List (String × ℕ) → ℕ
total_count [] = 0
total_count ((k, n) ∷ d) = n + total_count d

abbrev pub count_of : String → List (String × ℕ) → ℕ
count_of k d = elim (lookup k d) [ none ↦ 0 | some n ↦ n ]

abbrev pub evaluated_in : Option JobCounts → ℕ
evaluated_in none = 0
evaluated_in (some r) = r.evaluated

abbrev pub skipped_in : Option JobCounts → ℕ
skipped_in none = 0
skipped_in (some r) = r.skipped_insufficient_data

-- `reasons.append(reason)` where the test holds.
abbrev pub when_holds : Bool → HealthReason → List HealthReason
when_holds test reason = if test then reason ∷ [] else []

-- The reason that the current batch gives.
unfoldable pub batch_reasons : ℕ → ℕ → ℕ → ℕ → List HealthReason
batch_reasons evaluated skipped ratio_num ratio_den =
    if (evaluated == 0) && ltb 0 skipped
    then current_decision_batch_all_skipped ∷ []
    else when_holds
        (ltb 0 (evaluated + skipped)
          && ltb (evaluated * ratio_den) (ratio_num * (evaluated + skipped)))
        current_decision_coverage_below_minimum

unfoldable pub health_reasons : Snapshot → Option JobCounts → ℕ → ℕ → List HealthReason
unfolding batch_reasons
health_reasons s decision ratio_num ratio_den =
    when_holds (s.evaluated_count == 0) no_active_decision_assessments
    ++ (when_holds (not (total_count s.classification_counts == s.evaluated_count))
          classification_accounting_mismatch
        ++ (when_holds
              (ltb 0 s.evaluated_count
                && count_of "INSUFFICIENT_DATA" s.classification_counts == s.evaluated_count)
              all_active_decisions_insufficient_data
            ++ batch_reasons (evaluated_in decision) (skipped_in decision) ratio_num ratio_den))

unfoldable pub assess_opportunity_output : Snapshot → Option JobCounts → DataMode → ℕ → ℕ → Health
assess_opportunity_output s decision mode ratio_num ratio_den =
    let reasons = health_reasons s decision ratio_num ratio_den in
    record {
      status = if is_empty reasons then healthy else if is_live mode then blocked else degraded;
      reasons = reasons;
      classified_count = total_count s.classification_counts;
      insufficient_count = count_of "INSUFFICIENT_DATA" s.classification_counts;
      current_batch_total = evaluated_in decision + skipped_in decision;
    }
