-- ===== src/Decision/Validation/Tests.antt =====
-- A run of the validation on two listings, and the theorems at it.
use shanghai_home_radar.Prelude.{
  ℕ, ◌≡◌, ◌↔◌, refl, true, Option, none, some, List, [], ◌∷◌, String, ok, err, Result, value_error,
  arith, pos, whole, Decimal, map, if◌then◌else◌, ◌==◌, count_if, length,
}
use shanghai_home_radar.Collector.Domain.{DataMode}
use shanghai_home_radar.Decision.Domain.{DecisionEvaluation}
use shanghai_home_radar.Decision.Samples.{shipped, expensive, discounted}
use shanghai_home_radar.Sorting.{sort_by, insert, lex_leb}
use shanghai_home_radar.Decision.Ranking.{
  rank_eligible, with_keys, decision_sort_key, number_from, eligible_only,
}
use shanghai_home_radar.Decision.Gate.{ValidationDatasetConfig, ValidationGateConfig, rate}
use shanghai_home_radar.Decision.Validation.{
  ValidationRun, ValidationItem, MetricCase, RealWorldMetrics, revealed, finalized,
}
use shanghai_home_radar.Decision.Validation.Metrics.{
  calculate_real_world_metrics, confusion_matrix, share_of, is_error, ranked_cases,
}
use shanghai_home_radar.Decision.Validation.Metrics.Matrix.{
  Accounts, calculate_real_world_metrics-Accounts,
}
use shanghai_home_radar.Decision.Validation.Entries.{
  Entry, object, Frozen, created_run, create_validation_run, validate_entries, dataset_row,
}
use shanghai_home_radar.Decision.Validation.Stages.{
  Environment, LabelRequest, labeled_run, label_validation_item, frozen_run, freeze_human_labels,
  fully_labeled, label_row, has_status,
}
use shanghai_home_radar.Decision.Validation.Generation.{
  generate_model_results, generated_run, fill_items, assert_dataset_and_labels,
}
use shanghai_home_radar.Decision.Validation.Closing.{
  reveal_validation_run, finalize_validation_run, has_review, check_root_causes,
}
use shanghai_home_radar.Decision.Validation.Lifecycle.{
  Reach, label, freeze, generate, reveal, start, later,
}
use shanghai_home_radar.Decision.Validation.Lifecycle.Frozen.{Reach-labels}
use shanghai_home_radar.Decision.Validation.Lifecycle.Invariant.{IsSound}
use shanghai_home_radar.Decision.Validation.Lifecycle.Returns.{
  reveal_validation_run-returns, finalize_validation_run-returns_iff,
  Reach-create_validation_run-IsSound,
}

abbrev dataset : ValidationDatasetConfig
dataset = record {
  target_sample_size = 2;
  minimum_sample_size = 1;
  maximum_sample_size = 40;
  minimum_price_rmb = whole 2000000;
  maximum_price_rmb = whole 4000000;
  required_geography_buckets = "outer" ∷ [];
  minimum_distinct_archetypes = 1;
  maximum_single_archetype_share = whole 1;
}

abbrev gate : ValidationGateConfig
gate = record {
  precision_at_5 = pos 700000;
  precision_at_10 = pos 700000;
  human_acceptance_at_10 = pos 700000;
  maximum_value_traps_at_10 = 1;
  human_view_recall = pos 700000;
  maximum_why_ranked_major_contradiction_rate = pos 100000;
  maximum_regret_at_5 = 1;
}

abbrev assess : ℕ → Result (ℕ × DecisionEvaluation)
assess id =
    if id == 1
    then ok (11, expensive)
    else if id == 3
    then ok (13, discounted)
    else err (value_error "")

-- Digests that tell only how many rows there are.
abbrev env : Environment
env = record {
  dataset_digest = λ rows. if length rows == 2 then "two rows" else "rows";
  labels_digest = λ rows. if length rows == 2 then "two labels" else "labels";
  models_digest = λ rows. if length rows == 2 then "two outputs" else "outputs";
  assess = assess;
  decision_config = shipped;
  gate = gate;
  runtime = ("git_commit", "abc") ∷ [];
}

abbrev entry : ℕ → Entry
entry id = record {
  listing_id = id;
  geography_bucket = "outer";
  archetypes = "old_flat" ∷ [];
  provenance_kind = "REAL_AUTHORIZED";
  provenance_reference = "contract 1";
  data_provenance = id;
  blind_listing_snapshot = object ("area_sqm" ∷ []);
}

abbrev entries : List Entry
entries = entry 1 ∷ entry 3 ∷ []

abbrev frozen : Frozen
frozen = record {
  as_of_is_aware = true;
  as_of = 100;
  protocol_version = "p5.6";
  source_commit = "abc";
  source_tree_hash = "def";
  manifest = [];
}

abbrev prices : ℕ → Option Decimal
prices id = some (whole 2700000)

abbrev documents : ℕ → ℕ
documents id = id

abbrev answer : ℕ → String → LabelRequest
answer id class = record {
  listing_id = id;
  opportunity_classification = class;
  workflow_recommendation = "WATCH";
  confidence = "HIGH";
  positive_reasons = "light" ∷ [];
  risks = "noise" ∷ [];
  would_visit = true;
  notes = none;
}

abbrev created : ValidationRun
created = created_run env.dataset_digest documents DataMode.live frozen entries

abbrev half_labeled : ValidationRun
half_labeled = labeled_run 101 (answer 1 "GOOD_BUT_EXPENSIVE") created

abbrev all_labeled : ValidationRun
all_labeled = labeled_run 102 (answer 3 "QUALITY_AT_DISCOUNT") half_labeled

abbrev sealed : ValidationRun
sealed = frozen_run env 103 all_labeled

created_lem :
    create_validation_run env.dataset_digest prices documents dataset DataMode.live frozen entries
    ≡ ok created
unfolding create_validation_run validate_entries
created_lem = refl

-- A snapshot that shows the model's rank is refused.
leaking_entry :
    create_validation_run env.dataset_digest prices documents dataset DataMode.live frozen
      (entry 1 ∷ record (entry 3) { blind_listing_snapshot = object ("rank" ∷ []) } ∷ [])
    ≡ err (value_error "blind listing snapshot leaks model fields")
unfolding create_validation_run validate_entries
leaking_entry = refl

to_sealed : Reach env created sealed
unfolding label_validation_item freeze_human_labels fully_labeled
to_sealed =
    later
      (later (later start (label 101 (answer 1 "GOOD_BUT_EXPENSIVE") refl))
        (label 102 (answer 3 "QUALITY_AT_DISCOUNT") refl))
      (freeze 103 refl)

-- The items with the outputs of the model.
abbrev outputs : Result (List ValidationItem)
outputs =
    fill_items ((11, expensive) ∷ (13, discounted) ∷ [])
      (record { rank = 1; eligible_count = 2; evaluation = discounted }
        ∷ record { rank = 2; eligible_count = 2; evaluation = expensive }
        ∷ [])
      sealed.items

outputs_lem : (items : List ValidationItem) × (outputs ≡ ok items)
unfolding fill_items
outputs_lem = (_, refl)

abbrev generated : ValidationRun
generated = generated_run env 104 outputs_lem.0 sealed

generated_lem : generate_model_results env 104 sealed ≡ ok generated
unfolding generate_model_results assert_dataset_and_labels rank_eligible with_keys decision_sort_key
    number_from eligible_only sort_by insert lex_leb fill_items outputs_lem
generated_lem = refl

to_generated : Reach env created generated
to_generated = later to_sealed (generate 104 generated_lem)

Reach-labels_example :
    (map label_row generated.items ≡ map label_row sealed.items)
    × (map dataset_row generated.items ≡ map dataset_row sealed.items)
    × (generated.batch.human_labels_fingerprint ≡ sealed.batch.human_labels_fingerprint)
Reach-labels_example =
    Reach-labels env sealed generated (later start (generate 104 generated_lem)) (omega arith)

reveal_validation_run-returns_example :
    (u : ValidationRun) × (reveal_validation_run env 105 generated ≡ ok u)
    × (has_status revealed u ≡ true)
reveal_validation_run-returns_example =
    reveal_validation_run-returns env prices documents dataset DataMode.live frozen entries created
      generated 105 refl created_lem to_generated refl

reveals :
    (u : ValidationRun) × (reveal_validation_run env 105 generated ≡ ok u)
    × (has_status revealed u ≡ true)
reveals =
    reveal_validation_run-returns env prices documents dataset DataMode.live frozen entries created
      generated 105 refl created_lem to_generated refl

Reach-create_validation_run-IsSound_example : IsSound env generated
Reach-create_validation_run-IsSound_example =
    Reach-create_validation_run-IsSound env prices documents dataset DataMode.live frozen entries
      created generated refl created_lem to_generated

abbrev shown : ValidationRun
shown = reveals.0

to_shown : Reach env generated shown
to_shown = later start (reveal 105 reveals.1)

finalize_validation_run-returns_iff_example :
    ((u : ValidationRun) × (finalize_validation_run env 106 shown ≡ ok u)
      × (has_status finalized u ≡ true))
    ↔ ((count_if (has_review shown.reviews) shown.items ≡ length shown.items)
        × (check_root_causes shown.reviews shown.items ≡ ok tt))
finalize_validation_run-returns_iff_example =
    finalize_validation_run-returns_iff env prices documents dataset DataMode.live frozen entries
      created shown 106 refl created_lem (later to_generated (reveal 105 reveals.1)) reveals.2

abbrev case_seen : List MetricCase
case_seen =
    record {
      listing_id = 3;
      rank = some 1;
      human_class = "VALUE_TRAP";
      human_workflow = "VIEW";
      human_would_visit = true;
      model_class = "QUALITY_AT_DISCOUNT";
      model_workflow = "VIEW";
      model_eligibility = "ELIGIBLE";
      valuation_confidence = "high";
      future_confidence = "high";
    }
    ∷ []

measured :
    (m : RealWorldMetrics) × (calculate_real_world_metrics case_seen (λ _. none) ≡ ok m)
    × (m.high_confidence_error_rate ≡ some (pos 1000000))
    × (m.value_traps_at_5 ≡ 1)
unfolding calculate_real_world_metrics confusion_matrix share_of rate is_error ranked_cases sort_by
    insert
measured = (_, refl, refl, refl)

calculate_real_world_metrics-Accounts_example : Accounts case_seen measured.0
calculate_real_world_metrics-Accounts_example =
    calculate_real_world_metrics-Accounts case_seen (λ _. none) measured.0 measured.1
