-- ===== src/Decision/Validation/Generation.antt =====
-- services/decision/src/home_radar_decision/real_world_validation.py: `generate_model_results` and the
-- integrity checks of what is frozen.
use shanghai_home_radar.Prelude.{
  ℕ, Bool, true, false, not, ◌&&◌, ◌||◌, Option, none, some, List, [], ◌∷◌, String, Result, ok, err,
  value_error, key_error, raise_if, ◌>>◌, ◌>>=◌, ◌==◌, str_eq, lookup, if◌then◌else◌, map,
}
use shanghai_home_radar.Decision.Domain.{
  DecisionEvaluation, RankedDecision, EligibilityStatus, WorkflowState, class_text,
}
use shanghai_home_radar.Decision.Ranking.{rank_eligible}
use shanghai_home_radar.Decision.Validation.{
  ModelSnapshot, ValidationItem, ValidationRun, labels_frozen, model_generated,
}
use shanghai_home_radar.Decision.Validation.Entries.{dataset_rows}
use shanghai_home_radar.Decision.Validation.Stages.{
  Environment, label_row, model_row, has_status, p56_batch,
}

abbrev pub same_text : Option String → String → Bool
same_text none s = false
same_text (some t) s = str_eq t s

-- `_assert_frozen_runtime`
abbrev pub runtime_unchanged : List (String × String) → List (String × String) → Bool
runtime_unchanged manifest [] = true
runtime_unchanged manifest ((k, v) ∷ current) =
    same_text (lookup k manifest) v && runtime_unchanged manifest current

-- `_assert_dataset_and_labels`
unfoldable pub assert_dataset_and_labels : Environment → ValidationRun → Result (Unit {0})
assert_dataset_and_labels env r =
    raise_if
      (not (str_eq (env.dataset_digest (dataset_rows r.items)) r.batch.dataset_fingerprint)
        || not (
            same_text r.batch.human_labels_fingerprint (env.labels_digest (map label_row r.items))))
      (value_error "frozen dataset or human labels failed integrity check")

-- `_assert_fingerprints`
unfoldable pub assert_fingerprints : Environment → ValidationRun → Result (Unit {0})
unfolding assert_dataset_and_labels
assert_fingerprints env r = do
  assert_dataset_and_labels env r
  raise_if
      (not
        (same_text r.batch.model_outputs_fingerprint (env.models_digest (map model_row r.items))))
      (value_error "frozen model evidence failed integrity check")

abbrev pub assess_all : Environment → List ValidationItem → Result (List (ℕ × DecisionEvaluation))
assess_all env [] = ok []
assess_all env (i ∷ is) = do a ← env.assess i.listing_id; rest ← assess_all env is; ok (a ∷ rest)

-- `rank_by_listing.get(listing)`
abbrev pub rank_of : ℕ → List RankedDecision → Option ℕ
rank_of listing [] = none
rank_of listing (x ∷ xs) =
    if x.evaluation.listing_id == listing then some x.rank else rank_of listing xs

abbrev pub evaluations : List (ℕ × DecisionEvaluation) → List DecisionEvaluation
evaluations [] = []
evaluations ((id, e) ∷ xs) = e ∷ evaluations xs

abbrev pub assessment_of : ℕ → List (ℕ × DecisionEvaluation) → Option (ℕ × DecisionEvaluation)
assessment_of listing [] = none
assessment_of listing (x ∷ xs) =
    if x.1.listing_id == listing then some x else assessment_of listing xs

abbrev pub workflow_text : WorkflowState → String
workflow_text WorkflowState.pass = "PASS"
workflow_text WorkflowState.watch = "WATCH"
workflow_text WorkflowState.contact = "CONTACT"
workflow_text WorkflowState.view = "VIEW"

abbrev pub eligibility_text : EligibilityStatus → String
eligibility_text EligibilityStatus.eligible = "ELIGIBLE"
eligibility_text EligibilityStatus.hard_risk_filtered = "HARD_RISK_FILTERED"
eligibility_text EligibilityStatus.insufficient = "INSUFFICIENT"

abbrev pub model_snapshot_of : DecisionEvaluation → ModelSnapshot
model_snapshot_of e = record {
  decision_version = e.decision_version;
  opportunity_classification = class_text e.opportunity_classification;
  workflow_state = workflow_text e.workflow_state;
  eligibility_status = eligibility_text e.eligibility_status;
  value_score = e.value_score;
  future_score = e.future_score;
  liquidity_score = e.liquidity_score;
  obsolescence_risk = e.obsolescence_risk;
  positive_reasons = e.positive_reasons;
  negative_reasons = e.negative_reasons;
  current_ask = e.current_ask;
  fair_value = e.fair_value;
  fair_value_low = e.fair_value_low;
  fair_value_high = e.fair_value_high;
  structural_alpha = e.structural_alpha;
  valuation_confidence = e.valuation_confidence;
  future_confidence = e.future_confidence;
  warnings = e.warnings;
  hard_risks = e.hard_risks;
  ranking_dimensions = e.ranking_dimensions;
}

abbrev pub filled_item :
    ℕ → DecisionEvaluation → List RankedDecision → ValidationItem → ValidationItem
filled_item id e ranked i = record i {
  decision_assessment_id = some id;
  frozen_rank = rank_of i.listing_id ranked;
  model_snapshot = some (model_snapshot_of e);
}

-- The items with the model's outputs.
unfoldable pub fill_items :
    List (ℕ × DecisionEvaluation)
    → List RankedDecision
    → List ValidationItem
    → Result (List ValidationItem)
fill_items assessments ranked [] = ok []
fill_items assessments ranked (i ∷ is) = elim (assessment_of i.listing_id assessments) [
  | none ↦ err (key_error "listing_id")
  | some (id, e) ↦ do rest ← fill_items assessments ranked is; ok (filled_item id e ranked i ∷ rest)
]

abbrev pub generated_run : Environment → ℕ → List ValidationItem → ValidationRun → ValidationRun
generated_run env now items r =
    let digest = env.models_digest (map model_row items) in
    record r {
      items = items;
      batch = record r.batch {
        model_outputs_fingerprint = some digest;
        freeze_manifest = ("model_outputs_fingerprint", digest) ∷ r.batch.freeze_manifest;
        model_generated_at = some now;
        status = model_generated;
      };
    }

unfoldable pub generate_model_results : Environment → ℕ → ValidationRun → Result ValidationRun
generate_model_results env now r = do
  p56_batch r
  if has_status model_generated r then ok r else do
    raise_if (not (has_status labels_frozen r))
        (value_error "freeze human labels before model generation")
    raise_if (not (runtime_unchanged r.batch.freeze_manifest env.runtime))
        (value_error "frozen runtime changed")
    assert_dataset_and_labels env r
    assessments ← assess_all env r.items
    ranked ← rank_eligible (evaluations assessments) env.decision_config
    items ← fill_items assessments ranked r.items
    ok (generated_run env now items r)
