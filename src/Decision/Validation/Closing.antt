-- ===== src/Decision/Validation/Closing.antt =====
-- services/decision/src/home_radar_decision/real_world_validation.py: the reveal, the reviews and the
-- end of a run.
use shanghai_home_radar.Prelude.{
  ℕ, Bool, true, false, not, ◌&&◌, ◌||◌, Option, none, some, List, [], ◌∷◌, ◌++◌, String, Result,
  ok, err, value_error, key_error, raise_if, ◌>>◌, ◌>>=◌, ◌==◌, str_eq, is_none, or_else,
  if◌then◌else◌, length, count_if, contains,
}
use shanghai_home_radar.Collector.Repository.{find, any}
use shanghai_home_radar.Decision.Gate.{GateMetrics, Verdict, Checks, gate_recommendation}
use shanghai_home_radar.Decision.Validation.{
  ValidationItem, MetricCase, Review, RealWorldMetrics, ValidationRun, model_generated, revealed,
  finalized,
}
use shanghai_home_radar.Decision.Validation.Metrics.{is_error, calculate_real_world_metrics}
use shanghai_home_radar.Decision.Validation.Stages.{
  Environment, has_status, p56_batch, for_listing, item_of,
}
use shanghai_home_radar.Decision.Validation.Generation.{assert_fingerprints}

-- `_metric_case`
unfoldable pub metric_case : ValidationItem → Result MetricCase
metric_case i = elim i.model_snapshot [
  | none ↦ err (key_error "opportunity_classification")
  | some m ↦ ok (record {
    listing_id = i.listing_id;
    rank = i.frozen_rank;
    human_class = or_else i.human.opportunity_classification "None";
    human_workflow = or_else i.human.workflow_recommendation "None";
    human_would_visit = or_else i.human.would_visit false;
    model_class = m.opportunity_classification;
    model_workflow = m.workflow_state;
    model_eligibility = m.eligibility_status;
    valuation_confidence = m.valuation_confidence;
    future_confidence = m.future_confidence;
  })
]

abbrev pub metric_cases : List ValidationItem → Result (List MetricCase)
metric_cases [] = ok []
metric_cases (i ∷ is) = do x ← metric_case i; xs ← metric_cases is; ok (x ∷ xs)

-- `batch.status in {"revealed", "finalized"}`
abbrev pub is_open_to_review : ValidationRun → Bool
is_open_to_review r = has_status revealed r || has_status finalized r

abbrev pub revealed_run : ℕ → RealWorldMetrics → ValidationRun → ValidationRun
revealed_run now values r = record r {
  batch = record r.batch {
    metrics = some (record { values = values; gate_checks = none });
    revealed_at = some now;
    status = revealed;
  };
}

unfoldable pub reveal_validation_run : Environment → ℕ → ValidationRun → Result ValidationRun
reveal_validation_run env now r = do
  p56_batch r
  if is_open_to_review r then ok r else do
    raise_if (not (has_status model_generated r))
        (value_error "generate frozen model results before reveal")
    assert_fingerprints env r
    cases ← metric_cases r.items
    values ← calculate_real_world_metrics cases (λ _. none)
    ok (revealed_run now values r)

abbrev pub verdicts : List String
verdicts = "AGREE" ∷ "PARTIAL" ∷ "CONTRADICT" ∷ []

abbrev pub known_root_causes : List String
known_root_causes =
    "DATA_GAP" ∷ "BAD_COMPARABLE_SELECTION" ∷ "VALUATION_ERROR" ∷ "LIQUIDITY_ERROR"
    ∷ "FUTURE_FACTOR_ERROR" ∷ "OBSOLESCENCE_ERROR" ∷ "DECISION_RULE_ERROR" ∷ "HUMAN_DISAGREEMENT"
    ∷ "UNKNOWN" ∷ []

-- A root cause that is absent or empty is none.
abbrev pub is_given : Option String → Bool
is_given none = false
is_given (some c) = not (str_eq c "")

abbrev pub is_known_cause : Option String → Bool
is_known_cause none = true
is_known_cause (some c) = str_eq c "" || contains c known_root_causes

abbrev pub of_item : ℕ → Review → Bool
of_item id review = review.item_id == id

-- The arguments of `record_review`.
pub record ReviewRequest : Type 0 where
  pub listing_id : ℕ
  pub why_ranked_verdict : String
  pub root_cause : Option String
  pub notes : Option String

abbrev pub review_of : ReviewRequest → ValidationItem → Review
review_of q item = record {
  item_id = item.id;
  why_ranked_verdict = q.why_ranked_verdict;
  root_cause = q.root_cause;
  notes = q.notes;
}

unfoldable pub record_review : ReviewRequest → ValidationRun → Result ValidationRun
unfolding metric_case
record_review q r = do
  p56_batch r
  raise_if (not (is_open_to_review r)) (value_error "post-freeze review requires revealed results")
  raise_if (not (contains q.why_ranked_verdict verdicts) || not (is_known_cause q.root_cause))
      (value_error "invalid review verdict or root cause")
  item ← item_of r q.listing_id
  x ← metric_case item
  raise_if (is_error x && is_none q.root_cause)
      (value_error "a root cause is required for every disagreement")
  raise_if (any (of_item item.id) r.reviews)
      (value_error "reviews are append-only and this listing is already reviewed")
  ok (record r { reviews = r.reviews ++ review_of q item ∷ [] })

unfoldable pub append_label_amendment : ℕ → ℕ → String → ValidationRun → Result ValidationRun
append_label_amendment listing proposed reason r = do
  p56_batch r
  raise_if (not (is_open_to_review r))
      (value_error "label corrections are only logged after reveal")
  item ← item_of r listing
  ok (record r {
    amendments =
        r.amendments
        ++ record { item_id = item.id; proposed_label = proposed; reason = reason } ∷ [];
  })

-- `_reviews_by_listing`, of a run in which a listing stands once.
abbrev pub review_in : List ValidationItem → List Review → ℕ → Option Review
review_in items reviews listing = elim (find (for_listing listing) items) [
  | none ↦ none
  | some i ↦ find (of_item i.id) reviews
]

abbrev pub has_review : List Review → ValidationItem → Bool
has_review reviews i = any (of_item i.id) reviews

-- The loop that asks for the root causes.
unfoldable pub check_root_causes : List Review → List ValidationItem → Result (Unit {0})
unfolding metric_case
check_root_causes reviews [] = ok tt
check_root_causes reviews (i ∷ is) = do
  x ← metric_case i
  raise_if (is_error x && not (cause_of (find (of_item i.id) reviews)))
      (value_error "every disagreement requires a root cause")
  check_root_causes reviews is
  where
    cause_of : Option Review → Bool
    cause_of none = false
    cause_of (some review) = is_given review.root_cause

abbrev pub gate_metrics : RealWorldMetrics → GateMetrics
gate_metrics m = record {
  precision_at_5 = m.precision_at_5;
  precision_at_10 = m.precision_at_10;
  human_acceptance_at_10 = m.human_acceptance_at_10;
  value_traps_at_10 = m.value_traps_at_10;
  human_view_recall = m.human_view_recall;
  why_ranked_major_contradiction_rate = m.why_ranked_major_contradiction_rate;
  regret_at_5 = m.regret_at_5;
}

abbrev pub finalized_run : ℕ → RealWorldMetrics → Verdict × Checks → ValidationRun → ValidationRun
finalized_run now values verdict r = record r {
  batch = record r.batch {
    metrics = some (record { values = values; gate_checks = some verdict.1 });
    final_recommendation = some verdict.0;
    finalized_at = some now;
    status = finalized;
  };
}

unfoldable pub finalize_validation_run : Environment → ℕ → ValidationRun → Result ValidationRun
finalize_validation_run env now r = do
  p56_batch r
  if has_status finalized r then ok r else do
    raise_if (not (has_status revealed r)) (value_error "reveal the run before finalization")
    assert_fingerprints env r
    raise_if (not (count_if (has_review r.reviews) r.items == length r.items))
        (value_error "every listing requires a post-reveal Why Ranked review")
    check_root_causes r.reviews r.items
    cases ← metric_cases r.items
    values ← calculate_real_world_metrics cases (review_in r.items r.reviews)
    ok (finalized_run now values (gate_recommendation (gate_metrics values) env.gate) r)
