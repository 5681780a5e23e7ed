-- ===== src/Decision/Tests.antt =====
-- Runs of the decision stage on concrete listings, and its theorems at them.
use mathlib.Core.List.Perm
use shanghai_home_radar.Prelude.{
  ◌≡◌, ◌↔◌, ◌⊎◌, refl, true, some, pos, List, [], ◌∷◌, String, ok, arith, contains, ◌&&◌, ◌||◌,
  str_eq, ◌++◌, is_none,
}
use shanghai_home_radar.Sorting.{sort_by, lex_leb}
use shanghai_home_radar.Decision.Domain.{
  DecisionEvaluation, RankedDecision, quality_at_discount, EligibilityStatus, view,
}
use shanghai_home_radar.Decision.Config.{
  accepts, accepts_classification, accepts_eligibility, accepts_workflow, accepts_ranking,
  accepts_explanations, accepts_validation,
}
use shanghai_home_radar.Decision.Samples.{
  shipped, good_inputs, shocked_inputs, expensive, doubtful, discounted,
}
use shanghai_home_radar.Decision.Classification.{classify_opportunity}
use shanghai_home_radar.Decision.Classification.Quadrants.{
  Reaches, Describes, HasEvidence, HighFuture, classify_opportunity-iff-Describes,
}
use shanghai_home_radar.Decision.Workflow.{
  level_index, confidence_gate_passed, hard_risks, eligibility_status, workflow_state,
}
use shanghai_home_radar.Decision.Workflow.Gates.{
  MeetsView, NoHardRisk, all_warnings, contains-hard_risks,
}
use shanghai_home_radar.Decision.Reasons.{negative_reasons}
use shanghai_home_radar.Decision.Reasons.Codes.{codes, is_explained, contains-negative_reasons}
use shanghai_home_radar.Decision.Orchestrator.{Payload, validate_inputs, evaluate}
use shanghai_home_radar.Decision.Orchestrator.Safety.{
  IsAcceptable, evaluate-eligible_iff, evaluate-view_safety, evaluate-returns_iff,
}
use shanghai_home_radar.Decision.Ranking.{
  with_keys, decision_sort_key, number_from, eligible_only, rank_eligible,
}
use shanghai_home_radar.Decision.Ranking.Order.{rank_eligible_of_perm}
use shanghai_home_radar.Decision.Ranking.Listing.{IsRanking, rank_eligible-IsRanking}
use shanghai_home_radar.Decision.Gate.{
  ValidationGateConfig, GateMetrics, Verdict, rate, gte, lte, gate_checks, gate_recommendation,
}
use shanghai_home_radar.Decision.Gate.Verdicts.{Means, gate_recommendation-iff-Means}
use shanghai_home_radar.Decision.Ranking.Total.{rank_eligible-evaluated}

-- A digest for the tests.
abbrev constant_digest : Payload → String
constant_digest p = "0123456789abcdef0123456789abcdef0123456789abcdef0123456789abcdef"

shipped_accepted : accepts shipped ≡ true
unfolding accepts accepts_classification accepts_eligibility accepts_workflow accepts_ranking
    accepts_explanations accepts_validation
shipped_accepted = refl

-- The evaluation of the good listing succeeds.
good_evaluation : (e : DecisionEvaluation) × (evaluate constant_digest shipped 5 good_inputs ≡ ok e)
unfolding evaluate validate_inputs confidence_gate_passed level_index
good_evaluation = (_, refl)

shocked_evaluation :
    (e : DecisionEvaluation) × (evaluate constant_digest shipped 5 shocked_inputs ≡ ok e)
unfolding evaluate validate_inputs confidence_gate_passed level_index
shocked_evaluation = (_, refl)

good-view : good_evaluation.0.workflow_state ≡ view
unfolding good_evaluation classify_opportunity hard_risks eligibility_status workflow_state
good-view = refl

shocked-filtered : shocked_evaluation.0.eligibility_status ≡ EligibilityStatus.hard_risk_filtered
unfolding shocked_evaluation classify_opportunity hard_risks eligibility_status
shocked-filtered = refl

evaluate-view_safety_example :
    Describes good_inputs shipped.classification quality_at_discount
    × MeetsView good_inputs shipped.workflow
    × (confidence_gate_passed good_inputs shipped ≡ ok true)
    × NoHardRisk good_inputs shipped.eligibility
evaluate-view_safety_example =
    evaluate-view_safety constant_digest shipped 5 good_inputs good_evaluation.1 good-view

evaluate-eligible_iff_example :
    (shocked_evaluation.0.eligibility_status ≡ EligibilityStatus.eligible) ↔ (
      HasEvidence shocked_inputs shipped.classification
      × HighFuture shocked_inputs shipped.classification
      × (confidence_gate_passed shocked_inputs shipped ≡ ok true)
      × NoHardRisk shocked_inputs shipped.eligibility)
evaluate-eligible_iff_example =
    evaluate-eligible_iff constant_digest shipped 5 shocked_inputs shocked_evaluation.1

evaluate-returns_iff_example :
    ((e : DecisionEvaluation) × (evaluate constant_digest shipped 5 good_inputs ≡ ok e))
    ↔ IsAcceptable good_inputs
evaluate-returns_iff_example =
    evaluate-returns_iff constant_digest shipped 5 good_inputs shipped_accepted

-- The discounted listing comes first, and the doubtful one is not listed.
sample_ranking :
    rank_eligible (expensive ∷ doubtful ∷ discounted ∷ []) shipped
    ≡ ok (
        record { rank = 1; eligible_count = 2; evaluation = discounted }
        ∷ record { rank = 2; eligible_count = 2; evaluation = expensive }
        ∷ [])
unfolding rank_eligible with_keys decision_sort_key number_from eligible_only sort_by lex_leb
sample_ranking = refl

rank_eligible_of_perm_example :
    rank_eligible (doubtful ∷ expensive ∷ discounted ∷ []) shipped
    ≡ ok (
        record { rank = 1; eligible_count = 2; evaluation = discounted }
        ∷ record { rank = 2; eligible_count = 2; evaluation = expensive }
        ∷ [])
rank_eligible_of_perm_example =
    rank_eligible_of_perm shipped (expensive ∷ doubtful ∷ discounted ∷ [])
      (doubtful ∷ expensive ∷ discounted ∷ []) _ (Perm.swap doubtful expensive (discounted ∷ []))
      (omega arith) sample_ranking

rank_eligible-IsRanking_example : IsRanking shipped (expensive ∷ doubtful ∷ discounted ∷ []) (
    record { rank = 1; eligible_count = 2; evaluation = discounted }
    ∷ record { rank = 2; eligible_count = 2; evaluation = expensive }
    ∷ [])
rank_eligible-IsRanking_example =
    rank_eligible-IsRanking shipped (expensive ∷ doubtful ∷ discounted ∷ []) _ sample_ranking

rank_eligible-evaluated_example :
    (r : List RankedDecision) × (rank_eligible
        (good_evaluation.0 ∷ shocked_evaluation.0 ∷ [])
        shipped
      ≡ ok r)
rank_eligible-evaluated_example =
    rank_eligible-evaluated constant_digest shipped (good_evaluation.0 ∷ shocked_evaluation.0 ∷ [])
      shipped_accepted
      ((5, good_inputs, good_evaluation.1), ((5, shocked_inputs, shocked_evaluation.1), tt))

classify_opportunity-iff-Describes_example :
    (classify_opportunity good_inputs shipped.classification ≡ quality_at_discount)
    ↔ Describes good_inputs shipped.classification quality_at_discount
classify_opportunity-iff-Describes_example =
    classify_opportunity-iff-Describes good_inputs shipped.classification quality_at_discount

abbrev old_risk : String
old_risk = "HIGH_OBSOLESCENCE_RISK"

contains-hard_risks_example :
    contains old_risk (hard_risks shocked_inputs shipped.eligibility) ≡ true ↔ (
      ((contains old_risk shipped.eligibility.hard_risk_warnings ≡ true)
        × (contains old_risk (all_warnings shocked_inputs) ≡ true))
      ⊎ ((old_risk ≡ "HIGH_OBSOLESCENCE_RISK")
          × Reaches shocked_inputs.obsolescence_risk shipped.eligibility.maximum_obsolescence_risk))
contains-hard_risks_example = contains-hard_risks shocked_inputs shipped.eligibility old_risk

contains-negative_reasons_example :
    contains "MISSING_LIQUIDITY" (codes (negative_reasons good_inputs)) ≡ (
      (contains "MISSING_LIQUIDITY" (good_inputs.valuation_warnings ++ good_inputs.future_warnings)
        && is_explained "MISSING_LIQUIDITY")
      || (str_eq "MISSING_LIQUIDITY" "MISSING_LIQUIDITY" && is_none good_inputs.liquidity_score))
contains-negative_reasons_example = contains-negative_reasons "MISSING_LIQUIDITY" good_inputs

-- config/validation.yaml
abbrev shipped_gate : ValidationGateConfig
shipped_gate = record {
  precision_at_5 = pos 800000;
  precision_at_10 = pos 700000;
  human_acceptance_at_10 = pos 700000;
  maximum_value_traps_at_10 = 1;
  human_view_recall = pos 800000;
  maximum_why_ranked_major_contradiction_rate = pos 150000;
  maximum_regret_at_5 = 1;
}

-- The contradictions are exactly at the limit.
abbrev limit_metrics : GateMetrics
limit_metrics = record {
  precision_at_5 = rate 5 5;
  precision_at_10 = rate 9 10;
  human_acceptance_at_10 = rate 9 10;
  value_traps_at_10 = 0;
  human_view_recall = rate 9 10;
  why_ranked_major_contradiction_rate = some (pos 150000);
  regret_at_5 = 0;
}

gate_recommendation-iff-Means_example :
    ((gate_recommendation limit_metrics shipped_gate).0 ≡ Verdict.p5_calibration_required)
    ↔ Means Verdict.p5_calibration_required limit_metrics shipped_gate
gate_recommendation-iff-Means_example =
    gate_recommendation-iff-Means limit_metrics shipped_gate Verdict.p5_calibration_required

-- A rate at its maximum breaks the limit.
limit_verdict : (gate_recommendation limit_metrics shipped_gate).0 ≡ Verdict.p5_calibration_required
unfolding gate_recommendation gate_checks gte lte rate
limit_verdict = refl
