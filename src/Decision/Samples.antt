-- ===== src/Decision/Samples.antt =====
-- A listing, the shipped configuration and evaluations, for the tests of the decision stage.
use shanghai_home_radar.Prelude.{ℕ, pos, neg, false, none, some, [], ◌∷◌, Decimal, whole}
use shanghai_home_radar.Decision.Domain.{
  DecisionInputs, DecisionEvaluation, OpportunityClassification, quality_at_discount,
  good_but_expensive, WorkflowState, EligibilityStatus,
}
use shanghai_home_radar.Decision.Config.{DecisionConfig}

-- config/decision.yaml
abbrev pub shipped : DecisionConfig
shipped = record {
  decision_model_version = "p55-decision-v1";
  configuration_version = "decision-2026-09-02";
  classification = record {
    high_value_score = whole 75;
    high_future_score = whole 75;
    minimum_future_coverage = pos 650000;
    minimum_obsolescence_coverage = pos 550000;
  };
  eligibility = record {
    minimum_confidence = "low";
    maximum_obsolescence_risk = whole 65;
    hard_risk_warnings = "HIGH_OBSOLESCENCE_RISK" ∷ "SUPPLY_SHOCK_RISK" ∷ [];
  };
  workflow = record {
    attack_enabled = false;
    view_minimum_value_score = whole 80;
    view_minimum_future_score = whole 80;
    view_minimum_liquidity_score = whole 75;
    view_maximum_obsolescence_risk = whole 45;
    contact_minimum_liquidity_score = whole 55;
  };
  ranking = record {
    classification_priority = ("QUALITY_AT_DISCOUNT", pos 2) ∷ ("GOOD_BUT_EXPENSIVE", pos 1) ∷ [];
    confidence_priority =
        ("high", pos 4) ∷ ("medium", pos 3) ∷ ("low", pos 2) ∷ ("insufficient", pos 1) ∷ [];
  };
  explanations = record {
    high_liquidity_score = whole 75;
    positive_structural_alpha = whole 5;
    maximum_positive_reasons = 4;
    maximum_negative_reasons = 4;
  };
  validation = record {
    target_sample_size = 50;
    accepted_labels = "WORTH_VIEWING" ∷ "WAIT" ∷ [];
    strict_positive_label = "WORTH_VIEWING";
  };
}

-- A listing that meets every rule for viewing.
abbrev pub good_inputs : DecisionInputs
good_inputs = record {
  listing_id = 7;
  data_mode = "sample";
  current_ask = whole 2700000;
  fair_value = whole 3000000;
  fair_value_low = whole 2900000;
  fair_value_high = whole 3100000;
  ask_discount_to_fair_value = pos 100000;
  value_score = whole 85;
  liquidity_score = some (whole 80);
  valuation_confidence = "medium";
  baseline_confidence = "high";
  future_score = some (whole 82);
  future_score_coverage = pos 900000;
  future_confidence = "low";
  obsolescence_risk = some (whole 30);
  obsolescence_coverage = pos 800000;
  structural_alpha = whole 6;
  calibration_state = "uncalibrated";
  valuation_warnings = "UNCALIBRATED_MODEL" ∷ [];
  future_warnings = "LOW_RENTAL_SUPPORT" ∷ "UNCALIBRATED_MODEL" ∷ [];
  valuation_version = "v4";
  future_assessment_version = "v5";
  baseline_version = "v3";
  valuation_configuration_version = "c4";
  future_configuration_version = "c5";
  data_version = "d1";
  data_timestamp = none;
}

-- The same listing with the warning of a supply shock.
abbrev pub shocked_inputs : DecisionInputs
shocked_inputs = record good_inputs { listing_id = 8; future_warnings = "SUPPLY_SHOCK_RISK" ∷ [] }

abbrev pub evaluated :
    ℕ → OpportunityClassification → EligibilityStatus → Decimal → DecisionEvaluation
evaluated listing k status value = record {
  listing_id = listing;
  data_mode = "sample";
  current_ask = whole 2700000;
  fair_value = whole 3000000;
  fair_value_low = whole 2900000;
  fair_value_high = whole 3100000;
  value_score = value;
  future_score = some (whole 82);
  liquidity_score = none;
  obsolescence_risk = some (whole 30);
  structural_alpha = neg (whole 1);
  valuation_confidence = "medium";
  future_confidence = "high";
  calibration_state = "uncalibrated";
  opportunity_classification = k;
  workflow_state = WorkflowState.watch;
  eligibility_status = status;
  confidence_gate_passed = false;
  hard_risks = [];
  positive_reasons = [];
  negative_reasons = [];
  warnings = [];
  ranking_dimensions = [];
  provenance = [];
  valuation_version = "v4";
  future_assessment_version = "v5";
  baseline_version = "v3";
  decision_model_version = "p55-decision-v1";
  configuration_version = "decision-2026-09-02";
  data_version = "d1";
  data_timestamp = none;
  input_fingerprint = "";
  decision_version = "p55-";
  generated_at = 0;
}

-- Three evaluations, the second of which is not eligible.
abbrev pub expensive : DecisionEvaluation
expensive = evaluated 1 good_but_expensive EligibilityStatus.eligible (whole 60)

abbrev pub doubtful : DecisionEvaluation
doubtful = evaluated 2 quality_at_discount EligibilityStatus.insufficient (whole 90)

abbrev pub discounted : DecisionEvaluation
discounted = evaluated 3 quality_at_discount EligibilityStatus.eligible (whole 80)
