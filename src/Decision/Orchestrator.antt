-- ===== src/Decision/Orchestrator.antt =====
-- services/decision/src/home_radar_decision/orchestrator.py. The digest of the canonical JSON text
-- (`json.dumps` and `sha256`) is the parameter `digest`; the instant of `datetime.now` is an argument.
pub mod Safety
use Prim.Native.String.{◌++◌ as text_append}
use Prim.Native.String.{slice}
use shanghai_home_radar.Prelude.{
  ℕ, pos, Bool, true, false, not, ◌||◌, ◌&&◌, Option, none, some, List, [], ◌∷◌, ◌++◌, String,
  Piece, literal, printed, Decimal, whole, leb_ℤ, contains, dedupe, is_empty, Result, ok, err,
  value_error, raise_if, ◌>>◌, ◌>>=◌, if◌then◌else◌,
}
use shanghai_home_radar.Decision.Domain.{
  DecisionInputs, DecisionEvaluation, OpportunityClassification, insufficient_data, class_text,
  Provenance, name, flag,
}
use shanghai_home_radar.Decision.Config.{DecisionConfig}
use shanghai_home_radar.Decision.Classification.{classify_opportunity}
use shanghai_home_radar.Decision.Workflow.{
  confidence_gate_passed, hard_risks, eligibility_status, workflow_state, is_insufficient,
}
use shanghai_home_radar.Decision.Reasons.{build_reasons}

-- `_validate_inputs`
unfoldable pub validate_inputs : DecisionInputs → Result (Unit {0})
validate_inputs inputs = do
  raise_if (not (contains inputs.data_mode ("demo" ∷ "sample" ∷ "live" ∷ [])))
      (value_error "data mode must be demo, sample, or live")
  raise_if (leb_ℤ inputs.current_ask (pos 0) || leb_ℤ inputs.fair_value (pos 0))
      (value_error "P4 price inputs must be positive")
  raise_if
      (not (
        leb_ℤ inputs.fair_value_low inputs.fair_value
        && leb_ℤ inputs.fair_value inputs.fair_value_high))
      (value_error "P4 fair-value range is invalid")
  raise_if (not (leb_ℤ (pos 0) inputs.value_score && leb_ℤ inputs.value_score (whole 100)))
      (value_error "P4 Value Score must be between 0 and 100")

-- The payload of the fingerprint, with its keys as they are sorted.
pub record Payload : Type 0 where
  pub baseline_version : String
  pub configuration_version : String
  pub data_mode : String
  pub data_version : String
  pub decision_model_version : String
  pub future_assessment_version : String
  pub listing_id : ℕ
  pub valuation_version : String

unfoldable pub fingerprint_payload : DecisionInputs → DecisionConfig → Payload
fingerprint_payload inputs config = record {
  baseline_version = inputs.baseline_version;
  configuration_version = config.configuration_version;
  data_mode = inputs.data_mode;
  data_version = inputs.data_version;
  decision_model_version = config.decision_model_version;
  future_assessment_version = inputs.future_assessment_version;
  listing_id = inputs.listing_id;
  valuation_version = inputs.valuation_version;
}

-- `_ranking_dimensions`
unfoldable pub ranking_dimensions :
    DecisionInputs → OpportunityClassification → Bool → List String → List (String × Piece)
ranking_dimensions inputs classification confidence_passed risks =
    (
      "eligible_universe",
      literal (if not (is_insufficient classification) then "included" else "excluded"),
    )
    ∷ ("confidence_gate", literal (if confidence_passed then "passed" else "failed"))
    ∷ ("hard_risk_filter", literal (if is_empty risks then "passed" else "failed"))
    ∷ ("quadrant", literal (class_text classification))
    ∷ (
      "liquidity",
      elim inputs.liquidity_score [ none ↦ literal "missing" | some score ↦ printed score ],
    )
    ∷ []

abbrev pub provenance : List (String × Provenance)
provenance =
    ("engine", name "deterministic_decision_orchestrator")
    ∷ ("bottom_layer_metrics_recomputed", flag false)
    ∷ ("opaque_total_score_created", flag false)
    ∷ ("llm_used", flag false)
    ∷ ("attack_enabled", flag false)
    ∷ ("investment_recommendation_emitted", flag false)
    ∷ []

module _ (digest : Payload → String) where
  -- `_fingerprint`
  unfoldable pub fingerprint : DecisionInputs → DecisionConfig → String
  unfolding fingerprint_payload
  fingerprint inputs config = digest (fingerprint_payload inputs config)

  -- `DecisionOrchestrator.evaluate`
  unfoldable pub evaluate : DecisionConfig → ℕ → DecisionInputs → Result DecisionEvaluation
  evaluate config now inputs = do
    validate_inputs inputs
    let classification = classify_opportunity inputs config.classification
    confidence_passed ← confidence_gate_passed inputs config
    let risks = hard_risks inputs config.eligibility
    let eligibility = eligibility_status classification confidence_passed risks
    let state = workflow_state inputs classification eligibility config
    let reasons = build_reasons inputs config
    let code = fingerprint inputs config
    ok (record {
      listing_id = inputs.listing_id;
      data_mode = inputs.data_mode;
      current_ask = inputs.current_ask;
      fair_value = inputs.fair_value;
      fair_value_low = inputs.fair_value_low;
      fair_value_high = inputs.fair_value_high;
      value_score = inputs.value_score;
      future_score = inputs.future_score;
      liquidity_score = inputs.liquidity_score;
      obsolescence_risk = inputs.obsolescence_risk;
      structural_alpha = inputs.structural_alpha;
      valuation_confidence = inputs.valuation_confidence;
      future_confidence = inputs.future_confidence;
      calibration_state = inputs.calibration_state;
      opportunity_classification = classification;
      workflow_state = state;
      eligibility_status = eligibility;
      confidence_gate_passed = confidence_passed;
      hard_risks = risks;
      positive_reasons = reasons.0;
      negative_reasons = reasons.1;
      warnings = dedupe (inputs.valuation_warnings ++ inputs.future_warnings);
      ranking_dimensions = ranking_dimensions inputs classification confidence_passed risks;
      provenance = provenance;
      valuation_version = inputs.valuation_version;
      future_assessment_version = inputs.future_assessment_version;
      baseline_version = inputs.baseline_version;
      decision_model_version = config.decision_model_version;
      configuration_version = config.configuration_version;
      data_version = inputs.data_version;
      data_timestamp = inputs.data_timestamp;
      input_fingerprint = code;
      decision_version = text_append "p55-" (slice code 0 32);
      generated_at = now;
    })
