-- ===== src/Decision/Domain.antt =====
-- services/decision/src/home_radar_decision/domain.py: the records of the decision stage. A UUID is
-- its 128-bit number and a timestamp the microseconds of its instant. `factor_breakdown` and
-- `risk_breakdown`, which the stage carries and never reads, are left out.
use shanghai_home_radar.Prelude.{ℕ, Bool, Option, List, String, Decimal, Piece}

pub data OpportunityClassification : Type 0 where
  quality_at_discount good_but_expensive value_trap low_quality insufficient_data :
      OpportunityClassification

pub data WorkflowState : Type 0 where
  pass watch contact view : WorkflowState

pub data EligibilityStatus : Type 0 where
  eligible hard_risk_filtered insufficient : EligibilityStatus

pub data HumanLabel : Type 0 where
  worth_viewing wait value_trap pass : HumanLabel

pub record DecisionReason : Type 0 where
  pub code : String
  pub text : List Piece
  pub source_stage : String
  pub evidence : List (String × Piece)

pub record DecisionInputs : Type 0 where
  pub listing_id : ℕ
  pub data_mode : String
  pub current_ask : Decimal
  pub fair_value : Decimal
  pub fair_value_low : Decimal
  pub fair_value_high : Decimal
  pub ask_discount_to_fair_value : Decimal
  pub value_score : Decimal
  pub liquidity_score : Option Decimal
  pub valuation_confidence : String
  pub baseline_confidence : String
  pub future_score : Option Decimal
  pub future_score_coverage : Decimal
  pub future_confidence : String
  pub obsolescence_risk : Option Decimal
  pub obsolescence_coverage : Decimal
  pub structural_alpha : Decimal
  pub calibration_state : String
  pub valuation_warnings : List String
  pub future_warnings : List String
  pub valuation_version : String
  pub future_assessment_version : String
  pub baseline_version : String
  pub valuation_configuration_version : String
  pub future_configuration_version : String
  pub data_version : String
  pub data_timestamp : Option ℕ

-- A value of the `provenance` dictionary.
pub data Provenance : Type 0 where
  name : String → Provenance
  flag : Bool → Provenance

pub record DecisionEvaluation : Type 0 where
  pub listing_id : ℕ
  pub data_mode : String
  pub current_ask : Decimal
  pub fair_value : Decimal
  pub fair_value_low : Decimal
  pub fair_value_high : Decimal
  pub value_score : Decimal
  pub future_score : Option Decimal
  pub liquidity_score : Option Decimal
  pub obsolescence_risk : Option Decimal
  pub structural_alpha : Decimal
  pub valuation_confidence : String
  pub future_confidence : String
  pub calibration_state : String
  pub opportunity_classification : OpportunityClassification
  pub workflow_state : WorkflowState
  pub eligibility_status : EligibilityStatus
  pub confidence_gate_passed : Bool
  pub hard_risks : List String
  pub positive_reasons : List DecisionReason
  pub negative_reasons : List DecisionReason
  pub warnings : List String
  pub ranking_dimensions : List (String × Piece)
  pub provenance : List (String × Provenance)
  pub valuation_version : String
  pub future_assessment_version : String
  pub baseline_version : String
  pub decision_model_version : String
  pub configuration_version : String
  pub data_version : String
  pub data_timestamp : Option ℕ
  pub input_fingerprint : String
  pub decision_version : String
  pub generated_at : ℕ

pub record RankedDecision : Type 0 where
  pub rank : ℕ
  pub eligible_count : ℕ
  pub evaluation : DecisionEvaluation

pub record BlindEvaluationCase : Type 0 where
  pub listing_id : ℕ
  pub rank : Option ℕ
  pub opportunity_classification : OpportunityClassification
  pub workflow_state : WorkflowState
  pub eligibility_status : EligibilityStatus
  pub human_label : HumanLabel

pub record BlindEvaluationMetrics : Type 0 where
  pub labeled_count : ℕ
  pub precision_at_5 : Option Decimal
  pub precision_at_10 : Option Decimal
  pub value_trap_false_positive_rate : Option Decimal
  pub view_acceptance_rate : Option Decimal
  pub top_10_manual_acceptance_rate : Option Decimal

-- The text that stands for the classification.
abbrev pub class_text : OpportunityClassification → String
class_text quality_at_discount = "QUALITY_AT_DISCOUNT"
class_text good_but_expensive = "GOOD_BUT_EXPENSIVE"
class_text OpportunityClassification.value_trap = "VALUE_TRAP"
class_text low_quality = "LOW_QUALITY"
class_text insufficient_data = "INSUFFICIENT_DATA"
