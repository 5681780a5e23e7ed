-- ===== src/Decision/Validation.antt =====
-- services/decision/src/home_radar_decision/real_world_validation.py: a run of the validation on real
-- listings. Model: the batch with its items, reviews and amendments. The JSON documents that the code
-- only stores are numbers that stand for them, and a UUID is its number.
pub mod Metrics
pub mod Entries
pub mod Stages
pub mod Generation
pub mod Closing
pub mod Lifecycle
mod Tests
use shanghai_home_radar.Prelude.{ℕ, Bool, Option, List, String, Decimal, Piece}
use shanghai_home_radar.Collector.Domain.{DataMode}
use shanghai_home_radar.Decision.Domain.{DecisionReason}
use shanghai_home_radar.Decision.Gate.{Verdict, Checks}

pub data BatchStatus : Type 0 where
  blind_labeling labels_frozen model_generated revealed finalized : BatchStatus

-- `_model_snapshot` with the entries that `generate_model_results` adds.
pub record ModelSnapshot : Type 0 where
  pub decision_version : String
  pub opportunity_classification : String
  pub workflow_state : String
  pub eligibility_status : String
  pub value_score : Decimal
  pub future_score : Option Decimal
  pub liquidity_score : Option Decimal
  pub obsolescence_risk : Option Decimal
  pub positive_reasons : List DecisionReason
  pub negative_reasons : List DecisionReason
  pub current_ask : Decimal
  pub fair_value : Decimal
  pub fair_value_low : Decimal
  pub fair_value_high : Decimal
  pub structural_alpha : Decimal
  pub valuation_confidence : String
  pub future_confidence : String
  pub warnings : List String
  pub hard_risks : List String
  pub ranking_dimensions : List (String × Piece)

-- What a person said of a listing: the columns `human_..` and the notes.
pub record HumanColumns : Type 0 where
  pub opportunity_classification : Option String
  pub workflow_recommendation : Option String
  pub confidence : Option String
  pub positive_reasons : List String
  pub risks : List String
  pub would_visit : Option Bool
  pub notes : Option String

pub record ValidationItem : Type 0 where
  pub id : ℕ
  pub listing_id : ℕ
  pub listing_snapshot : ℕ
  pub geography_bucket : String
  pub archetypes : List String
  pub data_provenance : ℕ
  pub decision_assessment_id : Option ℕ
  pub frozen_rank : Option ℕ
  pub model_snapshot : Option ModelSnapshot
  pub human : HumanColumns
  pub labeled_at : Option ℕ

-- `_metric_case`
pub record MetricCase : Type 0 where
  pub listing_id : ℕ
  pub rank : Option ℕ
  pub human_class : String
  pub human_workflow : String
  pub human_would_visit : Bool
  pub model_class : String
  pub model_workflow : String
  pub model_eligibility : String
  pub valuation_confidence : String
  pub future_confidence : String

pub record Review : Type 0 where
  pub item_id : ℕ
  pub why_ranked_verdict : String
  pub root_cause : Option String
  pub notes : Option String

pub record Amendment : Type 0 where
  pub item_id : ℕ
  pub proposed_label : ℕ
  pub reason : String

-- What `calculate_real_world_metrics` returns.
pub record RealWorldMetrics : Type 0 where
  pub sample_size : ℕ
  pub ranked_count : ℕ
  pub precision_at_5 : Option Decimal
  pub precision_at_10 : Option Decimal
  pub human_acceptance_at_5 : Option Decimal
  pub human_acceptance_at_10 : Option Decimal
  pub human_view_recall : Option Decimal
  pub value_trap_false_positive_rate : Option Decimal
  pub value_traps_at_5 : ℕ
  pub value_traps_at_10 : ℕ
  pub value_trap_rate_at_5 : Option Decimal
  pub value_trap_rate_at_10 : Option Decimal
  pub workflow_accuracy : Option Decimal
  pub opportunity_confusion_matrix : List (String × List (String × ℕ))
  pub why_ranked_agreement_rate : Option Decimal
  pub why_ranked_major_contradiction_rate : Option Decimal
  pub reviewed_count : ℕ
  pub error_count : ℕ
  pub high_confidence_error_rate : Option Decimal
  pub low_confidence_error_rate : Option Decimal
  pub regret_at_5 : ℕ
  pub root_cause_distribution : List (String × ℕ)

-- `gate_checks` is absent before the run is final.
pub record BatchMetrics : Type 0 where
  pub values : RealWorldMetrics
  pub gate_checks : Option Checks

pub record Batch : Type 0 where
  pub protocol_version : String
  pub data_mode : DataMode
  pub status : BatchStatus
  pub input_cutoff_at : ℕ
  pub freeze_manifest : List (String × String)
  pub dataset_fingerprint : String
  pub human_labels_fingerprint : Option String
  pub model_outputs_fingerprint : Option String
  pub labels_frozen_at : Option ℕ
  pub model_generated_at : Option ℕ
  pub revealed_at : Option ℕ
  pub finalized_at : Option ℕ
  pub metrics : Option BatchMetrics
  pub final_recommendation : Option Verdict

-- The rows that belong to one batch.
pub record ValidationRun : Type 0 where
  pub batch : Batch
  pub items : List ValidationItem
  pub reviews : List Review
  pub amendments : List Amendment
