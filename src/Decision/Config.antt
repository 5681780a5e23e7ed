-- ===== src/Decision/Config.antt =====
-- services/decision/src/home_radar_decision/config.py: the configuration records, and what pydantic
-- accepts of each: the ranges of its fields and its validators. The loader of the YAML file is not
-- modelled.
pub mod Accepted
use shanghai_home_radar.Prelude.{
  ℕ, ℤ, pos, Bool, true, false, ◌&&◌, not, List, [], ◌∷◌, String, Decimal, whole, leb_ℤ, neg, leb,
  contains, every, keys, Result, Error, ok, err, value_error, raise_if, ◌>>◌, ◌>>=◌, Option, none,
  some, str_eq, if◌then◌else◌, suc,
}

abbrev pub confidence_levels : List String
confidence_levels = "insufficient" ∷ "low" ∷ "medium" ∷ "high" ∷ []

-- `Field(ge=low, le=high)`
abbrev pub in_range : ℕ → ℕ → Decimal → Bool
in_range low high d = leb_ℤ (whole low) d && leb_ℤ d (whole high)

-- The two sets of texts are equal.
abbrev pub same_set : List String → List String → Bool
same_set xs ys = every (λ x. contains x ys) xs && every (λ y. contains y xs) ys

pub record ClassificationConfig : Type 0 where
  pub high_value_score : Decimal
  pub high_future_score : Decimal
  pub minimum_future_coverage : Decimal
  pub minimum_obsolescence_coverage : Decimal

pub record EligibilityConfig : Type 0 where
  pub minimum_confidence : String
  pub maximum_obsolescence_risk : Decimal
  pub hard_risk_warnings : List String

pub record WorkflowConfig : Type 0 where
  pub attack_enabled : Bool
  pub view_minimum_value_score : Decimal
  pub view_minimum_future_score : Decimal
  pub view_minimum_liquidity_score : Decimal
  pub view_maximum_obsolescence_risk : Decimal
  pub contact_minimum_liquidity_score : Decimal

pub record RankingConfig : Type 0 where
  pub classification_priority : List (String × ℤ)
  pub confidence_priority : List (String × ℤ)

pub record ExplanationConfig : Type 0 where
  pub high_liquidity_score : Decimal
  pub positive_structural_alpha : Decimal
  pub maximum_positive_reasons : ℕ
  pub maximum_negative_reasons : ℕ

pub record ValidationConfig : Type 0 where
  pub target_sample_size : ℕ
  pub accepted_labels : List String
  pub strict_positive_label : String

pub record DecisionConfig : Type 0 where
  pub decision_model_version : String
  pub configuration_version : String
  pub classification : ClassificationConfig
  pub eligibility : EligibilityConfig
  pub workflow : WorkflowConfig
  pub ranking : RankingConfig
  pub explanations : ExplanationConfig
  pub validation : ValidationConfig

unfoldable pub accepts_classification : ClassificationConfig → Bool
accepts_classification c =
    in_range 0 100 c.high_value_score
    && in_range 0 100 c.high_future_score
    && in_range 0 1 c.minimum_future_coverage
    && in_range 0 1 c.minimum_obsolescence_coverage

-- `validate_confidence`
unfoldable pub accepts_eligibility : EligibilityConfig → Bool
accepts_eligibility c =
    in_range 0 100 c.maximum_obsolescence_risk && contains c.minimum_confidence confidence_levels

-- `disallow_attack`
unfoldable pub accepts_workflow : WorkflowConfig → Bool
accepts_workflow c =
    in_range 0 100 c.view_minimum_value_score
    && in_range 0 100 c.view_minimum_future_score
    && in_range 0 100 c.view_minimum_liquidity_score
    && in_range 0 100 c.view_maximum_obsolescence_risk
    && in_range 0 100 c.contact_minimum_liquidity_score
    && not c.attack_enabled

-- `validate_priorities`
unfoldable pub accepts_ranking : RankingConfig → Bool
accepts_ranking c =
    same_set (keys c.classification_priority) ("QUALITY_AT_DISCOUNT" ∷ "GOOD_BUT_EXPENSIVE" ∷ [])
    && same_set (keys c.confidence_priority) confidence_levels

unfoldable pub accepts_explanations : ExplanationConfig → Bool
accepts_explanations c =
    in_range 0 100 c.high_liquidity_score
    && leb_ℤ (neg (whole 100)) c.positive_structural_alpha
    && leb_ℤ c.positive_structural_alpha (whole 100)
    && leb 1 c.maximum_positive_reasons
    && leb c.maximum_positive_reasons 10
    && leb 1 c.maximum_negative_reasons
    && leb c.maximum_negative_reasons 10

-- `validate_labels`
unfoldable pub accepts_validation : ValidationConfig → Bool
accepts_validation c =
    leb 1 c.target_sample_size && contains c.strict_positive_label c.accepted_labels

unfoldable pub accepts : DecisionConfig → Bool
accepts c =
    accepts_classification c.classification
    && accepts_eligibility c.eligibility
    && accepts_workflow c.workflow
    && accepts_ranking c.ranking
    && accepts_explanations c.explanations
    && accepts_validation c.validation
