-- ===== src/Decision/Classification.antt =====
-- services/decision/src/home_radar_decision/classification.py
pub mod Quadrants
use shanghai_home_radar.Prelude.{
  Bool, true, false, ◌||◌, ◌&&◌, not, Option, none, some, is_none, leb_ℤ, ltb_ℤ, str_eq, Decimal,
  if◌then◌else◌,
}
use shanghai_home_radar.Decision.Domain.{
  DecisionInputs, OpportunityClassification, quality_at_discount, good_but_expensive, value_trap,
  low_quality, insufficient_data,
}
use shanghai_home_radar.Decision.Config.{ClassificationConfig}

-- `_insufficient`
unfoldable pub insufficient_evidence : DecisionInputs → ClassificationConfig → Bool
insufficient_evidence inputs config =
    is_none inputs.future_score
    || is_none inputs.obsolescence_risk
    || ltb_ℤ inputs.future_score_coverage config.minimum_future_coverage
    || ltb_ℤ inputs.obsolescence_coverage config.minimum_obsolescence_coverage
    || str_eq inputs.valuation_confidence "insufficient"
    || str_eq inputs.future_confidence "insufficient"
    || str_eq inputs.baseline_confidence "insufficient"

-- `score is not None and score >= minimum`
abbrev pub at_least : Option Decimal → Decimal → Bool
at_least none minimum = false
at_least (some score) minimum = leb_ℤ minimum score

-- The four quadrants, behind the test for missing evidence.
abbrev pub quadrant : Bool → Bool → OpportunityClassification
quadrant high_value high_future =
    if high_value && high_future
    then quality_at_discount
    else if high_future
    then good_but_expensive
    else if high_value
    then value_trap
    else low_quality

unfoldable pub classify_opportunity :
    DecisionInputs → ClassificationConfig → OpportunityClassification
unfolding insufficient_evidence
classify_opportunity inputs config =
    if insufficient_evidence inputs config
    then insufficient_data
    else quadrant (leb_ℤ config.high_value_score inputs.value_score)
        (at_least inputs.future_score config.high_future_score)
