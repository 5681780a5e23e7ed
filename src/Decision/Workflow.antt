-- ===== src/Decision/Workflow.antt =====
-- services/decision/src/home_radar_decision/workflow.py
pub mod Gates
use shanghai_home_radar.Prelude.{
  ℕ, Bool, true, false, ◌||◌, ◌&&◌, not, Option, none, some, List, [], ◌∷◌, ◌++◌, String, Result,
  ok, err, value_error, ◌>>=◌, leb, leb_ℤ, is_empty, contains, select, dedupe, text_leb, is_none,
  str_eq, Decimal, suc, if◌then◌else◌, every,
}
use shanghai_home_radar.Sorting.{sort_by}
use shanghai_home_radar.Decision.Domain.{
  DecisionInputs, OpportunityClassification, quality_at_discount, good_but_expensive, value_trap,
  low_quality, insufficient_data, EligibilityStatus, eligible, hard_risk_filtered, insufficient,
  WorkflowState, pass, watch, contact, view,
}
use shanghai_home_radar.Decision.Config.{
  DecisionConfig, EligibilityConfig, WorkflowConfig, confidence_levels,
}
use shanghai_home_radar.Decision.Classification.{at_least}

-- `levels.index(s)`; `none` where it raises.
abbrev pub index_of : List String → String → Option ℕ
index_of [] s = none
index_of (x ∷ xs) s =
    if str_eq s x then some 0 else elim (index_of xs s) [ none ↦ none | some i ↦ some (suc i) ]

unfoldable pub level_index : String → Option ℕ
level_index = index_of confidence_levels

-- `level in CONFIDENCE_LEVELS and CONFIDENCE_LEVELS.index(level) >= minimum`
abbrev pub reaches : ℕ → String → Bool
reaches minimum level = elim (level_index level) [ none ↦ false | some i ↦ leb minimum i ]

-- `index` raises where the configured level is unknown.
unfoldable pub confidence_gate_passed : DecisionInputs → DecisionConfig → Result Bool
confidence_gate_passed inputs config = elim (level_index config.eligibility.minimum_confidence) [
  | none ↦ err (value_error "tuple.index(x): x not in tuple")
  | some minimum ↦ ok (
      reaches minimum inputs.valuation_confidence
      && reaches minimum inputs.future_confidence
      && reaches minimum inputs.baseline_confidence)
]

-- `risk is not None and risk >= maximum`
unfoldable pub obsolescence_breach : DecisionInputs → EligibilityConfig → Bool
obsolescence_breach inputs config =
    at_least inputs.obsolescence_risk config.maximum_obsolescence_risk

-- The set of risks before it is sorted, each once.
unfoldable pub risk_set : DecisionInputs → EligibilityConfig → List String
unfolding obsolescence_breach
risk_set inputs config =
    let found =
      select (λ w. contains w (inputs.valuation_warnings ++ inputs.future_warnings))
        config.hard_risk_warnings in
    dedupe
      (found ++ (if obsolescence_breach inputs config then "HIGH_OBSOLESCENCE_RISK" ∷ [] else []))

unfoldable pub hard_risks : DecisionInputs → EligibilityConfig → List String
unfolding risk_set sort_by
hard_risks inputs config = sort_by text_leb (risk_set inputs config)

abbrev pub is_insufficient : OpportunityClassification → Bool
is_insufficient insufficient_data = true
is_insufficient _ = false

-- `classification in {"VALUE_TRAP", "LOW_QUALITY"}`
abbrev pub is_filtered : OpportunityClassification → Bool
is_filtered value_trap = true
is_filtered low_quality = true
is_filtered _ = false

unfoldable pub eligibility_status :
    OpportunityClassification → Bool → List String → EligibilityStatus
eligibility_status classification passed risks =
    if is_insufficient classification || not passed
    then insufficient
    else if not (is_empty risks) || is_filtered classification
    then hard_risk_filtered
    else eligible

-- The rules behind the early returns, at the three scores.
abbrev pub grade : Decimal → Decimal → Decimal → Decimal → WorkflowConfig → WorkflowState
grade value future obsolescence liquidity rules =
    if leb_ℤ rules.view_minimum_value_score value
      && leb_ℤ rules.view_minimum_future_score future
      && leb_ℤ rules.view_minimum_liquidity_score liquidity
      && leb_ℤ obsolescence rules.view_maximum_obsolescence_risk
    then view
    else if leb_ℤ rules.contact_minimum_liquidity_score liquidity
    then contact
    else watch

-- A missing score leaves the listing on the watch list.
abbrev pub grade_known :
    Decimal → Option Decimal → Option Decimal → Option Decimal → WorkflowConfig → WorkflowState
grade_known value (some future) (some obsolescence) (some liquidity) rules =
    grade value future obsolescence liquidity rules
grade_known value _ _ _ rules = watch

abbrev pub is_eligible : EligibilityStatus → Bool
is_eligible eligible = true
is_eligible _ = false

abbrev pub is_expensive : OpportunityClassification → Bool
is_expensive good_but_expensive = true
is_expensive _ = false

unfoldable pub workflow_state :
    DecisionInputs → OpportunityClassification → EligibilityStatus → DecisionConfig → WorkflowState
workflow_state inputs classification eligibility config =
    if not (is_eligible eligibility)
    then pass
    else if is_expensive classification
    then watch
    else grade_known inputs.value_score inputs.future_score inputs.obsolescence_risk
        inputs.liquidity_score config.workflow
