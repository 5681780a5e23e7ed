-- ===== src/Valuation/Warnings.antt =====
-- services/valuation/src/home_radar_valuation/warnings.py.
pub mod Traps
use shanghai_home_radar.Prelude.{
  ℕ, Bool, true, false, not, ◌&&◌, ◌||◌, Option, none, some, List, [], ◌∷◌, ◌++◌, String, Result,
  ok, ◌>>=◌, or_else, contains, str_eq, ltb, text_leb, if◌then◌else◌,
}
use shanghai_home_radar.Sorting.{sort_by}
use shanghai_home_radar.Collector.Repository.{any}
use shanghai_home_radar.Arithmetic.{Arithmetic, ◌≼◌, ◌≺◌, lit, least}
use shanghai_home_radar.Valuation.Domain.{
  TargetProperty, TextTools, floor_category, has_text, is_false,
}
use shanghai_home_radar.Valuation.Config.{WarningConfig, ValuationConfig}
use shanghai_home_radar.Valuation.Scoring.{decision_for_score}

pub record WarningResult (D : Type 0) : Type 0 where
  pub warnings : List String
  pub capped_score : D
  pub decision : String

-- `if test: warnings.add(name)`
abbrev pub warn_if : Bool → String → List String
warn_if test name = if test then name ∷ [] else []

abbrev pub is_low_baseline : String → Bool
is_low_baseline confidence = contains confidence ("low" ∷ "insufficient" ∷ [])

module _ {D : Type 0} ⦃a : Arithmetic D⦄ where
  abbrev pub is_illiquid : Option D → WarningConfig → Bool
  is_illiquid none rules = true
  is_illiquid (some score) rules = score ≺ lit rules.low_liquidity_score

  abbrev pub is_extreme_floor : TextTools → TargetProperty D → Bool
  is_extreme_floor tools target =
      str_eq (floor_category tools target.floor target.total_floors) "top"
      && is_false target.elevator

  abbrev pub is_abnormal : TextTools → TargetProperty D → WarningConfig → Bool
  is_abnormal tools target rules =
      let building_type = tools.lower (or_else target.building_type "") in
      any (λ token. has_text (tools.lower token) building_type) rules.abnormal_property_types

  -- A large discount that something else speaks against.
  unfoldable pub is_value_trap :
      TextTools → TargetProperty D → D → Option D → ℕ → String → WarningConfig → Bool
  is_value_trap tools target discount liquidity count baseline_confidence rules =
      lit rules.large_discount_rate ≼ discount
      && (is_illiquid liquidity rules
          || ltb count rules.insufficient_comparable_count
          || is_extreme_floor tools target
          || is_abnormal tools target rules
          || is_low_baseline baseline_confidence)

  -- The set of the warnings, in alphabetical order.
  unfoldable pub warnings_of :
      TextTools
      → TargetProperty D
      → D
      → Option D
      → ℕ
      → String
      → String
      → WarningConfig
      → List String
  warnings_of tools target discount liquidity count baseline_confidence support rules =
      sort_by text_leb (
        warn_if (is_illiquid liquidity rules) "PRODUCT_LIQUIDITY_RISK"
        ++ warn_if (ltb count rules.insufficient_comparable_count) "LOW_SAMPLE_CONFIDENCE"
        ++ warn_if (is_extreme_floor tools target) "EXTREME_FLOOR_RISK"
        ++ warn_if (str_eq support "none" || is_low_baseline baseline_confidence)
            "SOURCE_DATA_LIMITATION"
        ++ warn_if (is_value_trap tools target discount liquidity count baseline_confidence rules)
            "VALUE_TRAP_RISK")

  unfoldable pub capped_at : Bool → D → D → D
  capped_at test cap score = if test then least score cap else score

  unfoldable pub apply_warning_rules :
      TextTools
      → TargetProperty D
      → D
      → Option D
      → ℕ
      → String
      → String
      → String
      → D
      → ValuationConfig
      → Result (WarningResult D)
  apply_warning_rules tools target discount liquidity count baseline_confidence confidence support
        score config =
      let rules = config.warnings in
      let warnings =
        warnings_of tools target discount liquidity count baseline_confidence support rules in
      let trapped =
        capped_at (contains "VALUE_TRAP_RISK" warnings) (lit rules.trap_score_cap) score in
      let capped =
        capped_at (str_eq confidence "insufficient") (lit rules.insufficient_confidence_score_cap)
          trapped in
      do
        decision ← decision_for_score capped config.value_score
        ok (record { warnings = warnings; capped_score = capped; decision = decision })
