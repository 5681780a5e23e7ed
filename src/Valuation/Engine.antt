-- ===== src/Valuation/Engine.antt =====
-- services/valuation/src/home_radar_valuation/engine.py and history.py: `evaluate`, which composes the
-- parts. The fingerprint with the versions, the explanations and the provenance are left out.
pub mod Asking
use shanghai_home_radar.Prelude.{
  ℕ, ◌-◌, ◌/◌, pos, pos_part, Bool, true, false, not, ◌&&◌, ◌||◌, Option, none, some, List, [], ◌∷◌,
  ◌++◌, String, Result, ok, value_error, raise_if, ◌>>=◌, ◌>>◌, leb, str_eq, contains, length, map,
  is_empty, select, if◌then◌else◌,
}
use shanghai_home_radar.Sorting.{sort_by}
use shanghai_home_radar.Collector.Repository.{any}
use shanghai_home_radar.Arithmetic.{Arithmetic, ◌⊖◌, ◌⊘◌, ◌≈◌, ◌≺◌, nought, quantize, greatest, sum}
use shanghai_home_radar.Market.Windows.{Instant}
use shanghai_home_radar.Valuation.Domain.{
  TargetProperty, ComparableRecord, SelectedComparable, AdjustedComparable, BaselineEvidence,
  PriceHistory, TextTools, ComparableSelection, FairValueAggregation,
}
use shanghai_home_radar.Valuation.Config.{AdjustmentConfig, ValuationConfig}
use shanghai_home_radar.Valuation.Aggregation.{divide, aggregate_fair_value}
use shanghai_home_radar.Valuation.Comparables.{days_from}
use shanghai_home_radar.Valuation.Comparables.Selection.{
  select_comparables, effective_comparable_count,
}
use shanghai_home_radar.Valuation.Adjustments.{adjust_comparable, target_missing_attributes}
use shanghai_home_radar.Valuation.Confidence.{calculate_confidence}
use shanghai_home_radar.Valuation.Scoring.{calculate_value_score}
use shanghai_home_radar.Valuation.Warnings.{apply_warning_rules}

pub record EvaluationInputs (D : Type 0) : Type 0 where
  pub target : TargetProperty D
  pub candidates : List (ComparableRecord D)
  pub valuation_baseline : Option (BaselineEvidence D)
  pub listing_baseline : Option (BaselineEvidence D)
  pub price_history : PriceHistory D

pub record ValuationEvaluation (D : Type 0) : Type 0 where
  pub listing_id : Option ℕ
  pub data_mode : String
  pub data_notice : String
  pub recommendation_status : String
  pub fair_value : D
  pub fair_value_low : D
  pub fair_value_high : D
  pub valuation_basis : String
  pub valuation_confidence : String
  pub valuation_confidence_score : D
  pub transaction_support : String
  pub current_ask : D
  pub ask_discount_to_fair_value : D
  pub estimated_executable_price : Option D
  pub executable_discount_to_fair_value : Option D
  pub value_score : D
  pub decision : String
  pub comparable_count : ℕ
  pub effective_comparable_count : D
  pub baseline_level_used : String
  pub baseline_confidence : String
  pub warnings : List String
  pub baseline_generated_at : Option ℕ

-- `_data_notice`
unfoldable pub data_notice_of : String → String
data_notice_of mode =
    if str_eq mode "live"
    then "LIVE authorized evidence; this is analysis, not an investment recommendation."
    else if str_eq mode "demo"
    then "DEMO synthetic evidence; never treat this output as a live recommendation."
    else "SAMPLE evidence; this output is DEMO-only and not a live recommendation."

abbrev pub years_of : {D : Type 0} → List (AdjustedComparable D) → List ℕ
years_of [] = []
years_of (c ∷ cs) = elim c.selected.record_of.year_built [
  | none ↦ years_of cs
  | some year ↦ year ∷ years_of cs
]

abbrev pub nth_year : List ℕ → ℕ → Option ℕ
nth_year [] n = none
nth_year (y ∷ ys) n = if leb n 0 then some y else nth_year ys (n - 1)

-- `_median_year`
unfoldable pub median_year : {D : Type 0} → List (AdjustedComparable D) → Option ℕ
median_year comparables =
    let years = sort_by leb (years_of comparables) in nth_year years (length years / 2)

abbrev pub last_date : List ℕ → Option ℕ
last_date [] = none
last_date (d ∷ []) = some d
last_date (d ∷ e ∷ rest) = last_date (e ∷ rest)

abbrev pub days_since : ℕ → Option ℕ → Option ℕ
days_since as_of none = none
days_since as_of (some cut) = some (pos_part (days_from cut as_of))

module _ {D : Type 0} ⦃a : Arithmetic D⦄ where
  -- `_ratio`
  unfoldable pub ratio : D → D → Result D
  ratio numerator denominator = do share ← divide numerator denominator; ok (quantize 6 share)

  abbrev pub has_type : String → AdjustedComparable D → Bool
  has_type name c = str_eq c.selected.record_of.observation_type name

  abbrev pub baseline_has_type : String → Option (BaselineEvidence D) → Bool
  baseline_has_type name none = false
  baseline_has_type name (some b) = str_eq b.observation_type name

  -- `_valuation_basis`
  unfoldable pub valuation_basis_of :
      List (AdjustedComparable D) → Option (BaselineEvidence D) → String
  valuation_basis_of comparables baseline =
      let has_transaction =
        any (has_type "transaction") comparables || baseline_has_type "transaction" baseline in
      let has_listing =
        any (has_type "listing") comparables || baseline_has_type "listing" baseline in
      if has_transaction && has_listing
      then "mixed_source"
      else if has_transaction
      then "transaction_supported"
      else "listing_derived"

  -- `_retained_effective_count`
  unfoldable pub retained_effective_count : List (AdjustedComparable D) → D
  retained_effective_count comparables =
      let weights = map (λ (c : AdjustedComparable D). c.selected.weight) comparables in
      let total = sum weights in
      if total ≈ nought
      then nought
      else effective_comparable_count (map (λ weight. weight ⊘ total) weights)

  unfoldable pub adjust_all :
      TextTools
      → TargetProperty D
      → List (SelectedComparable D)
      → AdjustmentConfig
      → Result (List (AdjustedComparable D))
  adjust_all tools target [] config = ok []
  adjust_all tools target (c ∷ cs) config = do
    adjusted ← adjust_comparable tools target c config
    rest ← adjust_all tools target cs config
    ok (adjusted ∷ rest)

  abbrev pub liquidity_of : Option (BaselineEvidence D) → Option D
  liquidity_of none = none
  liquidity_of (some b) = b.liquidity_score

  abbrev pub level_used_of : Option (BaselineEvidence D) → String
  level_used_of none = "none"
  level_used_of (some b) = b.level_used

  abbrev pub confidence_of : Option (BaselineEvidence D) → String
  confidence_of none = "insufficient"
  confidence_of (some b) = b.confidence

  abbrev pub generated_of : Option (BaselineEvidence D) → Option ℕ
  generated_of none = none
  generated_of (some b) = b.generated_at

  unfoldable pub executable_discount : D → Option D → Result (Option D)
  executable_discount fair_value none = ok none
  executable_discount fair_value (some price) = do
    share ← ratio (fair_value ⊖ price) fair_value
    ok (some share)

  -- The selection, the adjustments and the aggregation.
  unfoldable pub fair_value_of :
      (ℕ → String)
      → (ℕ → String)
      → TextTools
      → ValuationConfig
      → TargetProperty D
      → List (ComparableRecord D)
      → Option (BaselineEvidence D)
      → ℕ
      → Result (ComparableSelection D × FairValueAggregation D)
  fair_value_of uuid_text number_text tools config target candidates baseline as_of = do
    selection ←
        select_comparables uuid_text number_text tools target candidates as_of config.comparables
    adjusted ← adjust_all tools target selection.comparables config.adjustments
    aggregation ←
        aggregate_fair_value target adjusted baseline config.comparables config.adjustments
          (length (target_missing_attributes target))
    ok (selection, aggregation)

  -- `DeterministicValuationEngine.evaluate`
  unfoldable pub evaluate_property :
      (ℕ → String)
      → (ℕ → String)
      → TextTools
      → ValuationConfig
      → EvaluationInputs D
      → Instant
      → Result (ValuationEvaluation D)
  evaluate_property uuid_text number_text tools config inputs as_of = do
    raise_if (not as_of.is_aware) (value_error "as_of must be timezone-aware")
    let target = inputs.target
    let baseline = inputs.valuation_baseline
    valued ←
        fair_value_of uuid_text number_text tools config target inputs.candidates baseline as_of.at
    let selection = valued.0
    let aggregation = valued.1
    let missing = length (target_missing_attributes target)
    let retained = aggregation.retained_comparables
    confidence ←
        calculate_confidence selection retained baseline aggregation.dispersion_rate missing
          config.confidence config.comparables
    let liquidity = liquidity_of inputs.listing_baseline
    score ←
        calculate_value_score tools target aggregation.fair_value liquidity inputs.price_history
          (median_year retained) config.value_score
    discount ← ratio (aggregation.fair_value ⊖ target.current_ask) aggregation.fair_value
    warned ←
        apply_warning_rules tools target discount liquidity (length retained)
          (confidence_of baseline) confidence.level confidence.transaction_support score.score
          config
    executable ← executable_discount aggregation.fair_value target.documented_executable_price
    ok (record {
      listing_id = target.listing_id;
      data_mode = target.data_mode;
      data_notice = data_notice_of target.data_mode;
      recommendation_status =
          if str_eq target.data_mode "live" then "live_analysis" else "demo_only";
      fair_value = aggregation.fair_value;
      fair_value_low = aggregation.fair_value_low;
      fair_value_high = aggregation.fair_value_high;
      valuation_basis = valuation_basis_of retained baseline;
      valuation_confidence = confidence.level;
      valuation_confidence_score = confidence.score;
      transaction_support = confidence.transaction_support;
      current_ask = target.current_ask;
      ask_discount_to_fair_value = discount;
      estimated_executable_price = target.documented_executable_price;
      executable_discount_to_fair_value = executable;
      value_score = warned.capped_score;
      decision = warned.decision;
      comparable_count = length retained;
      effective_comparable_count = retained_effective_count retained;
      baseline_level_used = level_used_of baseline;
      baseline_confidence = confidence_of baseline;
      warnings = warned.warnings;
      baseline_generated_at = generated_of baseline;
    })

  -- The price at the first snapshot, or the asking price.
  abbrev pub first_price : D → List (ℕ × D) → D
  first_price ask [] = ask
  first_price ask (s ∷ rest) = s.1

  -- history.py: `build_price_history`; the last cut is not after the instant.
  unfoldable pub build_price_history : D → ℕ → List (ℕ × D) → List ℕ → List ℕ → ℕ → PriceHistory D
  build_price_history ask first_seen_at snapshots cuts relistings as_of =
      let valid = sort_by (λ x y. leb (x.0) (y.0)) (select (λ s. leb (s.0) as_of) snapshots) in
      let original = first_price ask valid in
      let reduction = greatest nought (original ⊖ ask) in
      let share = if nought ≺ original then reduction ⊘ original else nought in
      let valid_cuts = sort_by leb (select (λ t. leb t as_of) cuts) in
      record {
        original_ask = original;
        current_ask = ask;
        absolute_reduction = quantize 2 reduction;
        percentage_reduction = quantize 6 share;
        price_cut_count = length valid_cuts;
        days_since_last_cut = days_since as_of (last_date valid_cuts);
        days_on_market = pos_part (days_from first_seen_at as_of);
        relisting_flag = any (λ t. leb t as_of) relistings;
      }
