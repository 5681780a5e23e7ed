-- ===== src/Valuation/Aggregation.antt =====
-- services/valuation/src/home_radar_valuation/aggregation.py. An `InsufficientValuationEvidenceError`
-- is a `ValueError`; a division by zero raises an `ArithmeticError`.
pub mod Quantiles
pub mod Evidence
pub mod Interval
pub mod Fair
use shanghai_home_radar.Prelude.{
  ℕ, zero, suc, ◌-◌, ◌/◌, ◌%◌, pos, Bool, true, false, not, ◌&&◌, ◌||◌, Option, none, some, List,
  [], ◌∷◌, ◌++◌, String, Result, Error, ok, err, value_error, lookup_error, arithmetic_error,
  raise_if, ◌>>=◌, ◌>>◌, ltb, ◌==◌, length, select, is_empty, is_none, map, if◌then◌else◌,
}
use shanghai_home_radar.Sorting.{sort_by}
use shanghai_home_radar.Arithmetic.{
  Arithmetic, ◌⊕◌, ◌⊖◌, ◌⊗◌, ◌⊘◌, ◌≼◌, ◌≺◌, ◌≈◌, lit, int, nought, one, quantize, least, greatest,
  sum,
}
use shanghai_home_radar.Valuation.Domain.{
  TargetProperty, SelectedComparable, AdjustedComparable, BaselineEvidence, FairValueAggregation,
}
use shanghai_home_radar.Valuation.Config.{ComparableConfig, AdjustmentConfig}

-- `values[i]`
abbrev pub element {ℓ} : {A : Type ℓ} → List A → ℕ → Result A
element [] n = err (lookup_error "list index out of range")
element (x ∷ xs) zero = ok x
element (x ∷ xs) (suc n) = element xs n

module _ {D : Type 0} ⦃a : Arithmetic D⦄ where
  -- `x / y`
  unfoldable pub divide : D → D → Result D
  divide x y = if y ≈ nought then err (arithmetic_error "division by zero") else ok (x ⊘ y)

  abbrev pub by_value : D × D → D × D → Bool
  by_value p q = p.0 ≼ q.0

  -- The first value at which the weights before and at it reach the threshold, or the last value.
  unfoldable pub reached : D → D → D → List (D × D) → D
  reached threshold cumulative last [] = last
  reached threshold cumulative last ((value, weight) ∷ rest) =
      let later = reached threshold (cumulative ⊕ weight) value rest in
      if threshold ≼ (cumulative ⊕ weight) then value else later

  abbrev pub total_weight : List (D × D) → D
  total_weight points = sum (map (λ p. p.1) points)

  unfoldable pub weighted_quantile : List (D × D) → D → Result D
  weighted_quantile points quantile =
      let ordered = sort_by by_value points in
      elim ordered [
        | [] ↦ err (value_error "weighted quantile requires at least one point")
        | p ∷ rest ↦ ok (reached (quantile ⊗ total_weight (p ∷ rest)) nought p.0 (p ∷ rest))
      ]

  abbrev pub over_total : D → List (D × D) → List (D × D)
  over_total total = map (λ p. (p.0, p.1 ⊘ total))

  -- `_normalized_points`
  unfoldable pub normalized_points : List (D × D) → Result (List (D × D))
  normalized_points points =
      let total = total_weight points in
      if total ≼ nought
      then err (value_error "valuation evidence has zero weight")
      else ok (over_total total points)

  -- `_median`
  unfoldable pub median : List D → Result D
  median values =
      let middle = length values / 2 in
      if not (length values % 2 == 0) then element values middle else do
        below ← element values (middle - 1)
        above ← element values middle
        ok ((below ⊕ above) ⊘ int 2)

  -- `xs or ys`
  abbrev pub or_all :
      List (AdjustedComparable D) → List (AdjustedComparable D) → List (AdjustedComparable D)
  or_all [] ys = ys
  or_all (x ∷ xs) ys = x ∷ xs

  abbrev pub at_price : D → AdjustedComparable D → Bool
  at_price median item = item.adjusted_unit_price ≈ median

  abbrev pub is_close : ComparableConfig → D → D → AdjustedComparable D → Bool
  is_close config median mad item =
      ((lit (pos 674500) ⊗ a.absolute (item.adjusted_unit_price ⊖ median)) ⊘ mad)
      ≼ lit config.outlier_mad_threshold

  -- The observations that stay, by the median of the prices and of the distances from it.
  unfoldable pub retain :
      ComparableConfig → D → D → List (AdjustedComparable D) → List (AdjustedComparable D)
  retain config median mad comparables =
      if mad ≈ nought
      then (if is_empty (select (λ item. not (at_price median item)) comparables)
          then comparables
          else or_all (select (at_price median) comparables) comparables)
      else or_all (select (is_close config median mad) comparables) comparables

  -- `_remove_outliers`
  unfoldable pub remove_outliers :
      List (AdjustedComparable D) → ComparableConfig → Result (List (AdjustedComparable D))
  remove_outliers comparables config =
      if ltb (length comparables) config.outlier_minimum_samples then ok comparables else do
        let values = sort_by (λ x y. x ≼ y) (map (λ item. item.adjusted_unit_price) comparables)
        centre ← median values
        mad ← median (sort_by (λ x y. x ≼ y) (map (λ value. a.absolute (value ⊖ centre)) values))
        ok (retain config centre mad comparables)

  -- The value of the baseline: its price for a square metre, or else its price.
  unfoldable pub baseline_value : TargetProperty D → BaselineEvidence D → Option D
  baseline_value target baseline = elim baseline.unit_price_p50 [
    | some unit ↦ some (unit ⊗ target.area_sqm)
    | none ↦ baseline.price_p50
  ]

  unfoldable pub baseline_points :
      TargetProperty D → Option (BaselineEvidence D) → ComparableConfig → List (D × D)
  baseline_points target none config = []
  baseline_points target (some baseline) config = elim (baseline_value target baseline) [
    | none ↦ []
    | some value ↦ (value, lit config.baseline_weight) ∷ []
  ]

  abbrev pub comparable_points : List (AdjustedComparable D) → List (D × D)
  comparable_points = map (λ item. (item.adjusted_value, item.selected.weight))

  -- The bounds of the baseline widen the interval.
  unfoldable pub widened_low : TargetProperty D → Option (BaselineEvidence D) → D → D
  widened_low target none low = low
  widened_low target (some baseline) low = elim baseline.unit_price_p25 [
    | none ↦ low
    | some unit ↦ least low (unit ⊗ target.area_sqm)
  ]

  unfoldable pub widened_high : TargetProperty D → Option (BaselineEvidence D) → D → D
  widened_high target none high = high
  widened_high target (some baseline) high = elim baseline.unit_price_p75 [
    | none ↦ high
    | some unit ↦ greatest high (unit ⊗ target.area_sqm)
  ]

  -- How uncertain the value is, before the cut at the maximum.
  unfoldable pub uncertainty : AdjustmentConfig → D → D → ℕ → D
  uncertainty config dispersion sample_ratio missing =
      let base = lit config.base_uncertainty_rate in
      base
      ⊕ lit config.missing_attribute_uncertainty_rate ⊗ int missing
      ⊕ dispersion ⊘ int 2
      ⊕ base ⊗ (one ⊖ sample_ratio)

  unfoldable pub aggregated :
      TargetProperty D
      → Option (BaselineEvidence D)
      → D
      → D
      → D
      → D
      → D
      → List (AdjustedComparable D)
      → Bool
      → FairValueAggregation D
  aggregated target baseline p25 central p75 dispersion interval_rate retained included = record {
    fair_value = quantize 2 central;
    fair_value_low =
        quantize 2 (widened_low target baseline (least p25 (central ⊗ (one ⊖ interval_rate))));
    fair_value_high =
        quantize 2 (widened_high target baseline (greatest p75 (central ⊗ (one ⊕ interval_rate))));
    dispersion_rate = quantize 6 dispersion;
    interval_rate = quantize 6 interval_rate;
    retained_comparables = retained;
    baseline_included = included;
  }

  unfoldable pub aggregate_fair_value :
      TargetProperty D
      → List (AdjustedComparable D)
      → Option (BaselineEvidence D)
      → ComparableConfig
      → AdjustmentConfig
      → ℕ
      → Result (FairValueAggregation D)
  aggregate_fair_value target comparables baseline config adjustment missing = do
    retained ← remove_outliers comparables config
    let extra = baseline_points target baseline config
    let points = comparable_points retained ++ extra
    raise_if (is_empty points) (value_error "no usable comparable observation or P3 baseline")
    normalized ← normalized_points points
    central ← weighted_quantile normalized (lit (pos 500000))
    p25 ← weighted_quantile normalized (lit (pos 250000))
    p75 ← weighted_quantile normalized (lit (pos 750000))
    let dispersion = if nought ≺ central then (p75 ⊖ p25) ⊘ central else one
    filled ← divide (int (length retained)) (int config.target_comparables)
    let rate = uncertainty adjustment dispersion (least one filled) missing
    let interval_rate = least rate (lit adjustment.maximum_interval_rate)
    ok (
        aggregated target baseline p25 central p75 dispersion interval_rate retained
          (not (is_empty extra)))
