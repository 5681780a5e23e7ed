-- ===== src/Valuation/Adjustments.antt =====
-- services/valuation/src/home_radar_valuation/adjustments.py. An adjustment is its factor, its rate and
-- its amount; the texts that explain it are left out.
pub mod Limits
use shanghai_home_radar.Prelude.{
  ℕ, ◌*◌, pos, Bool, true, false, not, ◌&&◌, ◌||◌, Option, none, some, List, [], ◌∷◌, ◌++◌, String,
  Decimal, Result, ok, err, ◌>>=◌, item, str_eq, is_none, sub_ℕ, ltb, map, if◌then◌else◌,
}
use shanghai_home_radar.Arithmetic.{
  Arithmetic, ◌⊕◌, ◌⊖◌, ◌⊗◌, ◌⊘◌, ◌≈◌, lit, nought, one, quantize, least, greatest, sum,
}
use shanghai_home_radar.Valuation.Domain.{
  TargetProperty, ComparableRecord, SelectedComparable, AdjustedComparable, ValuationAdjustment,
  TextTools, resolved_layout, normalized_orientation, floor_category, building_segment,
  metro_bucket,
}
use shanghai_home_radar.Valuation.Config.{AdjustmentConfig}
use shanghai_home_radar.Valuation.Comparables.{distance, same_text}

-- The names of the attributes that are absent.
abbrev pub absent : List (String × Bool) → List String
absent [] = []
absent ((name, true) ∷ values) = name ∷ absent values
absent ((name, false) ∷ values) = absent values

module _ {D : Type 0} ⦃a : Arithmetic D⦄ where
  unfoldable pub target_missing_attributes : TargetProperty D → List String
  target_missing_attributes t = absent (
      ("layout", is_none (resolved_layout t.layout t.bedrooms))
      ∷ ("floor", is_none t.floor)
      ∷ ("total_floors", is_none t.total_floors)
      ∷ ("orientation", is_none t.orientation)
      ∷ ("year_built", is_none t.year_built)
      ∷ ("elevator", is_none t.elevator)
      ∷ ("building_type", is_none t.building_type)
      ∷ ("metro_distance_m", is_none t.metro_distance_m)
      ∷ ("employment_accessibility", is_none t.employment_accessibility)
      ∷ ("mature_amenity_accessibility", is_none t.mature_amenity_accessibility)
      ∷ ("layout_quality", str_eq t.layout_quality "unknown")
      ∷ ("road_noise_exposure", str_eq t.road_noise_exposure "unknown")
      ∷ [])

  -- The difference of the rates of two classes.
  unfoldable pub delta :
      List (String × Decimal) → String → List (String × Decimal) → String → Result (Option D)
  delta rates target others comparable = do
    x ← item rates target
    y ← item others comparable
    ok (some (lit x ⊖ lit y))

  -- `_rate_delta`, with `require_target`
  unfoldable pub rate_delta : List (String × Decimal) → String → String → Result (Option D)
  rate_delta rates target comparable =
      if str_eq target "unknown" || str_eq comparable "unknown"
      then ok none
      else delta rates target rates comparable

  -- `_floor_elevator_delta`
  unfoldable pub floor_elevator_delta :
      TextTools → TargetProperty D → ComparableRecord D → AdjustmentConfig → Result (Option D)
  floor_elevator_delta tools target r config =
      let target_floor = floor_category tools target.floor target.total_floors in
      let comparable_floor = floor_category tools r.floor r.total_floors in
      if str_eq target_floor "unknown"
        || str_eq comparable_floor "unknown"
        || is_none target.elevator
        || is_none r.elevator
      then ok none
      else do
        row ←
            item config.floor_elevator_rates
              (building_segment tools target.building_type target.elevator target.total_floors)
        x ← item row target_floor
        other ←
            item config.floor_elevator_rates
              (building_segment tools r.building_type r.elevator r.total_floors)
        y ← item other comparable_floor
        ok (some (lit x ⊖ lit y))

  -- `_metro_delta`
  unfoldable pub metro_delta :
      TargetProperty D → ComparableRecord D → AdjustmentConfig → Result (Option D)
  metro_delta target r config = elim target.metro_distance_m [
    | none ↦ ok none
    | some m ↦ elim r.metro_distance_m [
      | none ↦ ok none
      | some n ↦
          if not (same_text r.community (some target.community))
            || ltb (distance m n) config.metro_minimum_intra_community_difference_m
          then ok none
          else delta config.metro_bucket_rates
              (metro_bucket (some m) config.metro_distance_thresholds_m) config.metro_bucket_rates
              (metro_bucket (some n) config.metro_distance_thresholds_m)
    ]
  ]

  -- `_bounded`
  unfoldable pub bounded_rate : D → D → D
  bounded_rate value maximum = least (greatest value (a.minus maximum)) maximum

  unfoldable pub age_rate : Option ℕ → Option ℕ → AdjustmentConfig → Option D
  age_rate (some built) (some other) config = some (
      bounded_rate
        (lit (sub_ℕ (built * 1000000) (other * 1000000)) ⊗ lit config.building_age_rate_per_year)
        (lit config.building_age_maximum_rate))
  age_rate _ _ config = none

  -- A rate that is known and not 0 is listed_rate.
  abbrev pub listed_rate : String → Option D → List (String × D)
  listed_rate factor none = []
  listed_rate factor (some rate) = if rate ≈ nought then [] else (factor, rate) ∷ []

  -- The rates of the six factors.
  unfoldable pub adjustment_rates :
      TextTools
      → TargetProperty D
      → ComparableRecord D
      → AdjustmentConfig
      → Result (List (String × D))
  adjustment_rates tools target r config = do
    floor ← floor_elevator_delta tools target r config
    orientation ←
        rate_delta config.orientation_rates (normalized_orientation tools target.orientation)
          (normalized_orientation tools r.orientation)
    metro ← metro_delta target r config
    layout ← rate_delta config.layout_quality_rates target.layout_quality r.layout_quality
    noise ← rate_delta config.road_noise_rates target.road_noise_exposure r.road_noise_exposure
    ok (
        listed_rate "floor_elevator_interaction" floor
        ++ listed_rate "orientation" orientation
        ++ listed_rate "building_age_relative" (age_rate target.year_built r.year_built config)
        ++ listed_rate "intra_community_metro" metro
        ++ listed_rate "layout_quality_residual" layout
        ++ listed_rate "road_noise_residual" noise)

  -- Where the sum was cut, the rates are scaled to the cut.
  unfoldable pub scaled : D → D → List (String × D) → List (String × D)
  scaled raw_total total_rate rates =
      if not (raw_total ≈ nought) && not (total_rate ≈ raw_total)
      then map (λ e. (e.0, (e.1) ⊗ (total_rate ⊘ raw_total))) rates
      else rates

  -- What the rates make of the prices.
  unfoldable pub adjusted_by :
      TargetProperty D
      → SelectedComparable D
      → AdjustmentConfig
      → List (String × D)
      → AdjustedComparable D
  adjusted_by target comparable config rates =
      let unit_price = comparable.record_of.unit_price in
      let raw_total = sum (map (λ e. e.1) rates) in
      let total_rate = bounded_rate raw_total (lit config.maximum_absolute_total_rate) in
      let adjusted_unit = quantize 2 (unit_price ⊗ (one ⊕ total_rate)) in
      record {
        selected = comparable;
        adjusted_unit_price = adjusted_unit;
        adjusted_value = quantize 2 (adjusted_unit ⊗ target.area_sqm);
        total_adjustment_rate = quantize 6 total_rate;
        adjustments =
            map
              (λ e. record {
                factor = e.0;
                rate = quantize 6 (e.1);
                amount = quantize 2 (unit_price ⊗ target.area_sqm ⊗ (e.1));
              })
              (scaled raw_total total_rate rates);
      }

  unfoldable pub adjust_comparable :
      TextTools
      → TargetProperty D
      → SelectedComparable D
      → AdjustmentConfig
      → Result (AdjustedComparable D)
  adjust_comparable tools target comparable config = do
    rates ← adjustment_rates tools target comparable.record_of config
    ok (adjusted_by target comparable config rates)
