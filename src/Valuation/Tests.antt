-- ===== src/Valuation/Tests.antt =====
-- A flat of 60 square metres, five observations of its community, and the theorems at them, with
-- numbers of six digits.
use shanghai_home_radar.Prelude.{
  ℕ, ℤ, ◌*◌, pos, negsuc, ◌≡◌, refl, true, false, none, some, List, [], ◌∷◌, String, ok, whole,
  if◌then◌else◌, ◌==◌,
}
use shanghai_home_radar.Sorting.{sort_by, insert}
use shanghai_home_radar.Arithmetic.{least, greatest}
use shanghai_home_radar.Arithmetic.Fixed.{millionths, millionths-IsRounded}
use shanghai_home_radar.Valuation.Domain.{
  TargetProperty, ComparableRecord, SelectedComparable, AdjustedComparable, BaselineEvidence,
  FairValueAggregation, ComparableSelection, TextTools, floor_category, normalized_orientation,
}
use shanghai_home_radar.Valuation.Config.{ComparableConfig, AdjustmentConfig, ValuationConfig}
use shanghai_home_radar.Valuation.Config.Accepted.{
  accepts_comparables, comparable_ranges, comparable_rules, accepts_weights, accepts_adjustments,
}
use shanghai_home_radar.Valuation.Aggregation.{
  aggregate_fair_value, remove_outliers, retain, median,
}
use shanghai_home_radar.Valuation.Aggregation.Interval.{IsInterval}
use shanghai_home_radar.Valuation.Aggregation.Fair.{aggregate_fair_value-IsInterval}
use shanghai_home_radar.Valuation.Comparables.Selection.{select_comparables}
use shanghai_home_radar.Valuation.Comparables.Chosen.{IsChosen}
use shanghai_home_radar.Valuation.Comparables.Returns.{select_comparables-IsSelection}
use shanghai_home_radar.Valuation.Adjustments.{
  adjust_comparable, adjustment_rates, floor_elevator_delta, rate_delta, delta, metro_delta,
  age_rate, bounded_rate,
}
use shanghai_home_radar.Valuation.Adjustments.Limits.{IsLimited, adjust_comparable-IsLimited}
use shanghai_home_radar.Valuation.Engine.{fair_value_of}
use shanghai_home_radar.Valuation.Engine.Asking.{asking, fair_value_of-asking}
use shanghai_home_radar.Valuation.Warnings.{WarningResult, apply_warning_rules, is_value_trap}
use shanghai_home_radar.Valuation.Warnings.Traps.{IsCapped, apply_warning_rules-IsCapped}

abbrev comparable_config : ComparableConfig
comparable_config = record {
  weights = ("geography", pos 500000) ∷ ("area", pos 500000) ∷ [];
  windows_days = 90 ∷ 180 ∷ 365 ∷ [];
  minimum_comparables = 1;
  target_comparables = 2;
  maximum_comparables = 4;
  tier_1_area_tolerance = pos 100000;
  tier_2_area_tolerance = pos 200000;
  tier_3_area_tolerance = pos 300000;
  tier_1_building_age_years = 5;
  tier_2_building_age_years = 10;
  tier_multipliers =
      ("tier_1", pos 1000000)
      ∷ ("tier_2", pos 780000)
      ∷ ("tier_3", pos 550000)
      ∷ ("tier_4", pos 400000)
      ∷ [];
  transaction_weight_multiplier = pos 1250000;
  baseline_weight = pos 800000;
  strong_transaction_count = 3;
  adjacent_layouts = [];
  outlier_minimum_samples = 4;
  outlier_mad_threshold = pos 3500000;
  unknown_similarity = pos 500000;
  adjacent_layout_similarity = pos 650000;
  cross_community_similarity = pos 500000;
  building_age_similarity_horizon_years = 30;
}

abbrev adjustment_config : AdjustmentConfig
adjustment_config = record {
  maximum_absolute_total_rate = pos 180000;
  floor_elevator_rates = [];
  orientation_rates = [];
  building_age_rate_per_year = pos 2500;
  building_age_maximum_rate = pos 75000;
  metro_bucket_rates = [];
  metro_distance_thresholds_m = (500, 800, 1200);
  metro_minimum_intra_community_difference_m = 250;
  layout_quality_rates = ("good", pos 300000) ∷ ("poor", negsuc 99999) ∷ [];
  road_noise_rates = [];
  base_uncertainty_rate = pos 35000;
  missing_attribute_uncertainty_rate = pos 8000;
  maximum_interval_rate = pos 220000;
}

abbrev plain_texts : TextTools
plain_texts = record { lower = λ s. s; strip = λ s. s; joined = λ s. s; first_number = λ s. none }

abbrev flat : TargetProperty ℤ
flat = record {
  listing_id = some 1;
  district = "Pudong";
  submarket = "Huamu";
  community = "Garden";
  area_sqm = whole 60;
  current_ask = whole 5000000;
  bedrooms = some 2;
  layout = none;
  floor = none;
  total_floors = none;
  orientation = none;
  year_built = some 2010;
  elevator = none;
  building_type = none;
  metro_distance_m = none;
  employment_accessibility = none;
  mature_amenity_accessibility = none;
  layout_quality = "good";
  road_noise_exposure = "unknown";
  hard_defects = [];
  hard_defects_known = false;
  documented_executable_price = none;
  executable_price_evidence = none;
  data_mode = "live";
}

-- The observation of a listing at so many yuan for a square metre.
abbrev seen : ℕ → ℕ → ℕ → ComparableRecord ℤ
seen id time price = record {
  observation_id = id;
  listing_id = some id;
  observation_type = "listing";
  source = "beike";
  source_record_id = "r";
  observed_at = time;
  source_confidence = pos 900000;
  district = some "Pudong";
  submarket = some "Huamu";
  community = some "Garden";
  area_sqm = whole 62;
  total_price = whole 5000000;
  unit_price = whole price;
  bedrooms = some 2;
  layout = none;
  floor = none;
  total_floors = none;
  orientation = none;
  year_built = some 2012;
  elevator = none;
  building_type = none;
  metro_distance_m = none;
  layout_quality = "poor";
  road_noise_exposure = "unknown";
}

abbrev weighing : ℕ → ℕ → SelectedComparable ℤ
weighing id weight = record {
  record_of = seen id 10 80000;
  tier = "tier_1";
  similarity_score = pos 900000;
  raw_weight = pos 900000;
  weight = pos weight;
  freshness_days = 3;
}

abbrev valued : ℕ → ℕ → AdjustedComparable ℤ
valued id price = record {
  selected = weighing id 500000;
  adjusted_unit_price = whole price;
  adjusted_value = whole (price * 60);
  total_adjustment_rate = pos 0;
  adjustments = [];
}

abbrev baseline : BaselineEvidence ℤ
baseline = record {
  observation_type = "listing";
  level_used = "community";
  confidence = "medium";
  sample_count = 12;
  unit_price_p25 = some (whole 70000);
  unit_price_p50 = some (whole 81000);
  unit_price_p75 = some (whole 95000);
  price_p50 = none;
  liquidity_score = none;
  baseline_versions = [];
  fallback_path = [];
  fallback_reason = none;
  generated_at = none;
}

comparable_config-accepted : accepts_comparables comparable_config ≡ true
unfolding accepts_comparables comparable_ranges comparable_rules accepts_weights
comparable_config-accepted = refl

adjustment_config-accepted : accepts_adjustments adjustment_config ≡ true
unfolding accepts_adjustments
adjustment_config-accepted = refl

abbrev valued_flats : List (AdjustedComparable ℤ)
valued_flats = valued 2 80000 ∷ valued 3 84000 ∷ valued 4 79000 ∷ valued 5 200000 ∷ []

-- The price that is far from the others is dropped.
dropped :
    remove_outliers valued_flats comparable_config
    ≡ ok (valued 2 80000 ∷ valued 3 84000 ∷ valued 4 79000 ∷ [])
unfolding remove_outliers median retain sort_by insert
dropped = refl

aggregate_fair_value-IsInterval_example :
    (v : FairValueAggregation ℤ) × (aggregate_fair_value flat valued_flats
        (some baseline)
        comparable_config
        adjustment_config
        2
      ≡ ok v)
    × IsInterval flat (some baseline) v
aggregate_fair_value-IsInterval_example =
    aggregate_fair_value-IsInterval millionths-IsRounded flat valued_flats (some baseline)
      comparable_config adjustment_config 2 comparable_config-accepted
      (refl, (refl, (refl, (refl, tt)))) refl

abbrev number_text : ℕ → String
number_text n = if n == 2 then "two" else "three"

abbrev candidates : List (ComparableRecord ℤ)
candidates = seen 1 20 80000 ∷ seen 2 30 81000 ∷ seen 3 40 82000 ∷ []

select_comparables-IsSelection_example :
    (s : ComparableSelection ℤ) × (select_comparables number_text number_text plain_texts flat
        candidates 50 comparable_config
      ≡ ok s)
    × IsChosen number_text flat candidates 50 comparable_config s
select_comparables-IsSelection_example =
    select_comparables-IsSelection millionths-IsRounded plain_texts flat 50 comparable_config
      comparable_config-accepted refl refl number_text number_text candidates refl

listed_rates :
    adjustment_rates plain_texts flat (seen 2 10 80000) adjustment_config
    ≡ ok (("building_age_relative", negsuc 4999) ∷ ("layout_quality_residual", pos 400000) ∷ [])
unfolding adjustment_rates floor_elevator_delta floor_category rate_delta normalized_orientation
    metro_delta delta age_rate bounded_rate least greatest
listed_rates = refl

-- A rate of 0.4 for the layout, with the five thousandths for the age, is cut to 0.18.
adjust_comparable-IsLimited_example :
    (v : AdjustedComparable ℤ) × (adjust_comparable plain_texts flat
        (weighing 2 500000)
        adjustment_config
      ≡ ok v)
    × IsLimited (pos 180000) (whole 80000) v
adjust_comparable-IsLimited_example =
    adjust_comparable-IsLimited millionths-IsRounded plain_texts flat (weighing 2 500000)
      adjustment_config
      (("building_age_relative", negsuc 4999) ∷ ("layout_quality_residual", pos 400000) ∷ [])
      listed_rates adjustment_config-accepted refl refl

abbrev valuation_config : ValuationConfig
valuation_config = record {
  valuation_model_version = "v";
  scoring_model_version = "s";
  configuration_version = "c";
  comparables = comparable_config;
  adjustments = adjustment_config;
  confidence = record {
    weights = [];
    thresholds = record { high = pos 800000; medium = pos 600000; low = pos 350000 };
    target_comparable_count = 8;
    target_effective_count = whole 6;
    target_source_count = 3;
    maximum_dispersion_rate = pos 200000;
    maximum_missing_attributes = 8;
  };
  value_score = record {
    component_caps = [];
    price_edge_curve = [];
    decision_thresholds =
        ("watch", whole 65)
        ∷ ("contact", whole 75)
        ∷ ("view", whole 85)
        ∷ ("attack", whole 90)
        ∷ [];
    accessibility_weights = [];
    quality_weights = [];
    metro_scores = [];
    metro_distance_thresholds_m = (500, 800, 1200);
    floor_elevator_scores = [];
    orientation_scores = [];
    layout_quality_scores = [];
    building_age_points_per_year = pos 0;
    building_age_minimum_score = pos 0;
    hard_defect_penalty = pos 0;
    liquidity_modifiers = [];
    unusual_property_types = [];
    mainstream_total_price_min = whole 1;
    mainstream_total_price_max = whole 2;
    mainstream_area_min = whole 1;
    mainstream_area_max = whole 2;
    seller_signal = [];
  };
  warnings = record {
    large_discount_rate = pos 100000;
    low_liquidity_score = whole 40;
    insufficient_comparable_count = 3;
    low_confidence_score = pos 350000;
    trap_score_cap = whole 74;
    insufficient_confidence_score_cap = whole 64;
    abnormal_property_types = [];
  };
}

-- A discount of a fifth on two observations is a trap, though the score is 92.
apply_warning_rules-IsCapped_example :
    (w : WarningResult ℤ) × (apply_warning_rules plain_texts flat
        (pos 200000)
        (some (whole 80))
        2
        "medium"
        "medium"
        "weak"
        (whole 92)
        valuation_config
      ≡ ok w)
    × IsCapped valuation_config
        (is_value_trap plain_texts flat
          (pos 200000)
          (some (whole 80))
          2
          "medium"
          valuation_config.warnings)
        "medium"
        (whole 92)
        w
apply_warning_rules-IsCapped_example =
    apply_warning_rules-IsCapped millionths-IsRounded plain_texts flat (pos 200000)
      (some (whole 80)) 2 "medium" "medium" "weak" (whole 92) valuation_config refl

fair_value_of-asking_example :
    fair_value_of number_text number_text plain_texts valuation_config
      (asking (whole 4000000) flat)
      candidates
      (some baseline)
      50
    ≡ fair_value_of number_text number_text plain_texts valuation_config flat candidates
        (some baseline)
        50
fair_value_of-asking_example =
    fair_value_of-asking (whole 4000000) number_text number_text plain_texts valuation_config flat
      candidates (some baseline) 50
