-- ===== src/Valuation/Config.antt =====
-- services/valuation/src/home_radar_valuation/config.py: the records of the configuration. Their
-- decimals have at most six digits behind the point; the loader of the YAML file is not modelled.
pub mod Accepted
use shanghai_home_radar.Prelude.{ℕ, List, String, Decimal}

pub record ComparableConfig : Type 0 where
  pub weights : List (String × Decimal)
  pub windows_days : List ℕ
  pub minimum_comparables : ℕ
  pub target_comparables : ℕ
  pub maximum_comparables : ℕ
  pub tier_1_area_tolerance : Decimal
  pub tier_2_area_tolerance : Decimal
  pub tier_3_area_tolerance : Decimal
  pub tier_1_building_age_years : ℕ
  pub tier_2_building_age_years : ℕ
  pub tier_multipliers : List (String × Decimal)
  pub transaction_weight_multiplier : Decimal
  pub baseline_weight : Decimal
  pub strong_transaction_count : ℕ
  pub adjacent_layouts : List (String × List String)
  pub outlier_minimum_samples : ℕ
  pub outlier_mad_threshold : Decimal
  pub unknown_similarity : Decimal
  pub adjacent_layout_similarity : Decimal
  pub cross_community_similarity : Decimal
  pub building_age_similarity_horizon_years : ℕ

pub record AdjustmentConfig : Type 0 where
  pub maximum_absolute_total_rate : Decimal
  pub floor_elevator_rates : List (String × List (String × Decimal))
  pub orientation_rates : List (String × Decimal)
  pub building_age_rate_per_year : Decimal
  pub building_age_maximum_rate : Decimal
  pub metro_bucket_rates : List (String × Decimal)
  pub metro_distance_thresholds_m : ℕ × ℕ × ℕ
  pub metro_minimum_intra_community_difference_m : ℕ
  pub layout_quality_rates : List (String × Decimal)
  pub road_noise_rates : List (String × Decimal)
  pub base_uncertainty_rate : Decimal
  pub missing_attribute_uncertainty_rate : Decimal
  pub maximum_interval_rate : Decimal

pub record ConfidenceThresholds : Type 0 where
  pub high : Decimal
  pub medium : Decimal
  pub low : Decimal

pub record ValuationConfidenceConfig : Type 0 where
  pub weights : List (String × Decimal)
  pub thresholds : ConfidenceThresholds
  pub target_comparable_count : ℕ
  pub target_effective_count : Decimal
  pub target_source_count : ℕ
  pub maximum_dispersion_rate : Decimal
  pub maximum_missing_attributes : ℕ

pub record CurvePoint : Type 0 where
  pub x : Decimal
  pub y : Decimal

pub record ValueScoreConfig : Type 0 where
  pub component_caps : List (String × Decimal)
  pub price_edge_curve : List CurvePoint
  pub decision_thresholds : List (String × Decimal)
  pub accessibility_weights : List (String × Decimal)
  pub quality_weights : List (String × Decimal)
  pub metro_scores : List (String × Decimal)
  pub metro_distance_thresholds_m : ℕ × ℕ × ℕ
  pub floor_elevator_scores : List (String × List (String × Decimal))
  pub orientation_scores : List (String × Decimal)
  pub layout_quality_scores : List (String × Decimal)
  pub building_age_points_per_year : Decimal
  pub building_age_minimum_score : Decimal
  pub hard_defect_penalty : Decimal
  pub liquidity_modifiers : List (String × Decimal)
  pub unusual_property_types : List String
  pub mainstream_total_price_min : Decimal
  pub mainstream_total_price_max : Decimal
  pub mainstream_area_min : Decimal
  pub mainstream_area_max : Decimal
  pub seller_signal : List (String × Decimal)

pub record WarningConfig : Type 0 where
  pub large_discount_rate : Decimal
  pub low_liquidity_score : Decimal
  pub insufficient_comparable_count : ℕ
  pub low_confidence_score : Decimal
  pub trap_score_cap : Decimal
  pub insufficient_confidence_score_cap : Decimal
  pub abnormal_property_types : List String

pub record ValuationConfig : Type 0 where
  pub valuation_model_version : String
  pub scoring_model_version : String
  pub configuration_version : String
  pub comparables : ComparableConfig
  pub adjustments : AdjustmentConfig
  pub confidence : ValuationConfidenceConfig
  pub value_score : ValueScoreConfig
  pub warnings : WarningConfig
