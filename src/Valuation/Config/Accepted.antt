-- ===== src/Valuation/Config/Accepted.antt =====
-- services/valuation/src/home_radar_valuation/config.py: what pydantic accepts of each record, the
-- ranges of its fields and its validators.
use shanghai_home_radar.Prelude.{
  ℕ, ◌+◌, pos, Bool, true, false, ◌&&◌, List, [], ◌∷◌, String, Decimal, whole, pos_part, neg_part,
  sub_ℕ, leb_ℤ, ltb_ℤ, leb, ◌==◌, every, keys, lookup, or_else, length, map, contains,
}
use shanghai_home_radar.Decision.Config.{in_range, same_set}
use shanghai_home_radar.Valuation.Config.{
  ComparableConfig, AdjustmentConfig, ConfidenceThresholds, ValuationConfidenceConfig, CurvePoint,
  ValueScoreConfig, WarningConfig, ValuationConfig,
}

-- Addition of two decimals of the configuration, which have few digits.
abbrev pub add_decimal : Decimal → Decimal → Decimal
add_decimal x y = sub_ℕ (pos_part x + pos_part y) (neg_part x + neg_part y)

abbrev pub sum_decimals : List Decimal → Decimal
sum_decimals [] = pos 0
sum_decimals (x ∷ xs) = add_decimal x (sum_decimals xs)

abbrev pub values_of {ℓ} : {A : Type ℓ} → List (String × A) → List A
values_of d = map (λ e. e.1) d

abbrev pub is_decimal : Decimal → Decimal → Bool
is_decimal x y = leb_ℤ x y && leb_ℤ y x

abbrev pub is_positive : Decimal → Bool
is_positive x = ltb_ℤ (pos 0) x

-- `WeightedConfig.validate_weights`
unfoldable pub accepts_weights : List (String × Decimal) → Bool
accepts_weights weights =
    every (λ w. leb_ℤ (pos 0) w) (values_of weights)
    && is_decimal (sum_decimals (values_of weights)) (whole 1)

abbrev pub is_window_list : List ℕ → Bool
is_window_list (x ∷ y ∷ z ∷ []) = x == 90 && y == 180 && z == 365
is_window_list _ = false

abbrev pub tier_names : List String
tier_names = "tier_1" ∷ "tier_2" ∷ "tier_3" ∷ "tier_4" ∷ []

-- `ComparableConfig`: the ranges of its fields.
unfoldable pub comparable_ranges : ComparableConfig → Bool
comparable_ranges c =
    leb 1 c.minimum_comparables
    && leb 1 c.target_comparables
    && leb 1 c.maximum_comparables
    && is_positive c.tier_1_area_tolerance
    && leb_ℤ c.tier_1_area_tolerance (whole 1)
    && is_positive c.tier_2_area_tolerance
    && leb_ℤ c.tier_2_area_tolerance (whole 1)
    && is_positive c.tier_3_area_tolerance
    && leb_ℤ c.tier_3_area_tolerance (whole 1)
    && leb_ℤ (whole 1) c.transaction_weight_multiplier
    && is_positive c.baseline_weight
    && leb 1 c.strong_transaction_count
    && leb 4 c.outlier_minimum_samples
    && is_positive c.outlier_mad_threshold
    && in_range 0 1 c.unknown_similarity
    && in_range 0 1 c.adjacent_layout_similarity
    && in_range 0 1 c.cross_community_similarity
    && leb 1 c.building_age_similarity_horizon_years

-- `ComparableConfig.validate_comparable_rules`
unfoldable pub comparable_rules : ComparableConfig → Bool
comparable_rules c =
    is_window_list c.windows_days
    && leb_ℤ c.tier_1_area_tolerance c.tier_2_area_tolerance
    && leb_ℤ c.tier_2_area_tolerance c.tier_3_area_tolerance
    && leb c.minimum_comparables c.target_comparables
    && leb c.target_comparables c.maximum_comparables
    && same_set (keys c.tier_multipliers) tier_names

unfoldable pub accepts_comparables : ComparableConfig → Bool
accepts_comparables c = accepts_weights c.weights && comparable_ranges c && comparable_rules c

abbrev pub are_ascending : ℕ × ℕ × ℕ → Bool
are_ascending (x, y, z) = leb x y && leb y z

-- `AdjustmentConfig`
unfoldable pub accepts_adjustments : AdjustmentConfig → Bool
accepts_adjustments c =
    is_positive c.maximum_absolute_total_rate
    && leb_ℤ c.maximum_absolute_total_rate (whole 1)
    && leb_ℤ (pos 0) c.building_age_rate_per_year
    && in_range 0 1 c.building_age_maximum_rate
    && in_range 0 1 c.base_uncertainty_rate
    && in_range 0 1 c.missing_attribute_uncertainty_rate
    && is_positive c.maximum_interval_rate
    && leb_ℤ c.maximum_interval_rate (whole 1)
    && are_ascending c.metro_distance_thresholds_m

-- `ConfidenceThresholds`
unfoldable pub accepts_thresholds : ConfidenceThresholds → Bool
accepts_thresholds t =
    in_range 0 1 t.high
    && in_range 0 1 t.medium
    && in_range 0 1 t.low
    && ltb_ℤ t.medium t.high
    && ltb_ℤ t.low t.medium

-- `ValuationConfidenceConfig`
unfoldable pub accepts_confidence : ValuationConfidenceConfig → Bool
accepts_confidence c =
    accepts_weights c.weights
    && accepts_thresholds c.thresholds
    && leb 1 c.target_comparable_count
    && is_positive c.target_effective_count
    && leb 1 c.target_source_count
    && is_positive c.maximum_dispersion_rate
    && leb 1 c.maximum_missing_attributes

abbrev pub component_names : List String
component_names =
    "price_edge" ∷ "liquidity" ∷ "employment_transit" ∷ "property_quality" ∷ "seller_signal" ∷ []

-- Each point lies to the left of the next.
abbrev pub is_increasing : List CurvePoint → Bool
is_increasing [] = true
is_increasing (p ∷ []) = true
is_increasing (p ∷ q ∷ ps) = ltb_ℤ p.x q.x && is_increasing (q ∷ ps)

abbrev pub is_sorted : List Decimal → Bool
is_sorted [] = true
is_sorted (x ∷ []) = true
is_sorted (x ∷ y ∷ xs) = leb_ℤ x y && is_sorted (y ∷ xs)

-- The value of a key that a validator has asked for.
abbrev pub decimal_at : List (String × Decimal) → String → Decimal
decimal_at d name = or_else (lookup name d) (pos 0)

abbrev pub seller_weights : List String
seller_weights =
    "cut_count_weight" ∷ "cumulative_cut_weight" ∷ "dom_weight" ∷ "recency_weight"
    ∷ "relisting_weight" ∷ []

abbrev pub score_names : List String
score_names = "watch" ∷ "contact" ∷ "view" ∷ "attack" ∷ []

-- `ValueScoreConfig`: the ranges of its fields.
unfoldable pub score_ranges : ValueScoreConfig → Bool
score_ranges c =
    every (λ (p : CurvePoint). leb_ℤ (pos 0) p.y) c.price_edge_curve
    && leb_ℤ (pos 0) c.building_age_points_per_year
    && in_range 0 100 c.building_age_minimum_score
    && in_range 0 100 c.hard_defect_penalty
    && is_positive c.mainstream_total_price_min
    && is_positive c.mainstream_total_price_max
    && is_positive c.mainstream_area_min
    && is_positive c.mainstream_area_max

-- `ValueScoreConfig.validate_score_config`
unfoldable pub score_rules : ValueScoreConfig → Bool
score_rules c =
    same_set (keys c.component_caps) component_names
    && is_decimal (sum_decimals (values_of c.component_caps)) (whole 100)
    && leb 2 (length c.price_edge_curve)
    && is_increasing c.price_edge_curve
    && every (λ (p : CurvePoint). leb_ℤ p.y (decimal_at c.component_caps "price_edge"))
        c.price_edge_curve
    && is_decimal (sum_decimals (values_of c.accessibility_weights)) (whole 1)
    && is_decimal (sum_decimals (values_of c.quality_weights)) (whole 1)
    && are_ascending c.metro_distance_thresholds_m
    && every (λ name. contains name (keys c.seller_signal)) seller_weights
    && is_decimal (sum_decimals (map (decimal_at c.seller_signal) seller_weights)) (whole 1)
    && same_set (keys c.decision_thresholds) score_names
    && is_sorted (map (decimal_at c.decision_thresholds) score_names)

unfoldable pub accepts_value_score : ValueScoreConfig → Bool
accepts_value_score c = score_ranges c && score_rules c

-- `WarningConfig`
unfoldable pub accepts_warnings : WarningConfig → Bool
accepts_warnings c =
    leb_ℤ (pos 0) c.large_discount_rate
    && in_range 0 100 c.low_liquidity_score
    && leb 1 c.insufficient_comparable_count
    && in_range 0 1 c.low_confidence_score
    && in_range 0 100 c.trap_score_cap
    && in_range 0 100 c.insufficient_confidence_score_cap

-- `ValuationConfig`
unfoldable pub accepts_valuation : ValuationConfig → Bool
accepts_valuation c =
    accepts_comparables c.comparables
    && accepts_adjustments c.adjustments
    && accepts_confidence c.confidence
    && accepts_value_score c.value_score
    && accepts_warnings c.warnings
