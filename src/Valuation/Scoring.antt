-- ===== src/Valuation/Scoring.antt =====
-- services/valuation/src/home_radar_valuation/scoring.py. A component is its name with the raw value,
-- the contribution and, where it is a number, the coverage.
use shanghai_home_radar.Prelude.{
  ℕ, ◌-◌, Bool, true, false, ◌&&◌, ◌||◌, Option, none, some, List, [], ◌∷◌, String, Decimal, Result,
  ok, err, lookup_error, ◌>>=◌, item, lookup, or_else, contains, str_eq, is_none, length, map,
  if◌then◌else◌,
}
use shanghai_home_radar.Collector.Repository.{any}
use shanghai_home_radar.Arithmetic.{
  Arithmetic, ◌⊕◌, ◌⊖◌, ◌⊗◌, ◌⊘◌, ◌≼◌, ◌≈◌, lit, int, nought, hundred, quantize, least, greatest,
  sum,
}
use shanghai_home_radar.Valuation.Domain.{
  TargetProperty, PriceHistory, TextTools, resolved_layout, normalized_orientation, floor_category,
  building_segment, metro_bucket, has_text,
}
use shanghai_home_radar.Valuation.Config.{CurvePoint, ValueScoreConfig}
use shanghai_home_radar.Valuation.Config.Accepted.{score_names}
use shanghai_home_radar.Valuation.Aggregation.{divide}

pub record ScoreComponent (D : Type 0) : Type 0 where
  pub name : String
  pub raw : D
  pub contribution : D
  pub coverage : Option D

pub record ValueScoreResult (D : Type 0) : Type 0 where
  pub score : D
  pub decision : String
  pub components : List (ScoreComponent D)

abbrev pub last_point : CurvePoint → List CurvePoint → CurvePoint
last_point p [] = p
last_point p (q ∷ qs) = last_point q qs

module _ {D : Type 0} ⦃a : Arithmetic D⦄ where
  -- `_clamp`
  unfoldable pub clamp : D → D
  clamp value = quantize 2 (least hundred (greatest nought value))

  -- `_contribution`
  unfoldable pub contribution_of : D → Decimal → D
  contribution_of raw cap = quantize 2 (raw ⊘ hundred ⊗ lit cap)

  -- The first section of the curve that has the discount.
  unfoldable pub interpolate : D → D → CurvePoint → List CurvePoint → Result D
  interpolate discount last left [] = ok last
  interpolate discount last left (right ∷ rest) =
      let later = interpolate discount last right rest in
      if lit left.x ≼ discount && discount ≼ lit right.x
      then (do
        ratio ← divide (discount ⊖ lit left.x) (lit right.x ⊖ lit left.x)
        ok (quantize 2 (lit left.y ⊕ ratio ⊗ (lit right.y ⊖ lit left.y))))
      else later

  unfoldable pub piecewise_linear : D → List CurvePoint → Result D
  piecewise_linear discount [] = err (lookup_error "list index out of range")
  piecewise_linear discount (p ∷ ps) =
      let last = last_point p ps in
      if discount ≼ lit p.x
      then ok (lit p.y)
      else if lit last.x ≼ discount
      then ok (lit last.y)
      else interpolate discount (lit last.y) p ps

  -- The last of the decisions whose threshold the score reaches.
  unfoldable pub decision_from : D → List (String × Decimal) → List String → String → Result String
  decision_from score thresholds [] result = ok result
  decision_from score thresholds (name ∷ names) result = do
    threshold ← item thresholds name
    decision_from score thresholds names (if lit threshold ≼ score then name else result)

  unfoldable pub decision_for_score : D → ValueScoreConfig → Result String
  decision_for_score score config =
      decision_from score config.decision_thresholds score_names "pass"

  -- `if test: score += modifiers[name]`
  unfoldable pub modified : List (String × Decimal) → Bool → String → D → Result D
  modified modifiers test name score = elim test [
    | false ↦ ok score
    | true ↦ do modifier ← item modifiers name; ok (score ⊕ lit modifier)
  ]

  -- `_liquidity_score`
  unfoldable pub liquidity_points :
      TextTools → TargetProperty D → Option D → ValueScoreConfig → Result D
  liquidity_points tools target none config = ok nought
  liquidity_points tools target (some baseline) config = do
    let modifiers = config.liquidity_modifiers
    priced ←
        modified modifiers
          (lit config.mainstream_total_price_min ≼ target.current_ask
            && target.current_ask ≼ lit config.mainstream_total_price_max)
          "mainstream_total_price" baseline
    sized ←
        modified modifiers
          (lit config.mainstream_area_min ≼ target.area_sqm
            && target.area_sqm ≼ lit config.mainstream_area_max)
          "mainstream_area" priced
    laid_out ←
        modified modifiers
          (contains (or_else (resolved_layout target.layout target.bedrooms) "")
            ("1BR" ∷ "2BR" ∷ "3BR+" ∷ []))
          "mainstream_layout" sized
    floored ←
        modified modifiers
          (contains (floor_category tools target.floor target.total_floors) ("ground" ∷ "top" ∷ []))
          "extreme_floor" laid_out
    let building_type = tools.lower (or_else target.building_type "")
    unusual ←
        modified modifiers
          (any (λ token. has_text (tools.lower token) building_type) config.unusual_property_types)
          "unusual_property" floored
    ok (clamp unusual)

  -- The weights of the values that are there, and the values times their weights.
  unfoldable pub available :
      List (String × Option D) → List (String × Decimal) → D → D → Result (D × D)
  available [] weights weight score = ok (weight, score)
  available ((name, none) ∷ values) weights weight score = available values weights weight score
  available ((name, some value) ∷ values) weights weight score = do
    w ← item weights name
    available values weights (weight ⊕ lit w) (score ⊕ value ⊗ lit w)

  -- `_available_weighted`
  unfoldable pub available_weighted :
      List (String × Option D) → List (String × Decimal) → Result (D × D)
  available_weighted values weights = do
    found ← available values weights nought nought
    ok (if (found.0) ≈ nought then (nought, nought) else (clamp ((found.1) ⊘ (found.0)), found.0))

  -- `_accessibility_score`
  unfoldable pub accessibility_score : TargetProperty D → ValueScoreConfig → Result (D × D)
  accessibility_score target config = do
    metro ← elim target.metro_distance_m [
      | none ↦ ok none
      | some distance ↦ do
        points ←
            item config.metro_scores
              (metro_bucket (some distance) config.metro_distance_thresholds_m)
        ok (some (lit points))
    ]
    available_weighted
        (("metro", metro)
          ∷ ("employment", target.employment_accessibility)
          ∷ ("mature_amenities", target.mature_amenity_accessibility)
          ∷ [])
        config.accessibility_weights

  abbrev pub known_value : String → List (String × Decimal) → Option D
  known_value name points =
      if str_eq name "unknown"
      then none
      else elim (lookup name points) [ none ↦ none | some p ↦ some (lit p) ]

  unfoldable pub floor_value : TextTools → TargetProperty D → ValueScoreConfig → Result (Option D)
  floor_value tools target config =
      let floor = floor_category tools target.floor target.total_floors in
      if str_eq floor "unknown" || is_none target.elevator then ok none else do
        row ←
            item config.floor_elevator_scores
              (building_segment tools target.building_type target.elevator target.total_floors)
        points ← item row floor
        ok (some (lit points))

  unfoldable pub age_value : Option ℕ → Option ℕ → ValueScoreConfig → Option D
  age_value (some built) (some median) config = some (
      greatest (lit config.building_age_minimum_score)
        (hundred ⊖ int (median - built) ⊗ lit config.building_age_points_per_year))
  age_value _ _ config = none

  unfoldable pub defects_value : TargetProperty D → ValueScoreConfig → Option D
  defects_value target config =
      if target.hard_defects_known
      then some (
          greatest nought
            (hundred ⊖ int (length target.hard_defects) ⊗ lit config.hard_defect_penalty))
      else none

  -- `_quality_score`
  unfoldable pub quality_score :
      TextTools → TargetProperty D → Option ℕ → ValueScoreConfig → Result (D × D)
  quality_score tools target median config = do
    floor ← floor_value tools target config
    available_weighted
        (("floor_elevator", floor)
          ∷ (
            "orientation",
            known_value (normalized_orientation tools target.orientation) config.orientation_scores,
          )
          ∷ ("building_age", age_value target.year_built median config)
          ∷ ("layout_quality", known_value target.layout_quality config.layout_quality_scores)
          ∷ ("hard_defects", defects_value target config)
          ∷ [])
        config.quality_weights

  -- `min(100, value / settings[name] * 100)`
  unfoldable pub share_of_target : D → List (String × Decimal) → String → Result D
  share_of_target value settings name = do
    goal ← item settings name
    share ← divide value (lit goal)
    ok (least hundred (share ⊗ hundred))

  unfoldable pub recency_score : Option ℕ → List (String × Decimal) → Result D
  recency_score none settings = ok nought
  recency_score (some days) settings = do
    recent ← item settings "recent_cut_days"
    ok (if a.leb (int days) (lit recent) then hundred else nought)

  -- `_seller_score`
  unfoldable pub seller_score : PriceHistory D → ValueScoreConfig → Result D
  seller_score history config = do
    let settings = config.seller_signal
    cut_count ← share_of_target (int history.price_cut_count) settings "cut_count_target"
    cumulative ← share_of_target history.percentage_reduction settings "cumulative_cut_target"
    dom ← share_of_target (int history.days_on_market) settings "long_dom_days"
    recency ← recency_score history.days_since_last_cut settings
    let relisting = if history.relisting_flag then hundred else nought
    w1 ← item settings "cut_count_weight"
    w2 ← item settings "cumulative_cut_weight"
    w3 ← item settings "dom_weight"
    w4 ← item settings "recency_weight"
    w5 ← item settings "relisting_weight"
    ok (
        clamp (
          cut_count ⊗ lit w1
          ⊕ cumulative ⊗ lit w2
          ⊕ dom ⊗ lit w3
          ⊕ recency ⊗ lit w4
          ⊕ relisting ⊗ lit w5))

  abbrev pub component : String → D → D → Option D → ScoreComponent D
  component name raw contribution coverage = record {
    name = name;
    raw = raw;
    contribution = contribution;
    coverage = coverage;
  }

  unfoldable pub calculate_value_score :
      TextTools
      → TargetProperty D
      → D
      → Option D
      → PriceHistory D
      → Option ℕ
      → ValueScoreConfig
      → Result (ValueScoreResult D)
  calculate_value_score tools target fair_value liquidity history median config = do
    discount ← divide (fair_value ⊖ target.current_ask) fair_value
    price_edge ← piecewise_linear discount config.price_edge_curve
    liquidity_raw ← liquidity_points tools target liquidity config
    accessibility ← accessibility_score target config
    quality ← quality_score tools target median config
    seller ← seller_score history config
    liquidity_cap ← item config.component_caps "liquidity"
    transit_cap ← item config.component_caps "employment_transit"
    quality_cap ← item config.component_caps "property_quality"
    seller_cap ← item config.component_caps "seller_signal"
    let components =
        component "price_edge" (quantize 6 discount) price_edge none
        ∷ component "liquidity" liquidity_raw (contribution_of liquidity_raw liquidity_cap) none
        ∷ component "employment_transit" (accessibility.0)
            (contribution_of (accessibility.0) transit_cap) (some (accessibility.1))
        ∷ component "property_quality" (quality.0) (contribution_of (quality.0) quality_cap)
            (some (quality.1))
        ∷ component "seller_signal" seller (contribution_of seller seller_cap) none
        ∷ []
    let score = quantize 2 (sum (map (λ (c : ScoreComponent D). c.contribution) components))
    decision ← decision_for_score score config
    ok (record { score = score; decision = decision; components = components })
