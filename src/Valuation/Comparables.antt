-- ===== src/Valuation/Comparables.antt =====
-- services/valuation/src/home_radar_valuation/comparables.py: `_tier`, `_score` and what they ask for.
-- The texts that explain a choice are left out.
pub mod Selection
pub mod Weights
pub mod Pool
pub mod Chosen
pub mod Returns
use shanghai_home_radar.Prelude.{
  ℕ, ℤ, ◌-◌, ◌/◌, pos, negsuc, pos_part, Bool, true, false, not, ◌&&◌, ◌||◌, Option, none, some,
  List, [], ◌∷◌, String, Decimal, whole, Result, ok, err, ◌>>=◌, item, lookup, or_else, contains,
  str_eq, leb, ltb, is_none, if◌then◌else◌,
}
use shanghai_home_radar.Arithmetic.{
  Arithmetic, ◌⊕◌, ◌⊖◌, ◌⊗◌, ◌≼◌, lit, int, nought, one, quantize, least, greatest, sum_from,
}
use shanghai_home_radar.Market.Windows.{day}
use shanghai_home_radar.Valuation.Domain.{
  TargetProperty, ComparableRecord, SelectedComparable, TextTools, resolved_layout,
  normalized_orientation, floor_category,
}
use shanghai_home_radar.Valuation.Config.{ComparableConfig}
use shanghai_home_radar.Valuation.Aggregation.{divide}

-- `(b - a).days`, which rounds downwards.
abbrev pub days_from : ℕ → ℕ → ℤ
days_from a b = if leb a b then pos ((b - a) / day) else negsuc ((a - b - 1) / day)

abbrev pub distance : ℕ → ℕ → ℕ
distance m n = if leb m n then n - m else m - n

-- `_age_difference`
unfoldable pub age_difference : Option ℕ → Option ℕ → Option ℕ
age_difference (some m) (some n) = some (distance m n)
age_difference _ _ = none

-- Equality of two texts that may be absent.
abbrev pub same_text : Option String → Option String → Bool
same_text none none = true
same_text (some s) (some t) = str_eq s t
same_text _ _ = false

-- `_adjacent_layout`
unfoldable pub adjacent_layout : Option String → Option String → ComparableConfig → Bool
adjacent_layout (some target) (some candidate) config =
    contains candidate (or_else (lookup target config.adjacent_layouts) [])
adjacent_layout _ _ config = false

abbrev pub within_years : Option ℕ → ℕ → Bool → Bool
within_years none years unknown = unknown
within_years (some n) years unknown = leb n years

abbrev pub both_known : Option String → Option String → Bool
both_known target candidate = not (is_none target) && not (is_none candidate)

abbrev pub same_flag : Bool → Bool → Bool
same_flag true c = c
same_flag false c = not c

module _ {D : Type 0} ⦃a : Arithmetic D⦄ where
  -- `_area_difference`
  unfoldable pub area_difference : D → D → Result D
  area_difference target candidate = divide (a.absolute (candidate ⊖ target)) target

  abbrev pub layout_of : ComparableRecord D → Option String
  layout_of r = resolved_layout r.layout r.bedrooms

  abbrev pub target_layout : TargetProperty D → Option String
  target_layout t = resolved_layout t.layout t.bedrooms

  abbrev pub same_community : TargetProperty D → ComparableRecord D → Bool
  same_community target candidate = same_text candidate.community (some target.community)

  -- The layouts are the same or neighbours.
  abbrev pub close_layout : TargetProperty D → ComparableRecord D → ComparableConfig → Bool
  close_layout target candidate config =
      same_text (target_layout target) (layout_of candidate)
      || adjacent_layout (target_layout target) (layout_of candidate) config

  abbrev pub building_match : TargetProperty D → ComparableRecord D → Bool
  building_match target candidate =
      is_none target.building_type
      || is_none candidate.building_type
      || same_text target.building_type candidate.building_type

  -- The tests of the three tiers, on the difference of the areas.
  unfoldable pub is_tier_1 : TargetProperty D → ComparableRecord D → ComparableConfig → D → Bool
  is_tier_1 target candidate config area =
      same_community target candidate
      && same_text (target_layout target) (layout_of candidate)
      && area ≼ lit config.tier_1_area_tolerance
      && within_years (age_difference target.year_built candidate.year_built)
          config.tier_1_building_age_years false

  unfoldable pub is_tier_2 : TargetProperty D → ComparableRecord D → ComparableConfig → D → Bool
  is_tier_2 target candidate config area =
      same_community target candidate
      && close_layout target candidate config
      && area ≼ lit config.tier_2_area_tolerance
      && within_years (age_difference target.year_built candidate.year_built)
          config.tier_2_building_age_years true

  unfoldable pub is_tier_3 : TargetProperty D → ComparableRecord D → ComparableConfig → D → Bool
  is_tier_3 target candidate config area =
      same_text candidate.submarket (some target.submarket)
      && building_match target candidate
      && close_layout target candidate config
      && area ≼ lit config.tier_3_area_tolerance

  -- `_tier`
  unfoldable pub tier_of :
      TargetProperty D → ComparableRecord D → ComparableConfig → Result (Option String)
  tier_of target candidate config = do
    area ← area_difference target.area_sqm candidate.area_sqm
    ok (
        if is_tier_1 target candidate config area
        then some "tier_1"
        else if is_tier_2 target candidate config area
        then some "tier_2"
        else if is_tier_3 target candidate config area
        then some "tier_3"
        else none)

  -- `_layout_similarity`
  unfoldable pub layout_similarity : Option String → Option String → ComparableConfig → D
  layout_similarity target candidate config =
      if not (both_known target candidate)
      then lit config.unknown_similarity
      else if same_text target candidate
      then one
      else if adjacent_layout target candidate config
      then lit config.adjacent_layout_similarity
      else nought

  -- `_exact_or_unknown`, of texts and of flags
  unfoldable pub exact_text : String → String → D → D
  exact_text target candidate unknown =
      if str_eq target "unknown" || str_eq candidate "unknown"
      then unknown
      else if str_eq target candidate
      then one
      else nought

  unfoldable pub exact_flag : Option Bool → Option Bool → D → D
  exact_flag (some target) (some candidate) unknown =
      if same_flag target candidate then one else nought
  exact_flag _ _ unknown = unknown

  unfoldable pub age_similarity : Option ℕ → ComparableConfig → Result D
  age_similarity none config = ok (lit config.unknown_similarity)
  age_similarity (some years) config = do
    share ← divide (int years) (int config.building_age_similarity_horizon_years)
    ok (greatest nought (one ⊖ share))

  abbrev pub days_old : ℕ → ComparableRecord D → ℕ
  days_old as_of candidate = pos_part (days_from candidate.observed_at as_of)

  -- The dictionary of the factors.
  unfoldable pub factors_of :
      TextTools
      → TargetProperty D
      → ComparableRecord D
      → String
      → ℕ
      → ℕ
      → ComparableConfig
      → Result (List (String × D))
  factors_of tools target candidate tier as_of window_days config = do
    geography ← item config.tier_multipliers tier
    area ← area_difference target.area_sqm candidate.area_sqm
    age ← age_similarity (age_difference target.year_built candidate.year_built) config
    freshness ← divide (int (days_old as_of candidate)) (int window_days)
    let unknown = lit config.unknown_similarity
    ok (
        ("geography", lit geography)
        ∷ (
          "community",
          if same_community target candidate then one else lit config.cross_community_similarity,
        )
        ∷ ("area", greatest nought (one ⊖ area))
        ∷ ("layout", layout_similarity (target_layout target) (layout_of candidate) config)
        ∷ ("building_age", age)
        ∷ (
          "floor",
          exact_text (floor_category tools target.floor target.total_floors)
              (floor_category tools candidate.floor candidate.total_floors) unknown,
        )
        ∷ ("elevator", exact_flag target.elevator candidate.elevator unknown)
        ∷ (
          "orientation",
          exact_text (normalized_orientation tools target.orientation)
              (normalized_orientation tools candidate.orientation) unknown,
        )
        ∷ ("freshness", greatest nought (one ⊖ freshness))
        ∷ ("source_confidence", least one (greatest nought candidate.source_confidence))
        ∷ [])

  -- `sum(factors[name] * weight for name, weight in weights)`, from a start
  unfoldable pub weighted_from : D → List (String × D) → List (String × Decimal) → Result D
  weighted_from start factors [] = ok start
  weighted_from start factors ((name, weight) ∷ weights) = do
    factor ← item factors name
    weighted_from (start ⊕ factor ⊗ lit weight) factors weights

  abbrev pub source_multiplier : ComparableConfig → ComparableRecord D → D
  source_multiplier config candidate =
      if str_eq candidate.observation_type "transaction"
      then lit config.transaction_weight_multiplier
      else one

  -- `_score`
  unfoldable pub score_of :
      TextTools
      → TargetProperty D
      → ComparableRecord D
      → String
      → ℕ
      → ℕ
      → ComparableConfig
      → Result (SelectedComparable D)
  score_of tools target candidate tier as_of window_days config = do
    factors ← factors_of tools target candidate tier as_of window_days config
    total ← weighted_from nought factors config.weights
    multiplier ← item config.tier_multipliers tier
    let similarity = quantize 4 total
    ok (record {
      record_of = candidate;
      tier = tier;
      similarity_score = similarity;
      raw_weight = quantize 6 (similarity ⊗ lit multiplier ⊗ source_multiplier config candidate);
      weight = nought;
      freshness_days = days_old as_of candidate;
    })
