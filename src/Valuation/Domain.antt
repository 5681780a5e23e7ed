-- ===== src/Valuation/Domain.antt =====
-- services/valuation/src/home_radar_valuation/domain.py: the records, over the type of their decimals,
-- and the classes that texts are sorted into. UUIDs are numbers, instants microseconds; the
-- metadata of an observation, which only the fingerprint reads, the texts that explain a choice and
-- the mark `outlier`, which nothing sets, are left out. Lower case, the
-- white space at the ends and the first number of a text are arguments.
use text.Mathlib.Text.{find?}
use shanghai_home_radar.Prelude.{
  ℕ, ◌*◌, Bool, false, not, ◌||◌, Option, none, some, List, [], ◌∷◌, String, str_eq, is_none,
  or_else, leb, if◌then◌else◌,
}
use shanghai_home_radar.Collector.Repository.{any}

pub record TargetProperty (D : Type 0) : Type 0 where
  pub listing_id : Option ℕ
  pub district : String
  pub submarket : String
  pub community : String
  pub area_sqm : D
  pub current_ask : D
  pub bedrooms : Option ℕ
  pub layout : Option String
  pub floor : Option String
  pub total_floors : Option ℕ
  pub orientation : Option String
  pub year_built : Option ℕ
  pub elevator : Option Bool
  pub building_type : Option String
  pub metro_distance_m : Option ℕ
  pub employment_accessibility : Option D
  pub mature_amenity_accessibility : Option D
  pub layout_quality : String
  pub road_noise_exposure : String
  pub hard_defects : List String
  pub hard_defects_known : Bool
  pub documented_executable_price : Option D
  pub executable_price_evidence : Option String
  pub data_mode : String

pub record ComparableRecord (D : Type 0) : Type 0 where
  pub observation_id : ℕ
  pub listing_id : Option ℕ
  pub observation_type : String
  pub source : String
  pub source_record_id : String
  pub observed_at : ℕ
  pub source_confidence : D
  pub district : Option String
  pub submarket : Option String
  pub community : Option String
  pub area_sqm : D
  pub total_price : D
  pub unit_price : D
  pub bedrooms : Option ℕ
  pub layout : Option String
  pub floor : Option String
  pub total_floors : Option ℕ
  pub orientation : Option String
  pub year_built : Option ℕ
  pub elevator : Option Bool
  pub building_type : Option String
  pub metro_distance_m : Option ℕ
  pub layout_quality : String
  pub road_noise_exposure : String

pub record SelectedComparable (D : Type 0) : Type 0 where
  pub record_of : ComparableRecord D
  pub tier : String
  pub similarity_score : D
  pub raw_weight : D
  pub weight : D
  pub freshness_days : ℕ

pub record ComparableSelection (D : Type 0) : Type 0 where
  pub comparables : List (SelectedComparable D)
  pub window_days : ℕ
  pub effective_count : D
  pub fallback_reason : Option String

pub record BaselineEvidence (D : Type 0) : Type 0 where
  pub observation_type : String
  pub level_used : String
  pub confidence : String
  pub sample_count : ℕ
  pub unit_price_p25 : Option D
  pub unit_price_p50 : Option D
  pub unit_price_p75 : Option D
  pub price_p50 : Option D
  pub liquidity_score : Option D
  pub baseline_versions : List String
  pub fallback_path : List String
  pub fallback_reason : Option String
  pub generated_at : Option ℕ

pub record ValuationAdjustment (D : Type 0) : Type 0 where
  pub factor : String
  pub rate : D
  pub amount : D

pub record AdjustedComparable (D : Type 0) : Type 0 where
  pub selected : SelectedComparable D
  pub adjusted_unit_price : D
  pub adjusted_value : D
  pub total_adjustment_rate : D
  pub adjustments : List (ValuationAdjustment D)

pub record PriceHistory (D : Type 0) : Type 0 where
  pub original_ask : D
  pub current_ask : D
  pub absolute_reduction : D
  pub percentage_reduction : D
  pub price_cut_count : ℕ
  pub days_since_last_cut : Option ℕ
  pub days_on_market : ℕ
  pub relisting_flag : Bool

pub record FairValueAggregation (D : Type 0) : Type 0 where
  pub fair_value : D
  pub fair_value_low : D
  pub fair_value_high : D
  pub dispersion_rate : D
  pub interval_rate : D
  pub retained_comparables : List (AdjustedComparable D)
  pub baseline_included : Bool

unfoldable pub layout_from_bedrooms : Option ℕ → Option String
layout_from_bedrooms none = none
layout_from_bedrooms (some n) =
    if leb n 1 then some "1BR" else if leb n 2 then some "2BR" else some "3BR+"

-- `layout or layout_from_bedrooms(bedrooms)`: an empty text counts as none.
unfoldable pub resolved_layout : Option String → Option ℕ → Option String
resolved_layout none bedrooms = layout_from_bedrooms bedrooms
resolved_layout (some layout) bedrooms =
    if str_eq layout "" then layout_from_bedrooms bedrooms else some layout

-- What Python's tables of characters and its regular expressions give.
pub record TextTools : Type 0 where
  pub lower : String → String
  pub strip : String → String
  -- `value.replace(" ", "").replace("-", "_")`
  pub joined : String → String
  -- `re.search(r"\d+", value)`, as a number
  pub first_number : String → Option ℕ

-- `token in text`
abbrev pub has_text : String → String → Bool
has_text token text = not (is_none (find? text token))

abbrev pub has_any : List String → String → Bool
has_any tokens text = any (λ token. has_text token text) tokens

-- The class of the first row of which a token occurs.
abbrev pub first_class : List (List String × String) → String → Option String
first_class [] text = none
first_class ((tokens, result) ∷ rows) text =
    if has_any tokens text then some result else first_class rows text

abbrev pub orientation_classes : List (List String × String)
orientation_classes =
    ("南" ∷ "south" ∷ [], "south")
    ∷ ("东" ∷ "east" ∷ [], "east")
    ∷ ("西" ∷ "west" ∷ [], "west")
    ∷ ("北" ∷ "north" ∷ [], "north")
    ∷ ("混" ∷ "mixed" ∷ [], "mixed")
    ∷ []

unfoldable pub normalized_orientation : TextTools → Option String → String
normalized_orientation t none = "unknown"
normalized_orientation t (some value) =
    let normalized = t.joined (t.lower (t.strip value)) in
    if has_any ("南北" ∷ "southnorth" ∷ "south_north" ∷ []) normalized
    then "south_north"
    else or_else (first_class orientation_classes normalized) "unknown"

abbrev pub floor_classes : List (List String × String)
floor_classes =
    ("顶" ∷ "top" ∷ [], "top")
    ∷ ("底" ∷ "ground" ∷ [], "ground")
    ∷ ("低" ∷ "low" ∷ [], "low")
    ∷ ("中" ∷ "middle" ∷ "mid" ∷ [], "middle")
    ∷ ("高" ∷ "high" ∷ [], "high")
    ∷ []

-- The class of a storey of so many: `current / total <= 0.33` in whole numbers.
unfoldable pub storey_class : ℕ → ℕ → String
storey_class current total =
    if leb total current
    then "top"
    else if leb (100 * current) (33 * total)
    then "low"
    else if leb (100 * current) (67 * total)
    then "middle"
    else "high"

unfoldable pub numbered_floor : ℕ → Option ℕ → String
numbered_floor current total_floors = if leb current 1 then "ground" else elim total_floors [
  | none ↦ "unknown"
  | some total ↦ if leb total 0 then "unknown" else storey_class current total
]

unfoldable pub floor_category : TextTools → Option String → Option ℕ → String
floor_category t none total_floors = "unknown"
floor_category t (some floor) total_floors =
    let normalized = t.lower (t.strip floor) in
    or_else (first_class floor_classes normalized) (elim (t.first_number normalized) [
      | none ↦ "unknown"
      | some current ↦ numbered_floor current total_floors
    ])

abbrev pub is_false : Option Bool → Bool
is_false none = false
is_false (some b) = not b

unfoldable pub building_segment : TextTools → Option String → Option Bool → Option ℕ → String
building_segment t building_type elevator total_floors =
    let normalized = t.lower (or_else building_type "") in
    if is_false elevator || has_any ("walk" ∷ "步梯" ∷ []) normalized
    then "walk_up"
    else if leb 12 (or_else total_floors 0) || has_any ("high" ∷ "高层" ∷ []) normalized
    then "high_rise"
    else "elevator"

-- The thresholds are ascending distances.
unfoldable pub metro_bucket : Option ℕ → ℕ × ℕ × ℕ → String
metro_bucket none thresholds = "unknown"
metro_bucket (some distance) (near, walkable, extended) =
    if leb distance near
    then "within_500m"
    else if leb distance walkable
    then "500_800m"
    else if leb distance extended
    then "800_1200m"
    else "over_1200m"
