-- ===== src/Valuation/Comparables/Selection.antt =====
-- services/valuation/src/home_radar_valuation/comparables.py: `select_comparables` and its steps. The
-- texts of two UUIDs compare as their numbers do.
use Prim.Native.String.{◌++◌ as append_text}
use shanghai_home_radar.Prelude.{
  ℕ, pos, Bool, true, false, not, ◌&&◌, ◌||◌, Option, none, some, List, [], ◌∷◌, ◌++◌, String,
  Result, ok, err, lookup_error, ◌>>=◌, str_eq, leb, ltb, ◌==◌, leb_ℤ, ltb_ℤ, length, take, select,
  is_empty, map, if◌then◌else◌,
}
use shanghai_home_radar.Sorting.{sort_by}
use shanghai_home_radar.Keyed.{note_each}
use shanghai_home_radar.Collector.Repository.{any}
use shanghai_home_radar.Arithmetic.{Arithmetic, ◌⊗◌, ◌⊘◌, ◌≼◌, ◌≺◌, ◌≈◌, nought, one, quantize, sum}
use shanghai_home_radar.Valuation.Domain.{
  TargetProperty, ComparableRecord, SelectedComparable, ComparableSelection, TextTools,
}
use shanghai_home_radar.Valuation.Config.{ComparableConfig}
use shanghai_home_radar.Valuation.Comparables.{days_from, tier_of, score_of}

abbrev pub same_listing : Option ℕ → Option ℕ → Bool
same_listing none none = true
same_listing (some m) (some n) = m == n
same_listing _ _ = false

abbrev pub first_of : List ℕ → Result ℕ
first_of [] = err (lookup_error "tuple index out of range")
first_of (w ∷ ws) = ok w

abbrev pub last_of : List ℕ → Result ℕ
last_of [] = err (lookup_error "tuple index out of range")
last_of (w ∷ []) = ok w
last_of (w ∷ v ∷ ws) = last_of (v ∷ ws)

module _ {D : Type 0} ⦃a : Arithmetic D⦄ where
  -- `ComparableRecord.entity_key`
  abbrev pub comparable_key : (ℕ → String) → ComparableRecord D → String
  comparable_key uuid_text r = append_text r.observation_type (elim r.listing_id [
    | some id ↦ append_text ":listing:" (uuid_text id)
    | none ↦ append_text ":source:" (append_text r.source (append_text ":" r.source_record_id))
  ])

  -- `(observed_at, str(observation_id)) > (observed_at, str(observation_id))`
  unfoldable pub is_later : ComparableRecord D → ComparableRecord D → Bool
  is_later r e =
      ltb e.observed_at r.observed_at
      || (r.observed_at == e.observed_at && ltb e.observation_id r.observation_id)

  -- `_latest_per_entity`
  unfoldable pub latest_comparables :
      (ℕ → String) → List (ComparableRecord D) → List (ComparableRecord D)
  latest_comparables uuid_text = note_each (comparable_key uuid_text) is_later []

  -- In the window, and not the target itself.
  unfoldable pub may_compare : TargetProperty D → ℕ → ℕ → ComparableRecord D → Bool
  may_compare target as_of window_days candidate =
      let days = days_from candidate.observed_at as_of in
      leb_ℤ (pos 0) days
      && ltb_ℤ days (pos window_days)
      && not (same_listing candidate.listing_id target.listing_id)

  -- A record of a tier is scored in front of the others; what belongs to no tier is left out.
  unfoldable pub add_scored :
      TextTools
      → TargetProperty D
      → ComparableRecord D
      → ℕ
      → ℕ
      → ComparableConfig
      → Result (List (SelectedComparable D))
      → Option String
      → Result (List (SelectedComparable D))
  add_scored tools target candidate as_of window_days config rest none = rest
  add_scored tools target candidate as_of window_days config rest (some tier) = do
    chosen ← score_of tools target candidate tier as_of window_days config
    others ← rest
    ok (chosen ∷ others)

  -- The loop of `_select_tiers`.
  unfoldable pub scored :
      TextTools
      → TargetProperty D
      → List (ComparableRecord D)
      → ℕ
      → ℕ
      → ComparableConfig
      → Result (List (SelectedComparable D))
  scored tools target [] as_of window_days config = ok []
  scored tools target (candidate ∷ records) as_of window_days config =
      let rest = scored tools target records as_of window_days config in
      do
        tier ← tier_of target candidate config
        add_scored tools target candidate as_of window_days config rest tier

  -- The tiers are joined until there are enough.
  unfoldable pub join_tiers :
      ℕ
      → List (SelectedComparable D)
      → List String
      → List (SelectedComparable D)
      → List (SelectedComparable D)
  join_tiers minimum all [] selected = selected
  join_tiers minimum all (tier ∷ tiers) selected =
      let more = selected ++ select (λ item. str_eq item.tier tier) all in
      let rest = join_tiers minimum all tiers more in
      if leb minimum (length more) then more else rest

  -- `_select_tiers`
  unfoldable pub select_tiers :
      TextTools
      → TargetProperty D
      → List (ComparableRecord D)
      → ℕ
      → ℕ
      → ComparableConfig
      → Result (List (SelectedComparable D))
  select_tiers tools target eligible as_of window_days config = do
    all ← scored tools target eligible as_of window_days config
    ok (join_tiers config.minimum_comparables all ("tier_1" ∷ "tier_2" ∷ "tier_3" ∷ []) [])

  -- The loop over the windows, from what the one before gave.
  unfoldable pub widen :
      TextTools
      → TargetProperty D
      → List (ComparableRecord D)
      → ℕ
      → ComparableConfig
      → List ℕ
      → List (SelectedComparable D) × ℕ
      → Result (List (SelectedComparable D) × ℕ)
  widen tools target records as_of config [] final = ok final
  widen tools target records as_of config (window ∷ windows) final = do
    selected ←
        select_tiers tools target (select (may_compare target as_of window) records) as_of window
          config
    let rest = widen tools target records as_of config windows (selected, window)
    if leb config.minimum_comparables (length selected) then ok (selected, window) else rest

  -- `_normalize_weights`
  unfoldable pub normalize_weights : List (SelectedComparable D) → List (SelectedComparable D)
  normalize_weights values =
      let total = sum (map (λ (item : SelectedComparable D). item.raw_weight) values) in
      if total ≼ nought
      then []
      else map
          (λ (item : SelectedComparable D). record item {
            weight = quantize 6 (item.raw_weight ⊘ total);
          })
          values

  unfoldable pub effective_comparable_count : List D → D
  effective_comparable_count weights =
      let denominator = sum (map (λ value. value ⊗ value) weights) in
      if denominator ≈ nought then nought else quantize 4 (one ⊘ denominator)

  -- `(-raw_weight, -timestamp, str(observation_id))`
  abbrev pub by_raw_weight : SelectedComparable D → SelectedComparable D → Bool
  by_raw_weight x y =
      y.raw_weight ≺ x.raw_weight
      || (not (x.raw_weight ≺ y.raw_weight)
          && (ltb y.record_of.observed_at x.record_of.observed_at
              || (x.record_of.observed_at == y.record_of.observed_at
                  && leb x.record_of.observation_id y.record_of.observation_id)))

  unfoldable pub fallback_reason_of :
      (ℕ → String) → ComparableConfig → ℕ → ℕ → List (SelectedComparable D) → Option String
  fallback_reason_of number_text config first window chosen =
      if is_empty chosen
      then some "no_matching_observation_comparables"
      else if ltb (length chosen) config.minimum_comparables
      then some "comparable_sample_below_minimum"
      else if ltb first window
      then some (append_text "freshness_expanded_to_" (append_text (number_text window) "d"))
      else if any (λ item. not (str_eq item.tier "tier_1")) chosen
      then some "narrow_tier_sample_below_minimum"
      else none

  -- How a UUID and a number are written are the first two arguments.
  unfoldable pub select_comparables :
      (ℕ → String)
      → (ℕ → String)
      → TextTools
      → TargetProperty D
      → List (ComparableRecord D)
      → ℕ
      → ComparableConfig
      → Result (ComparableSelection D)
  select_comparables uuid_text number_text tools target candidates as_of config = do
    widest ← last_of config.windows_days
    found ←
        widen tools target (latest_comparables uuid_text candidates) as_of config
          config.windows_days ([], widest)
    let kept = take config.maximum_comparables (sort_by by_raw_weight (found.0))
    let chosen = normalize_weights kept
    narrowest ← first_of config.windows_days
    ok (record {
      comparables = chosen;
      window_days = found.1;
      effective_count =
          effective_comparable_count (map (λ (item : SelectedComparable D). item.weight) chosen);
      fallback_reason = fallback_reason_of number_text config narrowest (found.1) chosen;
    })
