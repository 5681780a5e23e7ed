-- ===== src/Valuation/Comparables/Returns.antt =====
-- services/valuation/src/home_radar_valuation/comparables.py: `select_comparables` returns where the
-- area of the target is not 0 and the weights are those of factors.
use shanghai_home_radar.Prelude.{
  ℕ, ◌<◌, ◌≡◌, refl, ap, ◌∙◌, Bool, true, false, ◌&&◌, Option, none, some, List, [], ◌∷◌, String,
  Decimal, arith, and_left, and_right, Bool-cases, inl, inr, Result, ok, Returns, Returns-then,
  Returns-OnOk, item, keys, item-Returns, contains, every, leb, leb_ℤ, length, select,
  if◌then◌else◌,
}
use shanghai_home_radar.Arithmetic.{Arithmetic, IsRounded, ◌≈◌, ◌⊕◌, ◌⊗◌, lit, int, nought}
use shanghai_home_radar.Valuation.Domain.{
  TargetProperty, ComparableRecord, SelectedComparable, ComparableSelection, TextTools,
}
use shanghai_home_radar.Valuation.Config.{ComparableConfig}
use shanghai_home_radar.Valuation.Config.Accepted.{
  accepts_comparables, comparable_ranges, comparable_rules, is_window_list, tier_names,
}
use shanghai_home_radar.Decision.Config.{same_set}
use shanghai_home_radar.Valuation.Aggregation.{divide}
use shanghai_home_radar.Valuation.Aggregation.Interval.{divide_did}
use shanghai_home_radar.Valuation.Comparables.{
  area_difference, age_difference, age_similarity, days_old, is_tier_1, is_tier_2, is_tier_3,
  tier_of, factors_of, weighted_from, score_of,
}
use shanghai_home_radar.Valuation.Comparables.Selection.{
  latest_comparables, may_compare, add_scored, scored, select_tiers, widen, last_of, first_of,
  select_comparables,
}
use shanghai_home_radar.Valuation.Comparables.Weights.{IsNatural}
use shanghai_home_radar.Valuation.Comparables.Chosen.{IsChosen, select_comparables-IsChosen}

abbrev pub factor_names : List String
factor_names =
    "geography" ∷ "community" ∷ "area" ∷ "layout" ∷ "building_age" ∷ "floor" ∷ "elevator"
    ∷ "orientation" ∷ "freshness" ∷ "source_confidence" ∷ []

-- Every weight is that of a factor.
abbrev pub NamesFactors : List (String × Decimal) → Type 0
NamesFactors weights = every (λ name. contains name factor_names) (keys weights) ≡ true

accepted_parts :
    (c : ComparableConfig)
    → accepts_comparables c ≡ true
    → (comparable_ranges c ≡ true) × (comparable_rules c ≡ true)
unfolding accepts_comparables
accepted_parts c h = ground (arith, h)

accepted_horizon :
    (c : ComparableConfig)
    → comparable_ranges c ≡ true
    → 0 < c.building_age_similarity_horizon_years
unfolding comparable_ranges
accepted_horizon c h = ground (arith, h)

-- Where two sets of texts are equal, the first has each text of the second.
has_tiers :
    (names : List String)
    → same_set names tier_names ≡ true
    → (contains "tier_1" names ≡ true)
      × (contains "tier_2" names ≡ true)
      × (contains "tier_3" names ≡ true)
has_tiers names h =
    three _ (contains "tier_1" names) (contains "tier_2" names) (contains "tier_3" names)
      (and_right (every (λ x. contains x tier_names) names) _ h)
  where
    three : (d x y z : Bool) → (x && (y && (z && d))) ≡ true → (x ≡ true) × (y ≡ true) × (z ≡ true)
    three d x y z h = ground (arith, h)

rules_parts :
    (c : ComparableConfig)
    → comparable_rules c ≡ true
    → (is_window_list c.windows_days ≡ true)
      × (same_set (keys c.tier_multipliers) tier_names ≡ true)
unfolding comparable_rules
rules_parts c h =
    six (is_window_list c.windows_days) (leb_ℤ c.tier_1_area_tolerance c.tier_2_area_tolerance)
      (leb_ℤ c.tier_2_area_tolerance c.tier_3_area_tolerance)
      (leb c.minimum_comparables c.target_comparables)
      (leb c.target_comparables c.maximum_comparables)
      (same_set (keys c.tier_multipliers) tier_names) h
  where
    six : (u v w x y z : Bool) → (u && v && w && x && y && z) ≡ true → (u ≡ true) × (z ≡ true)
    six u v w x y z h = ground (arith, h)

accepted_tiers :
    (c : ComparableConfig)
    → accepts_comparables c ≡ true
    → (contains "tier_1" (keys c.tier_multipliers) ≡ true)
      × (contains "tier_2" (keys c.tier_multipliers) ≡ true)
      × (contains "tier_3" (keys c.tier_multipliers) ≡ true)
      × (is_window_list c.windows_days ≡ true)
      × (0 < c.building_age_similarity_horizon_years)
accepted_tiers c h =
    let (ranges, rules) = accepted_parts c h in
    let (listed, same) = rules_parts c rules in
    let (first, second, third) = has_tiers (keys c.tier_multipliers) same in
    (first, second, third, listed, accepted_horizon c ranges)

abbrev AllPositive : List ℕ → Type 0
AllPositive [] = Unit
AllPositive (w ∷ ws) = (0 < w) × AllPositive ws

windows_positive : (ws : List ℕ) → is_window_list ws ≡ true → AllPositive ws
windows_positive [] h = tt
windows_positive (x ∷ []) h = cc h
windows_positive (x ∷ y ∷ []) h = cc h
windows_positive (x ∷ y ∷ z ∷ []) h = ground (arith, h)
windows_positive (x ∷ y ∷ z ∷ w ∷ ws) h = cc h

windows_ends :
    (ws : List ℕ)
    → is_window_list ws ≡ true
    → Returns (λ _. Unit {0}) (first_of ws) × Returns (λ _. Unit {0}) (last_of ws)
windows_ends [] h = cc h
windows_ends (x ∷ []) h = (tt, tt)
windows_ends (x ∷ y ∷ []) h = (tt, tt)
windows_ends (x ∷ y ∷ z ∷ []) h = (tt, tt)
windows_ends (x ∷ y ∷ z ∷ w ∷ ws) h = cc h

module _ {D : Type 0} ⦃a : Arithmetic D⦄ (r : IsRounded D) where
  divide-Returns : (x : D) (n : ℕ) → 0 < n → Returns (λ _. Unit {0}) (divide x (int n))
  divide-Returns x n h = rw (divide_did r x n h) tt

  module _ (tools : TextTools) (target : TargetProperty D) (as_of : ℕ) (config : ComparableConfig)
      (accepted : accepts_comparables config ≡ true) (named : NamesFactors config.weights)
      (sized : (target.area_sqm ≈ nought) ≡ false) where
    area-Returns :
        (c : ComparableRecord D)
        → Returns (λ _. Unit {0}) (area_difference target.area_sqm c.area_sqm)
    unfolding area_difference divide
    area-Returns c = rw sized tt

    age-Returns : (years : Option ℕ) → Returns (λ _. Unit {0}) (age_similarity {D = D} years config)
    unfolding age_similarity
    age-Returns none = tt
    age-Returns (some n) =
        Returns-then (λ _. Unit {0}) (λ _. Unit {0})
          (divide (int n) (int config.building_age_similarity_horizon_years)) _
          (divide-Returns (int n) config.building_age_similarity_horizon_years
            ((accepted_tiers config accepted).4))
          (λ x _. tt)

    abbrev HasMultiplier : Option String → Type 0
    HasMultiplier none = Unit
    HasMultiplier (some name) = contains name (keys config.tier_multipliers) ≡ true

    -- The name of the tier is one that has a multiplier.
    record IsKnown (tier : Option String) : Type 0 where
      pub known : HasMultiplier tier

    three_ways :
        (x y z : Bool)
        → HasMultiplier (
            if x
            then some "tier_1"
            else if y
            then some "tier_2"
            else if z
            then some "tier_3"
            else none)
    three_ways true y z = (accepted_tiers config accepted).0
    three_ways false true z = (accepted_tiers config accepted).1
    three_ways false false true = (accepted_tiers config accepted).2
    three_ways false false false = tt

    tier_of-Returns : (c : ComparableRecord D) → Returns IsKnown (tier_of target c config)
    unfolding tier_of
    tier_of-Returns c =
        Returns-then (λ _. Unit {0}) IsKnown (area_difference target.area_sqm c.area_sqm) _
          (area-Returns c)
          (λ area _. record {
            known =
                three_ways (is_tier_1 target c config area) (is_tier_2 target c config area)
                  (is_tier_3 target c config area);
          })

    factors_of-Returns :
        (c : ComparableRecord D) (tier : String) (window : ℕ)
        → 0 < window
        → HasMultiplier (some tier)
        → Returns (λ f. keys f ≡ factor_names) (factors_of tools target c tier as_of window config)
    unfolding factors_of
    factors_of-Returns c tier window w k =
        Returns-then (λ _. Unit {0}) _ (item config.tier_multipliers tier) _
          (item-Returns config.tier_multipliers tier k)
          (λ geography _.
            Returns-then (λ _. Unit {0}) _ (area_difference target.area_sqm c.area_sqm) _
              (area-Returns c)
              (λ area _.
                Returns-then (λ _. Unit {0}) _
                  (age_similarity (age_difference target.year_built c.year_built) config) _
                  (age-Returns (age_difference target.year_built c.year_built))
                  (λ age _.
                    Returns-then (λ _. Unit {0}) _ (divide (int (days_old as_of c)) (int window)) _
                      (divide-Returns (int (days_old as_of c)) window w) (λ freshness _. refl))))

    weighted_from-Returns :
        (start : D) (factors : List (String × D)) (weights : List (String × Decimal))
        → keys factors ≡ factor_names
        → NamesFactors weights
        → Returns (λ _. Unit {0}) (weighted_from start factors weights)
    unfolding weighted_from
    weighted_from-Returns start factors [] h n = tt
    weighted_from-Returns start factors ((name, weight) ∷ weights) h n =
        Returns-then (λ _. Unit {0}) _ (item factors name) _
          (item-Returns factors name (ap (contains name) h ∙ and_left _ _ n))
          (λ factor _.
            weighted_from-Returns (start ⊕ factor ⊗ lit weight) factors weights h (and_right _ _ n))

    score_of-Returns :
        (c : ComparableRecord D) (tier : String) (window : ℕ)
        → 0 < window
        → HasMultiplier (some tier)
        → Returns (λ _. Unit {0}) (score_of tools target c tier as_of window config)
    unfolding score_of
    score_of-Returns c tier window w k =
        Returns-then (λ f. keys f ≡ factor_names) _
          (factors_of tools target c tier as_of window config) _
          (factors_of-Returns c tier window w k)
          (λ factors f.
            Returns-then (λ _. Unit {0}) _ (weighted_from nought factors config.weights) _
              (weighted_from-Returns nought factors config.weights f named)
              (λ total _.
                Returns-then (λ _. Unit {0}) _ (item config.tier_multipliers tier) _
                  (item-Returns config.tier_multipliers tier k) (λ multiplier _. tt)))

    add_scored-Returns :
        (c : ComparableRecord D) (window : ℕ) (rest : Result (List (SelectedComparable D)))
        (tier : Option String)
        → 0 < window
        → HasMultiplier tier
        → Returns (λ _. Unit {0}) rest
        → Returns (λ _. Unit {0}) (add_scored tools target c as_of window config rest tier)
    unfolding add_scored
    add_scored-Returns c window rest none w k h = h
    add_scored-Returns c window rest (some tier) w k h =
        Returns-then (λ _. Unit {0}) _ (score_of tools target c tier as_of window config) _
          (score_of-Returns c tier window w k)
          (λ s _. Returns-then (λ _. Unit {0}) _ rest _ h (λ out _. tt))

    scored-Returns :
        (records : List (ComparableRecord D)) (window : ℕ)
        → 0 < window
        → Returns (λ _. Unit {0}) (scored tools target records as_of window config)
    unfolding scored
    scored-Returns [] window w = tt
    scored-Returns (c ∷ records) window w =
        Returns-then IsKnown _ (tier_of target c config) _ (tier_of-Returns c) (λ tier k.
          add_scored-Returns c window (scored tools target records as_of window config) tier w
            k.known (scored-Returns records window w))

    widen-Returns :
        (records : List (ComparableRecord D)) (windows : List ℕ)
        (final : List (SelectedComparable D) × ℕ)
        → AllPositive windows
        → Returns (λ _. Unit {0}) (widen tools target records as_of config windows final)
    unfolding widen select_tiers
    widen-Returns records [] final w = tt
    widen-Returns records (window ∷ windows) final w =
        let eligible = select (may_compare target as_of window) records in
        Returns-then (λ _. Unit {0}) _ (select_tiers tools target eligible as_of window config) _
          (Returns-then (λ _. Unit {0}) _ (scored tools target eligible as_of window config) _
            (scored-Returns eligible window (w.0)) (λ all _. tt))
          (λ out _. elim (Bool-cases (leb config.minimum_comparables (length out))) [
            | inl e ↦ rw e tt
            | inr e ↦ rw e (widen-Returns records windows (out, window) (w.1))
          ])

    select_comparables-Returns :
        (uuid_text number_text : ℕ → String) (candidates : List (ComparableRecord D))
        → Returns
            (λ _. Unit {0})
            (select_comparables uuid_text number_text tools target candidates as_of config)
    unfolding select_comparables
    select_comparables-Returns uuid_text number_text candidates =
        let listed = (accepted_tiers config accepted).3 in
        let (first, last) = windows_ends config.windows_days listed in
        Returns-then (λ _. Unit {0}) _ (last_of config.windows_days) _ last
          (λ widest _.
            Returns-then (λ _. Unit {0}) _
              (widen tools target (latest_comparables uuid_text candidates) as_of config
                config.windows_days ([], widest))
              _
              (widen-Returns (latest_comparables uuid_text candidates) config.windows_days
                ([], widest) (windows_positive config.windows_days listed))
              (λ found _.
                Returns-then (λ _. Unit {0}) _ (first_of config.windows_days) _ first
                  (λ narrowest _. tt)))

    -- If the configuration is accepted, its weights are those of factors and its multipliers are not
    -- negative, and the area of the target is not 0, then the selection returns: no more comparables than the
    -- maximum, all of them candidates in its window that are not the target, at most one of each
    -- entity, and no weight is negative.
    pub select_comparables-IsSelection :
        (uuid_text number_text : ℕ → String) (candidates : List (ComparableRecord D))
        → IsNatural config.tier_multipliers
        → (s : ComparableSelection D) × (select_comparables uuid_text number_text tools target
              candidates as_of config
            ≡ ok s)
          × IsChosen uuid_text target candidates as_of config s
    select_comparables-IsSelection uuid_text number_text candidates natural =
        Returns-OnOk (IsChosen uuid_text target candidates as_of config) (λ _. Unit {0})
          (select_comparables uuid_text number_text tools target candidates as_of config)
          (select_comparables-IsChosen r uuid_text number_text tools target candidates as_of config
            accepted natural)
          (select_comparables-Returns uuid_text number_text candidates)
