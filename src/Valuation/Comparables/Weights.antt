-- ===== src/Valuation/Comparables/Weights.antt =====
-- services/valuation/src/home_radar_valuation/comparables.py: no similarity and no raw weight is
-- negative.
use shanghai_home_radar.Prelude.{
  ℕ, ◌≡◌, refl, pos, Bool, true, false, not, ◌||◌, Option, none, some, List, [], ◌∷◌, String,
  Decimal, arith, All, Bool-cases, inl, inr, OnOk, OnOk-then, OnOk-trivial, item, str_eq, leb_ℤ,
  every, if◌then◌else◌,
}
use shanghai_home_radar.Arithmetic.{
  Arithmetic, IsRounded, ◌⊕◌, ◌⊖◌, ◌⊗◌, lit, int, nought, one, greatest,
}
use shanghai_home_radar.Arithmetic.Order.{
  ≼_refl, one-nonneg, greatest-ge_left, le-least, mul-nonneg, add-nonneg, quantize-nonneg,
}
use shanghai_home_radar.Arithmetic.Sums.{IsNonneg}
use shanghai_home_radar.Valuation.Domain.{
  TargetProperty, ComparableRecord, TextTools, floor_category, normalized_orientation,
}
use shanghai_home_radar.Valuation.Config.{ComparableConfig}
use shanghai_home_radar.Valuation.Config.Accepted.{
  accepts_comparables, comparable_ranges, accepts_weights, values_of,
}
use shanghai_home_radar.Valuation.Comparables.{
  area_difference, age_difference, adjacent_layout, layout_similarity, both_known, same_text,
  exact_text, exact_flag, same_flag, age_similarity, factors_of, days_old, same_community,
  target_layout, layout_of, weighted_from, score_of,
}
use shanghai_home_radar.Valuation.Aggregation.{divide}

-- No decimal of the dictionary is negative.
abbrev pub IsNatural : List (String × Decimal) → Type 0
IsNatural d = every (λ w. leb_ℤ (pos 0) w) (values_of d) ≡ true

pub accepted_similarities :
    (c : ComparableConfig)
    → accepts_comparables c ≡ true
    → (leb_ℤ (pos 0) c.unknown_similarity ≡ true)
      × (leb_ℤ (pos 0) c.adjacent_layout_similarity ≡ true)
      × (leb_ℤ (pos 0) c.cross_community_similarity ≡ true)
      × (leb_ℤ (pos 0) c.transaction_weight_multiplier ≡ true)
      × IsNatural c.weights
unfolding accepts_comparables comparable_ranges accepts_weights
accepted_similarities c h = ground (arith, h)

item-natural :
    (d : List (String × Decimal)) (k : String)
    → IsNatural d
    → OnOk (λ w. leb_ℤ (pos 0) w ≡ true) (item d k)
item-natural [] k h = tt
item-natural ((j, v) ∷ d) k h = elim (Bool-cases (str_eq k j)) [
  | inl e ↦ rw (OnOk, e) (ground (arith, h))
  | inr e ↦ rw (OnOk, e) (item-natural d k (ground (arith, h)))
]

module _ {D : Type 0} ⦃a : Arithmetic D⦄ (r : IsRounded D) where
  lit-nonneg : (w : Decimal) → leb_ℤ (pos 0) w ≡ true → a.leb nought (a.lit w) ≡ true
  lit-nonneg w h = rw (r.lit_leb (pos 0) w) h

  item-IsNonneg :
      (d : List (String × D)) (k : String) → All (λ e. IsNonneg (e.1)) d → OnOk IsNonneg (item d k)
  item-IsNonneg [] k h = tt
  item-IsNonneg ((j, v) ∷ d) k h = elim (Bool-cases (str_eq k j)) [
    | inl e ↦ rw (OnOk, e) (h.0)
    | inr e ↦ rw (OnOk, e) (item-IsNonneg d k (h.1))
  ]

  choice-IsNonneg : (b : Bool) (x y : D) → IsNonneg x → IsNonneg y → IsNonneg (if b then x else y)
  choice-IsNonneg true x y h k = h
  choice-IsNonneg false x y h k = k

  layout_similarity-IsNonneg :
      (target candidate : Option String) (config : ComparableConfig)
      → accepts_comparables config ≡ true
      → IsNonneg (layout_similarity {D = D} target candidate config)
  unfolding layout_similarity
  layout_similarity-IsNonneg target candidate config h =
      let s = accepted_similarities config h in
      choice-IsNonneg (not (both_known target candidate)) _ _
        (lit-nonneg config.unknown_similarity (s.0))
        (choice-IsNonneg (same_text target candidate) _ _ (one-nonneg r) (
          choice-IsNonneg (adjacent_layout target candidate config) _ _
            (lit-nonneg config.adjacent_layout_similarity (s.1)) (≼_refl r nought)))

  exact_text-IsNonneg : (s t : String) (x : D) → IsNonneg x → IsNonneg (exact_text s t x)
  unfolding exact_text
  exact_text-IsNonneg s t x h =
      choice-IsNonneg (str_eq s "unknown" || str_eq t "unknown") _ _ h
        (choice-IsNonneg (str_eq s t) _ _ (one-nonneg r) (≼_refl r nought))

  exact_flag-IsNonneg : (s t : Option Bool) (x : D) → IsNonneg x → IsNonneg (exact_flag s t x)
  unfolding exact_flag
  exact_flag-IsNonneg (some s) (some t) x h =
      choice-IsNonneg (same_flag s t) _ _ (one-nonneg r) (≼_refl r nought)
  exact_flag-IsNonneg none t x h = h
  exact_flag-IsNonneg (some s) none x h = h

  age_similarity-IsNonneg :
      (years : Option ℕ) (config : ComparableConfig)
      → accepts_comparables config ≡ true
      → OnOk IsNonneg (age_similarity {D = D} years config)
  unfolding age_similarity
  age_similarity-IsNonneg none config h =
      lit-nonneg config.unknown_similarity ((accepted_similarities config h).0)
  age_similarity-IsNonneg (some years) config h =
      OnOk-then (λ _. Unit {0}) IsNonneg
        (divide (int years) (int config.building_age_similarity_horizon_years)) _
        (OnOk-trivial (divide (int years) (int config.building_age_similarity_horizon_years)))
        (λ share _. greatest-ge_left r nought (one ⊖ share))

  factors_of-IsNonneg :
      (tools : TextTools) (target : TargetProperty D) (candidate : ComparableRecord D)
      (tier : String) (as_of window : ℕ) (config : ComparableConfig)
      → accepts_comparables config ≡ true
      → IsNatural config.tier_multipliers
      → OnOk
          (All (λ e. IsNonneg (e.1)))
          (factors_of tools target candidate tier as_of window config)
  unfolding factors_of
  factors_of-IsNonneg tools target candidate tier as_of window config h k =
      let s = accepted_similarities config h in
      let unknown = lit-nonneg config.unknown_similarity (s.0) in
      OnOk-then (λ w. leb_ℤ (pos 0) w ≡ true) _ (item config.tier_multipliers tier) _
        (item-natural config.tier_multipliers tier k)
        (λ geography g.
          OnOk-then (λ _. Unit {0}) _ (area_difference target.area_sqm candidate.area_sqm) _
            (OnOk-trivial (area_difference target.area_sqm candidate.area_sqm))
            (λ area _.
              OnOk-then IsNonneg _
                (age_similarity (age_difference target.year_built candidate.year_built) config) _
                (age_similarity-IsNonneg (age_difference target.year_built candidate.year_built)
                  config h)
                (λ age old.
                  OnOk-then (λ _. Unit {0}) _ (divide (int (days_old as_of candidate)) (int window))
                    _ (OnOk-trivial (divide (int (days_old as_of candidate)) (int window)))
                    (λ freshness _. (
                      lit-nonneg geography g,
                      (
                        choice-IsNonneg (same_community target candidate) _ _ (one-nonneg r)
                            (lit-nonneg config.cross_community_similarity (s.2)),
                        (
                          greatest-ge_left r nought (one ⊖ area),
                          (
                            layout_similarity-IsNonneg (target_layout target) (layout_of candidate)
                                config h,
                            (
                              old,
                              (
                                exact_text-IsNonneg
                                    (floor_category tools target.floor target.total_floors)
                                    (floor_category tools candidate.floor candidate.total_floors)
                                    (lit config.unknown_similarity) unknown,
                                (
                                  exact_flag-IsNonneg target.elevator candidate.elevator
                                      (lit config.unknown_similarity) unknown,
                                  (
                                    exact_text-IsNonneg
                                        (normalized_orientation tools target.orientation)
                                        (normalized_orientation tools candidate.orientation)
                                        (lit config.unknown_similarity) unknown,
                                    (
                                      greatest-ge_left r nought (one ⊖ freshness),
                                      (
                                        le-least r nought one
                                            (greatest nought candidate.source_confidence)
                                            (one-nonneg r)
                                            (greatest-ge_left r nought candidate.source_confidence),
                                        tt,
                                      ),
                                    ),
                                  ),
                                ),
                              ),
                            ),
                          ),
                        ),
                      ),
                    )))))

  weighted_from-IsNonneg :
      (start : D) (factors : List (String × D)) (weights : List (String × Decimal))
      → IsNonneg start
      → All (λ e. IsNonneg (e.1)) factors
      → IsNatural weights
      → OnOk IsNonneg (weighted_from start factors weights)
  unfolding weighted_from
  weighted_from-IsNonneg start factors [] h k n = h
  weighted_from-IsNonneg start factors ((name, weight) ∷ weights) h k n =
      OnOk-then IsNonneg IsNonneg (item factors name) _ (item-IsNonneg factors name k) (λ factor f.
        weighted_from-IsNonneg (start ⊕ factor ⊗ lit weight) factors weights
          (add-nonneg r start (factor ⊗ lit weight) h
            (mul-nonneg r factor (lit weight) f (lit-nonneg weight (ground (arith, n)))))
          k (ground (arith, n)))

  -- A comparable that `_score` gives is the observation, with a raw weight that is not negative.
  pub score_of-IsNonneg :
      (tools : TextTools) (target : TargetProperty D) (candidate : ComparableRecord D)
      (tier : String) (as_of window : ℕ) (config : ComparableConfig)
      → accepts_comparables config ≡ true
      → IsNatural config.tier_multipliers
      → OnOk
          (λ s. IsNonneg s.raw_weight × (s.record_of ≡ candidate))
          (score_of tools target candidate tier as_of window config)
  unfolding score_of
  score_of-IsNonneg tools target candidate tier as_of window config h k =
      let s = accepted_similarities config h in
      OnOk-then (All (λ e. IsNonneg (e.1))) _
        (factors_of tools target candidate tier as_of window config) _
        (factors_of-IsNonneg tools target candidate tier as_of window config h k)
        (λ factors f.
          OnOk-then IsNonneg _ (weighted_from nought factors config.weights) _
            (weighted_from-IsNonneg nought factors config.weights (≼_refl r nought) f (s.4))
            (λ total t.
              OnOk-then (λ w. leb_ℤ (pos 0) w ≡ true) _ (item config.tier_multipliers tier) _
                (item-natural config.tier_multipliers tier k)
                (λ multiplier m. (
                  quantize-nonneg r 6 _ (omega arith) (
                      mul-nonneg r _ _
                        (mul-nonneg r _ _ (quantize-nonneg r 4 total (omega arith) t)
                          (lit-nonneg multiplier m))
                        (choice-IsNonneg (str_eq candidate.observation_type "transaction") _ _
                          (lit-nonneg config.transaction_weight_multiplier (s.3)) (one-nonneg r))),
                  refl,
                ))))
