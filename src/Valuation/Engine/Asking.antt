-- ===== src/Valuation/Engine/Asking.antt =====
-- services/valuation/src/home_radar_valuation/engine.py: the asking price is no part of the fair value.
use shanghai_home_radar.Prelude.{
  ℕ, ◌≡◌, refl, ap, Option, none, some, List, [], ◌∷◌, String, Result, ok, ◌>>=◌, select, length,
  leb, err, if◌then◌else◌,
}
use shanghai_home_radar.Arithmetic.{Arithmetic}
use shanghai_home_radar.Valuation.Domain.{
  TargetProperty, ComparableRecord, SelectedComparable, AdjustedComparable, BaselineEvidence,
  TextTools,
}
use shanghai_home_radar.Valuation.Config.{ComparableConfig, AdjustmentConfig, ValuationConfig}
use shanghai_home_radar.Valuation.Aggregation.{
  baseline_points, baseline_value, widened_low, widened_high, aggregated, aggregate_fair_value,
}
use shanghai_home_radar.Valuation.Comparables.{
  is_tier_1, is_tier_2, is_tier_3, tier_of, factors_of, score_of,
}
use shanghai_home_radar.Valuation.Comparables.Selection.{
  last_of, latest_comparables, may_compare, add_scored, scored, select_tiers, widen,
  select_comparables,
}
use shanghai_home_radar.Valuation.Adjustments.{
  floor_elevator_delta, metro_delta, adjustment_rates, adjusted_by, adjust_comparable,
  target_missing_attributes,
}
use shanghai_home_radar.Valuation.Engine.{adjust_all, fair_value_of}

-- Steps that agree on every result agree.
bind_cong {ℓ κ} :
    {A : Type ℓ} {B : Type κ} (r : Result A) (f g : A → Result B)
    → ((y : A) → f y ≡ g y)
    → (r >>= f) ≡ (r >>= g)
bind_cong (ok y) f g h = h y
bind_cong (err e) f g h = refl

module _ {D : Type 0} ⦃a : Arithmetic D⦄ (x : D) where
  -- The flat at another asking price.
  abbrev pub asking : TargetProperty D → TargetProperty D
  asking t = record t { current_ask = x }

  tier_of-asking :
      (t : TargetProperty D) (c : ComparableRecord D) (config : ComparableConfig)
      → tier_of (asking t) c config ≡ tier_of t c config
  unfolding tier_of is_tier_1 is_tier_2 is_tier_3
  tier_of-asking t c config = refl

  score_of-asking :
      (tools : TextTools) (t : TargetProperty D) (c : ComparableRecord D) (tier : String)
      (as_of window : ℕ) (config : ComparableConfig)
      → score_of tools (asking t) c tier as_of window config
        ≡ score_of tools t c tier as_of window config
  unfolding score_of factors_of
  score_of-asking tools t c tier as_of window config = refl

  may_compare-asking :
      (t : TargetProperty D) (as_of window : ℕ) (records : List (ComparableRecord D))
      → select (may_compare (asking t) as_of window) records
        ≡ select (may_compare t as_of window) records
  unfolding may_compare
  may_compare-asking t as_of window records = refl

  add_scored-asking :
      (tools : TextTools) (t : TargetProperty D) (c : ComparableRecord D) (as_of window : ℕ)
      (config : ComparableConfig) (rest : Result (List (SelectedComparable D)))
      (tier : Option String)
      → add_scored tools (asking t) c as_of window config rest tier
        ≡ add_scored tools t c as_of window config rest tier
  unfolding add_scored score_of factors_of
  add_scored-asking tools t c as_of window config rest none = refl
  add_scored-asking tools t c as_of window config rest (some tier) = refl

  scored-asking :
      (tools : TextTools) (t : TargetProperty D) (records : List (ComparableRecord D))
      (as_of window : ℕ) (config : ComparableConfig)
      → scored tools (asking t) records as_of window config
        ≡ scored tools t records as_of window config
  unfolding scored tier_of is_tier_1 is_tier_2 is_tier_3
  scored-asking tools t [] as_of window config = refl
  scored-asking tools t (c ∷ records) as_of window config =
      rw (scored-asking tools t records as_of window config) (
        bind_cong (tier_of t c config) _ _ (λ tier.
          add_scored-asking tools t c as_of window config
            (scored tools t records as_of window config) tier))

  adjust_comparable-asking :
      (tools : TextTools) (t : TargetProperty D) (c : SelectedComparable D)
      (config : AdjustmentConfig)
      → adjust_comparable tools (asking t) c config ≡ adjust_comparable tools t c config
  unfolding adjust_comparable adjustment_rates adjusted_by floor_elevator_delta metro_delta
  adjust_comparable-asking tools t c config = refl

  widen-asking :
      (tools : TextTools) (t : TargetProperty D) (records : List (ComparableRecord D)) (as_of : ℕ)
      (config : ComparableConfig) (windows : List ℕ) (final : List (SelectedComparable D) × ℕ)
      → widen tools (asking t) records as_of config windows final
        ≡ widen tools t records as_of config windows final
  unfolding widen select_tiers may_compare
  widen-asking tools t records as_of config [] final = refl
  widen-asking tools t records as_of config (window ∷ windows) final =
      rw (scored-asking tools t (select (may_compare t as_of window) records) as_of window config) (
        bind_cong
          (select_tiers tools t (select (may_compare t as_of window) records) as_of window config) _
          _
          (λ found.
            ap
              (λ rest.
                if leb config.minimum_comparables (length found) then ok (found, window) else rest)
              (widen-asking tools t records as_of config windows (found, window))))

  select_comparables-asking :
      (uuid_text number_text : ℕ → String) (tools : TextTools) (t : TargetProperty D)
      (candidates : List (ComparableRecord D)) (as_of : ℕ) (config : ComparableConfig)
      → select_comparables uuid_text number_text tools (asking t) candidates as_of config
        ≡ select_comparables uuid_text number_text tools t candidates as_of config
  unfolding select_comparables
  select_comparables-asking uuid_text number_text tools t candidates as_of config =
      bind_cong (last_of config.windows_days) _ _ (λ widest.
        rw
          (widen-asking tools t (latest_comparables uuid_text candidates) as_of config
            config.windows_days ([], widest))
          refl)

  adjust_all-asking :
      (tools : TextTools) (t : TargetProperty D) (cs : List (SelectedComparable D))
      (config : AdjustmentConfig)
      → adjust_all tools (asking t) cs config ≡ adjust_all tools t cs config
  unfolding adjust_all
  adjust_all-asking tools t [] config = refl
  adjust_all-asking tools t (c ∷ cs) config =
      rw (adjust_comparable-asking tools t c config, adjust_all-asking tools t cs config) refl

  aggregate_fair_value-asking :
      (t : TargetProperty D) (cs : List (AdjustedComparable D)) (b : Option (BaselineEvidence D))
      (config : ComparableConfig) (adjustment : AdjustmentConfig) (missing : ℕ)
      → aggregate_fair_value (asking t) cs b config adjustment missing
        ≡ aggregate_fair_value t cs b config adjustment missing
  unfolding aggregate_fair_value aggregated baseline_points baseline_value widened_low widened_high
  aggregate_fair_value-asking t cs none config adjustment missing = refl
  aggregate_fair_value-asking t cs (some b) config adjustment missing = refl

  -- At another asking price the same observations are selected, with the same fair value and the same interval,
  -- and an error is the same error.
  pub fair_value_of-asking :
      (uuid_text number_text : ℕ → String) (tools : TextTools) (config : ValuationConfig)
      (t : TargetProperty D) (candidates : List (ComparableRecord D))
      (b : Option (BaselineEvidence D)) (as_of : ℕ)
      → fair_value_of uuid_text number_text tools config (asking t) candidates b as_of
        ≡ fair_value_of uuid_text number_text tools config t candidates b as_of
  unfolding fair_value_of target_missing_attributes
  fair_value_of-asking uuid_text number_text tools config t candidates b as_of =
      rw
        (select_comparables-asking uuid_text number_text tools t candidates as_of
          config.comparables)
        (bind_cong
          (select_comparables uuid_text number_text tools t candidates as_of config.comparables) _ _
          (λ selection. rw (adjust_all-asking tools t selection.comparables config.adjustments) (
            bind_cong (adjust_all tools t selection.comparables config.adjustments) _ _ (λ adjusted.
              rw
                (aggregate_fair_value-asking t adjusted b config.comparables config.adjustments
                  (length (target_missing_attributes t)))
                refl))))
