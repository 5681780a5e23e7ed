-- ===== src/Valuation/Aggregation/Interval.antt =====
-- services/valuation/src/home_radar_valuation/aggregation.py: the interval of `aggregate_fair_value`.
use shanghai_home_radar.Prelude.{
  ℕ, ◌<◌, ◌≡◌, refl, pos, Bool, true, false, not, Option, none, some, List, [], ◌∷◌, ◌++◌, arith,
  All, Option-cases, if◌then◌else◌, inl, inr, ok, is_empty, length, whole,
}
use shanghai_home_radar.Arithmetic.{
  Arithmetic, IsRounded, ◌≼◌, ◌≺◌, ◌⊗◌, ◌⊘◌, ◌⊖◌, ◌⊕◌, lit, int, nought, one, quantize, least,
  greatest,
}
use shanghai_home_radar.Arithmetic.Order.{
  ≼_refl, least-le_left, least-le_right, greatest-ge_left, greatest-ge_right, div-nonneg,
}
use shanghai_home_radar.Valuation.Domain.{
  TargetProperty, AdjustedComparable, BaselineEvidence, FairValueAggregation,
}
use shanghai_home_radar.Valuation.Config.{ComparableConfig, AdjustmentConfig}
use shanghai_home_radar.Valuation.Aggregation.{
  divide, total_weight, over_total, normalized_points, baseline_points, comparable_points,
  widened_low, widened_high, uncertainty, aggregated, aggregate_fair_value, remove_outliers,
}
use shanghai_home_radar.Valuation.Aggregation.Quantiles.{
  IsWeighted, value_at, value_at_mono, weighted_quantile_did,
}

module _ {D : Type 0} ⦃a : Arithmetic D⦄ where
  -- The interval reaches from at most a baseline's lower quartile to at least its upper one.
  abbrev pub CoversLow : TargetProperty D → Option D → D → Type 0
  CoversLow target none low = Unit
  CoversLow target (some unit) low = (low ≼ quantize 2 (unit ⊗ target.area_sqm)) ≡ true

  abbrev pub CoversHigh : TargetProperty D → Option D → D → Type 0
  CoversHigh target none high = Unit
  CoversHigh target (some unit) high = (quantize 2 (unit ⊗ target.area_sqm) ≼ high) ≡ true

  abbrev pub CoversBaseline :
      TargetProperty D → Option (BaselineEvidence D) → FairValueAggregation D → Type 0
  CoversBaseline target none v = Unit
  CoversBaseline target (some b) v =
      CoversLow target (b.unit_price_p25) (v.fair_value_low)
      × CoversHigh target (b.unit_price_p75) (v.fair_value_high)

  -- The value lies in its interval, which covers the baseline's.
  pub record IsInterval (target : TargetProperty D) (baseline : Option (BaselineEvidence D))
      (v : FairValueAggregation D) : Type 0 where
    pub low_le : (v.fair_value_low ≼ v.fair_value) ≡ true
    pub high_ge : (v.fair_value ≼ v.fair_value_high) ≡ true
    pub covers : CoversBaseline target baseline v

  -- What the last lines make of the normalised points.
  abbrev pub from_points :
      TargetProperty D
      → Option (BaselineEvidence D)
      → AdjustmentConfig
      → ℕ
      → List (AdjustedComparable D)
      → Bool
      → D
      → List (D × D)
      → FairValueAggregation D
  from_points target baseline config missing kept included filled points =
      let p25 = value_at points (lit (pos 250000)) in
      let p75 = value_at points (lit (pos 750000)) in
      let central = value_at points (lit (pos 500000)) in
      let dispersion = if nought ≺ central then (p75 ⊖ p25) ⊘ central else one in
      let rate = uncertainty config dispersion (least one filled) missing in
      aggregated target baseline p25 central p75 dispersion
        (least rate (lit config.maximum_interval_rate)) kept included

module _ {D : Type 0} ⦃a : Arithmetic D⦄ (r : IsRounded D) where
  widened_low-le :
      (target : TargetProperty D) (baseline : Option (BaselineEvidence D)) (low : D)
      → (widened_low target baseline low ≼ low) ≡ true
  unfolding widened_low
  widened_low-le target none low = ≼_refl r low
  widened_low-le target (some b) low = elim (Option-cases b.unit_price_p25) [
    | inl e ↦ rw e (≼_refl r low)
    | inr (unit, e) ↦ rw e (least-le_left r low (unit ⊗ target.area_sqm))
  ]

  widened_high-ge :
      (target : TargetProperty D) (baseline : Option (BaselineEvidence D)) (high : D)
      → (high ≼ widened_high target baseline high) ≡ true
  unfolding widened_high
  widened_high-ge target none high = ≼_refl r high
  widened_high-ge target (some b) high = elim (Option-cases b.unit_price_p75) [
    | inl e ↦ rw e (≼_refl r high)
    | inr (unit, e) ↦ rw e (greatest-ge_left r high (unit ⊗ target.area_sqm))
  ]

  widened_low-covers :
      (target : TargetProperty D) (b : BaselineEvidence D) (low : D)
      → CoversLow target (b.unit_price_p25) (quantize 2 (widened_low target (some b) low))
  unfolding widened_low
  widened_low-covers target b low = elim (Option-cases b.unit_price_p25) [
    | inl e ↦ rw e tt
    | inr (unit, e) ↦ rw e (
        r.quantize_mono 2 _ (unit ⊗ target.area_sqm)
          (least-le_right r low (unit ⊗ target.area_sqm)))
  ]

  widened_high-covers :
      (target : TargetProperty D) (b : BaselineEvidence D) (high : D)
      → CoversHigh target (b.unit_price_p75) (quantize 2 (widened_high target (some b) high))
  unfolding widened_high
  widened_high-covers target b high = elim (Option-cases b.unit_price_p75) [
    | inl e ↦ rw e tt
    | inr (unit, e) ↦ rw e (
        r.quantize_mono 2 (unit ⊗ target.area_sqm) _
          (greatest-ge_right r high (unit ⊗ target.area_sqm)))
  ]

  covers_of :
      (target : TargetProperty D) (baseline : Option (BaselineEvidence D))
      (p25 central p75 dispersion rate : D) (kept : List (AdjustedComparable D)) (included : Bool)
      → CoversBaseline target baseline
          (aggregated target baseline p25 central p75 dispersion rate kept included)
  unfolding aggregated
  covers_of target none p25 central p75 dispersion rate kept included = tt
  covers_of target (some b) p25 central p75 dispersion rate kept included = (
    widened_low-covers target b (least p25 (central ⊗ (one ⊖ rate))),
    widened_high-covers target b (greatest p75 (central ⊗ (one ⊕ rate))),
  )

  -- The shape of the result is enough, with the quartiles about the centre.
  aggregated-IsInterval :
      (target : TargetProperty D) (baseline : Option (BaselineEvidence D))
      (p25 central p75 dispersion rate : D) (kept : List (AdjustedComparable D)) (included : Bool)
      → (p25 ≼ central) ≡ true
      → (central ≼ p75) ≡ true
      → IsInterval target baseline
          (aggregated target baseline p25 central p75 dispersion rate kept included)
  unfolding aggregated
  aggregated-IsInterval target baseline p25 central p75 dispersion rate kept included h k =
      let low = least p25 (central ⊗ (one ⊖ rate)) in
      let high = greatest p75 (central ⊗ (one ⊕ rate)) in
      record {
        low_le = r.quantize_mono 2 (widened_low target baseline low) central (
            r.trans _ low central (widened_low-le target baseline low)
              (r.trans low p25 central (least-le_left r p25 (central ⊗ (one ⊖ rate))) h));
        high_ge = r.quantize_mono 2 central (widened_high target baseline high) (
            r.trans central high _
              (r.trans central p75 high k (greatest-ge_left r p75 (central ⊗ (one ⊕ rate))))
              (widened_high-ge target baseline high));
        covers = covers_of target baseline p25 central p75 dispersion rate kept included;
      }

  pub over_total-IsWeighted :
      (total : D) (points : List (D × D))
      → (total ≼ nought) ≡ false
      → All IsWeighted points
      → All IsWeighted (over_total total points)
  over_total-IsWeighted total [] h k = tt
  over_total-IsWeighted total (p ∷ points) h k =
      (div-nonneg r (p.1) total (k.0) h, over_total-IsWeighted total points h (k.1))

  pub from_points-IsInterval :
      (target : TargetProperty D) (baseline : Option (BaselineEvidence D))
      (config : AdjustmentConfig) (missing : ℕ) (kept : List (AdjustedComparable D))
      (included : Bool) (filled : D) (points : List (D × D))
      → All IsWeighted points
      → IsInterval target baseline
          (from_points target baseline config missing kept included filled points)
  from_points-IsInterval target baseline config missing kept included filled points h =
      aggregated-IsInterval target baseline _ _ _ _ _ kept included
        (value_at_mono r (lit (pos 250000)) (lit (pos 500000)) points
          (r.lit_leb (pos 250000) (pos 500000)) h)
        (value_at_mono r (lit (pos 500000)) (lit (pos 750000)) points
          (r.lit_leb (pos 500000) (pos 750000)) h)

  normalized_points_did :
      (points : List (D × D))
      → (total_weight points ≼ nought) ≡ false
      → normalized_points points ≡ ok (over_total (total_weight points) points)
  unfolding normalized_points
  normalized_points_did points h = rw h refl

  is_empty-over_total :
      (total : D) (points : List (D × D))
      → is_empty points ≡ false
      → is_empty (over_total total points) ≡ false
  is_empty-over_total total [] h = h
  is_empty-over_total total (p ∷ points) h = refl

  pub divide_did : (x : D) (n : ℕ) → 0 < n → divide x (int n) ≡ ok (x ⊘ int n)
  unfolding divide
  divide_did x n h = rw (r.lit_leb (whole n) (pos 0)) (ground (arith, h))

  module _ (target : TargetProperty D) (comparables : List (AdjustedComparable D))
      (baseline : Option (BaselineEvidence D)) (config : ComparableConfig)
      (adjustment : AdjustmentConfig) (missing : ℕ) where
    abbrev pub result_of : List (AdjustedComparable D) → FairValueAggregation D
    result_of kept =
        let extra = baseline_points target baseline config in
        let points = comparable_points kept ++ extra in
        from_points target baseline adjustment missing kept (not (is_empty extra))
          (int (length kept) ⊘ int config.target_comparables)
          (over_total (total_weight points) points)

    pub aggregate_fair_value_did :
        (kept : List (AdjustedComparable D))
        → 0 < config.target_comparables
        → remove_outliers comparables config ≡ ok kept
        → is_empty (comparable_points kept ++ baseline_points target baseline config) ≡ false
        → (total_weight (comparable_points kept ++ baseline_points target baseline config) ≼ nought)
          ≡ false
        → aggregate_fair_value target comparables baseline config adjustment missing
          ≡ ok (result_of kept)
    unfolding aggregate_fair_value
    aggregate_fair_value_did kept t e f g =
        let points = comparable_points kept ++ baseline_points target baseline config in
        let normalized = over_total (total_weight points) points in
        let full = is_empty-over_total (total_weight points) points f in
        rw
          (
            e,
            f,
            normalized_points_did points g,
            weighted_quantile_did r normalized (lit (pos 500000)) full,
            weighted_quantile_did r normalized (lit (pos 250000)) full,
            weighted_quantile_did r normalized (lit (pos 750000)) full,
            divide_did (int (length kept)) config.target_comparables t,
          )
          refl
