-- ===== src/Valuation/Aggregation/Fair.antt =====
-- services/valuation/src/home_radar_valuation/aggregation.py: `aggregate_fair_value` as a whole.
use mathlib.Core.Path.{subst}
use shanghai_home_radar.Prelude.{
  ℕ, ◌<◌, ◌≡◌, refl, ap, ◌∙◌, pos, true, false, not, ◌&&◌, Option, none, some, List, [], ◌∷◌, ◌++◌,
  arith, All, Bool-cases, Option-cases, inl, inr, ok, is_empty, map, length, ltb_ℤ,
}
use shanghai_home_radar.Arithmetic.{
  Arithmetic, IsRounded, ◌≼◌, ◌⊕◌, lit, nought, sum_from, int, ◌⊘◌,
}
use shanghai_home_radar.Arithmetic.Sums.{IsNonneg}
use shanghai_home_radar.Valuation.Domain.{
  TargetProperty, AdjustedComparable, BaselineEvidence, FairValueAggregation,
}
use shanghai_home_radar.Valuation.Config.{ComparableConfig, AdjustmentConfig}
use shanghai_home_radar.Valuation.Config.Accepted.{accepts_comparables, comparable_ranges}
use shanghai_home_radar.Valuation.Aggregation.{
  total_weight, over_total, baseline_value, baseline_points, comparable_points,
  aggregate_fair_value,
}
use shanghai_home_radar.Valuation.Aggregation.Quantiles.{IsWeighted}
use shanghai_home_radar.Valuation.Aggregation.Evidence.{remove_outliers_did}
use shanghai_home_radar.Valuation.Aggregation.Interval.{
  IsInterval, from_points-IsInterval, over_total-IsWeighted, result_of, aggregate_fair_value_did,
}

-- What the ranges of the fields give.
pub accepted_counts :
    (c : ComparableConfig)
    → accepts_comparables c ≡ true
    → (0 < c.target_comparables)
      × (0 < c.outlier_minimum_samples)
      × (ltb_ℤ (pos 0) c.baseline_weight ≡ true)
unfolding accepts_comparables comparable_ranges
accepted_counts c h = ground (arith, h)

module _ {D : Type 0} ⦃a : Arithmetic D⦄ where
  abbrev pub IsPositive : D → Type 0
  IsPositive x = (x ≼ nought) ≡ false

  -- The weight of an observation counts, or at least does not count against it.
  abbrev pub Counts : AdjustedComparable D → Type 0
  Counts item = IsPositive item.selected.weight

  abbrev pub CountsNot : AdjustedComparable D → Type 0
  CountsNot item = IsNonneg item.selected.weight

  abbrev PositivePoint : D × D → Type 0
  PositivePoint p = IsPositive (p.1)

module _ {D : Type 0} ⦃a : Arithmetic D⦄ (r : IsRounded D) where
  positive-IsNonneg : (x : D) → IsPositive x → IsNonneg x
  positive-IsNonneg x h = r.total x nought h

  sum_from-IsPositive :
      (x : D) (ps : List (D × D))
      → IsPositive x
      → All PositivePoint ps
      → IsPositive (sum_from x (map (λ p. p.1) ps))
  unfolding sum_from
  sum_from-IsPositive x [] h k = h
  sum_from-IsPositive x (p ∷ ps) h k =
      sum_from-IsPositive (x ⊕ p.1) ps (grows x (p.1) h (positive-IsNonneg (p.1) (k.0))) (k.1)
    where
      grows : (x y : D) → IsPositive x → IsNonneg y → IsPositive (x ⊕ y)
      grows x y h k = elim (Bool-cases ((x ⊕ y) ≼ nought)) [
        | inr e ↦ e
        | inl e ↦ absurd (cc (h, r.trans x (x ⊕ y) nought (above x y k) e))
      ]
        where
          above : (x y : D) → IsNonneg y → (x ≼ (x ⊕ y)) ≡ true
          above x y k =
              subst (λ z. (z ≼ (x ⊕ y)) ≡ true) (r.nought-add x)
                (rw (r.add_comm x y) (r.add_mono nought y x k))

  total_weight-IsPositive :
      (ps : List (D × D))
      → is_empty ps ≡ false
      → All PositivePoint ps
      → IsPositive (total_weight ps)
  unfolding sum_from
  total_weight-IsPositive [] e h = cc e
  total_weight-IsPositive (p ∷ ps) e h =
      sum_from-IsPositive (nought ⊕ p.1) ps (rw (r.nought-add (p.1)) (h.0)) (h.1)

  comparable_points-All :
      (P : D → Type 0) (items : List (AdjustedComparable D))
      → All (λ item. P item.selected.weight) items
      → All (λ p. P (p.1)) (comparable_points items)
  comparable_points-All P [] h = tt
  comparable_points-All P (item ∷ items) h = (h.0, comparable_points-All P items (h.1))

  baseline_points-All :
      (P : D → Type 0) (target : TargetProperty D) (baseline : Option (BaselineEvidence D))
      (config : ComparableConfig)
      → P (lit config.baseline_weight)
      → All (λ p. P (p.1)) (baseline_points target baseline config)
  unfolding baseline_points
  baseline_points-All P target none config h = tt
  baseline_points-All P target (some b) config h = elim (Option-cases (baseline_value target b)) [
    | inl e ↦ rw (baseline_points, e) tt
    | inr (value, e) ↦ rw (baseline_points, e) (h, tt)
  ]

  All-append : (P : D × D → Type 0) (ps qs : List (D × D)) → All P ps → All P qs → All P (ps ++ qs)
  All-append P [] qs h k = k
  All-append P (p ∷ ps) qs h k = (h.0, All-append P ps qs (h.1) k)

  baseline_weight-IsPositive :
      (config : ComparableConfig)
      → ltb_ℤ (pos 0) config.baseline_weight ≡ true
      → IsPositive (a.lit config.baseline_weight)
  baseline_weight-IsPositive config h =
      rw (r.lit_leb config.baseline_weight (pos 0)) (ground (arith, h))

  is_empty-points :
      (items : List (AdjustedComparable D)) (extra : List (D × D))
      → is_empty (comparable_points items ++ extra) ≡ (is_empty items && is_empty extra)
  is_empty-points [] extra = refl
  is_empty-points (item ∷ items) extra = refl

  module _ (target : TargetProperty D) (comparables : List (AdjustedComparable D))
      (baseline : Option (BaselineEvidence D)) (config : ComparableConfig)
      (adjustment : AdjustmentConfig) (missing : ℕ)
      (accepted : accepts_comparables config ≡ true) where
    abbrev points_of : List (AdjustedComparable D) → List (D × D)
    points_of kept = comparable_points kept ++ baseline_points target baseline config

    result_of-IsInterval :
        (kept : List (AdjustedComparable D))
        → (total_weight (points_of kept) ≼ nought) ≡ false
        → All CountsNot kept
        → IsInterval target baseline
            (result_of r target comparables baseline config adjustment missing kept)
    result_of-IsInterval kept h k =
        let (t, m, w) = accepted_counts config accepted in
        let b =
          baseline_points-All IsNonneg target baseline config (
            positive-IsNonneg (lit config.baseline_weight) (baseline_weight-IsPositive config w)) in
        from_points-IsInterval r target baseline adjustment missing kept
          (not (is_empty (baseline_points target baseline config)))
          (int (length kept) ⊘ int config.target_comparables)
          (over_total (total_weight (points_of kept)) (points_of kept))
          (over_total-IsWeighted r (total_weight (points_of kept)) (points_of kept) h (
            All-append IsWeighted (comparable_points kept) (baseline_points target baseline config)
              (comparable_points-All IsNonneg kept k) b))

    -- If the configuration is accepted, every observation has a weight above 0 and there is an
    -- observation or a value of the baseline, then the aggregation returns: the fair value lies in its
    -- interval, and the interval reaches over the quartiles of the baseline.
    pub aggregate_fair_value-IsInterval :
        All Counts comparables
        → (is_empty comparables && is_empty (baseline_points target baseline config)) ≡ false
        → (v : FairValueAggregation D) × (aggregate_fair_value target comparables baseline config
              adjustment missing
            ≡ ok v)
          × IsInterval target baseline v
    aggregate_fair_value-IsInterval h some_point =
        let (t, m, w) = accepted_counts config accepted in
        let (kept, e, part) = remove_outliers_did comparables config m in
        let counts = part.taken Counts h in
        let b =
          baseline_points-All IsPositive target baseline config
            (baseline_weight-IsPositive config w) in
        let full =
          is_empty-points kept (baseline_points target baseline config)
          ∙ ap (λ x. x && is_empty (baseline_points target baseline config)) part.not_all
          ∙ some_point in
        let heavy = total_weight-IsPositive (points_of kept) full (
          All-append PositivePoint (comparable_points kept) (baseline_points target baseline config)
            (comparable_points-All IsPositive kept counts) b) in
        (
          result_of r target comparables baseline config adjustment missing kept,
          aggregate_fair_value_did r target comparables baseline config adjustment missing kept t e
              full heavy,
          result_of-IsInterval kept heavy (part.taken CountsNot (positive-all comparables h)),
        )
      where
        positive-all :
            (items : List (AdjustedComparable D)) → All Counts items → All CountsNot items
        positive-all [] h = tt
        positive-all (item ∷ items) h =
            (positive-IsNonneg item.selected.weight (h.0), positive-all items (h.1))
