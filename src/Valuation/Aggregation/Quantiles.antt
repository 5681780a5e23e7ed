-- ===== src/Valuation/Aggregation/Quantiles.antt =====
-- services/valuation/src/home_radar_valuation/aggregation.py: `weighted_quantile` grows with the
-- quantile where no weight is negative.
use shanghai_home_radar.Prelude.{
  ◌≡◌, refl, true, false, List, [], ◌∷◌, All, Bool-cases, inl, inr, ok, map, List-cases, is_empty,
}
use shanghai_home_radar.Sorting.{sort_by}
use shanghai_home_radar.Sorting.Laws.{IsTotal, IsBelow, IsSorted, sort_by-IsSorted}
use shanghai_home_radar.Sorting.Kept.{sort_by-All, sort_by-not_empty}
use shanghai_home_radar.Arithmetic.{Arithmetic, IsRounded, ◌≼◌, ◌⊗◌, ◌⊕◌, nought}
use shanghai_home_radar.Arithmetic.Order.{≼_refl}
use shanghai_home_radar.Arithmetic.Sums.{IsNonneg, sum-IsNonneg}
use shanghai_home_radar.Valuation.Aggregation.{by_value, reached, total_weight, weighted_quantile}

module _ {D : Type 0} ⦃a : Arithmetic D⦄ where
  abbrev pub IsWeighted : D × D → Type 0
  IsWeighted p = IsNonneg (p.1)

  -- The value that the quantile of some points has.
  abbrev pub value_from : D → List (D × D) → D
  value_from q [] = nought
  value_from q (p ∷ rest) = reached (q ⊗ total_weight (p ∷ rest)) nought (p.0) (p ∷ rest)

  abbrev pub value_at : List (D × D) → D → D
  value_at points q = value_from q (sort_by by_value points)

module _ {D : Type 0} ⦃a : Arithmetic D⦄ (r : IsRounded D) where
  by_value-IsTotal : IsTotal (by_value {D = D})
  by_value-IsTotal = record {
    total = λ p q. r.total (p.0) (q.0);
    trans = λ p q s. r.trans (p.0) (q.0) (s.0);
  }

  reached-ge :
      (v t c last : D) (w : D) (ps : List (D × D))
      → (v ≼ last) ≡ true
      → IsBelow by_value (v, w) ps
      → (v ≼ reached t c last ps) ≡ true
  unfolding reached
  reached-ge v t c last w [] h b = h
  reached-ge v t c last w ((value, weight) ∷ rest) h b = elim (Bool-cases (t ≼ (c ⊕ weight))) [
    | inl e ↦ rw e (b.0)
    | inr e ↦ rw e (reached-ge v t (c ⊕ weight) value w rest (b.0) (b.1))
  ]

  reached_mono :
      (s t c last : D) (ps : List (D × D))
      → (s ≼ t) ≡ true
      → IsSorted by_value ps
      → (reached s c last ps ≼ reached t c last ps) ≡ true
  unfolding reached
  reached_mono s t c last [] h o = ≼_refl r last
  reached_mono s t c last ((value, weight) ∷ rest) h o = elim (Bool-cases (s ≼ (c ⊕ weight))) [
    | inl e ↦ elim (Bool-cases (t ≼ (c ⊕ weight))) [
      | inl f ↦ rw (e, f) (≼_refl r value)
      | inr f ↦ rw (e, f) (reached-ge value t (c ⊕ weight) value weight rest (≼_refl r value) (o.0))
    ]
    | inr e ↦ elim (Bool-cases (t ≼ (c ⊕ weight))) [
      | inl f ↦ absurd (cc (e, r.trans s t (c ⊕ weight) h f))
      | inr f ↦ rw (e, f) (reached_mono s t (c ⊕ weight) value rest h (o.1))
    ]
  ]

  weights_of-IsNonneg : (ps : List (D × D)) → All IsWeighted ps → All IsNonneg (map (λ p. p.1) ps)
  weights_of-IsNonneg [] h = tt
  weights_of-IsNonneg (p ∷ ps) h = (h.0, weights_of-IsNonneg ps (h.1))

  pub total_weight-IsNonneg : (ps : List (D × D)) → All IsWeighted ps → IsNonneg (total_weight ps)
  total_weight-IsNonneg ps h = sum-IsNonneg r (map (λ p. p.1) ps) (weights_of-IsNonneg ps h)

  value_from_mono :
      (s t : D) (ps : List (D × D))
      → (s ≼ t) ≡ true
      → All IsWeighted ps
      → IsSorted by_value ps
      → (value_from s ps ≼ value_from t ps) ≡ true
  value_from_mono s t [] h w o = ≼_refl r nought
  value_from_mono s t (p ∷ rest) h w o =
      let total = total_weight (p ∷ rest) in
      reached_mono (s ⊗ total) (t ⊗ total) nought (p.0) (p ∷ rest)
        (r.mul_mono s t total h (total_weight-IsNonneg (p ∷ rest) w)) o

  pub value_at_mono :
      (s t : D) (ps : List (D × D))
      → (s ≼ t) ≡ true
      → All IsWeighted ps
      → (value_at ps s ≼ value_at ps t) ≡ true
  value_at_mono s t ps h w =
      value_from_mono s t (sort_by by_value ps) h (sort_by-All by_value IsWeighted ps w)
        (sort_by-IsSorted by_value by_value-IsTotal ps)

  pub weighted_quantile_did :
      (ps : List (D × D)) (q : D)
      → is_empty ps ≡ false
      → weighted_quantile ps q ≡ ok (value_at ps q)
  unfolding weighted_quantile
  weighted_quantile_did ps q h = elim (List-cases (sort_by by_value ps)) [
    | inl e ↦ absurd (sort_by-not_empty by_value ps h e)
    | inr (p, rest, e) ↦ rw (weighted_quantile, e) refl
  ]
