-- ===== src/Valuation/Aggregation/Evidence.antt =====
-- services/valuation/src/home_radar_valuation/aggregation.py: what `_remove_outliers` keeps, and that
-- it returns.
use mathlib.Core.Path.{subst}
use shanghai_home_radar.Prelude.{
  ℕ, zero, suc, ◌-◌, ◌/◌, ◌%◌, ◌<◌, ◌≡◌, refl, ◌∙◌, Bool, false, not, List, [], ◌∷◌, arith, All,
  All-select, Bool-cases, List-cases, inl, inr, ok, length, select, is_empty, map, ltb, ◌==◌,
}
use shanghai_home_radar.Sorting.{sort_by}
use shanghai_home_radar.Sorting.Laws.{length-sort_by}
use shanghai_home_radar.Sorting.Counts.{length-map}
use shanghai_home_radar.Arithmetic.{Arithmetic, ◌≼◌, ◌≈◌, ◌⊖◌, ◌⊕◌, ◌⊘◌, int, nought}
use shanghai_home_radar.Valuation.Domain.{AdjustedComparable}
use shanghai_home_radar.Valuation.Config.{ComparableConfig}
use shanghai_home_radar.Valuation.Aggregation.{
  element, median, or_all, at_price, is_close, retain, remove_outliers,
}

element_did {ℓ} :
    {A : Type ℓ} (xs : List A) (n : ℕ) → n < length xs → (x : A) × (element xs n ≡ ok x)
element_did [] n h = absurd (omega (arith, h))
element_did (x ∷ xs) zero h = (x, refl)
element_did (x ∷ xs) (suc n) h = element_did xs n (omega (arith, h))

-- Some observations that were not all dropped.
pub record IsPart {D : Type 0} (comparables kept : List (AdjustedComparable D)) : Type 1 where
  pub taken : (P : AdjustedComparable D → Type 0) → All P comparables → All P kept
  pub not_all : is_empty kept ≡ is_empty comparables

module _ {D : Type 0} ⦃a : Arithmetic D⦄ where
  median_did : (values : List D) → 0 < length values → (m : D) × (median values ≡ ok m)
  unfolding median
  median_did values h =
      let n = length values in
      elim (Bool-cases (n % 2 == 0)) [
        | inr odd ↦
            let (x, e) = element_did values (n / 2) (omega (arith, h)) in (x, rw (odd, e) refl)
        | inl even ↦
            let (x, e) = element_did values (n / 2 - 1) (omega (arith, h)) in
            let (y, f) = element_did values (n / 2) (omega (arith, h)) in
            ((x ⊕ y) ⊘ int 2, rw (even, e, f) refl)
      ]

  IsPart-refl : (comparables : List (AdjustedComparable D)) → IsPart comparables comparables
  IsPart-refl comparables = record { taken = λ P h. h; not_all = refl }

  or_all-IsPart :
      (p : AdjustedComparable D → Bool) (comparables : List (AdjustedComparable D))
      → IsPart comparables (or_all (select p comparables) comparables)
  or_all-IsPart p comparables = elim (List-cases (select p comparables)) [
    | inl e ↦ rw e (IsPart-refl comparables)
    | inr (x, xs, e) ↦ record {
      taken = λ P h. rw e (subst (All P) e (All-select P p comparables h));
      not_all = rw e (full comparables e);
    }
  ]
    where
      full :
          {x : AdjustedComparable D} {xs : List (AdjustedComparable D)}
          (l : List (AdjustedComparable D))
          → select p l ≡ x ∷ xs
          → false ≡ is_empty l
      full [] e = cc e
      full (y ∷ ys) e = refl

  retain-IsPart :
      (config : ComparableConfig) (centre mad : D) (comparables : List (AdjustedComparable D))
      → IsPart comparables (retain config centre mad comparables)
  unfolding retain
  retain-IsPart config centre mad comparables = elim (Bool-cases (mad ≈ nought)) [
    | inr e ↦ rw e (or_all-IsPart (is_close config centre mad) comparables)
    | inl e ↦
        elim (Bool-cases (is_empty (select (λ item. not (at_price centre item)) comparables))) [
          | inl f ↦ rw (e, f) (IsPart-refl comparables)
          | inr f ↦ rw (e, f) (or_all-IsPart (at_price centre) comparables)
        ]
  ]

  -- Where some sample is asked for before anything is dropped, `_remove_outliers` returns, and keeps
  -- some of the observations.
  pub remove_outliers_did :
      (comparables : List (AdjustedComparable D)) (config : ComparableConfig)
      → 0 < config.outlier_minimum_samples
      → (kept : List (AdjustedComparable D)) × (remove_outliers comparables config ≡ ok kept)
        × IsPart comparables kept
  unfolding remove_outliers
  remove_outliers_did comparables config h =
      elim (Bool-cases (ltb (length comparables) config.outlier_minimum_samples)) [
        | inl few ↦ (comparables, rw few refl, IsPart-refl comparables)
        | inr enough ↦
            let prices =
              map (λ (item : AdjustedComparable D). item.adjusted_unit_price) comparables in
            let values = sort_by (λ (x y : D). x ≼ y) prices in
            let same =
              length-sort_by (λ (x y : D). x ≼ y) prices
              ∙ length-map (λ (item : AdjustedComparable D). item.adjusted_unit_price)
                  comparables in
            let (centre, e) = median_did values (ground (arith, same, enough, h)) in
            let gaps = map (λ value. a.absolute (value ⊖ centre)) values in
            let (mad, f) = median_did (sort_by (λ (x y : D). x ≼ y) gaps) (
              ground (
                arith,
                length-sort_by (λ (x y : D). x ≼ y) gaps,
                length-map (λ value. a.absolute (value ⊖ centre)) values,
                same,
                enough,
                h,
              )) in
            (
              retain config centre mad comparables,
              rw (enough, e, f) refl,
              retain-IsPart config centre mad comparables,
            )
      ]
