-- ===== src/Valuation/Comparables/Chosen.antt =====
-- services/valuation/src/home_radar_valuation/comparables.py: what `select_comparables` chooses.
use mathlib.Core.List.{Mem}
use shanghai_home_radar.Prelude.{
  ℕ, ◌+◌, ◌≤◌, ◌≡◌, refl, Bool, true, false, not, List, [], ◌∷◌, String, arith, All, Bool-cases,
  OnOk, OnOk-then, OnOk-trivial, inl, inr, leb, length, take, select, count_if, length-take-le, ◌*◌,
  ◌<◌, ◌&&◌, pos, leb_ℤ, ltb_ℤ, map,
}
use shanghai_home_radar.Sorting.{sort_by}
use shanghai_home_radar.Sorting.Kept.{sort_by-All}
use shanghai_home_radar.Sorting.Counts.{
  count_if-select-le, count_if-take-le, count_if-map, count_if-sort_by, select-All, take-All,
  length-map,
}
use shanghai_home_radar.Keyed.Noted.{All-map}
use shanghai_home_radar.Arithmetic.{Arithmetic, IsRounded, ◌≼◌, ◌⊘◌, nought, sum, quantize}
use shanghai_home_radar.Arithmetic.Order.{div-nonneg, quantize-nonneg}
use shanghai_home_radar.Arithmetic.Sums.{IsNonneg}
use shanghai_home_radar.Valuation.Domain.{
  TargetProperty, ComparableRecord, SelectedComparable, ComparableSelection, TextTools,
}
use shanghai_home_radar.Valuation.Config.{ComparableConfig}
use shanghai_home_radar.Valuation.Config.Accepted.{accepts_comparables}
use shanghai_home_radar.Market.Windows.{day}
use shanghai_home_radar.Valuation.Comparables.{days_from}
use shanghai_home_radar.Valuation.Comparables.Weights.{IsNatural}
use shanghai_home_radar.Valuation.Comparables.Pool.{
  has_key, chosen_key, latest-once, latest-taken, Scored, scored_lem, join_tiers-All,
  join_tiers-count, in_three_tiers,
}
use shanghai_home_radar.Valuation.Comparables.Selection.{
  same_listing, latest_comparables, may_compare, scored, select_tiers, widen, normalize_weights,
  by_raw_weight, last_of, first_of, select_comparables,
}

module _ {D : Type 0} ⦃a : Arithmetic D⦄ where
  -- Seen in the days up to the instant, and not after it.
  abbrev pub IsFresh : ℕ → ℕ → ComparableRecord D → Type 0
  IsFresh as_of window_days c =
      (c.observed_at ≤ as_of) × (as_of < c.observed_at + window_days * day)

  -- No more than the maximum, all from the candidates in the window that are not the target, at most one of
  -- each entity, with weights that are not negative.
  pub record IsChosen (uuid_text : ℕ → String) (target : TargetProperty D)
      (candidates : List (ComparableRecord D)) (as_of : ℕ) (config : ComparableConfig)
      (s : ComparableSelection D) : Type 0 where
    pub few : length s.comparables ≤ config.maximum_comparables
    pub other :
        All (λ c. same_listing c.record_of.listing_id target.listing_id ≡ false) s.comparables
    pub fresh : All (λ c. IsFresh as_of s.window_days c.record_of) s.comparables
    pub taken : All (λ c. Mem c.record_of candidates) s.comparables
    pub weighted : All (λ c. IsNonneg c.weight) s.comparables
    pub once : (k : String) → count_if (chosen_key uuid_text k) s.comparables ≤ 1

module _ {D : Type 0} ⦃a : Arithmetic D⦄ (r : IsRounded D) (uuid_text : ℕ → String) where
  -- The comparables of a window, not yet cut to the maximum.
  record IsPool (P : ComparableRecord D → Type 0) (target : TargetProperty D)
      (records : List (ComparableRecord D)) (as_of : ℕ) (final : List (SelectedComparable D) × ℕ)
      : Type 0 where
    pub members :
        All
          (λ s.
            IsNonneg s.raw_weight
            × ((may_compare target as_of (final.1) s.record_of ≡ true) × P s.record_of))
          (final.0)
    pub once :
        (k : String)
        → count_if (chosen_key uuid_text k) (final.0) ≤ count_if (has_key uuid_text k) records

  empty-IsPool :
      (P : ComparableRecord D → Type 0) (target : TargetProperty D)
      (records : List (ComparableRecord D)) (as_of widest : ℕ)
      → IsPool P target records as_of ([], widest)
  empty-IsPool P target records as_of widest = record { members = tt; once = λ k. omega arith }

  module _ (tools : TextTools) (target : TargetProperty D) (as_of : ℕ) (config : ComparableConfig)
      (accepted : accepts_comparables config ≡ true) (natural : IsNatural config.tier_multipliers)
      (P : ComparableRecord D → Type 0) (records : List (ComparableRecord D))
      (inside : All P records) where
    select_tiers-IsPool :
        (window : ℕ)
        → OnOk
            (λ out. IsPool P target records as_of (out, window))
            (select_tiers tools target
              (select (may_compare target as_of window) records)
              as_of
              window
              config)
    unfolding select_tiers
    select_tiers-IsPool window =
        let eligible = select (may_compare target as_of window) records in
        let Q = λ (c : ComparableRecord D). (may_compare target as_of window c ≡ true) × P c in
        OnOk-then (Scored r uuid_text Q eligible) _
          (scored tools target eligible as_of window config) _
          (scored_lem r uuid_text tools target as_of config accepted natural Q eligible window
            (select-All P (may_compare target as_of window) records inside))
          (λ all k. record {
            members =
                join_tiers-All r uuid_text (λ s. IsNonneg s.raw_weight × Q s.record_of)
                  config.minimum_comparables all ("tier_1" ∷ "tier_2" ∷ "tier_3" ∷ []) [] (k.0) tt;
            once = λ key. omega (
              arith,
              join_tiers-count r uuid_text (chosen_key uuid_text key) config.minimum_comparables all
                  ("tier_1" ∷ "tier_2" ∷ "tier_3" ∷ []) [],
              in_three_tiers r uuid_text (chosen_key uuid_text key) all,
              k.1 key,
              count_if-select-le (has_key uuid_text key) (may_compare target as_of window) records,
            );
          })

    widen-IsPool :
        (windows : List ℕ) (final : List (SelectedComparable D) × ℕ)
        → IsPool P target records as_of final
        → OnOk
            (IsPool P target records as_of)
            (widen tools target records as_of config windows final)
    unfolding widen
    widen-IsPool [] final h = h
    widen-IsPool (window ∷ windows) final h =
        OnOk-then (λ out. IsPool P target records as_of (out, window)) _
          (select_tiers tools target (select (may_compare target as_of window) records) as_of window
            config)
          _ (select_tiers-IsPool window)
          (λ out k. elim (Bool-cases (leb config.minimum_comparables (length out))) [
            | inl e ↦ rw e k
            | inr e ↦ rw e (widen-IsPool windows (out, window) k)
          ])

  normalize_weights-All :
      (P : SelectedComparable D → Type 0) (Q : SelectedComparable D → Type 0)
      (kept : List (SelectedComparable D))
      → ((s : SelectedComparable D) (w : D) → P s → IsNonneg w → Q (record s { weight = w }))
      → ((s : SelectedComparable D) → P s → IsNonneg s.raw_weight)
      → All P kept
      → All Q (normalize_weights kept)
  unfolding normalize_weights
  normalize_weights-All P Q kept f g h =
      let total = sum (map (λ (s : SelectedComparable D). s.raw_weight) kept) in
      elim (Bool-cases (total ≼ nought)) [ inl e ↦ rw e tt | inr e ↦ rw e (each total e kept h) ]
    where
      each :
          (total : D)
          → (total ≼ nought) ≡ false
          → (l : List (SelectedComparable D)) → All P l
          → All Q (
              map
                (λ (s : SelectedComparable D). record s {
                  weight = quantize 6 (s.raw_weight ⊘ total);
                })
                l)
      each total e [] h = tt
      each total e (s ∷ l) h = (
        f s (quantize 6 (s.raw_weight ⊘ total)) (h.0) (
            quantize-nonneg r 6 (s.raw_weight ⊘ total) (omega arith)
              (div-nonneg r s.raw_weight total (g s (h.0)) e)),
        each total e l (h.1),
      )

  normalize_weights-le :
      (p : SelectedComparable D → Bool) (kept : List (SelectedComparable D))
      → ((s : SelectedComparable D) (w : D) → p (record s { weight = w }) ≡ p s)
      → count_if p (normalize_weights kept) ≤ count_if p kept
  unfolding normalize_weights
  normalize_weights-le p kept f =
      let total = sum (map (λ (s : SelectedComparable D). s.raw_weight) kept) in
      elim (Bool-cases (total ≼ nought)) [
        | inl e ↦ rw e (omega arith)
        | inr e ↦ rw e (
            omega (
              arith,
              count_if-map p
                  (λ (s : SelectedComparable D). record s {
                    weight = quantize 6 (s.raw_weight ⊘ total);
                  })
                  kept (λ s. f s (quantize 6 (s.raw_weight ⊘ total))),
            ))
      ]

  and_both : (x y : Bool) → (x && y) ≡ true → (x ≡ true) × (y ≡ true)
  and_both x y h = ground (arith, h)

  days_fresh :
      (seen now window : ℕ)
      → (leb_ℤ (pos 0) (days_from seen now) && ltb_ℤ (days_from seen now) (pos window)) ≡ true
      → (seen ≤ now) × (now < seen + window * day)
  days_fresh seen now window h = elim (Bool-cases (leb seen now)) [
    | inl e ↦ ground (arith, e, h)
    | inr e ↦ ground (arith, e, h)
  ]

  length-normalize_weights :
      (kept : List (SelectedComparable D)) → length (normalize_weights kept) ≤ length kept
  unfolding normalize_weights
  length-normalize_weights kept =
      let total = sum (map (λ (s : SelectedComparable D). s.raw_weight) kept) in
      elim (Bool-cases (total ≼ nought)) [
        | inl e ↦ rw e (omega arith)
        | inr e ↦ rw e (
            omega (
              arith,
              length-map
                  (λ (s : SelectedComparable D). record s {
                    weight = quantize 6 (s.raw_weight ⊘ total);
                  })
                  kept,
            ))
      ]

  module _ (number_text : ℕ → String) (tools : TextTools) (target : TargetProperty D)
      (candidates : List (ComparableRecord D)) (as_of : ℕ) (config : ComparableConfig)
      (accepted : accepts_comparables config ≡ true)
      (natural : IsNatural config.tier_multipliers) where
    chosen_of : List (SelectedComparable D) → List (SelectedComparable D)
    chosen_of found =
        normalize_weights (take config.maximum_comparables (sort_by by_raw_weight found))

    chosen_of-All :
        (P : ComparableRecord D → Type 0) (found : List (SelectedComparable D))
        → All (λ s. IsNonneg s.raw_weight × P s.record_of) found
        → All (λ s. IsNonneg s.weight × P s.record_of) (chosen_of found)
    unfolding chosen_of
    chosen_of-All P found h =
        let Q = λ (s : SelectedComparable D). IsNonneg s.raw_weight × P s.record_of in
        let kept = take config.maximum_comparables (sort_by by_raw_weight found) in
        normalize_weights-All Q (λ s. IsNonneg s.weight × P s.record_of) kept (λ s w q n. (n, q.1))
          (λ s q. q.0)
          (take-All Q config.maximum_comparables (sort_by by_raw_weight found)
            (sort_by-All by_raw_weight Q found h))

    chosen_of-once :
        (k : String) (found : List (SelectedComparable D))
        → count_if (chosen_key uuid_text k) (chosen_of found)
          ≤ count_if (chosen_key uuid_text k) found
    unfolding chosen_of
    chosen_of-once k found =
        let p = λ (s : SelectedComparable D). chosen_key uuid_text k s in
        let ordered = sort_by by_raw_weight found in
        omega (
          arith,
          normalize_weights-le p (take config.maximum_comparables ordered) (λ s w. refl),
          count_if-take-le p config.maximum_comparables ordered,
          count_if-sort_by by_raw_weight p found,
        )

    chosen_of-few :
        (found : List (SelectedComparable D))
        → length (chosen_of found) ≤ config.maximum_comparables
    unfolding chosen_of
    chosen_of-few found = omega (
      arith,
      length-normalize_weights (take config.maximum_comparables (sort_by by_raw_weight found)),
      length-take-le config.maximum_comparables (sort_by by_raw_weight found),
    )

    may_compare-apart :
        (window : ℕ) (c : ComparableRecord D)
        → may_compare target as_of window c ≡ true
        → (same_listing c.listing_id target.listing_id ≡ false) × IsFresh as_of window c
    unfolding may_compare
    may_compare-apart window c h =
        let (dated, other) = and_both _ (not (same_listing c.listing_id target.listing_id)) h in
        (ground (arith, other), days_fresh c.observed_at as_of window dated)

    -- A selection that is returned has no more comparables than the configuration allows, all of them
    -- candidates in its window that are not the target, at most one of each entity, and no weight
    -- is negative.
    pub select_comparables-IsChosen :
        OnOk
          (IsChosen uuid_text target candidates as_of config)
          (select_comparables uuid_text number_text tools target candidates as_of config)
    unfolding select_comparables chosen_of
    select_comparables-IsChosen =
        let records = latest_comparables uuid_text candidates in
        let P = λ (c : ComparableRecord D). Mem c candidates in
        OnOk-then (λ _. Unit {0}) _ (last_of config.windows_days) _
          (OnOk-trivial (last_of config.windows_days))
          (λ widest _.
            OnOk-then (IsPool P target records as_of) _
              (widen tools target records as_of config config.windows_days ([], widest)) _
              (widen-IsPool tools target as_of config accepted natural P records
                (latest-taken r uuid_text candidates) config.windows_days ([], widest)
                (empty-IsPool P target records as_of widest))
              (λ found pool.
                OnOk-then (λ _. Unit {0}) _ (first_of config.windows_days) _
                  (OnOk-trivial (first_of config.windows_days))
                  (λ narrowest _.
                    let all =
                      chosen_of-All (λ c. (may_compare target as_of (found.1) c ≡ true) × P c)
                        (found.0) pool.members in
                    record {
                      few = chosen_of-few (found.0);
                      other =
                          All-map (λ s q. (may_compare-apart (found.1) s.record_of ((q.1).0)).0)
                            (chosen_of (found.0)) all;
                      fresh =
                          All-map (λ s q. (may_compare-apart (found.1) s.record_of ((q.1).0)).1)
                            (chosen_of (found.0)) all;
                      taken = All-map (λ s q. (q.1).1) (chosen_of (found.0)) all;
                      weighted = All-map (λ s q. q.0) (chosen_of (found.0)) all;
                      once = λ k. omega (
                        arith,
                        chosen_of-once k (found.0),
                        pool.once k,
                        latest-once r uuid_text k candidates,
                      );
                    })))
