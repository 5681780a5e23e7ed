-- ===== src/Valuation/Comparables/Pool.antt =====
-- services/valuation/src/home_radar_valuation/comparables.py: what becomes of the records of a window,
-- and how often an entity occurs.
use mathlib.Core.List.{Mem}
use mathlib.Core.Path.{subst}
use shanghai_home_radar.Prelude.{
  ℕ, ◌+◌, ◌≤◌, ◌≡◌, refl, sym, ap, ◌∙◌, Bool, true, false, Option, none, some, List, [], ◌∷◌, ◌++◌,
  String, arith, eq_iff, All, Bool-cases, Result, OnOk, OnOk-then, OnOk-map, OnOk-trivial, inl, inr,
  str_eq, leb, length, select, count_if, All-select,
}
use shanghai_home_radar.Sorting.Counts.{count_if-append, count_if-none, append-All}
use shanghai_home_radar.Collector.Rows.{Distinct}
use shanghai_home_radar.Collector.Repository.{any}
use shanghai_home_radar.Keyed.{same_key}
use shanghai_home_radar.Keyed.Noted.{note_each-Distinct, note_each-All, All-Mem_self}
use shanghai_home_radar.Arithmetic.{Arithmetic, IsRounded}
use shanghai_home_radar.Arithmetic.Sums.{IsNonneg}
use shanghai_home_radar.Valuation.Domain.{
  TargetProperty, ComparableRecord, SelectedComparable, TextTools,
}
use shanghai_home_radar.Valuation.Config.{ComparableConfig}
use shanghai_home_radar.Valuation.Config.Accepted.{accepts_comparables}
use shanghai_home_radar.Valuation.Comparables.{tier_of, score_of}
use shanghai_home_radar.Valuation.Comparables.Weights.{IsNatural, score_of-IsNonneg}
use shanghai_home_radar.Valuation.Comparables.Selection.{
  comparable_key, is_later, latest_comparables, add_scored, scored, join_tiers,
}

module _ {D : Type 0} ⦃a : Arithmetic D⦄ where
  abbrev pub has_key : (ℕ → String) → String → ComparableRecord D → Bool
  has_key uuid_text k c = str_eq k (comparable_key uuid_text c)

  abbrev pub chosen_key : (ℕ → String) → String → SelectedComparable D → Bool
  chosen_key uuid_text k s = has_key uuid_text k s.record_of

module _ {D : Type 0} ⦃a : Arithmetic D⦄ (r : IsRounded D) (uuid_text : ℕ → String) where
  is_later_irrefl : (x : ComparableRecord D) → is_later x x ≡ false
  unfolding is_later
  is_later_irrefl x = ground arith

  is_later_trans :
      (x e y : ComparableRecord D)
      → is_later x e ≡ false
      → is_later y e ≡ true
      → is_later x y ≡ false
  unfolding is_later
  is_later_trans x e y h k = ground (arith, h, k)

  Distinct-once :
      (k : String) (l : List (ComparableRecord D))
      → Distinct (same_key (comparable_key uuid_text) is_later) l
      → count_if (has_key uuid_text k) l ≤ 1
  Distinct-once k [] d = omega arith
  Distinct-once k (x ∷ l) d = elim (Bool-cases (has_key uuid_text k x)) [
    | inr e ↦ rw e (Distinct-once k l (d.1))
    | inl e ↦ rw e (
        ground (
          arith,
          count_if-none (has_key uuid_text k) l (
              ap (λ j. any (has_key uuid_text j) l) ((eq_iff k (comparable_key uuid_text x)).0 e)
              ∙ d.0),
        ))
  ]

  pub latest-once :
      (k : String) (candidates : List (ComparableRecord D))
      → count_if (has_key uuid_text k) (latest_comparables uuid_text candidates) ≤ 1
  unfolding latest_comparables
  latest-once k candidates = Distinct-once k (latest_comparables uuid_text candidates) (
      note_each-Distinct (comparable_key uuid_text) is_later is_later_irrefl is_later_trans []
        candidates tt)

  pub latest-taken :
      (candidates : List (ComparableRecord D))
      → All (λ c. Mem c candidates) (latest_comparables uuid_text candidates)
  unfolding latest_comparables
  latest-taken candidates =
      note_each-All (comparable_key uuid_text) is_later is_later_irrefl is_later_trans
        (λ c. Mem c candidates) [] candidates (All-Mem_self candidates) tt

  -- What is scored of some records: some of them, with a raw weight that is not negative.
  abbrev pub Scored :
      (ComparableRecord D → Type 0)
      → List (ComparableRecord D)
      → List (SelectedComparable D)
      → Type 0
  Scored P records out =
      All (λ s. IsNonneg s.raw_weight × P s.record_of) out
      × ((k : String)
          → count_if (chosen_key uuid_text k) out ≤ count_if (has_key uuid_text k) records)

  Scored-skip :
      (P : ComparableRecord D → Type 0) (c : ComparableRecord D)
      (records : List (ComparableRecord D)) (out : List (SelectedComparable D))
      → Scored P records out
      → Scored P (c ∷ records) out
  Scored-skip P c records out h = (h.0, λ k. ground (arith, h.1 k))

  Scored-cons :
      (P : ComparableRecord D → Type 0) (c : ComparableRecord D)
      (records : List (ComparableRecord D)) (s : SelectedComparable D)
      (out : List (SelectedComparable D))
      → P c
      → IsNonneg s.raw_weight × (s.record_of ≡ c)
      → Scored P records out
      → Scored P (c ∷ records) (s ∷ out)
  Scored-cons P c records s out p q h = (
    ((q.0, subst P (sym (q.1)) p), h.0),
    λ k. ground (arith, ap (has_key uuid_text k) (q.1), h.1 k),
  )

  module _ (tools : TextTools) (target : TargetProperty D) (as_of : ℕ) (config : ComparableConfig)
      (accepted : accepts_comparables config ≡ true)
      (natural : IsNatural config.tier_multipliers) where
    pub add_scored_lem :
        (P : ComparableRecord D → Type 0) (c : ComparableRecord D)
        (records : List (ComparableRecord D)) (window : ℕ)
        (rest : Result (List (SelectedComparable D))) (tier : Option String)
        → P c
        → OnOk (Scored P records) rest
        → OnOk (Scored P (c ∷ records)) (add_scored tools target c as_of window config rest tier)
    unfolding add_scored
    add_scored_lem P c records window rest none h k =
        OnOk-map (Scored P records) (Scored P (c ∷ records)) rest (Scored-skip P c records) k
    add_scored_lem P c records window rest (some tier) h k =
        OnOk-then (λ s. IsNonneg s.raw_weight × (s.record_of ≡ c)) _
          (score_of tools target c tier as_of window config) _
          (score_of-IsNonneg r tools target c tier as_of window config accepted natural)
          (λ s q.
            OnOk-then (Scored P records) _ rest _ k (λ out m. Scored-cons P c records s out h q m))

    pub scored_lem :
        (P : ComparableRecord D → Type 0) (records : List (ComparableRecord D)) (window : ℕ)
        → All P records
        → OnOk (Scored P records) (scored tools target records as_of window config)
    unfolding scored
    scored_lem P [] window h = (tt, λ k. omega arith)
    scored_lem P (c ∷ records) window h =
        OnOk-then (λ _. Unit {0}) _ (tier_of target c config) _
          (OnOk-trivial (tier_of target c config))
          (λ tier _.
            add_scored_lem P c records window (scored tools target records as_of window config) tier
              (h.0) (scored_lem P records window (h.1)))

  pub join_tiers-All :
      (Q : SelectedComparable D → Type 0) (minimum : ℕ) (all : List (SelectedComparable D))
      (tiers : List String) (selected : List (SelectedComparable D))
      → All Q all
      → All Q selected
      → All Q (join_tiers minimum all tiers selected)
  unfolding join_tiers
  join_tiers-All Q minimum all [] selected h k = k
  join_tiers-All Q minimum all (tier ∷ tiers) selected h k =
      let more = selected ++ select (λ item. str_eq item.tier tier) all in
      let joined =
        append-All Q selected (select (λ item. str_eq item.tier tier) all) k
          (All-select Q (λ item. str_eq item.tier tier) all h) in
      elim (Bool-cases (leb minimum (length more))) [
        | inl e ↦ rw e joined
        | inr e ↦ rw e (join_tiers-All Q minimum all tiers more h joined)
      ]

  -- How often something is in a tier.
  abbrev pub in_tier : (SelectedComparable D → Bool) → List (SelectedComparable D) → String → ℕ
  in_tier p all tier = count_if p (select (λ item. str_eq item.tier tier) all)

  abbrev pub in_tiers :
      (SelectedComparable D → Bool) → List (SelectedComparable D) → List String → ℕ
  in_tiers p all [] = 0
  in_tiers p all (tier ∷ tiers) = in_tier p all tier + in_tiers p all tiers

  pub join_tiers-count :
      (p : SelectedComparable D → Bool) (minimum : ℕ) (all : List (SelectedComparable D))
      (tiers : List String) (selected : List (SelectedComparable D))
      → count_if p (join_tiers minimum all tiers selected)
        ≤ count_if p selected + in_tiers p all tiers
  unfolding join_tiers
  join_tiers-count p minimum all [] selected = omega arith
  join_tiers-count p minimum all (tier ∷ tiers) selected =
      let part = select (λ item. str_eq item.tier tier) all in
      let more = selected ++ part in
      elim (Bool-cases (leb minimum (length more))) [
        | inl e ↦ rw e (omega (arith, count_if-append p selected part))
        | inr e ↦ rw e (
            omega
              (arith, count_if-append p selected part, join_tiers-count p minimum all tiers more))
      ]

  one_tier : (s t u : String) → str_eq t u ≡ false → str_eq s t ≡ true → str_eq s u ≡ false
  one_tier s t u h k = ap (λ x. str_eq x u) ((eq_iff s t).0 k) ∙ h

  pub in_three_tiers :
      (p : SelectedComparable D → Bool) (all : List (SelectedComparable D))
      → in_tiers p all ("tier_1" ∷ "tier_2" ∷ "tier_3" ∷ []) ≤ count_if p all
  in_three_tiers p [] = omega arith
  in_three_tiers p (s ∷ all) = ground (
    arith,
    one_tier s.tier "tier_1" "tier_2" refl,
    one_tier s.tier "tier_1" "tier_3" refl,
    one_tier s.tier "tier_2" "tier_3" refl,
    in_three_tiers p all,
  )
