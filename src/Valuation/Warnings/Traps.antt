-- ===== src/Valuation/Warnings/Traps.antt =====
-- services/valuation/src/home_radar_valuation/warnings.py: what a warning does to the score and to the
-- decision.
use shanghai_home_radar.Prelude.{
  ℕ, ◌≡◌, refl, ◌∙◌, Bool, true, false, ◌||◌, ◌⊎◌, Option, List, [], ◌∷◌, ◌++◌, String, Decimal,
  arith, Bool-cases, inl, inr, ok, Returns, Returns-value, item, keys, contains, every,
  lookup-contains, str_eq, ltb, text_leb, and_left, and_right,
}
use shanghai_home_radar.Sorting.Texts.{contains-sort_by}
use shanghai_home_radar.Arithmetic.{Arithmetic, IsRounded, ◌≼◌, lit}
use shanghai_home_radar.Arithmetic.Order.{≼_refl, least-le_left, least-le_right}
use shanghai_home_radar.Valuation.Domain.{TargetProperty, TextTools}
use shanghai_home_radar.Valuation.Config.{ValuationConfig, ValueScoreConfig}
use shanghai_home_radar.Valuation.Config.Accepted.{score_names}
use shanghai_home_radar.Valuation.Scoring.{decision_from, decision_for_score}
use shanghai_home_radar.Valuation.Warnings.{
  WarningResult, warn_if, is_illiquid, is_extreme_floor, is_low_baseline, is_value_trap,
  warnings_of, capped_at, apply_warning_rules,
}

-- The thresholds have the four names that a decision may be.
abbrev pub NamesDecisions : ValueScoreConfig → Type 0
NamesDecisions config =
    every (λ name. contains name (keys config.decision_thresholds)) score_names ≡ true

-- Only the last test puts in the trap.
five :
    (b c d e f : Bool)
    → contains "VALUE_TRAP_RISK" (
        warn_if b "PRODUCT_LIQUIDITY_RISK"
        ++ warn_if c "LOW_SAMPLE_CONFIDENCE"
        ++ warn_if d "EXTREME_FLOOR_RISK"
        ++ warn_if e "SOURCE_DATA_LIMITATION"
        ++ warn_if f "VALUE_TRAP_RISK")
      ≡ f
five b c d e f = ground arith

module _ {D : Type 0} ⦃a : Arithmetic D⦄ where
  -- The decision is "pass", or the score reaches its threshold.
  abbrev pub Reaches : List (String × Decimal) → D → String → Type 0
  Reaches thresholds score d =
      (d ≡ "pass") ⊎ ((t : Decimal) × (item thresholds d ≡ ok t) × ((lit t ≼ score) ≡ true))

  decision_from-Reaches :
      (score : D) (thresholds : List (String × Decimal)) (names : List String) (d : String)
      → every (λ name. contains name (keys thresholds)) names ≡ true
      → Reaches thresholds score d
      → Returns (Reaches thresholds score) (decision_from score thresholds names d)
  unfolding decision_from
  decision_from-Reaches score thresholds [] d h k = k
  decision_from-Reaches score thresholds (name ∷ names) d h k =
      let (t, e) = item-found thresholds name (and_left _ _ h) in
      elim (Bool-cases (lit t ≼ score)) [
        | inl f ↦
            rw (Returns, e, f)
              (decision_from-Reaches score thresholds names name (and_right _ _ h) (inr (t, e, f)))
        | inr f ↦
            rw (Returns, e, f) (decision_from-Reaches score thresholds names d (and_right _ _ h) k)
      ]
    where
      item-found :
          (d : List (String × Decimal)) (k : String)
          → contains k (keys d) ≡ true
          → (t : Decimal) × (item d k ≡ ok t)
      item-found d k h = let (t, e) = lookup-contains k d h in (t, rw (item, e) refl)

  -- What the rules do to a score: it never grows, a trap and a confidence that is insufficient hold it below their
  -- caps, and the decision is "pass" or one whose threshold the capped score reaches.
  pub record IsCapped (config : ValuationConfig) (trap : Bool) (confidence : String) (score : D)
      (w : WarningResult D) : Type 0 where
    pub marked : contains "VALUE_TRAP_RISK" w.warnings ≡ trap
    pub lower : (w.capped_score ≼ score) ≡ true
    pub trapped : trap ≡ true → (w.capped_score ≼ lit config.warnings.trap_score_cap) ≡ true
    pub insufficient :
        str_eq confidence "insufficient" ≡ true
        → (w.capped_score ≼ lit config.warnings.insufficient_confidence_score_cap) ≡ true
    pub decided : Reaches config.value_score.decision_thresholds w.capped_score w.decision

module _ {D : Type 0} ⦃a : Arithmetic D⦄ (r : IsRounded D) where
  capped_at-le : (test : Bool) (cap score : D) → (capped_at test cap score ≼ score) ≡ true
  unfolding capped_at
  capped_at-le true cap score = least-le_left r score cap
  capped_at-le false cap score = ≼_refl r score

  capped_at-le_cap :
      (test : Bool) (cap score : D) → test ≡ true → (capped_at test cap score ≼ cap) ≡ true
  unfolding capped_at
  capped_at-le_cap true cap score h = least-le_right r score cap
  capped_at-le_cap false cap score h = cc h

  module _ (tools : TextTools) (target : TargetProperty D) (discount : D) (liquidity : Option D)
      (count : ℕ) (baseline_confidence confidence support : String) (score : D)
      (config : ValuationConfig) where
    abbrev trap_of : Bool
    trap_of =
        is_value_trap tools target discount liquidity count baseline_confidence config.warnings

    contains-warnings_of :
        contains "VALUE_TRAP_RISK" (
          warnings_of tools target discount liquidity count baseline_confidence support
            config.warnings)
        ≡ trap_of
    unfolding warnings_of
    contains-warnings_of =
        contains-sort_by text_leb "VALUE_TRAP_RISK" _
        ∙ five (is_illiquid liquidity config.warnings)
            (ltb count config.warnings.insufficient_comparable_count)
            (is_extreme_floor tools target)
            (str_eq support "none" || is_low_baseline baseline_confidence) trap_of

    -- If the thresholds have their four names, then the rules return: the score never grows, a value trap and
    -- an insufficient confidence hold it to their caps, the warnings name a trap exactly if there is one,
    -- and the decision is "pass" or one whose threshold the capped score reaches.
    pub apply_warning_rules-IsCapped :
        NamesDecisions config.value_score
        → (w : WarningResult D) × (apply_warning_rules tools target discount liquidity count
              baseline_confidence confidence support score config
            ≡ ok w)
          × IsCapped config trap_of confidence score w
    unfolding apply_warning_rules decision_for_score
    apply_warning_rules-IsCapped named =
        let warnings =
          warnings_of tools target discount liquidity count baseline_confidence support
            config.warnings in
        let trapped =
          capped_at (contains "VALUE_TRAP_RISK" warnings) (lit config.warnings.trap_score_cap)
            score in
        let test = str_eq confidence "insufficient" in
        let cap = lit config.warnings.insufficient_confidence_score_cap in
        let capped = capped_at test cap trapped in
        let reached =
          decision_from-Reaches capped config.value_score.decision_thresholds score_names "pass"
            named (inl refl) in
        let (d, e, q) =
          Returns-value _
            (decision_from capped config.value_score.decision_thresholds score_names "pass")
            reached in
        (
          record { warnings = warnings; capped_score = capped; decision = d },
          rw e refl,
          record {
            marked = contains-warnings_of;
            lower = r.trans capped trapped score (capped_at-le test cap trapped) (
                capped_at-le (contains "VALUE_TRAP_RISK" warnings)
                  (lit config.warnings.trap_score_cap) score);
            trapped = λ h. r.trans capped trapped _ (capped_at-le test cap trapped) (
                capped_at-le_cap (contains "VALUE_TRAP_RISK" warnings)
                  (lit config.warnings.trap_score_cap) score (contains-warnings_of ∙ h));
            insufficient = λ h. capped_at-le_cap test cap trapped h;
            decided = q;
          },
        )
