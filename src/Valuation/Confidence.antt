-- ===== src/Valuation/Confidence.antt =====
-- services/valuation/src/home_radar_valuation/confidence.py.
use shanghai_home_radar.Prelude.{
  ℕ, pos, Bool, ◌||◌, Option, none, some, List, [], ◌∷◌, String, Result, ok, ◌>>=◌, item, str_eq,
  dedupe, length, count_if, leb, ltb, map, if◌then◌else◌,
}
use shanghai_home_radar.Arithmetic.{
  Arithmetic, ◌⊖◌, ◌⊗◌, ◌⊘◌, ◌≼◌, ◌≈◌, lit, int, nought, one, quantize, least, greatest, sum,
}
use shanghai_home_radar.Valuation.Domain.{AdjustedComparable, BaselineEvidence, ComparableSelection}
use shanghai_home_radar.Valuation.Config.{
  ComparableConfig, ConfidenceThresholds, ValuationConfidenceConfig,
}
use shanghai_home_radar.Valuation.Aggregation.{divide}
use shanghai_home_radar.Valuation.Comparables.{weighted_from}

pub record ValuationConfidenceResult (D : Type 0) : Type 0 where
  pub score : D
  pub level : String
  pub transaction_support : String
  pub components : List (String × D)

module _ {D : Type 0} ⦃a : Arithmetic D⦄ where
  abbrev pub is_transaction : AdjustedComparable D → Bool
  is_transaction c = str_eq c.selected.record_of.observation_type "transaction"

  -- The sample of a baseline of transactions.
  unfoldable pub baseline_sample : Option (BaselineEvidence D) → ℕ
  baseline_sample none = 0
  baseline_sample (some b) = if str_eq b.observation_type "transaction" then b.sample_count else 0

  unfoldable pub classify_transaction_support :
      List (AdjustedComparable D) → Option (BaselineEvidence D) → ℕ → String
  classify_transaction_support comparables baseline strong_count =
      let count = count_if is_transaction comparables in
      let baseline_count = baseline_sample baseline in
      if leb strong_count count || leb strong_count baseline_count
      then "strong"
      else if ltb 0 count || ltb 0 baseline_count
      then "weak"
      else "none"

  abbrev pub transaction_factor : String → D
  transaction_factor support =
      if str_eq support "none"
      then nought
      else if str_eq support "weak"
      then lit (pos 500000)
      else one

  -- `_baseline_confidence_score`
  unfoldable pub baseline_confidence_score : Option (BaselineEvidence D) → D
  baseline_confidence_score none = nought
  baseline_confidence_score (some b) =
      if str_eq b.confidence "high"
      then one
      else if str_eq b.confidence "medium"
      then lit (pos 720000)
      else if str_eq b.confidence "low"
      then lit (pos 420000)
      else nought

  -- `_weighted_average`
  unfoldable pub weighted_average : List (D × D) → D
  weighted_average pairs =
      let total = sum (map (λ p. p.1) pairs) in
      if total ≈ nought then nought else sum (map (λ p. (p.0) ⊗ (p.1)) pairs) ⊘ total

  -- `_level`
  unfoldable pub level_of : D → ConfidenceThresholds → String
  level_of score thresholds =
      if lit thresholds.high ≼ score
      then "high"
      else if lit thresholds.medium ≼ score
      then "medium"
      else if lit thresholds.low ≼ score
      then "low"
      else "insufficient"

  -- The multipliers of the tiers with the weights, and how fresh each observation is with its weight.
  unfoldable pub tier_pairs : List (AdjustedComparable D) → ComparableConfig → Result (List (D × D))
  tier_pairs [] config = ok []
  tier_pairs (c ∷ rest) config = do
    multiplier ← item config.tier_multipliers c.selected.tier
    pairs ← tier_pairs rest config
    ok ((lit multiplier, c.selected.weight) ∷ pairs)

  unfoldable pub fresh_pairs : List (AdjustedComparable D) → ℕ → Result (List (D × D))
  fresh_pairs [] window = ok []
  fresh_pairs (c ∷ rest) window = do
    share ← divide (int c.selected.freshness_days) (int window)
    pairs ← fresh_pairs rest window
    ok ((greatest nought (one ⊖ share), c.selected.weight) ∷ pairs)

  -- The dictionary of the components.
  unfoldable pub confidence_components :
      ComparableSelection D
      → List (AdjustedComparable D)
      → Option (BaselineEvidence D)
      → D
      → ℕ
      → ValuationConfidenceConfig
      → ComparableConfig
      → Result (List (String × D))
  confidence_components selection retained baseline dispersion missing config comparable_config = do
    let support =
        classify_transaction_support retained baseline comparable_config.strong_transaction_count
    let sources = dedupe (map (λ (c : AdjustedComparable D). c.selected.record_of.source) retained)
    tiers ← tier_pairs retained comparable_config
    fresh ← fresh_pairs retained selection.window_days
    counted ← divide (int (length retained)) (int config.target_comparable_count)
    weighty ← divide selection.effective_count (lit config.target_effective_count)
    diverse ← divide (int (length sources)) (int config.target_source_count)
    dispersed ← divide dispersion (lit config.maximum_dispersion_rate)
    lacking ← divide (int missing) (int config.maximum_missing_attributes)
    ok (
        ("comparable_count", least one counted)
        ∷ ("effective_weight", least one weighty)
        ∷ ("tier_quality", weighted_average tiers)
        ∷ ("baseline_confidence", baseline_confidence_score baseline)
        ∷ ("freshness", weighted_average fresh)
        ∷ ("source_diversity", least one diverse)
        ∷ ("dispersion", greatest nought (one ⊖ dispersed))
        ∷ ("target_completeness", greatest nought (one ⊖ lacking))
        ∷ ("transaction_support", transaction_factor support)
        ∷ [])

  unfoldable pub calculate_confidence :
      ComparableSelection D
      → List (AdjustedComparable D)
      → Option (BaselineEvidence D)
      → D
      → ℕ
      → ValuationConfidenceConfig
      → ComparableConfig
      → Result (ValuationConfidenceResult D)
  calculate_confidence selection retained baseline dispersion missing config comparable_config = do
    components ←
        confidence_components selection retained baseline dispersion missing config
          comparable_config
    total ← weighted_from nought components config.weights
    let score = quantize 6 total
    ok (record {
      score = score;
      level = level_of score config.thresholds;
      transaction_support =
          classify_transaction_support retained baseline comparable_config.strong_transaction_count;
      components = components;
    })
