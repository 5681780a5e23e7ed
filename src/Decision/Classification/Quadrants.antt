-- ===== src/Decision/Classification/Quadrants.antt =====
-- The classification against a description of the five classes that shares no test with it.
use shanghai_home_radar.Prelude.{◌≡◌, ◌≢◌, ◌↔◌, Option, none, some, arith, ◌≤ℤ◌, Decimal, eq_iff}
use shanghai_home_radar.Decision.Domain.{
  DecisionInputs, OpportunityClassification, quality_at_discount, good_but_expensive, value_trap,
  low_quality, insufficient_data,
}
use shanghai_home_radar.Decision.Config.{ClassificationConfig}
use shanghai_home_radar.Decision.Classification.{classify_opportunity}

-- Everything that the classification needs is there.
pub record HasEvidence (i : DecisionInputs) (c : ClassificationConfig) : Type 0 where
  pub future : i.future_score ≢ none
  pub obsolescence : i.obsolescence_risk ≢ none
  pub future_coverage : c.minimum_future_coverage ≤ℤ i.future_score_coverage
  pub obsolescence_coverage : c.minimum_obsolescence_coverage ≤ℤ i.obsolescence_coverage
  pub valuation_level : i.valuation_confidence ≢ "insufficient"
  pub future_level : i.future_confidence ≢ "insufficient"
  pub baseline_level : i.baseline_confidence ≢ "insufficient"

-- The score is there, and not below the minimum.
abbrev pub Reaches : Option Decimal → Decimal → Type 0
Reaches none minimum = ⊥
Reaches (some score) minimum = minimum ≤ℤ score

abbrev pub HighValue : DecisionInputs → ClassificationConfig → Type 0
HighValue i c = c.high_value_score ≤ℤ i.value_score

abbrev pub HighFuture : DecisionInputs → ClassificationConfig → Type 0
HighFuture i c = Reaches i.future_score c.high_future_score

abbrev pub Describes : DecisionInputs → ClassificationConfig → OpportunityClassification → Type 0
Describes i c quality_at_discount = HasEvidence i c × HighValue i c × HighFuture i c
Describes i c good_but_expensive = HasEvidence i c × (¬ HighValue i c) × HighFuture i c
Describes i c value_trap = HasEvidence i c × HighValue i c × (¬ HighFuture i c)
Describes i c low_quality = HasEvidence i c × (¬ HighValue i c) × (¬ HighFuture i c)
Describes i c insufficient_data = ¬ HasEvidence i c

module _ (i : DecisionInputs) (c : ClassificationConfig) where
  Describes-classify : Describes i c (classify_opportunity i c)
  unfolding classify_opportunity
  Describes-classify = ground (
    arith,
    eq_iff i.valuation_confidence "insufficient",
    eq_iff i.future_confidence "insufficient",
    eq_iff i.baseline_confidence "insufficient",
  )

  -- Two descriptions never hold at once.
  Describes-unique : (a b : OpportunityClassification) → Describes i c a → Describes i c b → a ≡ b
  Describes-unique a b h k = ground arith

  -- The classification is the one of the five that describes the inputs: insufficient data exactly
  -- where evidence is missing, and otherwise the quadrant of the two scores.
  pub classify_opportunity-iff-Describes :
      (k : OpportunityClassification) → (classify_opportunity i c ≡ k) ↔ Describes i c k
  classify_opportunity-iff-Describes k = (
    λ e. rw e at Describes-classify,
    λ h. Describes-unique (classify_opportunity i c) k Describes-classify h,
  )
