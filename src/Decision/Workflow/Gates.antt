-- ===== src/Decision/Workflow/Gates.antt =====
-- The risks that are found, the status and the workflow state, each against its description.
use shanghai_home_radar.Prelude.{
  ℕ, suc, Bool-cases, inl, inr, refl, ok, ◌≡◌, ◌≢◌, ◌↔◌, ◌⊎◌, Bool, true, false, Option, none, some,
  arith, ◌≤ℤ◌, Decimal, List, [], ◌∷◌, ◌++◌, String, contains, ◌&&◌, ◌||◌, str_eq, eq_iff, select,
  text_leb, if◌then◌else◌,
}
use shanghai_home_radar.Sorting.Texts.{
  NoRepeat, contains-append, contains-select, contains-dedupe, contains-sort_by,
  dedupe_from-NoRepeat, sort_by-NoRepeat,
}
use shanghai_home_radar.Decision.Domain.{
  DecisionInputs, OpportunityClassification, quality_at_discount, good_but_expensive,
  EligibilityStatus, eligible, view,
}
use shanghai_home_radar.Decision.Config.{
  accepts, confidence_levels, DecisionConfig, EligibilityConfig, WorkflowConfig,
}
use shanghai_home_radar.Decision.Config.Accepted.{accepts-eligibility, accepts_eligibility-known}
use shanghai_home_radar.Decision.Classification.Quadrants.{Reaches}
use shanghai_home_radar.Decision.Workflow.{
  reaches, index_of, level_index, confidence_gate_passed, obsolescence_breach, risk_set, hard_risks,
  eligibility_status, workflow_state,
}

-- The warnings of both stages.
abbrev pub all_warnings : DecisionInputs → List String
all_warnings i = i.valuation_warnings ++ i.future_warnings

contains-hard_risks_lem :
    (w : String) (i : DecisionInputs) (c : EligibilityConfig)
    → contains w (hard_risks i c) ≡ (
        (contains w c.hard_risk_warnings && contains w (all_warnings i))
        || (str_eq w "HIGH_OBSOLESCENCE_RISK" && obsolescence_breach i c))
unfolding hard_risks risk_set
contains-hard_risks_lem w i c = ground (
  arith,
  contains-sort_by text_leb w (risk_set i c),
  contains-dedupe w (
      select (λ v. contains v (all_warnings i)) c.hard_risk_warnings
      ++ (if obsolescence_breach i c then "HIGH_OBSOLESCENCE_RISK" ∷ [] else [])),
  contains-append w (select (λ v. contains v (all_warnings i)) c.hard_risk_warnings)
      (if obsolescence_breach i c then "HIGH_OBSOLESCENCE_RISK" ∷ [] else []),
  contains-select w (λ v. contains v (all_warnings i)) c.hard_risk_warnings,
)

-- No hard risk is listed twice.
pub hard_risks-NoRepeat : (i : DecisionInputs) (c : EligibilityConfig) → NoRepeat (hard_risks i c)
unfolding hard_risks risk_set
hard_risks-NoRepeat i c = sort_by-NoRepeat text_leb (risk_set i c) (dedupe_from-NoRepeat [] _)

-- A listing is eligible exactly if it is described, trusted, free of hard risks and of high quality.
pub eligibility_status_iff :
    (k : OpportunityClassification) (passed : Bool) (risks : List String)
    → (eligibility_status k passed risks ≡ eligible)
      ↔ ((passed ≡ true) × (risks ≡ []) × ((k ≡ quality_at_discount) ⊎ (k ≡ good_but_expensive)))
unfolding eligibility_status
eligibility_status_iff k passed risks = ground arith

-- The risk is known, and not above the maximum.
abbrev pub AtMost : Option Decimal → Decimal → Type 0
AtMost none maximum = ⊥
AtMost (some risk) maximum = risk ≤ℤ maximum

-- What the rules ask of the scores for each state of an eligible listing.
abbrev pub MeetsView : DecisionInputs → WorkflowConfig → Type 0
MeetsView i rules =
    (rules.view_minimum_value_score ≤ℤ i.value_score)
    × Reaches i.future_score rules.view_minimum_future_score
    × Reaches i.liquidity_score rules.view_minimum_liquidity_score
    × AtMost i.obsolescence_risk rules.view_maximum_obsolescence_risk

-- Exactly the eligible listings of the first class whose scores meet every rule are for viewing.
pub workflow_state-view_iff :
    (i : DecisionInputs) (k : OpportunityClassification) (s : EligibilityStatus)
    (c : DecisionConfig)
    → (workflow_state i k s c ≡ view) ↔ (
        (s ≡ eligible)
        × (k ≢ good_but_expensive)
        × (i.obsolescence_risk ≢ none)
        × MeetsView i c.workflow)
unfolding workflow_state
workflow_state-view_iff i k s c = ground arith

-- Neither a configured warning nor the obsolescence risk speaks against the listing.
pub record NoHardRisk (i : DecisionInputs) (c : EligibilityConfig) : Type 0 where
  pub quiet :
      (w : String) → contains w c.hard_risk_warnings ≡ true → contains w (all_warnings i) ≡ false
  pub obsolescence : ¬ Reaches i.obsolescence_risk c.maximum_obsolescence_risk

empty_of_contains : (l : List String) → ((w : String) → contains w l ≡ false) → l ≡ []
empty_of_contains [] h = refl
empty_of_contains (x ∷ xs) h = ground (arith, h x, eq_iff x x)

module _ (i : DecisionInputs) (c : EligibilityConfig) where
  breach-Reaches :
      obsolescence_breach i c ≡ true ↔ Reaches i.obsolescence_risk c.maximum_obsolescence_risk
  unfolding obsolescence_breach
  breach-Reaches = ground arith

  -- A text is among the hard risks exactly if it is a configured warning that a stage gave, or the
  -- warning of the obsolescence risk, where that risk is known and at least its maximum.
  pub contains-hard_risks :
      (w : String)
      → contains w (hard_risks i c) ≡ true ↔ (
          ((contains w c.hard_risk_warnings ≡ true) × (contains w (all_warnings i) ≡ true))
          ⊎ ((w ≡ "HIGH_OBSOLESCENCE_RISK")
              × Reaches i.obsolescence_risk c.maximum_obsolescence_risk))
  contains-hard_risks w =
      ground
        (arith, contains-hard_risks_lem w i c, breach-Reaches, eq_iff w "HIGH_OBSOLESCENCE_RISK")

  pub NoHardRisk-hard_risks : NoHardRisk i c → hard_risks i c ≡ []
  NoHardRisk-hard_risks h =
      empty_of_contains (hard_risks i c) λ w.
        ground (arith, contains-hard_risks_lem w i c, h.quiet w, h.obsolescence, breach-Reaches)

  pub hard_risks-NoHardRisk : hard_risks i c ≡ [] → NoHardRisk i c
  hard_risks-NoHardRisk h = record {
    quiet = λ w k. ground (arith, contains-hard_risks_lem w i c);
    obsolescence = λ r.
        ground (arith, contains-hard_risks_lem "HIGH_OBSOLESCENCE_RISK" i c, breach-Reaches, r);
  }

pub index_of-contains :
    (s : String) (l : List String) → contains s l ≡ true → (n : ℕ) × (index_of l s ≡ some n)
index_of-contains s [] h = cc
index_of-contains s (x ∷ xs) h = elim (Bool-cases (str_eq s x)) [
  | inl e ↦ (0, rw e)
  | inr e ↦ let (n, found) = index_of-contains s xs (rw e at h) in (suc n, rw (e, found))
]

-- Under an accepted configuration the confidence gate raises no error.
pub confidence_gate_passed_total :
    (i : DecisionInputs) (c : DecisionConfig)
    → accepts c ≡ true
    → (b : Bool) × (confidence_gate_passed i c ≡ ok b)
unfolding confidence_gate_passed level_index
confidence_gate_passed_total i c h =
    let known = accepts_eligibility-known c.eligibility (accepts-eligibility c h) in
    let (n, e) = index_of-contains c.eligibility.minimum_confidence confidence_levels known in
    (
      reaches n i.valuation_confidence
          && reaches n i.future_confidence
          && reaches n i.baseline_confidence,
      rw (e, confidence_gate_passed, level_index),
    )
