-- ===== src/Decision/Orchestrator/Safety.antt =====
-- What a finished evaluation says of its inputs, through the whole chain of the stage.
use shanghai_home_radar.Prelude.{
  ℕ, pos, ◌≡◌, sym, ◌∙◌, ◌↔◌, ◌⊎◌, true, [], ◌∷◌, String, ok, arith, contains, ◌≤ℤ◌, ◌<ℤ◌, whole,
  Result-cases, inl, inr,
}
use shanghai_home_radar.Decision.Domain.{
  DecisionInputs, DecisionEvaluation, quality_at_discount, good_but_expensive, eligible, view,
}
use shanghai_home_radar.Decision.Config.{DecisionConfig, accepts}
use shanghai_home_radar.Decision.Classification.{classify_opportunity}
use shanghai_home_radar.Decision.Classification.Quadrants.{
  Describes, HighFuture, HasEvidence, classify_opportunity-iff-Describes,
}
use shanghai_home_radar.Decision.Workflow.{
  confidence_gate_passed, hard_risks, eligibility_status, workflow_state,
}
use shanghai_home_radar.Decision.Workflow.Gates.{
  MeetsView, NoHardRisk, NoHardRisk-hard_risks, hard_risks-NoHardRisk, eligibility_status_iff,
  workflow_state-view_iff, confidence_gate_passed_total,
}
use shanghai_home_radar.Decision.Orchestrator.{Payload, validate_inputs, evaluate}

-- The inputs pass the checks of `_validate_inputs`.
pub record IsAcceptable (i : DecisionInputs) : Type 0 where
  pub mode : contains i.data_mode ("demo" ∷ "sample" ∷ "live" ∷ []) ≡ true
  pub ask_positive : pos 0 <ℤ i.current_ask
  pub value_positive : pos 0 <ℤ i.fair_value
  pub low : i.fair_value_low ≤ℤ i.fair_value
  pub high : i.fair_value ≤ℤ i.fair_value_high
  pub score_low : pos 0 ≤ℤ i.value_score
  pub score_high : i.value_score ≤ℤ whole 100

pub validate_inputs-IsAcceptable : (i : DecisionInputs) → validate_inputs i ≡ ok tt → IsAcceptable i
unfolding validate_inputs
validate_inputs-IsAcceptable i h = ground arith

pub IsAcceptable-validate_inputs : (i : DecisionInputs) → IsAcceptable i → validate_inputs i ≡ ok tt
unfolding validate_inputs
IsAcceptable-validate_inputs i h = ground arith

-- How the judgements of an evaluation hang together.
pub record Judged (i : DecisionInputs) (c : DecisionConfig) (e : DecisionEvaluation) : Type 0 where
  pub listing : e.listing_id ≡ i.listing_id
  pub valuation_level : e.valuation_confidence ≡ i.valuation_confidence
  pub future_level : e.future_confidence ≡ i.future_confidence
  pub acceptable : validate_inputs i ≡ ok tt
  pub classified : e.opportunity_classification ≡ classify_opportunity i c.classification
  pub gate : confidence_gate_passed i c ≡ ok e.confidence_gate_passed
  pub risks : e.hard_risks ≡ hard_risks i c.eligibility
  pub status :
      e.eligibility_status
      ≡ eligibility_status e.opportunity_classification e.confidence_gate_passed e.hard_risks
  pub state :
      e.workflow_state ≡ workflow_state i e.opportunity_classification e.eligibility_status c

module _ {i : DecisionInputs} {c : DecisionConfig} (e : DecisionEvaluation) (j : Judged i c e) where
  Judged-Describes : Describes i c.classification e.opportunity_classification
  Judged-Describes =
      (classify_opportunity-iff-Describes i c.classification e.opportunity_classification).0
        (sym j.classified)

  pub Judged-eligible_iff : (e.eligibility_status ≡ eligible) ↔ (
      (e.confidence_gate_passed ≡ true)
      × (e.hard_risks ≡ [])
      × ((e.opportunity_classification ≡ quality_at_discount)
          ⊎ (e.opportunity_classification ≡ good_but_expensive)))
  Judged-eligible_iff =
      rw j.status
        (eligibility_status_iff e.opportunity_classification e.confidence_gate_passed e.hard_risks)

  eligible_facts :
      e.eligibility_status ≡ eligible
      → HasEvidence i c.classification
        × HighFuture i c.classification
        × (confidence_gate_passed i c ≡ ok true)
        × NoHardRisk i c.eligibility
  eligible_facts s =
      ground
        (arith, Judged-eligible_iff, Judged-Describes, hard_risks-NoHardRisk i c.eligibility, j, s)

  eligible_back :
      HasEvidence i c.classification
      → HighFuture i c.classification
      → confidence_gate_passed i c ≡ ok true
      → NoHardRisk i c.eligibility
      → e.eligibility_status ≡ eligible
  eligible_back a b g n =
      ground
        (arith, Judged-eligible_iff, Judged-Describes, NoHardRisk-hard_risks i c.eligibility n, j)

  view_facts :
      e.workflow_state ≡ view
      → Describes i c.classification quality_at_discount
        × MeetsView i c.workflow
        × (confidence_gate_passed i c ≡ ok true)
        × NoHardRisk i c.eligibility
  view_facts v =
      let rules =
        (workflow_state-view_iff i e.opportunity_classification e.eligibility_status c).0
          (sym j.state ∙ v) in
      let facts = eligible_facts rules.0 in
      ground (arith, rules, facts, Judged-eligible_iff, Judged-Describes)

module _ (digest : Payload → String) (c : DecisionConfig) (now : ℕ) (i : DecisionInputs) where
  pub evaluate-Judged : {e : DecisionEvaluation} → evaluate digest c now i ≡ ok e → Judged i c e
  unfolding evaluate
  evaluate-Judged h = ground arith

  -- An evaluation marks a listing as eligible exactly if nothing is missing, the future score is
  -- high, every confidence reaches the configured minimum, and no hard risk speaks against it.
  pub evaluate-eligible_iff :
      {e : DecisionEvaluation}
      → evaluate digest c now i ≡ ok e
      → (e.eligibility_status ≡ eligible) ↔ (
          HasEvidence i c.classification
          × HighFuture i c.classification
          × (confidence_gate_passed i c ≡ ok true)
          × NoHardRisk i c.eligibility)
  evaluate-eligible_iff {e} h =
      let j = evaluate-Judged h in
      (λ s. eligible_facts e j s, λ f. eligible_back e j f.0 f.1 f.2 f.3)

  -- A listing is marked for viewing only if its price and its future are both good, every score
  -- meets the rules for viewing, every confidence reaches the minimum, and no hard risk speaks
  -- against it.
  pub evaluate-view_safety :
      {e : DecisionEvaluation}
      → evaluate digest c now i ≡ ok e
      → e.workflow_state ≡ view
      → Describes i c.classification quality_at_discount
        × MeetsView i c.workflow
        × (confidence_gate_passed i c ≡ ok true)
        × NoHardRisk i c.eligibility
  evaluate-view_safety {e} h v = view_facts e (evaluate-Judged h) v

  evaluate_total :
      accepts c ≡ true
      → IsAcceptable i
      → (e : DecisionEvaluation) × (evaluate digest c now i ≡ ok e)
  unfolding evaluate
  evaluate_total a v =
      let (b, g) = confidence_gate_passed_total i c a in
      elim (Result-cases (evaluate digest c now i)) [
        | inl found ↦ found
        | inr (error, raised) ↦ absurd (ground (arith, IsAcceptable-validate_inputs i v, g, raised))
      ]

  -- With an accepted configuration, an evaluation returns exactly on the inputs whose mode, prices,
  -- range and score pass the checks, and raises on all others.
  pub evaluate-returns_iff :
      accepts c ≡ true
      → ((e : DecisionEvaluation) × (evaluate digest c now i ≡ ok e)) ↔ IsAcceptable i
  evaluate-returns_iff a =
      (λ r. validate_inputs-IsAcceptable i (evaluate-Judged r.1).acceptable, evaluate_total a)
