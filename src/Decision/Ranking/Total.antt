-- ===== src/Decision/Ranking/Total.antt =====
-- When there is a ranking: no evaluation of the orchestrator lacks a priority.

use shanghai_home_radar.Prelude.{
  ℕ, ◌≡◌, ◌≢◌, refl, ap, ◌∙◌, ◌⊎◌, inl, inr, ℤ, true, List, [], ◌∷◌, ok, Result-cases, arith, All,
  String, contains, none, Bool-cases,
}
use shanghai_home_radar.Decision.Domain.{
  DecisionEvaluation, RankedDecision, OpportunityClassification, quality_at_discount,
  good_but_expensive, value_trap, low_quality, insufficient_data, DecisionInputs, class_text,
  EligibilityStatus, eligible,
}
use shanghai_home_radar.Decision.Config.{DecisionConfig, accepts, confidence_levels}
use shanghai_home_radar.Decision.Config.Accepted.{
  accepts-ranking, accepts_ranking-class, accepts_ranking-level,
}
use shanghai_home_radar.Decision.Workflow.{
  is_eligible, index_of, level_index, confidence_gate_passed,
}
use shanghai_home_radar.Decision.Orchestrator.{Payload, evaluate}
use shanghai_home_radar.Decision.Orchestrator.Safety.{Judged-eligible_iff, evaluate-Judged}
use shanghai_home_radar.Decision.Ranking.{
  decision_sort_key, Keyed, with_keys, eligible_only, rank_eligible,
}
use shanghai_home_radar.Decision.Ranking.Order.{ranked_of, rank_eligible-ranked_of}

-- What an evaluation must be to have a key: if it is eligible, its class and its two levels are
-- among those that have a priority.
pub record HasPriorities (e : DecisionEvaluation) : Type 0 where
  pub ranked_class :
      (e.opportunity_classification ≡ quality_at_discount)
      ⊎ (e.opportunity_classification ≡ good_but_expensive)
  pub valuation_level : contains e.valuation_confidence confidence_levels ≡ true
  pub future_level : contains e.future_confidence confidence_levels ≡ true

class_known :
    (k : OpportunityClassification)
    → (k ≡ quality_at_discount) ⊎ (k ≡ good_but_expensive)
    → contains (class_text k) ("QUALITY_AT_DISCOUNT" ∷ "GOOD_BUT_EXPENSIVE" ∷ []) ≡ true
class_known quality_at_discount h = refl
class_known good_but_expensive h = refl
class_known value_trap h = absurd (ground arith)
class_known low_quality h = absurd (ground arith)
class_known insufficient_data h = absurd (ground arith)

decision_sort_key_total :
    (c : DecisionConfig) (e : DecisionEvaluation)
    → accepts c ≡ true
    → HasPriorities e
    → (key : List ℤ) × (decision_sort_key e c ≡ ok key)
unfolding decision_sort_key
decision_sort_key_total c e a h =
    let ranking = accepts-ranking c a in
    let (p, ep) =
      accepts_ranking-class c.ranking (class_text e.opportunity_classification) ranking
        (class_known e.opportunity_classification h.ranked_class) in
    let (v, ev) =
      accepts_ranking-level c.ranking e.valuation_confidence ranking h.valuation_level in
    let (f, ef) = accepts_ranking-level c.ranking e.future_confidence ranking h.future_level in
    elim (Result-cases (decision_sort_key e c)) [
      | inl found ↦ found
      | inr (error, raised) ↦ absurd (ground (arith, ep, ev, ef, raised))
    ]

with_keys_total :
    (c : DecisionConfig) (l : List DecisionEvaluation)
    → accepts c ≡ true
    → All HasPriorities l
    → (k : List Keyed) × (with_keys c l ≡ ok k)
unfolding with_keys
with_keys_total c [] a h = ([], refl)
with_keys_total c (e ∷ l) a h =
    let (key, p) = decision_sort_key_total c e a h.0 in
    let (k, q) = with_keys_total c l a h.1 in ((key, e) ∷ k, rw (p, q))

of_is_eligible : (s : EligibilityStatus) → is_eligible s ≡ true → s ≡ eligible
of_is_eligible s h = ground arith

eligible_only-All :
    (l : List DecisionEvaluation)
    → All (λ e. e.eligibility_status ≡ eligible → HasPriorities e) l
    → All HasPriorities (eligible_only l)
unfolding eligible_only
eligible_only-All [] h = tt
eligible_only-All (e ∷ l) h = elim (Bool-cases (is_eligible e.eligibility_status)) [
  | inl q ↦ rw q (h.0 (of_is_eligible e.eligibility_status q), eligible_only-All l h.1)
  | inr q ↦ rw q (eligible_only-All l h.1)
]

-- With an accepted configuration, evaluations whose eligible members have a ranked class and known
-- levels of confidence are ranked: no priority is missing.
pub rank_eligible_total :
    (c : DecisionConfig) (l : List DecisionEvaluation)
    → accepts c ≡ true
    → All (λ e. e.eligibility_status ≡ eligible → HasPriorities e) l
    → (r : List RankedDecision) × (rank_eligible l c ≡ ok r)
rank_eligible_total c l a h =
    let (k, e) = with_keys_total c (eligible_only l) a (eligible_only-All l h) in
    (ranked_of k, rank_eligible-ranked_of c l k e)

contains-of_reaches : (s : String) (l : List String) → index_of l s ≢ none → contains s l ≡ true
contains-of_reaches s [] h = absurd (h refl)
contains-of_reaches s (x ∷ l) h = ground (arith, contains-of_reaches s l)

-- A confidence gate that passes knows every level.
gate-known :
    (i : DecisionInputs) (c : DecisionConfig)
    → confidence_gate_passed i c ≡ ok true
    → (level_index i.valuation_confidence ≢ none) × (level_index i.future_confidence ≢ none)
unfolding confidence_gate_passed
gate-known i c h = ground arith

-- An evaluation that the orchestrator made has the priorities that a ranking asks for.
pub evaluate-HasPriorities :
    (digest : Payload → String) (c : DecisionConfig) (now : ℕ) (i : DecisionInputs)
    (e : DecisionEvaluation)
    → evaluate digest c now i ≡ ok e
    → e.eligibility_status ≡ eligible
    → HasPriorities e
unfolding level_index
evaluate-HasPriorities digest c now i e h s =
    let j = evaluate-Judged digest c now i h in
    let ranked = (Judged-eligible_iff e j).0 s in
    let (v, f) = gate-known i c (j.gate ∙ ap ok ranked.0) in
    record {
      ranked_class = ranked.2;
      valuation_level =
          rw j.valuation_level (contains-of_reaches i.valuation_confidence confidence_levels v);
      future_level =
          rw j.future_level (contains-of_reaches i.future_confidence confidence_levels f);
    }

-- The evaluation was made by the orchestrator under this configuration.
abbrev pub IsEvaluated : (Payload → String) → DecisionConfig → DecisionEvaluation → Type 0
IsEvaluated digest c e = (now : ℕ) × (i : DecisionInputs) × (evaluate digest c now i ≡ ok e)

IsEvaluated-All :
    (digest : Payload → String) (c : DecisionConfig) (l : List DecisionEvaluation)
    → All (IsEvaluated digest c) l
    → All (λ e. e.eligibility_status ≡ eligible → HasPriorities e) l
IsEvaluated-All digest c [] h = tt
IsEvaluated-All digest c (e ∷ l) h =
    (evaluate-HasPriorities digest c h.0.0 h.0.1 e h.0.2, IsEvaluated-All digest c l h.1)

-- With an accepted configuration, every list of evaluations that the orchestrator made is ranked:
-- no look-up of a priority fails.
pub rank_eligible-evaluated :
    (digest : Payload → String) (c : DecisionConfig) (l : List DecisionEvaluation)
    → accepts c ≡ true
    → All (IsEvaluated digest c) l
    → (r : List RankedDecision) × (rank_eligible l c ≡ ok r)
rank_eligible-evaluated digest c l a h = rank_eligible_total c l a (IsEvaluated-All digest c l h)
