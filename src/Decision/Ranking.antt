-- ===== src/Decision/Ranking.antt =====
-- services/decision/src/home_radar_decision/ranking.py
pub mod Order
pub mod Listing
pub mod Total
use shanghai_home_radar.Prelude.{
  ℕ, suc, ℤ, pos, neg, Bool, Option, none, some, List, [], ◌∷◌, String, Decimal, whole, or_else,
  select, length, item, Result, ok, err, ◌>>=◌, leb_ℤ, if◌then◌else◌, map,
}
use shanghai_home_radar.Sorting.{sort_by, lex_leb}
use shanghai_home_radar.Decision.Domain.{DecisionEvaluation, RankedDecision, class_text}
use shanghai_home_radar.Decision.Config.{DecisionConfig}
use shanghai_home_radar.Decision.Workflow.{is_eligible}

-- `min(a, b)`
abbrev pub min_ℤ : ℤ → ℤ → ℤ
min_ℤ a b = if leb_ℤ a b then a else b

-- A key tuple. The texts of two UUIDs compare as their numbers do.
unfoldable pub decision_sort_key : DecisionEvaluation → DecisionConfig → Result (List ℤ)
decision_sort_key e config = do
  class_priority ←
      item config.ranking.classification_priority (class_text e.opportunity_classification)
  valuation_priority ← item config.ranking.confidence_priority e.valuation_confidence
  future_priority ← item config.ranking.confidence_priority e.future_confidence
  ok (
      neg class_priority
      ∷ neg (min_ℤ valuation_priority future_priority)
      ∷ neg (or_else e.liquidity_score (pos 0))
      ∷ neg (or_else e.future_score (pos 0))
      ∷ neg e.value_score
      ∷ or_else e.obsolescence_risk (whole 101)
      ∷ neg e.structural_alpha
      ∷ pos e.listing_id
      ∷ [])

abbrev pub Keyed : Type 0
Keyed = List ℤ × DecisionEvaluation

-- `sorted` computes the keys of all elements before it compares any.
unfoldable pub with_keys : DecisionConfig → List DecisionEvaluation → Result (List Keyed)
unfolding decision_sort_key
with_keys config [] = ok []
with_keys config (e ∷ es) = do
  key ← decision_sort_key e config
  rest ← with_keys config es
  ok ((key, e) ∷ rest)

abbrev pub keyed_leb : Keyed → Keyed → Bool
keyed_leb a b = lex_leb a.0 b.0

-- `enumerate(ordered, start=index)`
unfoldable pub number_from : ℕ → ℕ → List Keyed → List RankedDecision
number_from index count [] = []
number_from index count ((key, e) ∷ rest) =
    record { rank = index; eligible_count = count; evaluation = e }
    ∷ number_from (suc index) count rest

unfoldable pub eligible_only : List DecisionEvaluation → List DecisionEvaluation
eligible_only = select (λ e. is_eligible e.eligibility_status)

unfoldable pub rank_eligible :
    List DecisionEvaluation → DecisionConfig → Result (List RankedDecision)
rank_eligible evaluations config = do
  keyed ← with_keys config (eligible_only evaluations)
  let ordered = sort_by keyed_leb keyed
  ok (number_from 1 (length ordered) ordered)
