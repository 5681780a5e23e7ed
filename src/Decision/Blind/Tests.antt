-- ===== src/Decision/Blind/Tests.antt =====
-- A batch of three listings, and the theorems at it.
use shanghai_home_radar.Prelude.{
  ℕ, ◌≡◌, refl, true, false, Option, none, some, List, [], ◌∷◌, ok, Result, if◌then◌else◌, ◌==◌,
  All, map,
}
use shanghai_home_radar.Sorting.{sort_by, insert, lex_leb}
use shanghai_home_radar.Collector.Domain.{DataMode}
use shanghai_home_radar.Decision.Domain.{DecisionEvaluation, HumanLabel, BlindEvaluationCase}
use shanghai_home_radar.Decision.Config.{accepts_validation}
use shanghai_home_radar.Decision.Samples.{shipped, expensive, doubtful, discounted}
use shanghai_home_radar.Decision.Ranking.{with_keys, decision_sort_key, eligible_only}
use shanghai_home_radar.Decision.Validation.Metrics.Bounds.{IsShare}
use shanghai_home_radar.Decision.Blind.{
  BlindBatch, BlindItem, create_blind_batch, rank_by_listing, label_blind_item, is_revealed,
  reveal_blind_batch, evaluation_cases,
}
use shanghai_home_radar.Decision.BlindMetrics.{calculate_blind_metrics}
use shanghai_home_radar.Decision.Blind.Sharing.{AtMost, blind_rates, calculate_blind_metrics-bounds}
use shanghai_home_radar.Decision.Blind.Lifecycle.{
  Calls, none_yet, then_call, label_item, reveal_batch, Calls-revealed,
}

abbrev assess : ℕ → Result (ℕ × DecisionEvaluation)
assess id =
    if id == 1
    then ok (11, expensive)
    else if id == 2
    then ok (12, doubtful)
    else ok (13, discounted)

abbrev documents : ℕ → Option ℕ
documents id = some id

created_lem :
    (b : BlindBatch) × (create_blind_batch assess documents shipped "first"
        (1 ∷ 2 ∷ 3 ∷ [])
        DataMode.sample
        true
        5
      ≡ ok b)
    × (map (λ (i : BlindItem). i.frozen_rank) b.items ≡ some 2 ∷ none ∷ some 1 ∷ [])
unfolding create_blind_batch rank_by_listing with_keys decision_sort_key eligible_only sort_by
    insert lex_leb
created_lem = (_, refl, refl)

abbrev created : BlindBatch
created = created_lem.0

one_labeled : (b : BlindBatch) × (label_blind_item 6 1 HumanLabel.wait none created ≡ ok b)
unfolding label_blind_item created_lem
one_labeled = (_, refl)

two_labeled :
    (b : BlindBatch) × (label_blind_item 7 2 HumanLabel.value_trap none one_labeled.0 ≡ ok b)
unfolding label_blind_item created_lem one_labeled
two_labeled = (_, refl)

all_labeled :
    (b : BlindBatch) × (label_blind_item 8 3 HumanLabel.worth_viewing none two_labeled.0 ≡ ok b)
    × (is_revealed b ≡ false)
unfolding label_blind_item created_lem one_labeled two_labeled
all_labeled = (_, refl, refl)

shown :
    (b : BlindBatch) × (reveal_blind_batch 9 shipped all_labeled.0 ≡ ok b) × (is_revealed b ≡ true)
unfolding reveal_blind_batch all_labeled two_labeled one_labeled created_lem
shown = (_, refl, refl)

to_shown : Calls created shown.0
to_shown =
    then_call
      (then_call
        (then_call (then_call none_yet (label_item 6 1 HumanLabel.wait none one_labeled.1))
          (label_item 7 2 HumanLabel.value_trap none two_labeled.1))
        (label_item 8 3 HumanLabel.worth_viewing none all_labeled.1))
      (reveal_batch 9 shipped shown.1)

again : reveal_blind_batch 10 shipped shown.0 ≡ ok shown.0
unfolding reveal_blind_batch shown all_labeled two_labeled one_labeled created_lem
again = refl

Calls-revealed_example : shown.0 ≡ shown.0
Calls-revealed_example =
    Calls-revealed shown.0 shown.0 (then_call none_yet (reveal_batch 10 shipped again)) shown.2

labeled_cases :
    (cases : List BlindEvaluationCase) × (evaluation_cases all_labeled.0.items ≡ ok cases)
unfolding all_labeled two_labeled one_labeled created_lem
labeled_cases = (_, refl)

accepted : accepts_validation shipped.validation ≡ true
unfolding accepts_validation
accepted = refl

calculate_blind_metrics-bounds_example :
    All IsShare (blind_rates (calculate_blind_metrics labeled_cases.0 shipped.validation))
    × AtMost
        (calculate_blind_metrics labeled_cases.0 shipped.validation).precision_at_10
        (calculate_blind_metrics labeled_cases.0 shipped.validation).top_10_manual_acceptance_rate
calculate_blind_metrics-bounds_example =
    calculate_blind_metrics-bounds labeled_cases.0 shipped.validation accepted
