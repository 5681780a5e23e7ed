-- ===== src/Decision/BlindMetrics.antt =====
-- services/decision/src/home_radar_decision/validation.py: the metrics of a blind batch.
use shanghai_home_radar.Prelude.{
  Bool, true, false, not, ◌||◌, Option, List, String, Decimal, str_eq, is_none, or_else, leb,
  length, take, select, count_if, contains,
}
use shanghai_home_radar.Sorting.{sort_by}
use shanghai_home_radar.Decision.Domain.{
  WorkflowState, HumanLabel, BlindEvaluationCase, BlindEvaluationMetrics,
}
use shanghai_home_radar.Decision.Config.{ValidationConfig}
use shanghai_home_radar.Decision.Workflow.{is_eligible}
use shanghai_home_radar.Decision.Gate.{rate}

abbrev pub label_text : HumanLabel → String
label_text HumanLabel.worth_viewing = "WORTH_VIEWING"
label_text HumanLabel.wait = "WAIT"
label_text HumanLabel.value_trap = "VALUE_TRAP"
label_text HumanLabel.pass = "PASS"

abbrev pub is_trap : BlindEvaluationCase → Bool
is_trap x = elim x.human_label [ HumanLabel.value_trap ↦ true | _ ↦ false ]

abbrev pub is_view : BlindEvaluationCase → Bool
is_view x = elim x.workflow_state [ WorkflowState.view ↦ true | _ ↦ false ]

-- The label is the strict one, or one of those that are accepted.
abbrev pub is_strict : ValidationConfig → BlindEvaluationCase → Bool
is_strict c x = str_eq (label_text x.human_label) c.strict_positive_label

abbrev pub is_accepted : ValidationConfig → BlindEvaluationCase → Bool
is_accepted c x = contains (label_text x.human_label) c.accepted_labels

abbrev pub by_rank : BlindEvaluationCase → BlindEvaluationCase → Bool
by_rank x y = leb (or_else x.rank 0) (or_else y.rank 0)

unfoldable pub ranked_blind : List BlindEvaluationCase → List BlindEvaluationCase
ranked_blind cases =
    sort_by by_rank (select (λ (x : BlindEvaluationCase). not (is_none x.rank)) cases)

abbrev pub share : (BlindEvaluationCase → Bool) → List BlindEvaluationCase → Option Decimal
share p cases = rate (count_if p cases) (length cases)

-- `_strict_precision`
unfoldable pub strict_precision : List BlindEvaluationCase → ValidationConfig → Option Decimal
strict_precision cases c = share (is_strict c) cases

unfoldable pub calculate_blind_metrics :
    List BlindEvaluationCase → ValidationConfig → BlindEvaluationMetrics
unfolding ranked_blind strict_precision
calculate_blind_metrics cases c =
    let ranked = ranked_blind cases in
    record {
      labeled_count = length cases;
      precision_at_5 = strict_precision (take 5 ranked) c;
      precision_at_10 = strict_precision (take 10 ranked) c;
      value_trap_false_positive_rate =
          share (λ (x : BlindEvaluationCase). is_eligible x.eligibility_status || is_view x)
            (select is_trap cases);
      view_acceptance_rate = share (is_strict c) (select is_view cases);
      top_10_manual_acceptance_rate = share (is_accepted c) (take 10 ranked);
    }
