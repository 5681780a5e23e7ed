-- ===== src/Decision/Validation/Metrics.antt =====
-- services/decision/src/home_radar_decision/p56_metrics.py: `calculate_real_world_metrics`. The levels
-- of confidence are written in lower case, so that `lower` keeps them.
pub mod Bounds
pub mod Matrix
use shanghai_home_radar.Prelude.{
  ℕ, Bool, true, false, not, ◌&&◌, ◌||◌, Option, none, some, List, [], ◌∷◌, String, Result, ok, err,
  key_error, leb, ◌==◌, str_eq, is_none, or_else, if◌then◌else◌, length, take, select, count_if,
  contains, dedupe, text_leb, map, ◌>>=◌, ◌>>◌, Decimal,
}
use shanghai_home_radar.Sorting.{sort_by}
use shanghai_home_radar.Decision.Gate.{rate}
use shanghai_home_radar.Decision.Validation.{MetricCase, RealWorldMetrics, Review}

abbrev pub human_classes : List String
human_classes =
    "QUALITY_AT_DISCOUNT" ∷ "GOOD_BUT_EXPENSIVE" ∷ "VALUE_TRAP" ∷ "LOW_QUALITY"
    ∷ "INSUFFICIENT_INFORMATION" ∷ []

abbrev pub model_classes : List String
model_classes =
    "QUALITY_AT_DISCOUNT" ∷ "GOOD_BUT_EXPENSIVE" ∷ "VALUE_TRAP" ∷ "LOW_QUALITY"
    ∷ "INSUFFICIENT_DATA" ∷ []

abbrev pub has_class : String → MetricCase → Bool
has_class c x = str_eq x.human_class c

-- `human_class.replace(..)`: a class is one of `human_classes`, so only the whole text is replaced.
abbrev pub as_model_class : String → String
as_model_class c = if str_eq c "INSUFFICIENT_INFORMATION" then "INSUFFICIENT_DATA" else c

-- `_is_error`
unfoldable pub is_error : MetricCase → Bool
is_error x =
    not (str_eq (as_model_class x.human_class) x.model_class)
    || not (str_eq x.human_workflow x.model_workflow)

-- `_confidence_band`
abbrev pub is_high_confidence : MetricCase → Bool
is_high_confidence x = str_eq x.valuation_confidence "high" && str_eq x.future_confidence "high"

abbrev pub is_weak : String → Bool
is_weak level = str_eq level "low" || str_eq level "insufficient"

abbrev pub is_low_confidence : MetricCase → Bool
is_low_confidence x = is_weak x.valuation_confidence || is_weak x.future_confidence

-- The rank of a case that has one.
abbrev pub rank_leb : MetricCase → MetricCase → Bool
rank_leb x y = leb (or_else x.rank 0) (or_else y.rank 0)

unfoldable pub ranked_cases : List MetricCase → List MetricCase
ranked_cases cases = sort_by rank_leb (select (λ (x : MetricCase). not (is_none x.rank)) cases)

-- The share of the cases that fit.
unfoldable pub share_of : (MetricCase → Bool) → List MetricCase → Option Decimal
share_of p cases = rate (count_if p cases) (length cases)

-- The reviews of the cases, in the order of the cases.
abbrev pub reviewed_of : (ℕ → Option Review) → List MetricCase → List Review
reviewed_of reviews [] = []
reviewed_of reviews (x ∷ xs) = elim (reviews x.listing_id) [
  | none ↦ reviewed_of reviews xs
  | some r ↦ r ∷ reviewed_of reviews xs
]

abbrev pub has_verdict : String → Review → Bool
has_verdict v r = str_eq r.why_ranked_verdict v

-- The root causes that are given and not empty.
abbrev pub root_causes : List Review → List String
root_causes [] = []
root_causes (r ∷ rs) = elim r.root_cause [
  | none ↦ root_causes rs
  | some c ↦ if str_eq c "" then root_causes rs else c ∷ root_causes rs
]

abbrev pub tally_of : List String → String → String × ℕ
tally_of all c = (c, count_if (str_eq c) all)

-- `dict(sorted(Counter(..).items()))`
unfoldable pub root_cause_distribution_of : List Review → List (String × ℕ)
root_cause_distribution_of reviews =
    map (tally_of (root_causes reviews)) (sort_by text_leb (dedupe (root_causes reviews)))

-- One row of the matrix.
abbrev pub confusion_row : List MetricCase → String → String × List (String × ℕ)
confusion_row cases h = (
  h,
  map (λ m. (m, count_if (λ (x : MetricCase). has_class h x && str_eq x.model_class m) cases))
      model_classes,
)

-- A class that the matrix lacks raises.
abbrev pub check_classes : List MetricCase → Result (Unit {0})
check_classes [] = ok tt
check_classes (x ∷ xs) =
    let rest = check_classes xs in
    if not (contains x.human_class human_classes)
    then err (key_error x.human_class)
    else if not (contains x.model_class model_classes)
    then err (key_error x.model_class)
    else rest

-- The matrix of the classes.
unfoldable pub confusion_matrix : List MetricCase → Result (List (String × List (String × ℕ)))
confusion_matrix cases = do check_classes cases; ok (map (confusion_row cases) human_classes)

unfoldable pub calculate_real_world_metrics :
    List MetricCase → (ℕ → Option Review) → Result RealWorldMetrics
unfolding ranked_cases share_of root_cause_distribution_of is_error
calculate_real_world_metrics cases reviews = do
  matrix ← confusion_matrix cases
  let ranked = ranked_cases cases
  let top5 = take 5 ranked
  let top10 = take 10 ranked
  let reviewed = reviewed_of reviews cases
  ok (record {
    sample_size = length cases;
    ranked_count = length ranked;
    precision_at_5 = share_of (has_class "QUALITY_AT_DISCOUNT") top5;
    precision_at_10 = share_of (has_class "QUALITY_AT_DISCOUNT") top10;
    human_acceptance_at_5 = share_of (λ (x : MetricCase). x.human_would_visit) top5;
    human_acceptance_at_10 = share_of (λ (x : MetricCase). x.human_would_visit) top10;
    human_view_recall =
        share_of (λ (x : MetricCase). str_eq x.model_workflow "VIEW")
          (select (λ (x : MetricCase). str_eq x.human_workflow "VIEW") cases);
    value_trap_false_positive_rate =
        share_of
          (λ (x : MetricCase).
            not (str_eq x.model_class "VALUE_TRAP")
            && (str_eq x.model_eligibility "ELIGIBLE" || str_eq x.model_workflow "VIEW"))
          (select (has_class "VALUE_TRAP") cases);
    value_traps_at_5 = count_if (has_class "VALUE_TRAP") top5;
    value_traps_at_10 = count_if (has_class "VALUE_TRAP") top10;
    value_trap_rate_at_5 = share_of (has_class "VALUE_TRAP") top5;
    value_trap_rate_at_10 = share_of (has_class "VALUE_TRAP") top10;
    workflow_accuracy =
        share_of (λ (x : MetricCase). str_eq x.human_workflow x.model_workflow) cases;
    opportunity_confusion_matrix = matrix;
    why_ranked_agreement_rate = rate (count_if (has_verdict "AGREE") reviewed) (length reviewed);
    why_ranked_major_contradiction_rate =
        rate (count_if (has_verdict "CONTRADICT") reviewed) (length reviewed);
    reviewed_count = length reviewed;
    error_count = count_if is_error cases;
    high_confidence_error_rate = share_of is_error (select is_high_confidence cases);
    low_confidence_error_rate = share_of is_error (select is_low_confidence cases);
    regret_at_5 = count_if (λ (x : MetricCase). not x.human_would_visit) top5;
    root_cause_distribution = root_cause_distribution_of reviewed;
  })
