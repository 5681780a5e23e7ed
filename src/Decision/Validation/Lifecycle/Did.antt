-- ===== src/Decision/Validation/Lifecycle/Did.antt =====
-- What an operation does to a run when it returns.
use shanghai_home_radar.Prelude.{
  ℕ, true, false, ◌≡◌, ◌⊎◌, inl, inr, List, String, ◌++◌, ◌∷◌, [], ok, arith, every, Bool-cases,
  Option-cases, Result-cases, length, count_if, none, contains,
}
use shanghai_home_radar.Collector.Repository.{find, any}
use shanghai_home_radar.Decision.Gate.{gate_recommendation}
use shanghai_home_radar.Decision.Validation.{
  ValidationItem, ValidationRun, RealWorldMetrics, Amendment, blind_labeling, labels_frozen,
  model_generated, revealed, finalized,
}
use shanghai_home_radar.Decision.Validation.Stages.{
  Environment, LabelRequest, has_status, labeled_run, frozen_run, label_validation_item,
  freeze_human_labels, fully_labeled, for_listing, item_of,
}
use shanghai_home_radar.Decision.Validation.Generation.{
  generate_model_results, generated_run, fill_items, assess_all, evaluations,
}
use shanghai_home_radar.Decision.Validation.Closing.{
  ReviewRequest, review_of, reveal_validation_run, revealed_run, is_open_to_review, record_review,
  append_label_amendment, finalize_validation_run, finalized_run, has_review, review_in,
  gate_metrics, metric_cases, of_item, check_root_causes, metric_case,
}
use shanghai_home_radar.Decision.Domain.{DecisionEvaluation, RankedDecision}
use shanghai_home_radar.Decision.Ranking.{rank_eligible}
use shanghai_home_radar.Decision.Validation.Metrics.{calculate_real_world_metrics, human_classes}

pub label_validation_item-did :
    (now : ℕ) (q : LabelRequest) (s t : ValidationRun)
    → label_validation_item now q s ≡ ok t
    → (has_status blind_labeling s ≡ true)
      × (contains q.opportunity_classification human_classes ≡ true)
      × (t ≡ labeled_run now q s)
unfolding label_validation_item
label_validation_item-did now q s t h =
    elim (Option-cases (find (for_listing q.listing_id) s.items)) [
      | inl e ↦ ground (arith, e, h)
      | inr (i, e) ↦ ground (arith, e, h)
    ]

pub freeze_human_labels-did :
    (env : Environment) (now : ℕ) (s t : ValidationRun)
    → freeze_human_labels env now s ≡ ok t
    → (t ≡ s)
      ⊎ ((has_status blind_labeling s ≡ true)
          × (every fully_labeled s.items ≡ true)
          × (t ≡ frozen_run env now s))
unfolding freeze_human_labels
freeze_human_labels-did env now s t h = ground (arith, h)

pub fill_items-of :
    (env : Environment) (now : ℕ) (s t : ValidationRun)
    → generate_model_results env now s ≡ ok t
    → (t ≡ s)
      ⊎ ((has_status labels_frozen s ≡ true)
          × ((assessments : List (ℕ × DecisionEvaluation)) × (ranked : List RankedDecision)
              × (items : List ValidationItem) × (fill_items assessments ranked s.items ≡ ok items)
              × (t ≡ generated_run env now items s)))
unfolding generate_model_results
fill_items-of env now s t h = elim (Result-cases (assess_all env s.items)) [
  | inr (x, e) ↦ ground (arith, e, h)
  | inl (a, e) ↦ elim (Result-cases (rank_eligible (evaluations a) env.decision_config)) [
    | inr (x, f) ↦ ground (arith, e, f, h)
    | inl (ranked, f) ↦ elim (Result-cases (fill_items a ranked s.items)) [
      | inr (x, g) ↦ ground (arith, e, f, g, h)
      | inl (items, g) ↦ elim (Bool-cases (has_status model_generated s)) [
        | inl c ↦ inl (ground (arith, c, h))
        | inr c ↦
            inr
              (ground (arith, c, e, f, g, h), (a, ranked, items, g, ground (arith, c, e, f, g, h)))
      ]
    ]
  ]
]

pub reveal_validation_run-did :
    (env : Environment) (now : ℕ) (s t : ValidationRun)
    → reveal_validation_run env now s ≡ ok t
    → (t ≡ s)
      ⊎ ((has_status model_generated s ≡ true)
          × ((values : RealWorldMetrics) × (t ≡ revealed_run now values s)))
unfolding reveal_validation_run
reveal_validation_run-did env now s t h = elim (Bool-cases (is_open_to_review s)) [
  | inl c ↦ inl (ground (arith, c, h))
  | inr c ↦ elim (Result-cases (metric_cases s.items)) [
    | inr (x, e) ↦ ground (arith, c, e, h)
    | inl (cases, e) ↦ elim (Result-cases (calculate_real_world_metrics cases (λ _. none))) [
      | inr (x, f) ↦ ground (arith, c, e, f, h)
      | inl (values, f) ↦ inr (ground (arith, c, e, f, h), (values, ground (arith, c, e, f, h)))
    ]
  ]
]

pub record_review-did :
    (q : ReviewRequest) (s t : ValidationRun)
    → record_review q s ≡ ok t
    → (is_open_to_review s ≡ true)
      × ((i : ValidationItem) × (item_of s q.listing_id ≡ ok i)
          × (any (of_item i.id) s.reviews ≡ false)
          × (t ≡ record s { reviews = s.reviews ++ review_of q i ∷ [] }))
unfolding record_review
record_review-did q s t h = elim (Result-cases (item_of s q.listing_id)) [
  | inr (x, e) ↦ ground (arith, e, h)
  | inl (i, e) ↦ elim (Result-cases (metric_case i)) [
    | inr (x, f) ↦ ground (arith, e, f, h)
    | inl (case, f) ↦
        (ground (arith, e, f, h), (i, e, ground (arith, e, f, h), ground (arith, e, f, h)))
  ]
]

pub append_label_amendment-did :
    (listing proposed : ℕ) (reason : String) (s t : ValidationRun)
    → append_label_amendment listing proposed reason s ≡ ok t
    → (is_open_to_review s ≡ true)
      × ((a : List Amendment) × (t ≡ record s { amendments = s.amendments ++ a }))
unfolding append_label_amendment
append_label_amendment-did listing proposed reason s t h = elim (Result-cases (item_of s listing)) [
  | inr (x, e) ↦ ground (arith, e, h)
  | inl (i, e) ↦ (
    ground (arith, e, h),
    (
      record { item_id = i.id; proposed_label = proposed; reason = reason } ∷ [],
      ground (arith, e, h),
    ),
  )
]

pub finalize_validation_run-did :
    (env : Environment) (now : ℕ) (s t : ValidationRun)
    → finalize_validation_run env now s ≡ ok t
    → (t ≡ s)
      ⊎ ((has_status revealed s ≡ true)
          × (count_if (has_review s.reviews) s.items ≡ length s.items)
          × (check_root_causes s.reviews s.items ≡ ok tt)
          × ((values : RealWorldMetrics) × (t
                ≡ finalized_run now values (gate_recommendation (gate_metrics values) env.gate) s)))
unfolding finalize_validation_run
finalize_validation_run-did env now s t h = elim (Bool-cases (has_status finalized s)) [
  | inl c ↦ inl (ground (arith, c, h))
  | inr c ↦ elim (Result-cases (metric_cases s.items)) [
    | inr (x, e) ↦ ground (arith, c, e, h)
    | inl (cases, e) ↦
        elim (Result-cases (calculate_real_world_metrics cases (review_in s.items s.reviews))) [
          | inr (x, f) ↦ ground (arith, c, e, f, h)
          | inl (values, f) ↦ inr (
            ground (arith, c, e, f, h),
            ground (arith, c, e, f, h),
            ground (arith, c, e, f, h),
            (values, ground (arith, c, e, f, h)),
          )
        ]
  ]
]
