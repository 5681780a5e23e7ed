-- ===== src/Decision/Validation/Lifecycle/Sound.antt =====
-- Every operation keeps the invariant.
use mathlib.Core.Path.{subst}
use shanghai_home_radar.Prelude.{
  ℕ, ◌≡◌, refl, sym, ◌∙◌, ◌≤◌, true, false, inl, inr, some, List, [], ◌∷◌, ◌++◌, ok, arith, map, ap,
  every, contains,
}
use shanghai_home_radar.Sorting.{sort_by}
use shanghai_home_radar.Collector.Repository.{any}
use shanghai_home_radar.Collector.Rows.{Distinct-snoc}
use shanghai_home_radar.Decision.Domain.{DecisionEvaluation, RankedDecision}
use shanghai_home_radar.Decision.Gate.{gate_recommendation}
use shanghai_home_radar.Decision.Validation.{
  ValidationItem, ValidationRun, Review, Amendment, RealWorldMetrics, blind_labeling, labels_frozen,
  model_generated, revealed,
}
use shanghai_home_radar.Decision.Validation.Metrics.{human_classes}
use shanghai_home_radar.Decision.Validation.Entries.{dataset_row, by_listing}
use shanghai_home_radar.Decision.Validation.Stages.{
  Environment, label_row, model_row, LabelRequest, labeled_run, frozen_run, fully_labeled,
}
use shanghai_home_radar.Decision.Validation.Generation.{fill_items, generated_run}
use shanghai_home_radar.Decision.Validation.Closing.{
  ReviewRequest, has_review, review_of, of_item, gate_metrics, revealed_run, finalized_run,
}
use shanghai_home_radar.Decision.Validation.Lifecycle.{
  Step, Reach, label, freeze, generate, reveal, review, amend, finalize, start, later,
}
use shanghai_home_radar.Decision.Validation.Lifecycle.Did.{
  label_validation_item-did, freeze_human_labels-did, fill_items-of, reveal_validation_run-did,
  record_review-did, append_label_amendment-did, finalize_validation_run-did,
}
use shanghai_home_radar.Decision.Validation.Lifecycle.Frozen.{
  code, map-fill_items, map-label-dataset_row, has_status-code,
}
use shanghai_home_radar.Decision.Validation.Lifecycle.Invariant.{
  has_snapshot, same_item, IsSound, every-of-count_if, every-fill_items, fill_items-readable,
  label-readable, every-has_review,
}

pub freeze-IsSound :
    (env : Environment) (now : ℕ) (s : ValidationRun)
    → code s ≡ 0
    → every fully_labeled s.items ≡ true
    → IsSound env s
    → IsSound env (frozen_run env now s)
freeze-IsSound env now s at full h = record {
  protocol = h.protocol;
  dataset = h.dataset;
  readable = h.readable;
  labels = inr (full, refl);
  models = inl (omega arith);
  reviews = h.reviews;
  final = inl (omega arith);
}

label-IsSound :
    (env : Environment) (now : ℕ) (q : LabelRequest) (s : ValidationRun)
    → code s ≡ 0
    → contains q.opportunity_classification human_classes ≡ true
    → IsSound env s
    → IsSound env (labeled_run now q s)
label-IsSound env now q s at known h = record {
  protocol = h.protocol;
  dataset =
      ap (λ rows. env.dataset_digest (sort_by by_listing rows))
        (map-label-dataset_row now q s.items)
      ∙ h.dataset;
  readable = label-readable now q s.items known h.readable;
  labels = inl at;
  models = inl (omega (arith, at));
  reviews = h.reviews;
  final = inl (omega (arith, at));
}

pub after_labels :
    {env : Environment} {s : ValidationRun}
    → IsSound env s
    → 1 ≤ code s
    → (every fully_labeled s.items ≡ true)
      × (s.batch.human_labels_fingerprint ≡ some (env.labels_digest (map label_row s.items)))
after_labels h c = elim h.labels [ inl z ↦ ground (arith, z, c) | inr k ↦ k ]

pub after_models :
    {env : Environment} {s : ValidationRun}
    → IsSound env s
    → 2 ≤ code s
    → (every has_snapshot s.items ≡ true)
      × (s.batch.model_outputs_fingerprint ≡ some (env.models_digest (map model_row s.items)))
after_models h c = elim h.models [ inl z ↦ ground (arith, z, c) | inr k ↦ k ]

generate-IsSound :
    (env : Environment) (now : ℕ) (s : ValidationRun) (a : List (ℕ × DecisionEvaluation))
    (ranked : List RankedDecision) (items : List ValidationItem)
    → code s ≡ 1
    → fill_items a ranked s.items ≡ ok items
    → IsSound env s
    → IsSound env (generated_run env now items s)
unfolding fully_labeled
generate-IsSound env now s a ranked items at fill h =
    let (readable, snapshots) = fill_items-readable a ranked s.items items h.readable fill in
    let (full, print) = after_labels h (omega (arith, at)) in
    record {
      protocol = h.protocol;
      dataset =
          ap (λ rows. env.dataset_digest (sort_by by_listing rows))
            (map-fill_items dataset_row a ranked s.items items (λ _ _ _. refl) fill)
          ∙ h.dataset;
      readable = readable;
      labels = inr (
        every-fill_items fully_labeled a ranked s.items items (λ _ _ _. refl) fill ∙ full,
        print
            ∙ ap (λ rows. some (env.labels_digest rows))
                (sym (map-fill_items label_row a ranked s.items items (λ _ _ _. refl) fill)),
      );
      models = inr (snapshots, refl);
      reviews = h.reviews;
      final = inl (omega arith);
    }

reveal-IsSound :
    (env : Environment) (now : ℕ) (values : RealWorldMetrics) (s : ValidationRun)
    → code s ≡ 2
    → IsSound env s
    → IsSound env (revealed_run now values s)
reveal-IsSound env now values s at h = record {
  protocol = h.protocol;
  dataset = h.dataset;
  readable = h.readable;
  labels = inr (after_labels h (omega (arith, at)));
  models = inr (after_models h (omega (arith, at)));
  reviews = h.reviews;
  final = inl (omega arith);
}

finalize-IsSound :
    (env : Environment) (now : ℕ) (values : RealWorldMetrics) (s : ValidationRun)
    → code s ≡ 3
    → every (has_review s.reviews) s.items ≡ true
    → IsSound env s
    → IsSound env (finalized_run now values (gate_recommendation (gate_metrics values) env.gate) s)
finalize-IsSound env now values s at all h = record {
  protocol = h.protocol;
  dataset = h.dataset;
  readable = h.readable;
  labels = inr (after_labels h (omega (arith, at)));
  models = inr (after_models h (omega (arith, at)));
  reviews = h.reviews;
  final = inr (all, (values, refl, refl));
}

same_item_symm : (a b : Review) → same_item a b ≡ same_item b a
same_item_symm a b = ground arith

review-IsSound :
    (env : Environment) (q : ReviewRequest) (i : ValidationItem) (s : ValidationRun)
    → any (of_item i.id) s.reviews ≡ false
    → IsSound env s
    → IsSound env (record s { reviews = s.reviews ++ review_of q i ∷ [] })
review-IsSound env q i s new h = record {
  protocol = h.protocol;
  dataset = h.dataset;
  readable = h.readable;
  labels = h.labels;
  models = h.models;
  reviews = Distinct-snoc same_item same_item_symm s.reviews (review_of q i) h.reviews new;
  final = elim h.final [
    | inl c ↦ inl c
    | inr (all, rest) ↦ inr (every-has_review s.reviews (review_of q i ∷ []) s.items all, rest)
  ];
}

amend-IsSound :
    (env : Environment) (a : List Amendment) (s : ValidationRun)
    → IsSound env s
    → IsSound env (record s { amendments = s.amendments ++ a })
amend-IsSound env a s h = record {
  protocol = h.protocol;
  dataset = h.dataset;
  readable = h.readable;
  labels = h.labels;
  models = h.models;
  reviews = h.reviews;
  final = h.final;
}

moved : (env : Environment) {t t' : ValidationRun} → t ≡ t' → IsSound env t' → IsSound env t
moved env e h = subst (IsSound env) (sym e) h

Step-IsSound :
    (env : Environment) (s t : ValidationRun) → Step env s t → IsSound env s → IsSound env t
Step-IsSound env s t (label now q h) sound =
    let (b, known, e) = label_validation_item-did now q s t h in
    moved env e (label-IsSound env now q s (has_status-code blind_labeling s b) known sound)
Step-IsSound env s t (freeze now h) sound = elim (freeze_human_labels-did env now s t h) [
  | inl e ↦ moved env e sound
  | inr (b, full, e) ↦
      moved env e (freeze-IsSound env now s (has_status-code blind_labeling s b) full sound)
]
Step-IsSound env s t (generate now h) sound = elim (fill_items-of env now s t h) [
  | inl e ↦ moved env e sound
  | inr (b, (a, ranked, items, fill, e)) ↦
      moved env e
        (generate-IsSound env now s a ranked items (has_status-code labels_frozen s b) fill sound)
]
Step-IsSound env s t (reveal now h) sound = elim (reveal_validation_run-did env now s t h) [
  | inl e ↦ moved env e sound
  | inr (b, (values, e)) ↦
      moved env e (reveal-IsSound env now values s (has_status-code model_generated s b) sound)
]
Step-IsSound env s t (review q h) sound =
    let (is_open, (i, found, new, e)) = record_review-did q s t h in
    moved env e (review-IsSound env q i s new sound)
Step-IsSound env s t (amend listing proposed reason h) sound =
    let (is_open, (a, e)) = append_label_amendment-did listing proposed reason s t h in
    moved env e (amend-IsSound env a s sound)
Step-IsSound env s t (finalize now h) sound = elim (finalize_validation_run-did env now s t h) [
  | inl e ↦ moved env e sound
  | inr (b, all, causes, (values, e)) ↦ moved env e (
      finalize-IsSound env now values s (has_status-code revealed s b)
        (every-of-count_if (has_review s.reviews) s.items all) sound)
]

pub Reach-IsSound :
    (env : Environment) (s t : ValidationRun) → Reach env s t → IsSound env s → IsSound env t
Reach-IsSound env s t start sound = sound
Reach-IsSound env s u (later {t} r step) sound =
    Step-IsSound env t u step (Reach-IsSound env s t r sound)
