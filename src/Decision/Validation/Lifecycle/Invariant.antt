-- ===== src/Decision/Validation/Lifecycle/Invariant.antt =====
-- The invariant of the runs that the operations lead to, and what they keep of it in the items.
use shanghai_home_radar.Prelude.{
  ℕ, ◌≡◌, ◌⊎◌, refl, sym, ◌∙◌, ◌≤◌, Bool, true, not, ◌&&◌, inl, inr, Option, none, some, List, [],
  ◌∷◌, ◌++◌, String, ok, arith, map, Bool-cases, Option-cases, Result-cases, str_eq, ap, every,
  contains, is_none, count_if, length, count_if-le-length, and_left, and_right,
}
use shanghai_home_radar.Collector.Repository.{update_where, any}
use shanghai_home_radar.Collector.Rows.{Distinct}
use shanghai_home_radar.Decision.Domain.{
  DecisionEvaluation, RankedDecision, OpportunityClassification, class_text,
}
use shanghai_home_radar.Decision.Gate.{gate_recommendation}
use shanghai_home_radar.Decision.Validation.{
  ValidationItem, ValidationRun, ModelSnapshot, Review, RealWorldMetrics,
}
use shanghai_home_radar.Decision.Validation.Metrics.{human_classes, model_classes}
use shanghai_home_radar.Decision.Validation.Entries.{dataset_rows}
use shanghai_home_radar.Decision.Validation.Stages.{
  Environment, label_row, model_row, LabelRequest, columns_of, for_listing, fully_labeled,
}
use shanghai_home_radar.Decision.Validation.Generation.{fill_items, filled_item, assessment_of}
use shanghai_home_radar.Decision.Validation.Closing.{has_review, of_item, gate_metrics}
use shanghai_home_radar.Decision.Validation.Lifecycle.Frozen.{code, map-fill_items}

-- The classes are those that the metrics count.
abbrev pub is_known_class : Option String → Bool
is_known_class none = true
is_known_class (some c) = contains c human_classes

abbrev pub is_known_snapshot : Option ModelSnapshot → Bool
is_known_snapshot none = true
is_known_snapshot (some m) = contains m.opportunity_classification model_classes

abbrev pub is_readable : ValidationItem → Bool
is_readable i =
    is_known_class i.human.opportunity_classification && is_known_snapshot i.model_snapshot

abbrev pub has_snapshot : ValidationItem → Bool
has_snapshot i = not (is_none i.model_snapshot)

-- Two reviews of one item.
abbrev pub same_item : Review → Review → Bool
same_item a b = of_item a.item_id b

pub record IsSound (env : Environment) (r : ValidationRun) : Type 0 where
  pub protocol : str_eq r.batch.protocol_version "p5.6" ≡ true
  pub dataset : env.dataset_digest (dataset_rows r.items) ≡ r.batch.dataset_fingerprint
  pub readable : every is_readable r.items ≡ true
  pub labels :
      (code r ≡ 0)
      ⊎ ((every fully_labeled r.items ≡ true)
          × (r.batch.human_labels_fingerprint ≡ some (env.labels_digest (map label_row r.items))))
  pub models :
      (code r ≤ 1)
      ⊎ ((every has_snapshot r.items ≡ true)
          × (r.batch.model_outputs_fingerprint ≡ some (env.models_digest (map model_row r.items))))
  pub reviews : Distinct same_item r.reviews
  pub final :
      (code r ≤ 3)
      ⊎ ((every (has_review r.reviews) r.items ≡ true)
          × ((values : RealWorldMetrics) × (r.batch.metrics
                ≡ some (record {
                  values = values;
                  gate_checks = some (gate_recommendation (gate_metrics values) env.gate).1;
                }))
              × (r.batch.final_recommendation
                  ≡ some (gate_recommendation (gate_metrics values) env.gate).0)))

pub every-map {ℓ} :
    {A : Type ℓ} (p : A → Bool) (xs : List A) → every p xs ≡ every (λ b. b) (map p xs)
every-map p [] = refl
every-map p (x ∷ xs) = ap (λ b. p x && b) (every-map p xs)

pub every-of-count_if {ℓ} :
    {A : Type ℓ} (p : A → Bool) (xs : List A) → count_if p xs ≡ length xs → every p xs ≡ true
every-of-count_if p [] h = refl
every-of-count_if p (x ∷ xs) h = ground (arith, h, every-of-count_if p xs, count_if-le-length p xs)

pub every-fill_items :
    (p : ValidationItem → Bool) (a : List (ℕ × DecisionEvaluation)) (ranked : List RankedDecision)
    (items filled : List ValidationItem)
    → ((id : ℕ) (e : DecisionEvaluation) (i : ValidationItem) → p (filled_item id e ranked i) ≡ p i)
    → fill_items a ranked items ≡ ok filled
    → every p filled ≡ every p items
every-fill_items p a ranked items filled same h =
    every-map p filled
    ∙ ap (every (λ b. b)) (map-fill_items p a ranked items filled same h)
    ∙ sym (every-map p items)

pub class_text-known :
    (c : OpportunityClassification) → contains (class_text c) model_classes ≡ true
class_text-known OpportunityClassification.quality_at_discount = refl
class_text-known OpportunityClassification.good_but_expensive = refl
class_text-known OpportunityClassification.value_trap = refl
class_text-known OpportunityClassification.low_quality = refl
class_text-known OpportunityClassification.insufficient_data = refl

-- An item that was readable stays so, and has a snapshot.
pub fill_items-readable :
    (a : List (ℕ × DecisionEvaluation)) (ranked : List RankedDecision)
    (items filled : List ValidationItem)
    → every is_readable items ≡ true
    → fill_items a ranked items ≡ ok filled
    → (every is_readable filled ≡ true) × (every has_snapshot filled ≡ true)
unfolding fill_items
fill_items-readable a ranked [] filled r h = ground (arith, h)
fill_items-readable a ranked (i ∷ is) filled r h =
    elim (Option-cases (assessment_of i.listing_id a)) [
      | inl e ↦ ground (arith, e, h)
      | inr ((id, d), e) ↦ elim (Result-cases (fill_items a ranked is)) [
        | inr (x, g) ↦ ground (arith, e, g, h)
        | inl (rest, g) ↦ ground (
          arith,
          e,
          g,
          h,
          r,
          class_text-known d.opportunity_classification,
          fill_items-readable a ranked is rest (ground (arith, r)) g,
        )
      ]
    ]

pub both : {a b : Bool} → a ≡ true → b ≡ true → (a && b) ≡ true
both h k = rw (h, k) refl

pub label-readable :
    (now : ℕ) (q : LabelRequest) (items : List ValidationItem)
    → contains q.opportunity_classification human_classes ≡ true
    → every is_readable items ≡ true
    → every is_readable (
        update_where
          (for_listing q.listing_id)
          (λ (i : ValidationItem). record i { human = columns_of q; labeled_at = some now })
          items)
      ≡ true
label-readable now q [] k h = refl
label-readable now q (i ∷ is) k h =
    let first = and_left (is_readable i) (every is_readable is) h in
    let rest = label-readable now q is k (and_right (is_readable i) (every is_readable is) h) in
    elim (Bool-cases (for_listing q.listing_id i)) [
      | inl e ↦ rw e (
          both (both k (and_right (is_known_class i.human.opportunity_classification) _ first))
            rest)
      | inr e ↦ rw e (both first rest)
    ]

pub any-append {ℓ} :
    {A : Type ℓ} (p : A → Bool) (xs ys : List A) → any p xs ≡ true → any p (xs ++ ys) ≡ true
any-append p [] ys h = ground (arith, h)
any-append p (x ∷ xs) ys h = ground (arith, h, any-append p xs ys)

pub every-has_review :
    (old new : List Review) (items : List ValidationItem)
    → every (has_review old) items ≡ true
    → every (has_review (old ++ new)) items ≡ true
every-has_review old new [] h = refl
every-has_review old new (i ∷ is) h =
    ground (arith, h, any-append (of_item i.id) old new, every-has_review old new is)
