-- ===== src/Decision/Validation/Lifecycle/Frozen.antt =====
-- What no operation changes: the data set, the labels after the freeze, the model's outputs after
-- their generation.
use mathlib.Core.Path.{subst}
use shanghai_home_radar.Prelude.{
  ℕ, ◌≡◌, refl, sym, ◌∙◌, ◌≤◌, true, inl, inr, some, List, [], ◌∷◌, ok, arith, map, Bool-cases,
  Option-cases, Result-cases, ap,
}
use shanghai_home_radar.Collector.Repository.{update_where}
use shanghai_home_radar.Decision.Domain.{DecisionEvaluation, RankedDecision}
use shanghai_home_radar.Decision.Validation.{
  BatchStatus, ValidationItem, ValidationRun, blind_labeling, labels_frozen, model_generated,
  revealed,
}
use shanghai_home_radar.Decision.Validation.Entries.{dataset_row}
use shanghai_home_radar.Decision.Validation.Stages.{
  Environment, label_row, model_row, status_code, has_status, LabelRequest, columns_of, for_listing,
}
use shanghai_home_radar.Decision.Validation.Generation.{fill_items, filled_item, assessment_of}
use shanghai_home_radar.Decision.Validation.Closing.{is_open_to_review}
use shanghai_home_radar.Decision.Validation.Lifecycle.{
  Step, Reach, label, freeze, generate, reveal, review, amend, finalize, start, later,
}
use shanghai_home_radar.Decision.Validation.Lifecycle.Did.{
  label_validation_item-did, freeze_human_labels-did, fill_items-of, reveal_validation_run-did,
  record_review-did, append_label_amendment-did, finalize_validation_run-did,
}

abbrev pub code : ValidationRun → ℕ
code r = status_code r.batch.status

pub map-label-dataset_row :
    (now : ℕ) (q : LabelRequest) (items : List ValidationItem)
    → map dataset_row (
        update_where
          (for_listing q.listing_id)
          (λ (i : ValidationItem). record i { human = columns_of q; labeled_at = some now })
          items)
      ≡ map dataset_row items
map-label-dataset_row now q [] = refl
map-label-dataset_row now q (i ∷ is) = elim (Bool-cases (for_listing q.listing_id i)) [
  | inl e ↦ rw e (ap (λ x. dataset_row i ∷ x) (map-label-dataset_row now q is))
  | inr e ↦ rw e (ap (λ x. dataset_row i ∷ x) (map-label-dataset_row now q is))
]

-- What the model's outputs are not part of.
pub map-fill_items {ℓ} :
    {B : Type ℓ} (f : ValidationItem → B) (a : List (ℕ × DecisionEvaluation))
    (ranked : List RankedDecision) (items filled : List ValidationItem)
    → ((id : ℕ) (e : DecisionEvaluation) (i : ValidationItem) → f (filled_item id e ranked i) ≡ f i)
    → fill_items a ranked items ≡ ok filled
    → map f filled ≡ map f items
unfolding fill_items
map-fill_items f a ranked [] filled same h = ground (arith, h)
map-fill_items f a ranked (i ∷ is) filled same h =
    elim (Option-cases (assessment_of i.listing_id a)) [
      | inl e ↦ ground (arith, e, h)
      | inr ((id, d), e) ↦ elim (Result-cases (fill_items a ranked is)) [
        | inr (x, g) ↦ ground (arith, e, g, h)
        | inl (rest, g) ↦
            ground (arith, e, g, h, same id d i, map-fill_items f a ranked is rest same g)
      ]
    ]

-- From one state to a later one.
abbrev pub Kept : ValidationRun → ValidationRun → Type 0
Kept s t =
    (code s ≤ code t)
    × (map dataset_row t.items ≡ map dataset_row s.items)
    × (t.batch.dataset_fingerprint ≡ s.batch.dataset_fingerprint)
    × (1 ≤ code s
        → (map label_row t.items ≡ map label_row s.items)
          × (t.batch.human_labels_fingerprint ≡ s.batch.human_labels_fingerprint))
    × (2 ≤ code s
        → (map model_row t.items ≡ map model_row s.items)
          × (t.batch.model_outputs_fingerprint ≡ s.batch.model_outputs_fingerprint))

Kept-refl : (s : ValidationRun) → Kept s s
Kept-refl s = (omega arith, refl, refl, λ h. (refl, refl), λ h. (refl, refl))

-- The statuses that an operation asks for.
pub is_open-code : (s : ValidationRun) → is_open_to_review s ≡ true → 3 ≤ code s
is_open-code s h = ground (arith, h)

pub has_status-code :
    (x : BatchStatus) (s : ValidationRun) → has_status x s ≡ true → code s ≡ status_code x
has_status-code x s h = ground (arith, h)

moved : (s : ValidationRun) {t t' : ValidationRun} → t ≡ t' → Kept s t' → Kept s t
moved s e k = subst (Kept s) (sym e) k

unchanged : {s t : ValidationRun} → t ≡ s → Kept s t
unchanged {s} e = moved s e (Kept-refl s)

pub Step-Kept : (env : Environment) (s t : ValidationRun) → Step env s t → Kept s t
Step-Kept env s t (label now q h) =
    let (b, known, e) = label_validation_item-did now q s t h in
    let at : code s ≡ 0 = has_status-code blind_labeling s b in
    moved s e (
      omega arith,
      map-label-dataset_row now q s.items,
      refl,
      λ c. ground (arith, at, c),
      λ c. ground (arith, at, c),
    )
Step-Kept env s t (freeze now h) = elim (freeze_human_labels-did env now s t h) [
  | inl e ↦ unchanged e
  | inr (b, full, e) ↦
      let at : code s ≡ 0 = has_status-code blind_labeling s b in
      moved s e
        (omega (arith, at), refl, refl, λ c. ground (arith, at, c), λ c. ground (arith, at, c))
]
Step-Kept env s t (generate now h) = elim (fill_items-of env now s t h) [
  | inl e ↦ unchanged e
  | inr (b, (a, ranked, items, fill, e)) ↦
      let at : code s ≡ 1 = has_status-code labels_frozen s b in
      moved s e (
        omega (arith, at),
        map-fill_items dataset_row a ranked s.items items (λ _ _ _. refl) fill,
        refl,
        λ c. (map-fill_items label_row a ranked s.items items (λ _ _ _. refl) fill, refl),
        λ c. ground (arith, at, c),
      )
]
Step-Kept env s t (reveal now h) = elim (reveal_validation_run-did env now s t h) [
  | inl e ↦ unchanged e
  | inr (b, (values, e)) ↦ moved s e (
    omega (arith, has_status-code model_generated s b),
    refl,
    refl,
    λ c. (refl, refl),
    λ c. (refl, refl),
  )
]
Step-Kept env s t (review q h) =
    let (is_open, (i, found, first, e)) = record_review-did q s t h in
    moved s e (omega arith, refl, refl, λ c. (refl, refl), λ c. (refl, refl))
Step-Kept env s t (amend listing proposed reason h) =
    let (is_open, (a, e)) = append_label_amendment-did listing proposed reason s t h in
    moved s e (omega arith, refl, refl, λ c. (refl, refl), λ c. (refl, refl))
Step-Kept env s t (finalize now h) = elim (finalize_validation_run-did env now s t h) [
  | inl e ↦ unchanged e
  | inr (b, all, causes, (values, e)) ↦ moved s e (
    omega (arith, has_status-code revealed s b),
    refl,
    refl,
    λ c. (refl, refl),
    λ c. (refl, refl),
  )
]

Kept-trans : (s t u : ValidationRun) → Kept s t → Kept t u → Kept s u
Kept-trans s t u (up, rows, print, labels, models) (up', rows', print', labels', models') = (
  omega (arith, up, up'),
  rows' ∙ rows,
  print' ∙ print,
  λ c. let (l, p) = labels c in let (l', p') = labels' (omega (arith, up, c)) in (l' ∙ l, p' ∙ p),
  λ c. let (m, p) = models c in let (m', p') = models' (omega (arith, up, c)) in (m' ∙ m, p' ∙ p),
)

pub Reach-Kept : (env : Environment) (s t : ValidationRun) → Reach env s t → Kept s t
Reach-Kept env s t start = Kept-refl s
Reach-Kept env s u (later {t} r step) =
    Kept-trans s t u (Reach-Kept env s t r) (Step-Kept env t u step)

-- From the freeze of the labels on, no sequence of operations changes a label, the rows of the data
-- set or the fingerprint of the labels.
pub Reach-labels :
    (env : Environment) (s t : ValidationRun)
    → Reach env s t
    → 1 ≤ status_code s.batch.status
    → (map label_row t.items ≡ map label_row s.items)
      × (map dataset_row t.items ≡ map dataset_row s.items)
      × (t.batch.human_labels_fingerprint ≡ s.batch.human_labels_fingerprint)
Reach-labels env s t r c =
    let (up, rows, print, labels, models) = Reach-Kept env s t r in
    ((labels c).0, rows, (labels c).1)

-- From the generation of the model's results on, no sequence of operations changes a rank, a snapshot
-- of the model or their fingerprint, and the status never falls.
pub Reach-models :
    (env : Environment) (s t : ValidationRun)
    → Reach env s t
    → 2 ≤ status_code s.batch.status
    → (map model_row t.items ≡ map model_row s.items)
      × (t.batch.model_outputs_fingerprint ≡ s.batch.model_outputs_fingerprint)
      × (status_code s.batch.status ≤ status_code t.batch.status)
Reach-models env s t r c =
    let (up, rows, print, labels, models) = Reach-Kept env s t r in ((models c).0, (models c).1, up)
