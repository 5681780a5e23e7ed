-- ===== src/Decision/Validation/Lifecycle/Passes.antt =====
-- The checks of a sound run pass.
use shanghai_home_radar.Prelude.{
  ℕ, suc, ◌≡◌, refl, ◌≤◌, Bool, true, not, ◌&&◌, inl, inr, Option, List, [], ◌∷◌, String, Decimal,
  ok, err, arith, map, Option-cases, Result-cases, Result, Error, key_error, str_eq, if◌then◌else◌,
  every, contains, eq_iff, and_left, and_right,
}
use shanghai_home_radar.Collector.Domain.{DataMode}
use shanghai_home_radar.Decision.Gate.{ValidationDatasetConfig}
use shanghai_home_radar.Decision.Validation.{
  ValidationItem, ValidationRun, MetricCase, Review, RealWorldMetrics,
}
use shanghai_home_radar.Decision.Validation.Metrics.{
  human_classes, model_classes, check_classes, confusion_matrix, calculate_real_world_metrics,
}
use shanghai_home_radar.Decision.Validation.Entries.{
  DatasetRow, Entry, Frozen, create_validation_run, validate_listings, all_known, check_snapshots,
  new_items, created_run,
}
use shanghai_home_radar.Decision.Validation.Stages.{
  Environment, label_row, model_row, fully_labeled,
}
use shanghai_home_radar.Decision.Validation.Generation.{
  assert_fingerprints, assert_dataset_and_labels,
}
use shanghai_home_radar.Decision.Validation.Closing.{metric_case, metric_cases}
use shanghai_home_radar.Decision.Validation.Lifecycle.Frozen.{code}
use shanghai_home_radar.Decision.Validation.Lifecycle.Invariant.{
  IsSound, is_readable, has_snapshot, both,
}
use shanghai_home_radar.Decision.Validation.Lifecycle.Sound.{after_labels, after_models}

new_items-readable :
    (id : ℕ) (documents : ℕ → ℕ) (entries : List Entry)
    → every is_readable (new_items id documents entries) ≡ true
new_items-readable id documents [] = refl
new_items-readable id documents (e ∷ es) = new_items-readable (suc id) documents es

pub created_run-IsSound :
    (env : Environment) (documents : ℕ → ℕ) (mode : DataMode) (frozen : Frozen)
    (entries : List Entry)
    → str_eq frozen.protocol_version "p5.6" ≡ true
    → IsSound env (created_run env.dataset_digest documents mode frozen entries)
created_run-IsSound env documents mode frozen entries p = record {
  protocol = p;
  dataset = refl;
  readable = new_items-readable 0 documents entries;
  labels = inl refl;
  models = inl (omega arith);
  reviews = tt;
  final = inl (omega arith);
}

pub create_validation_run-did :
    (digest : List DatasetRow → String) (prices : ℕ → Option Decimal) (documents : ℕ → ℕ)
    (dataset : ValidationDatasetConfig) (mode : DataMode) (frozen : Frozen) (entries : List Entry)
    (s : ValidationRun)
    → create_validation_run digest prices documents dataset mode frozen entries ≡ ok s
    → s ≡ created_run digest documents mode frozen entries
unfolding create_validation_run
create_validation_run-did digest prices documents dataset mode frozen entries s h =
    elim (Result-cases (all_known prices entries)) [
      | inr (x, e) ↦ ground (arith, e, h)
      | inl (u, e) ↦ elim (Result-cases (validate_listings prices dataset entries)) [
        | inr (x, f) ↦ ground (arith, e, f, h)
        | inl (v, f) ↦ elim (Result-cases (check_snapshots entries)) [
          | inr (x, g) ↦ ground (arith, e, f, g, h)
          | inl (z, g) ↦ ground (arith, e, f, g, h)
        ]
      ]
    ]

-- A case whose classes the matrix has.
abbrev is_countable : MetricCase → Bool
is_countable x = contains x.human_class human_classes && contains x.model_class model_classes

none_raised :
    {a b : Bool} (c d : Error) (r : Result (Unit {0}))
    → a ≡ true
    → b ≡ true
    → r ≡ ok tt
    → (if not a then err c else if not b then err d else r) ≡ ok tt
none_raised c d r h k e = rw (h, k, e) refl

check_classes-returns :
    (cases : List MetricCase) → every is_countable cases ≡ true → check_classes cases ≡ ok tt
check_classes-returns [] h = refl
check_classes-returns (x ∷ xs) h =
    let first = and_left (is_countable x) (every is_countable xs) h in
    none_raised (key_error x.human_class) (key_error x.model_class) (check_classes xs)
      (and_left (contains x.human_class human_classes) (contains x.model_class model_classes) first)
      (and_right (contains x.human_class human_classes) (contains x.model_class model_classes)
        first)
      (check_classes-returns xs (and_right (is_countable x) (every is_countable xs) h))

metric_case-returns :
    (i : ValidationItem)
    → is_readable i ≡ true
    → has_snapshot i ≡ true
    → fully_labeled i ≡ true
    → (x : MetricCase) × (metric_case i ≡ ok x) × (is_countable x ≡ true)
unfolding metric_case fully_labeled
metric_case-returns i r s f = elim (Option-cases i.model_snapshot) [
  | inl e ↦ ground (arith, e, s)
  | inr (m, e) ↦ elim (Option-cases i.human.opportunity_classification) [
    | inl g ↦ ground (arith, g, f)
    | inr (c, g) ↦ rw e (_, refl, rw g (ground (arith, r, e, g)))
  ]
]

pub metric_cases-returns :
    (items : List ValidationItem)
    → every is_readable items ≡ true
    → every has_snapshot items ≡ true
    → every fully_labeled items ≡ true
    → (cases : List MetricCase) × (metric_cases items ≡ ok cases)
      × (every is_countable cases ≡ true)
metric_cases-returns [] r s f = ([], refl, refl)
metric_cases-returns (i ∷ is) r s f =
    let (cases, e, k) =
      metric_cases-returns is (and_right (is_readable i) _ r) (and_right (has_snapshot i) _ s)
        (and_right (fully_labeled i) _ f) in
    let (x, d, c) =
      metric_case-returns i (and_left (is_readable i) _ r) (and_left (has_snapshot i) _ s)
        (and_left (fully_labeled i) _ f) in
    (x ∷ cases, rw (d, e) refl, both c k)

pub calculate-returns :
    (cases : List MetricCase) (reviews : ℕ → Option Review)
    → every is_countable cases ≡ true
    → (values : RealWorldMetrics) × (calculate_real_world_metrics cases reviews ≡ ok values)
unfolding calculate_real_world_metrics confusion_matrix
calculate-returns cases reviews h = rw (check_classes-returns cases h) (_, refl)

str_eq_refl : (t : String) → str_eq t t ≡ true
str_eq_refl t = (eq_iff t t).1 refl

pub assert_fingerprints-holds :
    (env : Environment) (s : ValidationRun)
    → IsSound env s
    → 2 ≤ code s
    → assert_fingerprints env s ≡ ok tt
unfolding assert_fingerprints assert_dataset_and_labels
assert_fingerprints-holds env s h c =
    let models = env.models_digest (map model_row s.items) in
    let labels = env.labels_digest (map label_row s.items) in
    ground (
      arith,
      h.dataset,
      (after_models h c).1,
      (after_labels h (omega (arith, c))).1,
      str_eq_refl models,
      str_eq_refl labels,
      str_eq_refl s.batch.dataset_fingerprint,
    )
