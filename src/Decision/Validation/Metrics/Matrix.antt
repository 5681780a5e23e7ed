-- ===== src/Decision/Validation/Metrics/Matrix.antt =====
-- What the matrix of the classes counts.
use shanghai_home_radar.Prelude.{
  ℕ, ◌+◌, ◌≡◌, ◌∙◌, sym, refl, ap, Bool, true, false, not, key_error, ◌&&◌, Option, List, [], ◌∷◌,
  String, Result, ok, err, arith, Bool-cases, Result-cases, inl, inr, str_eq, eq_iff, length,
  count_if, every, contains, map, lookup, or_else, if◌then◌else◌,
}
use shanghai_home_radar.Sorting.Texts.{NoRepeat}
use shanghai_home_radar.Decision.Validation.{MetricCase, RealWorldMetrics, Review}
use shanghai_home_radar.Decision.Validation.Metrics.{
  human_classes, model_classes, has_class, confusion_row, check_classes, confusion_matrix,
  calculate_real_world_metrics,
}

abbrev pub Matrix : Type 0
Matrix = List (String × List (String × ℕ))

abbrev pub sum_of : List (String × ℕ) → ℕ
sum_of [] = 0
sum_of ((_, n) ∷ cells) = n + sum_of cells

abbrev pub row_total : String × List (String × ℕ) → String × ℕ
row_total (h, cells) = (h, sum_of cells)

abbrev pub column_total : Matrix → String → ℕ
column_total [] c = 0
column_total ((_, cells) ∷ rows) c = or_else (lookup c cells) 0 + column_total rows c

-- The cases with each text as their label.
abbrev pub labelled : (MetricCase → String) → List MetricCase → List String → List (String × ℕ)
labelled label cases = map (λ c. (c, count_if (λ (x : MetricCase). str_eq (label x) c) cases))

-- What the matrix of the cases sums up to: by rows the human classes, by columns those of the model,
-- and all of the cases.
pub record Accounts (cases : List MetricCase) (m : RealWorldMetrics) : Type 0 where
  pub rows :
      map row_total m.opportunity_confusion_matrix
      ≡ labelled (λ (x : MetricCase). x.human_class) cases human_classes
  pub columns :
      map (λ c. (c, column_total m.opportunity_confusion_matrix c)) model_classes
      ≡ labelled (λ (x : MetricCase). x.model_class) cases model_classes
  pub total : sum_of (map row_total m.opportunity_confusion_matrix) ≡ m.sample_size
  pub all : m.sample_size ≡ length cases

abbrev sum_by : (String → ℕ) → List String → ℕ
sum_by f [] = 0
sum_by f (c ∷ cs) = f c + sum_by f cs

count_if-absent :
    (s : String) (cs : List String) → contains s cs ≡ false → count_if (str_eq s) cs ≡ 0
count_if-absent s [] h = refl
count_if-absent s (c ∷ cs) h = ground (arith, h, count_if-absent s cs)

count_if-once :
    (s : String) (cs : List String)
    → NoRepeat cs
    → contains s cs ≡ true
    → count_if (str_eq s) cs ≡ 1
count_if-once s [] n h = ground (arith, h)
count_if-once s (c ∷ cs) n h =
    ground (arith, h, n, eq_iff s c, count_if-absent s cs, count_if-once s cs)

module _ (q : MetricCase → Bool) (label : MetricCase → String) (cell : String → MetricCase → Bool)
    (splits : (c : String) (x : MetricCase) → cell c x ≡ (q x && str_eq (label x) c)) where
  -- One more case is counted in the cells of its label.
  sum_by-case :
      (x : MetricCase) (cases : List MetricCase) (cs : List String)
      → sum_by (λ c. count_if (cell c) (x ∷ cases)) cs
        ≡ (if q x then count_if (str_eq (label x)) cs else 0)
          + sum_by (λ c. count_if (cell c) cases) cs
  sum_by-case x cases [] = ground arith
  sum_by-case x cases (c ∷ cs) = ground (arith, splits c x, sum_by-case x cases cs)

  sum_by-none : (cs : List String) → sum_by (λ c. count_if (cell c) []) cs ≡ 0
  sum_by-none [] = refl
  sum_by-none (c ∷ cs) = omega (arith, sum_by-none cs)

  -- Over all labels the cells count each case once.
  sum_by-count_if :
      (cases : List MetricCase) (cs : List String)
      → NoRepeat cs
      → every (λ (x : MetricCase). contains (label x) cs) cases ≡ true
      → sum_by (λ c. count_if (cell c) cases) cs ≡ count_if q cases
  sum_by-count_if [] cs n h = sum_by-none cs
  sum_by-count_if (x ∷ cases) cs n h =
      ground
        (arith, h, sum_by-case x cases cs, count_if-once (label x) cs n, sum_by-count_if cases cs n)

none_raised :
    (human model : String) (rest : Result (Unit {0}))
    → (if not (contains human human_classes)
        then err (key_error human)
        else if not (contains model model_classes)
        then err (key_error model)
        else rest)
      ≡ ok tt
    → (contains human human_classes ≡ true) × (contains model model_classes ≡ true) × (rest ≡ ok tt)
none_raised human model rest h = elim (Bool-cases (contains human human_classes)) [
  | inl e ↦ elim (Bool-cases (contains model model_classes)) [
    | inl k ↦ (e, k, rw (e, k) at h)
    | inr k ↦ ground (arith, rw (e, k) at h)
  ]
  | inr e ↦ ground (arith, rw e at h)
]

check_classes-human :
    (cases : List MetricCase)
    → check_classes cases ≡ ok tt
    → every (λ (x : MetricCase). contains x.human_class human_classes) cases ≡ true
check_classes-human [] h = refl
check_classes-human (x ∷ xs) h =
    ground
      (arith, none_raised x.human_class x.model_class (check_classes xs) h, check_classes-human xs)

check_classes-model :
    (cases : List MetricCase)
    → check_classes cases ≡ ok tt
    → every (λ (x : MetricCase). contains x.model_class model_classes) cases ≡ true
check_classes-model [] h = refl
check_classes-model (x ∷ xs) h =
    ground
      (arith, none_raised x.human_class x.model_class (check_classes xs) h, check_classes-model xs)

human_classes-NoRepeat : NoRepeat human_classes
human_classes-NoRepeat = (refl, (refl, (refl, (refl, (refl, tt)))))

model_classes-NoRepeat : NoRepeat model_classes
model_classes-NoRepeat = (refl, (refl, (refl, (refl, (refl, tt)))))

count_if-all : (cases : List MetricCase) → count_if (λ _. true) cases ≡ length cases
count_if-all [] = refl
count_if-all (x ∷ xs) = omega (arith, count_if-all xs)

map_agree :
    {A : Type 0} (f g : String → A) (xs : List String)
    → ((x : String) → f x ≡ g x)
    → map f xs ≡ map g xs
map_agree f g [] h = refl
map_agree f g (x ∷ xs) h = cc (h x, map_agree f g xs h)

module _ (cases : List MetricCase) (h : check_classes cases ≡ ok tt) where
  row_total-confusion_row :
      (c : String) → sum_of (confusion_row cases c).1 ≡ count_if (has_class c) cases
  row_total-confusion_row c =
      sum_by-count_if (has_class c) (λ (x : MetricCase). x.model_class)
        (λ m (x : MetricCase). has_class c x && str_eq x.model_class m) (λ m x. refl) cases
        model_classes model_classes-NoRepeat (check_classes-model cases h)

  column_total-confusion_row :
      (c : String)
      → sum_by
          (λ k. count_if (λ (x : MetricCase). has_class k x && str_eq x.model_class c) cases)
          human_classes
        ≡ count_if (λ (x : MetricCase). str_eq x.model_class c) cases
  column_total-confusion_row c =
      sum_by-count_if (λ (x : MetricCase). str_eq x.model_class c)
        (λ (x : MetricCase). x.human_class)
        (λ k (x : MetricCase). has_class k x && str_eq x.model_class c) (λ k x. ground arith) cases
        human_classes human_classes-NoRepeat (check_classes-human cases h)

  total-human_classes : sum_by (λ c. count_if (has_class c) cases) human_classes ≡ length cases
  total-human_classes =
      sum_by-count_if (λ _. true) (λ (x : MetricCase). x.human_class) has_class (λ c x. refl) cases
        human_classes human_classes-NoRepeat (check_classes-human cases h)
      ∙ count_if-all cases

  matrix_rows :
      map row_total (map (confusion_row cases) human_classes)
      ≡ labelled (λ (x : MetricCase). x.human_class) cases human_classes
  matrix_rows = map_agree _ _ human_classes λ c. ap (λ n. (c, n)) (row_total-confusion_row c)

  matrix_columns :
      map (λ c. (c, column_total (map (confusion_row cases) human_classes) c)) model_classes
      ≡ labelled (λ (x : MetricCase). x.model_class) cases model_classes
  matrix_columns = map_agree _ _ model_classes λ c. ap (λ n. (c, n)) (column_total-confusion_row c)

  matrix_total : sum_of (map row_total (map (confusion_row cases) human_classes)) ≡ length cases
  matrix_total = ap sum_of matrix_rows ∙ total-human_classes

calculate-check_classes :
    (cases : List MetricCase) (reviews : ℕ → Option Review) (m : RealWorldMetrics)
    → calculate_real_world_metrics cases reviews ≡ ok m
    → (check_classes cases ≡ ok tt)
      × (m.opportunity_confusion_matrix ≡ map (confusion_row cases) human_classes)
      × (m.sample_size ≡ length cases)
unfolding calculate_real_world_metrics confusion_matrix
calculate-check_classes cases reviews m h = elim (Result-cases (check_classes cases)) [
  | inl (_, e) ↦ let fields = rw e at h in (e, ground (arith, fields), ground (arith, fields))
  | inr (error, e) ↦ ground (arith, rw e at h)
]

-- Metrics that are returned count each case once in the matrix of the classes: a row sums up to the
-- cases of its human class, a column to those of its model class, and the whole to the sample, which
-- is all of the cases.
pub calculate_real_world_metrics-Accounts :
    (cases : List MetricCase) (reviews : ℕ → Option Review) (m : RealWorldMetrics)
    → calculate_real_world_metrics cases reviews ≡ ok m
    → Accounts cases m
calculate_real_world_metrics-Accounts cases reviews m h =
    let (known, matrix, size) = calculate-check_classes cases reviews m h in
    record {
      rows = rw matrix (matrix_rows cases known);
      columns = rw matrix (matrix_columns cases known);
      total = rw matrix (matrix_total cases known ∙ sym size);
      all = size;
    }
