-- ===== src/Decision/Blind/Sharing.antt =====
-- The metrics of a batch.
use native.Mathlib.Nat.{le-div_iff_mul-le}
use shanghai_home_radar.Prelude.{
  ℕ, ◌+◌, ◌*◌, ◌≤◌, ◌≡◌, Bool, true, Option, none, some, List, [], ◌∷◌, Decimal, ◌≤ℤ◌, arith,
  count_if, length, count_if-le-length, half_up, take, Bool-cases, inl, inr, ◌==◌, contains, str_eq,
  eq_iff, and_right, leb, String, sym, All,
}
use shanghai_home_radar.Decision.Domain.{BlindEvaluationCase, BlindEvaluationMetrics}
use shanghai_home_radar.Decision.Config.{ValidationConfig, accepts_validation}
use shanghai_home_radar.Decision.Gate.{rate}
use shanghai_home_radar.Decision.Validation.Metrics.Bounds.{IsShare, rate-IsShare}
use shanghai_home_radar.Decision.BlindMetrics.{
  is_strict, is_accepted, share, strict_precision, calculate_blind_metrics, label_text,
  ranked_blind,
}

-- Of two rates of the same number of cases, neither is there, or both are and the first is at most
-- the second.
abbrev pub AtMost : Option Decimal → Option Decimal → Type 0
AtMost none none = Unit
AtMost none (some d) = ⊥
AtMost (some c) none = ⊥
AtMost (some c) (some d) = c ≤ℤ d

half_up_mono : (m n d : ℕ) → 1 ≤ d → m ≤ n → half_up (m * 10000) d ≤ half_up (n * 10000) d
half_up_mono m n d one h =
    let below : half_up (m * 10000) d * (2 * d) ≤ 2 * (m * 10000) + d =
      (le-div_iff_mul-le {k = 2 * d} (omega (arith, one))).0 (omega arith) in
    (le-div_iff_mul-le {k = 2 * d} (omega (arith, one))).1 (omega (arith, below, h))

rate-AtMost : (m n d : ℕ) → m ≤ n → AtMost (rate m d) (rate n d)
unfolding rate
rate-AtMost m n d h = elim (Bool-cases (d == 0)) [
  | inl e ↦ rw e tt
  | inr e ↦ rw e (omega (arith, half_up_mono m n d (ground (arith, e)) h))
]

contains_of_eq :
    (s t : String) (l : List String) → contains t l ≡ true → str_eq s t ≡ true → contains s l ≡ true
contains_of_eq s t l h e = rw (sym ((eq_iff s t).0 e)) at h

count_if_mono {ℓ} :
    {A : Type ℓ} (p q : A → Bool) (xs : List A)
    → ((x : A) → p x ≡ true → q x ≡ true)
    → count_if p xs ≤ count_if q xs
count_if_mono p q [] h = omega arith
count_if_mono p q (x ∷ xs) h = elim (Bool-cases (p x)) [
  | inl e ↦ ground (arith, e, h x e, count_if_mono p q xs h)
  | inr e ↦ ground (arith, e, count_if_mono p q xs h)
]

abbrev pub blind_rates : BlindEvaluationMetrics → List (Option Decimal)
blind_rates m =
    m.precision_at_5 ∷ m.precision_at_10 ∷ m.value_trap_false_positive_rate ∷ m.view_acceptance_rate
    ∷ m.top_10_manual_acceptance_rate ∷ []

share-IsShare :
    (p : BlindEvaluationCase → Bool) (cases : List BlindEvaluationCase) → IsShare (share p cases)
share-IsShare p cases = rate-IsShare (count_if p cases) (length cases) (count_if-le-length p cases)

-- Under a configuration that is accepted, every rate of a blind batch lies between 0 and 1, and the
-- precision among the first ten is at most the acceptance among them.
pub calculate_blind_metrics-bounds :
    (cases : List BlindEvaluationCase) (c : ValidationConfig)
    → accepts_validation c ≡ true
    → All IsShare (blind_rates (calculate_blind_metrics cases c))
      × AtMost
          (calculate_blind_metrics cases c).precision_at_10
          (calculate_blind_metrics cases c).top_10_manual_acceptance_rate
unfolding calculate_blind_metrics strict_precision accepts_validation
calculate_blind_metrics-bounds cases c h =
    let top = take 10 (ranked_blind cases) in
    let known : contains c.strict_positive_label c.accepted_labels ≡ true =
      and_right (leb 1 c.target_sample_size) _ h in
    (
      (
        share-IsShare _ _,
        (share-IsShare _ _, (share-IsShare _ _, (share-IsShare _ _, (share-IsShare _ _, tt)))),
      ),
      rate-AtMost (count_if (is_strict c) top) (count_if (is_accepted c) top) (length top) (
          count_if_mono (is_strict c) (is_accepted c) top (λ x e.
            contains_of_eq (label_text x.human_label) c.strict_positive_label c.accepted_labels
              known e)),
    )
