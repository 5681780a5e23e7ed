-- ===== src/Decision/Validation/Lifecycle/Returns.antt =====
-- When an operation returns, on the runs that come from `create_validation_run`.
use mathlib.Core.Path.{subst}
use shanghai_home_radar.Prelude.{
  ℕ, ◌≡◌, ◌↔◌, refl, sym, true, inl, inr, Option, none, List, Decimal, ok, arith, ◌==◌, str_eq, ap,
  count_if, length,
}
use shanghai_home_radar.Collector.Domain.{DataMode}
use shanghai_home_radar.Decision.Gate.{ValidationDatasetConfig, gate_recommendation}
use shanghai_home_radar.Decision.Validation.{ValidationRun, model_generated, revealed, finalized}
use shanghai_home_radar.Decision.Validation.Entries.{Entry, Frozen, create_validation_run}
use shanghai_home_radar.Decision.Validation.Stages.{Environment, has_status}
use shanghai_home_radar.Decision.Validation.Closing.{
  has_review, reveal_validation_run, revealed_run, finalize_validation_run, check_root_causes,
  review_in, finalized_run, gate_metrics,
}
use shanghai_home_radar.Decision.Validation.Lifecycle.{Reach}
use shanghai_home_radar.Decision.Validation.Lifecycle.Frozen.{code, has_status-code}
use shanghai_home_radar.Decision.Validation.Lifecycle.Invariant.{IsSound}
use shanghai_home_radar.Decision.Validation.Lifecycle.Did.{finalize_validation_run-did}
use shanghai_home_radar.Decision.Validation.Lifecycle.Sound.{
  Reach-IsSound, after_labels, after_models,
}
use shanghai_home_radar.Decision.Validation.Lifecycle.Passes.{
  created_run-IsSound, create_validation_run-did, metric_cases-returns, calculate-returns,
  assert_fingerprints-holds,
}

reveal-returns :
    (env : Environment) (t : ValidationRun) (now : ℕ)
    → IsSound env t
    → has_status model_generated t ≡ true
    → (u : ValidationRun) × (reveal_validation_run env now t ≡ ok u)
      × (has_status revealed u ≡ true)
unfolding reveal_validation_run
reveal-returns env t now h at =
    let two : code t ≡ 2 = has_status-code model_generated t at in
    let (snapshots, print) = after_models h (omega (arith, two)) in
    let (full, labels) = after_labels h (omega (arith, two)) in
    let (cases, e, k) = metric_cases-returns t.items h.readable snapshots full in
    let (values, f) = calculate-returns cases (λ _. none) k in
    (
      revealed_run now values t,
      ground (arith, h.protocol, at, assert_fingerprints-holds env t h (omega (arith, two)), e, f),
      refl,
    )

create_validation_run-IsSound :
    (env : Environment) (prices : ℕ → Option Decimal) (documents : ℕ → ℕ)
    (dataset : ValidationDatasetConfig) (mode : DataMode) (frozen : Frozen) (entries : List Entry)
    (s : ValidationRun)
    → str_eq frozen.protocol_version "p5.6" ≡ true
    → create_validation_run env.dataset_digest prices documents dataset mode frozen entries ≡ ok s
    → IsSound env s
create_validation_run-IsSound env prices documents dataset mode frozen entries s p made =
    subst (IsSound env)
      (sym (
        create_validation_run-did env.dataset_digest prices documents dataset mode frozen entries s
          made))
      (created_run-IsSound env documents mode frozen entries p)

-- A run of the protocol p5.6 in which the model's results are generated, after any sequence of
-- operations from `create_validation_run` on, can always be revealed.
pub reveal_validation_run-returns :
    (env : Environment) (prices : ℕ → Option Decimal) (documents : ℕ → ℕ)
    (dataset : ValidationDatasetConfig) (mode : DataMode) (frozen : Frozen) (entries : List Entry)
    (s t : ValidationRun) (now : ℕ)
    → str_eq frozen.protocol_version "p5.6" ≡ true
    → create_validation_run env.dataset_digest prices documents dataset mode frozen entries ≡ ok s
    → Reach env s t
    → has_status model_generated t ≡ true
    → (u : ValidationRun) × (reveal_validation_run env now t ≡ ok u)
      × (has_status revealed u ≡ true)
reveal_validation_run-returns env prices documents dataset mode frozen entries s t now p made r at =
    let h =
      Reach-IsSound env s t r
        (create_validation_run-IsSound env prices documents dataset mode frozen entries s p made) in
    reveal-returns env t now h at

finalize-returns :
    (env : Environment) (t : ValidationRun) (now : ℕ)
    → IsSound env t
    → has_status revealed t ≡ true
    → (count_if (has_review t.reviews) t.items == length t.items) ≡ true
    → check_root_causes t.reviews t.items ≡ ok tt
    → (u : ValidationRun) × (finalize_validation_run env now t ≡ ok u)
      × (has_status finalized u ≡ true)
unfolding finalize_validation_run
finalize-returns env t now h at all causes =
    let three : code t ≡ 3 = has_status-code revealed t at in
    let (snapshots, print) = after_models h (omega (arith, three)) in
    let (full, labels) = after_labels h (omega (arith, three)) in
    let (cases, e, k) = metric_cases-returns t.items h.readable snapshots full in
    let (values, f) = calculate-returns cases (review_in t.items t.reviews) k in
    (
      finalized_run now values (gate_recommendation (gate_metrics values) env.gate) t,
      ground (
        arith,
        h.protocol,
        at,
        all,
        causes,
        assert_fingerprints-holds env t h (omega (arith, three)),
        e,
        f,
      ),
      refl,
    )

-- A run of the protocol p5.6 that is revealed, after any sequence of operations from
-- `create_validation_run` on, can be finalized exactly if every listing has a review and the check
-- of the root causes passes.
pub finalize_validation_run-returns_iff :
    (env : Environment) (prices : ℕ → Option Decimal) (documents : ℕ → ℕ)
    (dataset : ValidationDatasetConfig) (mode : DataMode) (frozen : Frozen) (entries : List Entry)
    (s t : ValidationRun) (now : ℕ)
    → str_eq frozen.protocol_version "p5.6" ≡ true
    → create_validation_run env.dataset_digest prices documents dataset mode frozen entries ≡ ok s
    → Reach env s t
    → has_status revealed t ≡ true
    → ((u : ValidationRun) × (finalize_validation_run env now t ≡ ok u)
        × (has_status finalized u ≡ true))
      ↔ ((count_if (has_review t.reviews) t.items ≡ length t.items)
          × (check_root_causes t.reviews t.items ≡ ok tt))
finalize_validation_run-returns_iff env prices documents dataset mode frozen entries s t now p made
      r at =
    (
      λ (u, e, final). elim (finalize_validation_run-did env now t u e) [
        | inl same ↦ ground (arith, at, final, ap code same)
        | inr (b, all, causes, more) ↦ (all, causes)
      ],
      λ (all, causes).
          finalize-returns env t now
            (Reach-IsSound env s t r (
              create_validation_run-IsSound env prices documents dataset mode frozen entries s p
                made))
            at (ground (arith, all)) causes,
    )

-- On every run of the protocol p5.6 that the operations lead to from `create_validation_run` on, with
-- one digest for all of them, the fingerprint of
-- the data set is that of the rows; from the freeze on all listings are labelled and the fingerprint
-- of the labels is theirs; from the generation on every listing has a snapshot of the model and the
-- fingerprint of the outputs is theirs; no listing has two reviews; and a finalized run has a review of
-- each listing and the gate's recommendation of its metrics.
pub Reach-create_validation_run-IsSound :
    (env : Environment) (prices : ℕ → Option Decimal) (documents : ℕ → ℕ)
    (dataset : ValidationDatasetConfig) (mode : DataMode) (frozen : Frozen) (entries : List Entry)
    (s t : ValidationRun)
    → str_eq frozen.protocol_version "p5.6" ≡ true
    → create_validation_run env.dataset_digest prices documents dataset mode frozen entries ≡ ok s
    → Reach env s t
    → IsSound env t
Reach-create_validation_run-IsSound env prices documents dataset mode frozen entries s t p made r =
    Reach-IsSound env s t r
      (create_validation_run-IsSound env prices documents dataset mode frozen entries s p made)
