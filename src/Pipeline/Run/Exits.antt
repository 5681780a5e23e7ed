-- ===== src/Pipeline/Run/Exits.antt =====
-- What the exit code says of the run.
use shanghai_home_radar.Prelude.{◌≡◌, ◌≢◌, ◌↔◌, ◌⊎◌, Bool, true, false, inl, inr, arith, refl}
use shanghai_home_radar.Scheduler.{is_retryable}
use shanghai_home_radar.Pipeline.Run.{
  World, busy, unavailable, acquired, broken, delivered, escapes, Stage, Checked, passed, stopped,
  before_delivery, deliver_daily_result, pipeline_steps, daily_pipeline, run_locked_pipeline,
  is_retryable_stage, exit_code, main,
}

abbrev pub has_passed {ℓ} : {A : Type ℓ} → Checked A → Bool
has_passed (passed _) = true
has_passed (stopped _) = false

-- The run fails at a step before the delivery.
abbrev pub FailsEarly : World → Type 0
FailsEarly w = has_passed (before_delivery w).ending ≡ false

-- The digest cannot be built, or its delivery to a webhook fails, or the record cannot be written.
abbrev pub FailsLate : World → Type 0
FailsLate w =
    (w.digest_built ≡ false)
    ⊎ (((w.webhook_configured ≡ true) × (w.delivery_outcome ≢ delivered))
        ⊎ (w.artifact_written ≡ false))

pub before_delivery-retryable :
    (w : World) (stage : Stage)
    → (before_delivery w).ending ≡ stopped stage
    → is_retryable_stage stage ≡ true
unfolding before_delivery
before_delivery-retryable w stage h = ground arith

Checked-cases {ℓ} :
    {A : Type ℓ} (c : Checked A)
    → ((a : A) × (c ≡ passed a)) ⊎ ((stage : Stage) × (c ≡ stopped stage))
Checked-cases (passed a) = inl (a, refl)
Checked-cases (stopped stage) = inr (stage, refl)

daily_pipeline-retryable_iff :
    (w : World)
    → (is_retryable (exit_code (daily_pipeline w).outcome) ≡ true)
      ↔ (FailsEarly w ⊎ (FailsLate w × (w.alert ≡ escapes)))
unfolding daily_pipeline pipeline_steps deliver_daily_result
daily_pipeline-retryable_iff w = elim (Checked-cases (before_delivery w).ending) [
  | inl (h, e) ↦ ground (arith, e)
  | inr (stage, e) ↦ ground (arith, e, before_delivery-retryable w stage e)
]

-- The exit code asks for a retry exactly if the lock cannot be asked for, or it is busy and the note
-- of that cannot be written, or it is held and then its release breaks, or the run fails before the
-- delivery, or it fails later and an exception escapes from the alert.
pub main-retryable_iff :
    (w : World)
    → (is_retryable (main w) ≡ true) ↔ (
        (w.lock ≡ unavailable)
        ⊎ (((w.lock ≡ busy) × (w.artifact_written ≡ false))
            ⊎ ((w.lock ≡ acquired)
                × ((w.release ≡ broken) ⊎ (FailsEarly w ⊎ (FailsLate w × (w.alert ≡ escapes)))))))
unfolding main run_locked_pipeline
main-retryable_iff w = ground (arith, daily_pipeline-retryable_iff w)
