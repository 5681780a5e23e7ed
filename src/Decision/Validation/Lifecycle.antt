-- ===== src/Decision/Validation/Lifecycle.antt =====
-- The runs that the operations lead to, in any order and with any arguments.
pub mod Did
pub mod Frozen
pub mod Invariant
pub mod Sound
pub mod Passes
pub mod Returns
use shanghai_home_radar.Prelude.{ℕ, ◌≡◌, String, ok}
use shanghai_home_radar.Decision.Validation.{ValidationRun}
use shanghai_home_radar.Decision.Validation.Stages.{
  Environment, LabelRequest, label_validation_item, freeze_human_labels,
}
use shanghai_home_radar.Decision.Validation.Generation.{generate_model_results}
use shanghai_home_radar.Decision.Validation.Closing.{
  ReviewRequest, reveal_validation_run, record_review, append_label_amendment,
  finalize_validation_run,
}

-- One operation that returns. The assessments, the runtime and the clock are those of the call.
pub data Step (env : Environment) (s t : ValidationRun) : Type 0 where
  label : (now : ℕ) (q : LabelRequest) → label_validation_item now q s ≡ ok t → Step env s t
  freeze : (now : ℕ) → freeze_human_labels env now s ≡ ok t → Step env s t
  generate : (now : ℕ) → generate_model_results env now s ≡ ok t → Step env s t
  reveal : (now : ℕ) → reveal_validation_run env now s ≡ ok t → Step env s t
  review : (q : ReviewRequest) → record_review q s ≡ ok t → Step env s t
  amend :
      (listing proposed : ℕ) (reason : String)
      → append_label_amendment listing proposed reason s ≡ ok t
      → Step env s t
  finalize : (now : ℕ) → finalize_validation_run env now s ≡ ok t → Step env s t

pub data Reach (env : Environment) (s : ValidationRun) : ValidationRun → Type 0 where
  start : Reach env s s
  later : {t u : ValidationRun} → Reach env s t → Step env t u → Reach env s u
