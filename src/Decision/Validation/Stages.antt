-- ===== src/Decision/Validation/Stages.antt =====
-- services/decision/src/home_radar_decision/real_world_validation.py: the operations on a run. A batch
-- that is not there is like one of another protocol. The hashes, the assessments of the earlier stages
-- and what `_assert_frozen_runtime` reads are arguments; the written reports are left out.
use shanghai_home_radar.Prelude.{
  ℕ, Bool, true, false, not, ◌&&◌, ◌||◌, Option, none, some, List, [], ◌∷◌, String, Result, ok, err,
  value_error, raise_if, ◌>>◌, ◌>>=◌, leb, ◌==◌, str_eq, is_none, if◌then◌else◌, length, every,
  contains, map,
}
use shanghai_home_radar.Collector.Repository.{find, update_where}
use shanghai_home_radar.Decision.Domain.{DecisionEvaluation}
use shanghai_home_radar.Decision.Config.{DecisionConfig}
use shanghai_home_radar.Decision.Gate.{ValidationGateConfig}
use shanghai_home_radar.Decision.Validation.{
  BatchStatus, ModelSnapshot, HumanColumns, ValidationItem, ValidationRun, blind_labeling,
  labels_frozen, model_generated, revealed, finalized,
}
use shanghai_home_radar.Decision.Validation.Metrics.{human_classes}
use shanghai_home_radar.Decision.Validation.Entries.{DatasetRow}

-- `_human_snapshot`, and a row of the model's outputs.
pub record LabelRow : Type 0 where
  pub listing_id : ℕ
  pub human : HumanColumns

pub record ModelRow : Type 0 where
  pub listing_id : ℕ
  pub rank : Option ℕ
  pub model : Option ModelSnapshot

pub record Environment : Type 0 where
  pub dataset_digest : List DatasetRow → String
  pub labels_digest : List LabelRow → String
  pub models_digest : List ModelRow → String
  pub assess : ℕ → Result (ℕ × DecisionEvaluation)
  pub decision_config : DecisionConfig
  pub gate : ValidationGateConfig
  pub runtime : List (String × String)

abbrev pub label_row : ValidationItem → LabelRow
label_row i = record { listing_id = i.listing_id; human = i.human }

abbrev pub model_row : ValidationItem → ModelRow
model_row i = record { listing_id = i.listing_id; rank = i.frozen_rank; model = i.model_snapshot }

abbrev pub status_code : BatchStatus → ℕ
status_code blind_labeling = 0
status_code labels_frozen = 1
status_code model_generated = 2
status_code revealed = 3
status_code finalized = 4

abbrev pub has_status : BatchStatus → ValidationRun → Bool
has_status s r = status_code r.batch.status == status_code s

-- `_p56_batch`
abbrev pub p56_batch : ValidationRun → Result (Unit {0})
p56_batch r =
    raise_if (not (str_eq r.batch.protocol_version "p5.6"))
      (value_error "P5.6 validation run not found")

abbrev pub for_listing : ℕ → ValidationItem → Bool
for_listing id i = i.listing_id == id

-- `_item`
abbrev pub item_of : ValidationRun → ℕ → Result ValidationItem
item_of r listing = elim (find (for_listing listing) r.items) [
  | none ↦ err (value_error "listing is not part of this validation run")
  | some i ↦ ok i
]

-- The arguments of `label_validation_item`.
pub record LabelRequest : Type 0 where
  pub listing_id : ℕ
  pub opportunity_classification : String
  pub workflow_recommendation : String
  pub confidence : String
  pub positive_reasons : List String
  pub risks : List String
  pub would_visit : Bool
  pub notes : Option String

abbrev pub workflows : List String
workflows = "PASS" ∷ "WATCH" ∷ "CONTACT" ∷ "VIEW" ∷ []

abbrev pub confidences : List String
confidences = "LOW" ∷ "MEDIUM" ∷ "HIGH" ∷ []

abbrev pub one_to_three : List String → Bool
one_to_three l = leb 1 (length l) && leb (length l) 3

abbrev pub columns_of : LabelRequest → HumanColumns
columns_of q = record {
  opportunity_classification = some q.opportunity_classification;
  workflow_recommendation = some q.workflow_recommendation;
  confidence = some q.confidence;
  positive_reasons = q.positive_reasons;
  risks = q.risks;
  would_visit = some q.would_visit;
  notes = q.notes;
}

-- A listing stands once in a run, so the item that is found is the only one that changes.
abbrev pub labeled_run : ℕ → LabelRequest → ValidationRun → ValidationRun
labeled_run now q r = record r {
  items =
      update_where (for_listing q.listing_id)
        (λ (i : ValidationItem). record i { human = columns_of q; labeled_at = some now }) r.items;
}

unfoldable pub label_validation_item : ℕ → LabelRequest → ValidationRun → Result ValidationRun
label_validation_item now q r = do
  p56_batch r
  raise_if (not (has_status blind_labeling r))
      (value_error "human labels are immutable after label freeze")
  raise_if (not (contains q.opportunity_classification human_classes))
      (value_error "invalid human opportunity classification")
  raise_if
      (not (contains q.workflow_recommendation workflows)
        || not (contains q.confidence confidences))
      (value_error "invalid human workflow or confidence")
  raise_if (not (one_to_three q.positive_reasons) || not (one_to_three q.risks))
      (value_error "provide 1 to 3 positive reasons and 1 to 3 risks")
  item ← item_of r q.listing_id
  ok (labeled_run now q r)

-- `_fully_labeled`
unfoldable pub fully_labeled : ValidationItem → Bool
fully_labeled i =
    not (is_none i.human.opportunity_classification)
    && not (is_none i.human.workflow_recommendation)
    && not (is_none i.human.confidence)
    && not (is_none i.human.would_visit)
    && one_to_three i.human.positive_reasons
    && one_to_three i.human.risks

abbrev pub is_nonempty {ℓ} : {A : Type ℓ} → List A → Bool
is_nonempty [] = false
is_nonempty (x ∷ xs) = true

abbrev pub frozen_run : Environment → ℕ → ValidationRun → ValidationRun
frozen_run env now r =
    let digest = env.labels_digest (map label_row r.items) in
    record r {
      batch = record r.batch {
        human_labels_fingerprint = some digest;
        freeze_manifest = ("human_labels_fingerprint", digest) ∷ r.batch.freeze_manifest;
        labels_frozen_at = some now;
        status = labels_frozen;
      };
    }

unfoldable pub freeze_human_labels : Environment → ℕ → ValidationRun → Result ValidationRun
unfolding fully_labeled
freeze_human_labels env now r = do
  p56_batch r
  if has_status labels_frozen r then ok r else do
    raise_if (not (has_status blind_labeling r))
        (value_error "labels can only be frozen after blind labeling")
    raise_if (not (is_nonempty r.items && every fully_labeled r.items))
        (value_error "all listings require complete human labels before freeze")
    ok (frozen_run env now r)
