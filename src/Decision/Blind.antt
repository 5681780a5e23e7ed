-- ===== src/Decision/Blind.antt =====
-- services/decision/src/home_radar_decision/blind_validation.py: batches of listings
-- that are ranked in secret, labelled, and then compared. The rows of one batch are its state; a UUID
-- is its number, the listing's document a number that stands for it.
pub mod Sharing
pub mod Lifecycle
mod Tests
pub mod Ranks
use shanghai_home_radar.Prelude.{
  ℕ, suc, Bool, true, false, not, ◌&&◌, ◌||◌, Option, none, some, List, [], ◌∷◌, String, Decimal,
  Result, ok, err, value_error, key_error, raise_if, ◌>>◌, ◌>>=◌, ◌==◌, str_eq, is_none, or_else,
  leb, if◌then◌else◌, length, take, select, count_if, contains, every,
}
use shanghai_home_radar.Sorting.{sort_by}
use shanghai_home_radar.Collector.Domain.{DataMode}
use shanghai_home_radar.Collector.Repository.{find, update_where}
use shanghai_home_radar.Decision.Domain.{
  OpportunityClassification, WorkflowState, EligibilityStatus, HumanLabel, DecisionReason,
  DecisionEvaluation, BlindEvaluationCase, BlindEvaluationMetrics,
}
use shanghai_home_radar.Decision.Config.{DecisionConfig, ValidationConfig}
use shanghai_home_radar.Decision.Workflow.{is_eligible}
use shanghai_home_radar.Decision.Ranking.{Keyed, with_keys, keyed_leb, eligible_only}
use shanghai_home_radar.Decision.Gate.{rate}
use shanghai_home_radar.Decision.BlindMetrics.{calculate_blind_metrics}

-- `_model_snapshot`
pub record BlindSnapshot : Type 0 where
  pub decision_version : String
  pub opportunity_classification : OpportunityClassification
  pub workflow_state : WorkflowState
  pub eligibility_status : EligibilityStatus
  pub value_score : Decimal
  pub future_score : Option Decimal
  pub liquidity_score : Option Decimal
  pub obsolescence_risk : Option Decimal
  pub positive_reasons : List DecisionReason
  pub negative_reasons : List DecisionReason

pub record BlindItem : Type 0 where
  pub listing_id : ℕ
  pub decision_assessment_id : ℕ
  pub frozen_rank : Option ℕ
  pub listing_snapshot : ℕ
  pub model_snapshot : BlindSnapshot
  pub human_label : Option HumanLabel
  pub notes : Option String
  pub labeled_at : Option ℕ

pub data BlindStatus : Type 0 where
  blind_labeling revealed : BlindStatus

pub record BlindBatch : Type 0 where
  pub name : String
  pub data_mode : DataMode
  pub status : BlindStatus
  pub target_sample_size : ℕ
  pub input_cutoff_at : ℕ
  pub decision_model_version : String
  pub configuration_version : String
  pub metrics : Option BlindEvaluationMetrics
  pub revealed_at : Option ℕ
  pub items : List BlindItem

abbrev pub is_revealed : BlindBatch → Bool
is_revealed b = elim b.status [ blind_labeling ↦ false | revealed ↦ true ]

abbrev pub snapshot_of : DecisionEvaluation → BlindSnapshot
snapshot_of e = record {
  decision_version = e.decision_version;
  opportunity_classification = e.opportunity_classification;
  workflow_state = e.workflow_state;
  eligibility_status = e.eligibility_status;
  value_score = e.value_score;
  future_score = e.future_score;
  liquidity_score = e.liquidity_score;
  obsolescence_risk = e.obsolescence_risk;
  positive_reasons = e.positive_reasons;
  negative_reasons = e.negative_reasons;
}

-- The entries of the dictionary, in the order of the ranks.
abbrev pub ranks_from : ℕ → List Keyed → List (ℕ × ℕ)
ranks_from index [] = []
ranks_from index ((key, e) ∷ rest) = (e.listing_id, index) ∷ ranks_from (suc index) rest

-- `_rank_by_listing`
unfoldable pub rank_by_listing : List DecisionEvaluation → DecisionConfig → Result (List (ℕ × ℕ))
rank_by_listing assessments config = do
  keyed ← with_keys config (eligible_only assessments)
  ok (ranks_from 1 (sort_by keyed_leb keyed))

-- `d.get(k)` where the keys are identifiers.
abbrev pub get {ℓ} : {A : Type ℓ} → ℕ → List (ℕ × A) → Option A
get k [] = none
get k ((j, a) ∷ d) = if k == j then some a else get k d

-- `_load_listings`
abbrev pub load_listings : (ℕ → Option ℕ) → List ℕ → Result (List (ℕ × ℕ))
load_listings documents [] = ok []
load_listings documents (id ∷ ids) = elim (documents id) [
  | none ↦ err (value_error "listings not found")
  | some document ↦ do rest ← load_listings documents ids; ok ((id, document) ∷ rest)
]

abbrev pub is_member : ℕ → List ℕ → Bool
is_member id [] = false
is_member id (x ∷ xs) = (id == x) || is_member id xs

-- `len(listing_ids) == len(set(listing_ids))`
abbrev pub are_unique : List ℕ → Bool
are_unique [] = true
are_unique (id ∷ ids) = not (is_member id ids) && are_unique ids

abbrev pub is_empty_ids : List ℕ → Bool
is_empty_ids [] = true
is_empty_ids (id ∷ ids) = false

-- The stored assessment of each listing.
abbrev pub evaluate_all :
    (ℕ → Result (ℕ × DecisionEvaluation)) → List ℕ → Result (List (ℕ × DecisionEvaluation))
evaluate_all assess [] = ok []
evaluate_all assess (id ∷ ids) = do a ← assess id; rest ← evaluate_all assess ids; ok (a ∷ rest)

abbrev pub evaluated : List (ℕ × DecisionEvaluation) → List DecisionEvaluation
evaluated [] = []
evaluated ((id, e) ∷ xs) = e ∷ evaluated xs

abbrev pub new_item : List (ℕ × ℕ) → ℕ → DecisionEvaluation → ℕ → BlindItem
new_item ranks id e document = record {
  listing_id = e.listing_id;
  decision_assessment_id = id;
  frozen_rank = get e.listing_id ranks;
  listing_snapshot = document;
  model_snapshot = snapshot_of e;
  human_label = none;
  notes = none;
  labeled_at = none;
}

abbrev pub blind_items :
    List (ℕ × ℕ) → List (ℕ × ℕ) → List (ℕ × DecisionEvaluation) → Result (List BlindItem)
blind_items ranks listings [] = ok []
blind_items ranks listings ((id, e) ∷ xs) = elim (get e.listing_id listings) [
  | none ↦ err (key_error "listing_id")
  | some document ↦ do
    rest ← blind_items ranks listings xs
    ok (new_item ranks id e document ∷ rest)
]

-- The assessments are those that `evaluate_cached_decision` stores or finds.
unfoldable pub create_blind_batch :
    (ℕ → Result (ℕ × DecisionEvaluation))
    → (ℕ → Option ℕ)
    → DecisionConfig
    → String
    → List ℕ
    → DataMode
    → Bool
    → ℕ
    → Result BlindBatch
unfolding rank_by_listing
create_blind_batch assess documents config name ids mode is_aware as_of = do
  raise_if (not is_aware) (value_error "as_of must be timezone-aware")
  raise_if (is_empty_ids ids || not (are_unique ids))
      (value_error "listing_ids must be non-empty and unique")
  assessments ← evaluate_all assess ids
  ranks ← rank_by_listing (evaluated assessments) config
  listings ← load_listings documents ids
  items ← blind_items ranks listings assessments
  ok (record {
    name = name;
    data_mode = mode;
    status = blind_labeling;
    target_sample_size = config.validation.target_sample_size;
    input_cutoff_at = as_of;
    decision_model_version = config.decision_model_version;
    configuration_version = config.configuration_version;
    metrics = none;
    revealed_at = none;
    items = items;
  })

abbrev pub of_listing : ℕ → BlindItem → Bool
of_listing id i = i.listing_id == id

abbrev pub labeled : ℕ → HumanLabel → Option String → BlindItem → BlindItem
labeled now human notes i = record i {
  human_label = some human;
  notes = notes;
  labeled_at = some now;
}

-- A listing stands once in a batch, so the item that is found is the only one that changes.
unfoldable pub label_blind_item :
    ℕ → ℕ → HumanLabel → Option String → BlindBatch → Result BlindBatch
label_blind_item now listing human notes b =
    if is_revealed b
    then err (value_error "revealed validation batches are immutable")
    else elim (find (of_listing listing) b.items) [
      | none ↦ err (value_error "listing is not part of this validation batch")
      | some i ↦
          ok (record b {
            items = update_where (of_listing listing) (labeled now human notes) b.items;
          })
    ]

-- `_evaluation_case`
abbrev pub evaluation_case : BlindItem → Result BlindEvaluationCase
evaluation_case i = elim i.human_label [
  | none ↦ err (value_error "validation item is not labeled")
  | some human ↦ ok (record {
    listing_id = i.listing_id;
    rank = i.frozen_rank;
    opportunity_classification = i.model_snapshot.opportunity_classification;
    workflow_state = i.model_snapshot.workflow_state;
    eligibility_status = i.model_snapshot.eligibility_status;
    human_label = human;
  })
]

abbrev pub evaluation_cases : List BlindItem → Result (List BlindEvaluationCase)
evaluation_cases [] = ok []
evaluation_cases (i ∷ is) = do x ← evaluation_case i; xs ← evaluation_cases is; ok (x ∷ xs)

abbrev pub is_labeled : BlindItem → Bool
is_labeled i = not (is_none i.human_label)

abbrev pub has_items : List BlindItem → Bool
has_items [] = false
has_items (i ∷ is) = true

abbrev pub revealed_batch : ℕ → BlindEvaluationMetrics → BlindBatch → BlindBatch
revealed_batch now metrics b = record b {
  metrics = some metrics;
  status = revealed;
  revealed_at = some now;
}

unfoldable pub reveal_blind_batch : ℕ → DecisionConfig → BlindBatch → Result BlindBatch
unfolding calculate_blind_metrics
reveal_blind_batch now config b = if is_revealed b then ok b else do
  raise_if (not (has_items b.items) || not (every is_labeled b.items))
      (value_error "all listings must be labeled before reveal")
  cases ← evaluation_cases b.items
  ok (revealed_batch now (calculate_blind_metrics cases config.validation) b)
