-- ===== src/Decision/Validation/Entries.antt =====
-- services/decision/src/home_radar_decision/real_world_validation.py: `create_validation_run` and its
-- tests of the entries. The documents of the listings, also those that the entries bring, and the
-- hashes of the frozen system are arguments.
use shanghai_home_radar.Prelude.{
  ℕ, suc, ◌*◌, max, Bool, true, false, not, ◌&&◌, ◌||◌, Option, none, some, List, [], ◌∷◌, ◌++◌,
  String, Decimal, Result, ok, err, value_error, raise_if, ◌>>◌, leb, ltb, leb_ℤ, ltb_ℤ, pos,
  pos_part, neg_part, sub_ℕ, ◌==◌, str_eq, if◌then◌else◌, length, count_if, every, contains, dedupe,
  text_leb, map, is_empty,
}
use shanghai_home_radar.Sorting.{sort_by}
use shanghai_home_radar.Collector.Domain.{DataMode}
use shanghai_home_radar.Decision.Gate.{ValidationDatasetConfig}
use shanghai_home_radar.Decision.Validation.{
  BatchStatus, HumanColumns, ValidationItem, ValidationRun,
}

-- The snapshot that an entry brings for the labelling: none, a value that is no object, or an object
-- with these keys.
pub data Supplied : Type 0 where
  nothing no_object : Supplied
  object : List String → Supplied

-- An entry of the data set. `reference` is empty where it is missing. A snapshot that it brings has no
-- `listing_id` of its own.
pub record Entry : Type 0 where
  pub listing_id : ℕ
  pub geography_bucket : String
  pub archetypes : List String
  pub provenance_kind : String
  pub provenance_reference : String
  pub data_provenance : ℕ
  pub blind_listing_snapshot : Supplied

abbrev pub all_archetypes : List Entry → List String
all_archetypes [] = []
all_archetypes (e ∷ es) = e.archetypes ++ all_archetypes es

-- `max(counts.values())`, 0 where there are none.
abbrev pub largest_count : List String → List String → ℕ
largest_count all [] = 0
largest_count all (a ∷ rest) = max (count_if (str_eq a) all) (largest_count all rest)

-- `n` times the decimal.
abbrev pub times : Decimal → ℕ → Decimal
times d n = sub_ℕ (pos_part d * n) (neg_part d * n)

abbrev pub is_authorized : Entry → Bool
is_authorized e =
    str_eq e.provenance_kind "REAL_AUTHORIZED" || str_eq e.provenance_kind "PROPERLY_ANONYMIZED"

abbrev pub check_provenance : List Entry → Result (Unit {0})
check_provenance [] = ok tt
check_provenance (e ∷ es) =
    let rest = check_provenance es in
    if not (is_authorized e)
    then err (value_error "every listing requires authorized or anonymized provenance")
    else if str_eq e.provenance_reference ""
    then err (value_error "every listing provenance requires a reference")
    else rest

-- `_validate_entries`; the share is in millionths, and its quotient, a float in the source, is compared
-- exactly.
unfoldable pub validate_entries : List Entry → ValidationDatasetConfig → Result (Unit {0})
validate_entries entries dataset = do
  let archetypes = all_archetypes entries
  raise_if
      (not (
        leb dataset.minimum_sample_size (length entries)
        && leb (length entries) dataset.maximum_sample_size))
      (value_error "P5.6 requires a configured number of listings")
  raise_if
      (not (
        every (λ b. contains b (map (λ (e : Entry). e.geography_bucket) entries))
          dataset.required_geography_buckets))
      (value_error "missing geography buckets")
  raise_if (ltb (length (dedupe archetypes)) dataset.minimum_distinct_archetypes)
      (value_error "validation dataset lacks required archetype diversity")
  raise_if
      (not (is_empty archetypes)
        && ltb_ℤ (times dataset.maximum_single_archetype_share (length entries))
            (pos (largest_count archetypes archetypes * 1000000)))
      (value_error "one archetype dominates the validation dataset")
  check_provenance entries

-- The repository's listings that the run reads: the price by the identifier, and the document.
abbrev pub all_known : (ℕ → Option Decimal) → List Entry → Result (Unit {0})
all_known prices [] = ok tt
all_known prices (e ∷ es) =
    let rest = all_known prices es in
    elim (prices e.listing_id) [ none ↦ err (value_error "listings not found") | some p ↦ rest ]

-- `_validate_listings`
abbrev pub validate_listings :
    (ℕ → Option Decimal) → ValidationDatasetConfig → List Entry → Result (Unit {0})
validate_listings prices dataset [] = ok tt
validate_listings prices dataset (e ∷ es) =
    let rest = validate_listings prices dataset es in
    elim (prices e.listing_id) [
      | none ↦ rest
      | some p ↦
          if leb_ℤ dataset.minimum_price_rmb p && leb_ℤ p dataset.maximum_price_rmb
          then rest
          else err (value_error "listing is outside the P5.6 price range")
    ]

-- `len(ids) == len(set(ids))`
abbrev pub has_listing : ℕ → List Entry → Bool
has_listing id [] = false
has_listing id (e ∷ es) = (id == e.listing_id) || has_listing id es

abbrev pub all_different : List Entry → Bool
all_different [] = true
all_different (e ∷ es) = not (has_listing e.listing_id es) && all_different es

abbrev pub forbidden : List String
forbidden =
    "fair_value" ∷ "value_score" ∷ "future_score" ∷ "obsolescence_risk" ∷ "structural_alpha"
    ∷ "opportunity_classification" ∷ "workflow_state" ∷ "rank" ∷ "why_ranked" ∷ []

-- The errors of `_validation_listing_snapshot`: a snapshot that shows a result of the model is refused.
abbrev pub check_snapshot : Supplied → Result (Unit {0})
check_snapshot nothing = ok tt
check_snapshot no_object = err (value_error "blind listing snapshot must be an object")
check_snapshot (object keys) =
    raise_if (not (every (λ key. not (contains key keys)) forbidden))
      (value_error "blind listing snapshot leaks model fields")

abbrev pub check_snapshots : List Entry → Result (Unit {0})
check_snapshots [] = ok tt
check_snapshots (e ∷ es) = do check_snapshot e.blind_listing_snapshot; check_snapshots es

abbrev pub no_human_columns : HumanColumns
no_human_columns = record {
  opportunity_classification = none;
  workflow_recommendation = none;
  confidence = none;
  positive_reasons = [];
  risks = [];
  would_visit = none;
  notes = none;
}

abbrev pub is_demo : DataMode → Bool
is_demo DataMode.demo = true
is_demo _ = false

-- The rows of the items, with identifiers counted from the first argument.
abbrev pub new_items : ℕ → (ℕ → ℕ) → List Entry → List ValidationItem
new_items id documents [] = []
new_items id documents (e ∷ es) =
    record {
      id = id;
      listing_id = e.listing_id;
      listing_snapshot = documents e.listing_id;
      geography_bucket = e.geography_bucket;
      archetypes = sort_by text_leb (dedupe e.archetypes);
      data_provenance = e.data_provenance;
      decision_assessment_id = none;
      frozen_rank = none;
      model_snapshot = none;
      human = no_human_columns;
      labeled_at = none;
    }
    ∷ new_items (suc id) documents es

-- What the caller freezes: the configured protocol, commit, tree hash, and the rest of the manifest.
pub record Frozen : Type 0 where
  pub as_of_is_aware : Bool
  pub as_of : ℕ
  pub protocol_version : String
  pub source_commit : String
  pub source_tree_hash : String
  pub manifest : List (String × String)

-- A row of the data set, as it is hashed.
pub record DatasetRow : Type 0 where
  pub listing_id : ℕ
  pub listing_snapshot : ℕ
  pub geography_bucket : String
  pub archetypes : List String
  pub data_provenance : ℕ

abbrev pub dataset_row : ValidationItem → DatasetRow
dataset_row i = record {
  listing_id = i.listing_id;
  listing_snapshot = i.listing_snapshot;
  geography_bucket = i.geography_bucket;
  archetypes = i.archetypes;
  data_provenance = i.data_provenance;
}

abbrev pub by_listing : DatasetRow → DatasetRow → Bool
by_listing a b = leb a.listing_id b.listing_id

-- The rows in the order of their listings.
abbrev pub dataset_rows : List ValidationItem → List DatasetRow
dataset_rows items = sort_by by_listing (map dataset_row items)

abbrev pub created_run :
    (List DatasetRow → String) → (ℕ → ℕ) → DataMode → Frozen → List Entry → ValidationRun
created_run digest documents mode frozen entries =
    let items = new_items 0 documents entries in
    let fingerprint = digest (dataset_rows items) in
    record {
      batch = record {
        protocol_version = frozen.protocol_version;
        data_mode = mode;
        status = BatchStatus.blind_labeling;
        input_cutoff_at = frozen.as_of;
        freeze_manifest =
            ("git_commit", frozen.source_commit)
            ∷ ("source_tree_hash", frozen.source_tree_hash)
            ∷ ("dataset_fingerprint", fingerprint)
            ∷ frozen.manifest;
        dataset_fingerprint = fingerprint;
        human_labels_fingerprint = none;
        model_outputs_fingerprint = none;
        labels_frozen_at = none;
        model_generated_at = none;
        revealed_at = none;
        finalized_at = none;
        metrics = none;
        final_recommendation = none;
      };
      items = items;
      reviews = [];
      amendments = [];
    }

unfoldable pub create_validation_run :
    (List DatasetRow → String)
    → (ℕ → Option Decimal)
    → (ℕ → ℕ)
    → ValidationDatasetConfig
    → DataMode
    → Frozen
    → List Entry
    → Result ValidationRun
unfolding validate_entries
create_validation_run digest prices documents dataset mode frozen entries = do
  raise_if (not frozen.as_of_is_aware) (value_error "as_of must be timezone-aware")
  raise_if (is_demo mode) (value_error "P5.6 refuses DEMO data")
  raise_if (str_eq frozen.source_commit "unknown" || str_eq frozen.source_tree_hash "unknown")
      (value_error "source commit and source tree hash must be frozen")
  validate_entries entries dataset
  raise_if (not (all_different entries)) (value_error "listing_ids must be unique")
  all_known prices entries
  validate_listings prices dataset entries
  check_snapshots entries
  ok (created_run digest documents mode frozen entries)
