-- ===== src/Collector/Service.antt =====
-- services/collector/src/home_radar_collector/service.py: the parts of a collection run. The adapter
-- of a source, the database's refusals and the clock are arguments. The ratio of two counts, a float in
-- the source, is the exact quotient.
pub mod Items
pub mod Collect
pub mod Preserve
use shanghai_home_radar.Prelude.{
  ℕ, suc, ◌+◌, ◌*◌, Bool, true, false, not, ◌&&◌, ◌||◌, Option, none, some, List, [], ◌∷◌, ◌++◌,
  String, leb, ltb, ◌==◌, str_eq, is_none, if◌then◌else◌, lookup, length, Result, ok, err,
  value_error, raise_if, ◌>>◌, ◌>>=◌, select,
}
use shanghai_home_radar.Collector.Domain.{
  ListingObservation, CrawlRun, CrawlRunStatus, CrawlCompleteness, DataMode, Meta, Store,
}
use shanghai_home_radar.Collector.Repository.{find, any, update_where}

-- `ratio_num / ratio_den` is `min_complete_count_ratio`.
pub record CollectorService : Type 0 where
  pub final_after_missing_runs : ℕ
  pub data_mode : DataMode
  pub min_complete_items : ℕ
  pub ratio_num : ℕ
  pub ratio_den : ℕ

-- `CollectorService.__init__`
unfoldable pub check_service : CollectorService → Result (Unit {0})
check_service c = do
  raise_if (ltb c.min_complete_items 1) (value_error "min_complete_items must be at least 1")
  raise_if (not (ltb 0 c.ratio_num && leb c.ratio_num c.ratio_den))
      (value_error "min_complete_count_ratio must be in (0, 1]")

pub record FetchResult : Type 0 where
  pub source_id : String
  pub scope_key : String
  pub raw_items : List ℕ
  pub completeness : CrawlCompleteness
  pub metadata : List (String × Meta)

-- What `await adapter.fetch()` ends in. A message is the text as it is stored, cut at 4000 characters.
pub data FetchOutcome : Type 0 where
  fetched : FetchResult → FetchOutcome
  authentication_required : String → FetchOutcome
  failed : String → String → FetchOutcome

-- What `adapter.normalize` ends in: an observation, or the text of its exception.
pub data Normalized : Type 0 where
  observation : ListingObservation → Normalized
  rejected : String → Normalized

-- `source_record_id` is absent also where the adapter raises.
pub record SourceAdapter : Type 0 where
  pub source_id : String
  pub scope_key : String
  pub fetch : FetchOutcome
  pub normalize : ℕ → Normalized
  pub source_record_id : ℕ → Option String

pub record CollectionResult : Type 0 where
  pub run_id : ℕ
  pub source : String
  pub scope_key : String
  pub status : CrawlRunStatus
  pub completeness : CrawlCompleteness
  pub raw_item_count : ℕ
  pub normalized_item_count : ℕ
  pub parse_error_count : ℕ
  pub reconciliation_performed : Bool
  pub listings_missing_candidate : ℕ
  pub listings_inactivated : ℕ
  pub coverage_guard_triggered : Bool
  pub coverage_guard_reason : Meta
  pub previous_complete_count : Meta
  pub current_count_ratio : Meta

-- `metadata.get(key, ..)`, and its `bool` and `int`; a value of another kind does not occur there.
abbrev pub meta : String → List (String × Meta) → Meta
meta k d = elim (lookup k d) [ none ↦ Meta.null | some v ↦ v ]

abbrev pub meta_flag : String → List (String × Meta) → Bool
meta_flag k d = elim (meta k d) [ Meta.flag b ↦ b | _ ↦ false ]

abbrev pub meta_count : String → List (String × Meta) → ℕ
meta_count k d = elim (meta k d) [ Meta.count n ↦ n | _ ↦ 0 ]

-- `_result_from_run`
unfoldable pub result_from_run : CrawlRun → CollectionResult
result_from_run run = record {
  run_id = run.id;
  source = run.source;
  scope_key = run.scope_key;
  status = run.status;
  completeness = run.completeness;
  raw_item_count = run.raw_item_count;
  normalized_item_count = run.normalized_item_count;
  parse_error_count = run.parse_error_count;
  reconciliation_performed = meta_flag "reconciliation_performed" run.run_metadata;
  listings_missing_candidate = meta_count "listings_missing_candidate" run.run_metadata;
  listings_inactivated = meta_count "listings_inactivated" run.run_metadata;
  coverage_guard_triggered = meta_flag "coverage_guard_triggered" run.run_metadata;
  coverage_guard_reason = meta "coverage_guard_reason" run.run_metadata;
  previous_complete_count = meta "previous_complete_count" run.run_metadata;
  current_count_ratio = meta "current_count_ratio" run.run_metadata;
}

abbrev pub is_complete : CrawlCompleteness → Bool
is_complete CrawlCompleteness.complete = true
is_complete _ = false

abbrev pub is_partial : CrawlCompleteness → Bool
is_partial CrawlCompleteness.partial = true
is_partial _ = false

abbrev pub is_succeeded : CrawlRunStatus → Bool
is_succeeded CrawlRunStatus.succeeded = true
is_succeeded _ = false

abbrev pub mode_code : DataMode → ℕ
mode_code DataMode.demo = 0
mode_code DataMode.sample = 1
mode_code DataMode.live = 2

abbrev pub is_live : DataMode → Bool
is_live DataMode.live = true
is_live _ = false

-- `_start_run`, on a run that is new or stored.
unfoldable pub start_run : ℕ → SourceAdapter → ℕ → DataMode → CrawlRun
start_run id adapter started_at mode = record {
  id = id;
  source = adapter.source_id;
  data_mode = mode;
  scope_key = adapter.scope_key;
  status = CrawlRunStatus.running;
  completeness = CrawlCompleteness.unknown;
  started_at = started_at;
  finished_at = none;
  raw_item_count = 0;
  normalized_item_count = 0;
  parse_error_count = 0;
  error_type = none;
  error_message = none;
  run_metadata = [];
}

-- `_final_completeness`
unfoldable pub final_completeness : CrawlCompleteness → ℕ → CrawlCompleteness
final_completeness declared parse_error_count =
    if is_complete declared && parse_error_count == 0
    then CrawlCompleteness.complete
    else CrawlCompleteness.partial

-- `_coverage_guard_reason`: the reason, and the ratio of the two counts.
unfoldable pub coverage_guard_reason : CollectorService → ℕ → Option ℕ → Option String × Meta
coverage_guard_reason c current previous =
    if ltb current c.min_complete_items
    then (some "below_minimum_item_count", Meta.null)
    else elim previous [
      | none ↦ (none, Meta.null)
      | some before ↦
          if before == 0
          then (none, Meta.null)
          else if ltb (current * c.ratio_den) (c.ratio_num * before)
          then (some "unexpected_item_count_drop", Meta.ratio current before)
          else (none, Meta.ratio current before)
    ]

-- The order of `order_by(started_at.desc(), id.desc())`.
abbrev pub later : CrawlRun → CrawlRun → Bool
later a b = ltb b.started_at a.started_at || (a.started_at == b.started_at && ltb b.id a.id)

abbrev pub latest : Option CrawlRun → List CrawlRun → Option CrawlRun
latest best [] = best
latest none (r ∷ rs) = latest (some r) rs
latest (some b) (r ∷ rs) = latest (some (if later r b then r else b)) rs

abbrev pub is_complete_run : String → String → DataMode → CrawlRun → Bool
is_complete_run source scope mode r =
    str_eq r.source source
    && str_eq r.scope_key scope
    && mode_code r.data_mode == mode_code mode
    && is_succeeded r.status
    && is_complete r.completeness

-- `ListingRepository.latest_complete_run`
unfoldable pub latest_complete_run : String → String → DataMode → Store → Option CrawlRun
latest_complete_run source scope mode s =
    latest none (select (is_complete_run source scope mode) s.runs)

abbrev pub normalized_count : Option CrawlRun → Option ℕ
normalized_count none = none
normalized_count (some r) = some r.normalized_item_count

abbrev pub reason_meta : Option String → Meta
reason_meta none = Meta.null
reason_meta (some r) = Meta.text r

abbrev pub count_meta : Option ℕ → Meta
count_meta none = Meta.null
count_meta (some n) = Meta.count n

-- `{**metadata, ..}` with the entries of the guard.
abbrev pub guard_metadata :
    CollectorService → Option ℕ → Option String × Meta → List (String × Meta) → List (String × Meta)
guard_metadata c previous (reason, quotient) metadata =
    ("coverage_guard_triggered", Meta.flag (not (is_none reason)))
    ∷ ("coverage_guard_reason", reason_meta reason)
    ∷ ("previous_complete_count", count_meta previous)
    ∷ ("current_count_ratio", quotient)
    ∷ ("minimum_complete_items", Meta.count c.min_complete_items)
    ∷ ("minimum_complete_count_ratio", Meta.ratio c.ratio_num c.ratio_den)
    ∷ metadata

-- `_apply_live_coverage_guard`: the run with its metadata, and the completeness that stands.
unfoldable pub apply_live_coverage_guard :
    CollectorService → CrawlRun → CrawlCompleteness → Store → CrawlCompleteness × CrawlRun
unfolding coverage_guard_reason latest_complete_run
apply_live_coverage_guard c run completeness s =
    if not (is_live c.data_mode) || not (is_complete completeness)
    then (completeness, run)
    else (let previous =
          normalized_count (latest_complete_run run.source run.scope_key c.data_mode s) in
        let guard = coverage_guard_reason c run.normalized_item_count previous in
        (
          if is_none guard.0 then completeness else CrawlCompleteness.partial,
          record run { run_metadata = guard_metadata c previous guard run.run_metadata },
        ))
