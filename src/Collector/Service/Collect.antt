-- ===== src/Collector/Service/Collect.antt =====
-- services/collector/src/home_radar_collector/service.py: `CollectorService.collect`.
use shanghai_home_radar.Prelude.{
  ℕ, Bool, ◌&&◌, Option, none, some, List, [], ◌∷◌, ◌++◌, String, ◌==◌, str_eq, if◌then◌else◌,
  length, Result, ok, err, value_error, identity_error, Error,
}
use shanghai_home_radar.Collector.Domain.{CrawlRun, CrawlRunStatus, Meta, Store}
use shanghai_home_radar.Collector.Repository.{find, any, update_where}
use shanghai_home_radar.Collector.Presence.{
  mark_observed_presence, ReconciliationResult, reconcile_complete_scope,
}
use shanghai_home_radar.Collector.Service.{
  CollectorService, SourceAdapter, FetchResult, FetchOutcome, fetched, authentication_required,
  failed, CollectionResult, result_from_run, start_run, is_complete, is_succeeded,
  final_completeness, apply_live_coverage_guard,
}
use shanghai_home_radar.Collector.Service.Items.{Progress, World, process_items}

unfoldable pub mark_all : CrawlRun → ℕ → Bool → List ℕ → Store → Store
mark_all run time complete [] s = s
mark_all run time complete (id ∷ ids) s =
    let (was_absent, s') =
      mark_observed_presence run.id id run.source run.scope_key time complete s in
    mark_all run time complete ids s'

-- The row of the run, new or in place.
abbrev pub put_run : CrawlRun → Store → Store
put_run run s = record s {
  runs =
      if any (λ (r : CrawlRun). r.id == run.id) s.runs
      then update_where (λ (r : CrawlRun). r.id == run.id) (λ _. run) s.runs
      else s.runs ++ run ∷ [];
}

-- `_finish_success`
unfoldable pub finish_success : CrawlRun → ℕ → ReconciliationResult → CrawlRun
finish_success run time r = record run {
  status = CrawlRunStatus.succeeded;
  finished_at = some time;
  run_metadata =
      ("reconciliation_performed", Meta.flag (is_complete run.completeness))
      ∷ ("listings_missing_candidate", Meta.count r.missing_candidates)
      ∷ ("listings_inactivated", Meta.count r.inactivated)
      ∷ run.run_metadata;
}

-- Reconciliation, only for a complete run.
unfoldable pub reconcile_if_complete :
    CollectorService → CrawlRun → ℕ → List ℕ → Store → ReconciliationResult × Store
reconcile_if_complete c run time seen s =
    if is_complete run.completeness
    then reconcile_complete_scope run.id run.source run.scope_key time c.final_after_missing_runs
        seen s
    else (record { missing_candidates = 0; inactivated = 0 }, s)

-- The run with its counts and the completeness that stands.
unfoldable pub judged_run : CollectorService → CrawlRun → FetchResult → Progress → CrawlRun
unfolding final_completeness apply_live_coverage_guard
judged_run c run fetch p =
    let counted = record run {
      raw_item_count = length fetch.raw_items;
      normalized_item_count = p.normalized;
      parse_error_count = p.parse_errors;
      run_metadata = fetch.metadata;
    } in
    let declared = final_completeness fetch.completeness p.parse_errors in
    let (completeness, guarded) = apply_live_coverage_guard c counted declared p.store in
    record guarded { completeness = completeness }

-- The presences of the listings that were seen, and then of those that were not.
unfoldable pub settle_presences :
    CollectorService → ℕ → CrawlRun → Progress → ReconciliationResult × Store
unfolding reconcile_if_complete
settle_presences c time run p =
    reconcile_if_complete c run time p.seen
      (mark_all run time (is_complete run.completeness) p.seen p.store)

-- What follows the loop over the items.
unfoldable pub complete_run :
    CollectorService → World → CrawlRun → FetchResult → Progress → CrawlRun × Store
unfolding judged_run finish_success
complete_run c w run fetch p =
    let judged = judged_run c run fetch p in
    let (reconciliation, s) = settle_presences c w.finished_at judged p in
    let finished = finish_success judged w.finished_at reconciliation in
    (finished, put_run finished s)

pub data Outcome : Type 0 where
  returned : CollectionResult → Outcome
  raised : CrawlRunStatus → Outcome

-- `_finish_failure`: the rolled back store, with the row of the failed run. The counts, that the merge
-- leaves as they are, are those of a row that never succeeded, so they are zero.
unfoldable pub finish_failure :
    CollectorService
    → World
    → SourceAdapter
    → ℕ
    → CrawlRunStatus
    → String
    → String
    → Store
    → Outcome × Store
unfolding start_run
finish_failure c w adapter run_id status error_type message s =
    let failure = start_run run_id adapter w.started_at c.data_mode in
    (
      raised status,
      put_run
          (record failure {
            status = status;
            finished_at = some w.failed_at;
            error_type = some error_type;
            error_message = some message;
          })
          s,
    )

-- The text of an error that ends a run, and its class.
abbrev pub error_class : Error → String
error_class (value_error m) = "ValueError"
error_class (identity_error m) = "SourceIdentityMismatchError"
error_class _ = "Exception"

abbrev pub error_text : Error → String
error_text (value_error m) = m
error_text (identity_error m) = m
error_text _ = ""

-- The end of the `try`, with what the loop gave.
unfoldable pub collect_processed :
    Result Progress
    → CollectorService
    → World
    → SourceAdapter
    → CrawlRun
    → FetchResult
    → Store
    → Outcome × Store
collect_processed (err e) c w adapter run fetch s =
    finish_failure c w adapter run.id CrawlRunStatus.failed (error_class e) (error_text e) s
collect_processed (ok p) c w adapter run fetch s =
    let (finished, s') = complete_run c w run fetch p in (returned (result_from_run finished), s')

-- The body of the `try` behind the fetch.
unfoldable pub collect_fetched :
    CollectorService → World → SourceAdapter → CrawlRun → FetchResult → Store → Outcome × Store
collect_fetched c w adapter run fetch s =
    if str_eq adapter.source_id fetch.source_id && str_eq adapter.scope_key fetch.scope_key
    then collect_processed
        (process_items w adapter fetch run.id fetch.raw_items
          (record { store = put_run run s; seen = []; normalized = 0; parse_errors = 0 }))
        c w adapter run fetch s
    else finish_failure c w adapter run.id CrawlRunStatus.failed "SourceIdentityMismatchError"
        "adapter identity does not match its fetch result identity" s

unfoldable pub collect_locked :
    FetchOutcome → CollectorService → World → SourceAdapter → CrawlRun → Store → Outcome × Store
collect_locked (authentication_required message) c w adapter run s =
    finish_failure c w adapter run.id CrawlRunStatus.paused_auth "AuthenticationRequiredError"
      message s
collect_locked (failed error_type message) c w adapter run s =
    finish_failure c w adapter run.id CrawlRunStatus.failed error_type message s
collect_locked (fetched fetch) c w adapter run s = collect_fetched c w adapter run fetch s

-- The run of another worker holds the lock.
abbrev pub already_running : World → CrawlRun → CrawlRun
already_running w run = record run {
  status = CrawlRunStatus.already_running;
  finished_at = some w.failed_at;
  error_type = some "already_running";
  error_message = some "another worker owns this source and scope";
}

abbrev pub succeeded_run : Option CrawlRun → Option CrawlRun
succeeded_run none = none
succeeded_run (some r) = if is_succeeded r.status then some r else none

-- A run that has not succeeded before.
unfoldable pub collect_unless :
    Option CrawlRun → CollectorService → World → SourceAdapter → ℕ → Bool → Store → Outcome × Store
unfolding start_run
collect_unless (some existing) c w adapter run_id locked s =
    (returned (result_from_run existing), s)
collect_unless none c w adapter run_id locked s =
    let run = start_run run_id adapter w.started_at c.data_mode in
    if locked
    then collect_locked adapter.fetch c w adapter run s
    else (returned (result_from_run (already_running w run)), put_run (already_running w run) s)

-- The run that is stored under the identifier, if it has succeeded.
abbrev pub finished_run : ℕ → Store → Option CrawlRun
finished_run run_id s = succeeded_run (find (λ (r : CrawlRun). r.id == run_id) s.runs)

-- `CollectorService.collect`. `locked` says whether the lock of the scope was given.
unfoldable pub collect :
    CollectorService → World → SourceAdapter → ℕ → Bool → Store → Outcome × Store
collect c w adapter run_id locked s =
    collect_unless (finished_run run_id s) c w adapter run_id locked s
