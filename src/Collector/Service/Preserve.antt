-- ===== src/Collector/Service/Preserve.antt =====
-- How a property of the store is carried through a whole collection run.
use shanghai_home_radar.Prelude.{
  ℕ, Bool, true, false, List, [], ◌∷◌, ok, err, arith, All, All-select, Bool-cases, inl, inr,
  String, OnOk, OnOk-then, ◌&&◌, Option, Result, str_eq, none, some,
}
use shanghai_home_radar.Collector.Domain.{
  ListingObservation, ListingPresence, RawSourceRecord, CrawlRun, CrawlRunStatus, Store,
}
use shanghai_home_radar.Collector.Repository.{IngestionResult, ingest_observation}
use shanghai_home_radar.Collector.Presence.{
  mark_observed_presence, miss_presence, reconcile_all, reconcile_complete_scope,
  ReconciliationResult, tally, is_candidate,
}
use shanghai_home_radar.Collector.Service.{
  CollectorService, SourceAdapter, FetchResult, Normalized, observation, rejected, FetchOutcome,
  authentication_required, failed, fetched, is_complete,
}
use shanghai_home_radar.Collector.Service.Collect.{
  put_run, mark_all, complete_run, finish_failure, collect, settle_presences, judged_run,
  reconcile_if_complete, collect_fetched, collect_locked, collect_processed, collect_unless,
  finished_run,
}
use shanghai_home_radar.Collector.Service.Items.{
  World, Progress, add_raw_record, ingest_unless, process_normalized, process_item, process_items,
}

-- `P` is the property of the store, `Q` what it says of each presence.
module _ (c : CollectorService) (P : Store → Type 0) (Q : ListingPresence → Type 0)
    (members : (s : Store) → P s → All Q s.presences)
    (on_run : (r : CrawlRun) (s : Store) → P s → P (put_run r s))
    (on_raw : (r : RawSourceRecord) (s : Store) → P s → P (add_raw_record r s))
    (on_ingest : (run : ℕ) (o : ListingObservation) (raw : ℕ) (s : Store)
      → P s
      → OnOk (λ (x : IngestionResult × Store). P x.1) (ingest_observation run o raw s))
    (on_mark : (run listing : ℕ) (source scope : String) (time : ℕ) (complete : Bool) (s : Store)
      → P s
      → P (mark_observed_presence run listing source scope time complete s).1)
    (on_miss : (run time : ℕ) (p : ListingPresence) (s : Store)
      → Q p
      → P s
      → P (miss_presence run time c.final_after_missing_runs p s).1) where
  ingest_unless-carries :
      (refused : Option String) (a : SourceAdapter) (run raw : ℕ) (o : ListingObservation)
      (p : Progress)
      → P p.store
      → OnOk (λ (q : Progress). P q.store) (ingest_unless refused a run raw o p)
  unfolding ingest_unless
  ingest_unless-carries (some error) a run raw o p h = on_raw _ p.store h
  ingest_unless-carries none a run raw o p h =
      OnOk-then (λ (x : IngestionResult × Store). P x.1) (λ (q : Progress). P q.store)
        (ingest_observation run o raw p.store) _ (on_ingest run o raw p.store h)
        (λ x k. on_raw _ x.1 k)

  process_normalized-carries :
      (n : Normalized) (w : World) (a : SourceAdapter) (f : FetchResult) (run raw : ℕ)
      (p : Progress)
      → P p.store
      → OnOk (λ (q : Progress). P q.store) (process_normalized n w a f run raw p)
  unfolding process_normalized
  process_normalized-carries (rejected error) w a f run raw p h = on_raw _ p.store h
  process_normalized-carries (observation o) w a f run raw p h =
      ground (arith, ingest_unless-carries (w.refuses raw) a run raw o p h)

  process_items-carries :
      (w : World) (a : SourceAdapter) (f : FetchResult) (run : ℕ) (raws : List ℕ) (p : Progress)
      → P p.store
      → OnOk (λ (q : Progress). P q.store) (process_items w a f run raws p)
  unfolding process_items
  process_items-carries w a f run [] p h = h
  process_items-carries w a f run (raw ∷ raws) p h =
      OnOk-then (λ (q : Progress). P q.store) (λ (q : Progress). P q.store)
        (process_item w a f run raw p) _
        (process_normalized-carries (a.normalize raw) w a f run raw p h)
        (process_items-carries w a f run raws)

  mark_all-carries :
      (r : CrawlRun) (time : ℕ) (complete : Bool) (ids : List ℕ) (s : Store)
      → P s
      → P (mark_all r time complete ids s)
  unfolding mark_all
  mark_all-carries r time complete [] s h = h
  mark_all-carries r time complete (id ∷ ids) s h =
      mark_all-carries r time complete ids
        (mark_observed_presence r.id id r.source r.scope_key time complete s).1
        (on_mark r.id id r.source r.scope_key time complete s h)

  reconcile_all-carries :
      (run time : ℕ) (ps : List ListingPresence) (n : ReconciliationResult) (s : Store)
      → All Q ps
      → P s
      → P (reconcile_all run time c.final_after_missing_runs ps n s).1
  unfolding reconcile_all
  reconcile_all-carries run time [] n s q h = h
  reconcile_all-carries run time (p ∷ ps) n s q h =
      reconcile_all-carries run time ps
        (tally (miss_presence run time c.final_after_missing_runs p s).0 n)
        (miss_presence run time c.final_after_missing_runs p s).1 q.1 (on_miss run time p s q.0 h)

  reconcile_complete_scope-carries :
      (run : ℕ) (source scope : String) (time : ℕ) (seen : List ℕ) (s : Store)
      → P s
      → P (reconcile_complete_scope run source scope time c.final_after_missing_runs seen s).1
  unfolding reconcile_complete_scope
  reconcile_complete_scope-carries run source scope time seen s h =
      reconcile_all-carries run time _ _ s
        (All-select Q (is_candidate source scope seen) s.presences (members s h)) h

  settle_presences-carries :
      (time : ℕ) (r : CrawlRun) (p : Progress) → P p.store → P (settle_presences c time r p).1
  unfolding settle_presences reconcile_if_complete
  settle_presences-carries time r p h =
      let marked = mark_all-carries r time (is_complete r.completeness) p.seen p.store h in
      elim (Bool-cases (is_complete r.completeness)) [
        | inl complete ↦ rw complete (
            reconcile_complete_scope-carries r.id r.source r.scope_key time p.seen _
              (rw complete at marked))
        | inr partial ↦ rw partial (rw partial at marked)
      ]

  complete_run-carries :
      (w : World) (r : CrawlRun) (f : FetchResult) (p : Progress)
      → P p.store
      → P (complete_run c w r f p).1
  unfolding complete_run
  complete_run-carries w r f p h =
      on_run (complete_run c w r f p).0 (settle_presences c w.finished_at (judged_run c r f p) p).1
        (settle_presences-carries w.finished_at (judged_run c r f p) p h)

  finish_failure-carries :
      (w : World) (a : SourceAdapter) (id : ℕ) (status : CrawlRunStatus)
      (error_type message : String) (s : Store)
      → P s
      → P (finish_failure c w a id status error_type message s).1
  unfolding finish_failure
  finish_failure-carries w a id status error_type message s h = on_run _ s h

  collect_processed-carries :
      (q : Result Progress) (w : World) (a : SourceAdapter) (r : CrawlRun) (f : FetchResult)
      (s : Store)
      → OnOk (λ (p : Progress). P p.store) q
      → P s
      → P (collect_processed q c w a r f s).1
  unfolding collect_processed
  collect_processed-carries (err e) w a r f s k h =
      finish_failure-carries w a r.id CrawlRunStatus.failed _ _ s h
  collect_processed-carries (ok p) w a r f s k h = complete_run-carries w r f p k

  collect_fetched-carries :
      (w : World) (a : SourceAdapter) (r : CrawlRun) (f : FetchResult) (s : Store)
      → P s
      → P (collect_fetched c w a r f s).1
  unfolding collect_fetched
  collect_fetched-carries w a r f s h =
      let start : Progress = record {
        store = put_run r s;
        seen = [];
        normalized = 0;
        parse_errors = 0;
      } in
      elim (Bool-cases (str_eq a.source_id f.source_id && str_eq a.scope_key f.scope_key)) [
        | inr mismatch ↦ rw mismatch (finish_failure-carries w a r.id CrawlRunStatus.failed _ _ s h)
        | inl same ↦ rw same (
            collect_processed-carries (process_items w a f r.id f.raw_items start) w a r f s
              (process_items-carries w a f r.id f.raw_items start (on_run r s h)) h)
      ]

  collect_locked-carries :
      (o : FetchOutcome) (w : World) (a : SourceAdapter) (r : CrawlRun) (s : Store)
      → P s
      → P (collect_locked o c w a r s).1
  unfolding collect_locked
  collect_locked-carries (authentication_required m) w a r s h =
      finish_failure-carries w a r.id CrawlRunStatus.paused_auth _ m s h
  collect_locked-carries (failed t m) w a r s h =
      finish_failure-carries w a r.id CrawlRunStatus.failed t m s h
  collect_locked-carries (fetched f) w a r s h = collect_fetched-carries w a r f s h

  collect_unless-carries :
      (existing : Option CrawlRun) (w : World) (a : SourceAdapter) (id : ℕ) (locked : Bool)
      (s : Store)
      → P s
      → P (collect_unless existing c w a id locked s).1
  unfolding collect_unless
  collect_unless-carries (some r) w a id locked s h = h
  collect_unless-carries none w a id true s h = collect_locked-carries a.fetch w a _ s h
  collect_unless-carries none w a id false s h = on_run _ s h

  -- What every single step keeps, the whole run keeps.
  pub collect-carries :
      (w : World) (a : SourceAdapter) (id : ℕ) (locked : Bool) (s : Store)
      → P s
      → P (collect c w a id locked s).1
  unfolding collect
  collect-carries w a id locked s h = collect_unless-carries (finished_run id s) w a id locked s h
