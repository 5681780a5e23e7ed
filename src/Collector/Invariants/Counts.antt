-- ===== src/Collector/Invariants/Counts.antt =====
-- The counts of a run that has succeeded.
use shanghai_home_radar.Prelude.{
  ℕ, ◌≡◌, ◌+◌, refl, Bool, true, false, ◌&&◌, Option, none, some, List, [], ◌∷◌, ok, err, arith,
  String, Bool-cases, inl, inr, Result, str_eq, OnOk, OnOk-then, OnOk-trivial, OnOk-map, length,
}
use shanghai_home_radar.Collector.Domain.{ListingObservation, CrawlRun, Store}
use shanghai_home_radar.Collector.Repository.{ingest_observation}
use shanghai_home_radar.Collector.Service.{
  CollectorService, SourceAdapter, FetchResult, CollectionResult, FetchOutcome,
  authentication_required, failed, fetched, Normalized, observation, rejected, result_from_run,
  start_run, apply_live_coverage_guard,
}
use shanghai_home_radar.Collector.Service.Collect.{
  Outcome, returned, raised, put_run, complete_run, finish_failure, finish_success, judged_run,
  collect_processed, collect_fetched, collect_locked, collect_unless, finished_run, collect,
}
use shanghai_home_radar.Collector.Service.Items.{
  World, Progress, ingest_unless, process_normalized, process_items,
}

-- `n` more items were counted.
abbrev Counts : ℕ → Progress → Progress → Type 0
Counts n p q = q.normalized + q.parse_errors ≡ n + (p.normalized + p.parse_errors)

ingest_unless-Counts :
    (refused : Option String) (a : SourceAdapter) (run raw : ℕ) (o : ListingObservation)
    (p : Progress)
    → OnOk (Counts 1 p) (ingest_unless refused a run raw o p)
unfolding ingest_unless
ingest_unless-Counts (some error) a run raw o p = omega arith
ingest_unless-Counts none a run raw o p =
    OnOk-then (λ _. Unit {0}) (Counts 1 p) (ingest_observation run o raw p.store) _ (OnOk-trivial _)
      (λ x _. omega arith)

process_normalized-Counts :
    (n : Normalized) (w : World) (a : SourceAdapter) (f : FetchResult) (run raw : ℕ) (p : Progress)
    → OnOk (Counts 1 p) (process_normalized n w a f run raw p)
unfolding process_normalized
process_normalized-Counts (rejected error) w a f run raw p = omega arith
process_normalized-Counts (observation o) w a f run raw p =
    elim (Bool-cases (str_eq o.source f.source_id)) [
      | inl same ↦ rw same (ingest_unless-Counts (w.refuses raw) a run raw o p)
      | inr other ↦ rw other tt
    ]

process_items-Counts :
    (w : World) (a : SourceAdapter) (f : FetchResult) (run : ℕ) (raws : List ℕ) (p : Progress)
    → OnOk (Counts (length raws) p) (process_items w a f run raws p)
unfolding process_items
process_items-Counts w a f run [] p = omega arith
process_items-Counts w a f run (raw ∷ raws) p =
    OnOk-then (Counts 1 p) (Counts (length (raw ∷ raws)) p)
      (process_normalized (a.normalize raw) w a f run raw p) _
      (process_normalized-Counts (a.normalize raw) w a f run raw p)
      (λ q k.
        OnOk-map (Counts (length raws) q) (Counts (length (raw ∷ raws)) p)
          (process_items w a f run raws q) (λ t m. omega (arith, k, m))
          (process_items-Counts w a f run raws q))

-- Every item of a run that has succeeded is counted once.
abbrev Balanced : Outcome → Type 0
Balanced (returned r) = r.raw_item_count ≡ r.normalized_item_count + r.parse_error_count
Balanced (raised status) = Unit

complete_run-Balanced :
    (c : CollectorService) (w : World) (r : CrawlRun) (f : FetchResult) (p : Progress)
    → length f.raw_items ≡ p.normalized + p.parse_errors
    → Balanced (returned (result_from_run (complete_run c w r f p).0))
unfolding complete_run finish_success result_from_run judged_run apply_live_coverage_guard
complete_run-Balanced c w r f p h = ground (arith, h)

module _ (c : CollectorService) (w : World) (a : SourceAdapter) where
  collect_processed-Balanced :
      (q : Result Progress) (r : CrawlRun) (f : FetchResult) (s : Store)
      → OnOk (λ (p : Progress). length f.raw_items ≡ p.normalized + p.parse_errors) q
      → Balanced (collect_processed q c w a r f s).0
  unfolding collect_processed finish_failure
  collect_processed-Balanced (err e) r f s h = tt
  collect_processed-Balanced (ok p) r f s h = complete_run-Balanced c w r f p h

  collect_fetched-Balanced :
      (r : CrawlRun) (f : FetchResult) (s : Store) → Balanced (collect_fetched c w a r f s).0
  unfolding collect_fetched finish_failure
  collect_fetched-Balanced r f s =
      let start : Progress = record {
        store = put_run r s;
        seen = [];
        normalized = 0;
        parse_errors = 0;
      } in
      elim (Bool-cases (str_eq a.source_id f.source_id && str_eq a.scope_key f.scope_key)) [
        | inl same ↦ rw same (
            collect_processed-Balanced (process_items w a f r.id f.raw_items start) r f s (
              OnOk-map (Counts (length f.raw_items) start)
                (λ (p : Progress). length f.raw_items ≡ p.normalized + p.parse_errors)
                (process_items w a f r.id f.raw_items start) (λ p k. omega (arith, k))
                (process_items-Counts w a f r.id f.raw_items start)))
        | inr mismatch ↦ rw mismatch tt
      ]

  collect_locked-Balanced :
      (o : FetchOutcome) (r : CrawlRun) (s : Store) → Balanced (collect_locked o c w a r s).0
  unfolding collect_locked finish_failure
  collect_locked-Balanced (authentication_required m) r s = tt
  collect_locked-Balanced (failed t m) r s = tt
  collect_locked-Balanced (fetched f) r s = collect_fetched-Balanced r f s

  collect_unless-Balanced :
      (id : ℕ) (locked : Bool) (s : Store) → Balanced (collect_unless none c w a id locked s).0
  unfolding collect_unless result_from_run start_run
  collect_unless-Balanced id true s =
      collect_locked-Balanced a.fetch (start_run id a w.started_at c.data_mode) s
  collect_unless-Balanced id false s = refl

-- Each item of a run that was not done before and returns is counted exactly once: it was normalized
-- and stored, or it was refused.
pub collect-counts_balance :
    (c : CollectorService) (w : World) (a : SourceAdapter) (id : ℕ) (locked : Bool) (s s' : Store)
    (r : CollectionResult)
    → finished_run id s ≡ none
    → collect c w a id locked s ≡ (returned r, s')
    → r.raw_item_count ≡ r.normalized_item_count + r.parse_error_count
unfolding collect
collect-counts_balance c w a id locked s s' r new e =
    let done : collect_unless none c w a id locked s ≡ (returned r, s') = rw new at e in
    let balanced : Balanced (returned r) = rw done at (collect_unless-Balanced c w a id locked s) in
    balanced
