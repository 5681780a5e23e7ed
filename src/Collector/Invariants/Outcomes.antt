-- ===== src/Collector/Invariants/Outcomes.antt =====
-- A run writes all of its rows or none, and a run that has succeeded is not done again.
use shanghai_home_radar.Prelude.{
  ℕ, ◌≡◌, refl, ap, ◌∙◌, Bool, true, false, ◌&&◌, ◌⊎◌, inl, inr, Option, none, some, List, [], ◌∷◌,
  ◌++◌, ok, err, arith, String, Bool-cases, ◌==◌, Result, str_eq,
}
use shanghai_home_radar.Collector.Domain.{CrawlRun, CrawlRunStatus, Store}
use shanghai_home_radar.Collector.Repository.{find, any, update_where}
use shanghai_home_radar.Collector.Service.{
  CollectorService, SourceAdapter, FetchResult, CollectionResult, FetchOutcome,
  authentication_required, failed, fetched, result_from_run, is_succeeded, start_run,
  apply_live_coverage_guard,
}
use shanghai_home_radar.Collector.Service.Collect.{
  Outcome, returned, raised, put_run, complete_run, finish_failure, finish_success, judged_run,
  collect_processed, collect_fetched, collect_locked, collect_unless, finished_run, collect,
  settle_presences,
}
use shanghai_home_radar.Collector.Service.Items.{World, Progress}

-- Only the rows of the runs may differ.
pub record IsUnchanged (s s' : Store) : Type 0 where
  pub listings : s'.listings ≡ s.listings
  pub snapshots : s'.snapshots ≡ s.snapshots
  pub events : s'.events ≡ s.events
  pub presences : s'.presences ≡ s.presences
  pub raw_records : s'.raw_records ≡ s.raw_records

-- The run has succeeded, and is stored as the one of its identifier.
abbrev pub IsStored : ℕ → Outcome → Store → Type 0
IsStored id (returned r) s =
    (run : CrawlRun) × (finished_run id s ≡ some run) × (result_from_run run ≡ r)
IsStored id (raised status) s = ⊥

IsUnchanged-put_run : (r : CrawlRun) (s : Store) → IsUnchanged s (put_run r s)
IsUnchanged-put_run r s = record {
  listings = refl;
  snapshots = refl;
  events = refl;
  presences = refl;
  raw_records = refl;
}

-- The row that was put is the one that is found.
find-update :
    (run : CrawlRun) (rs : List CrawlRun)
    → any (λ (r : CrawlRun). r.id == run.id) rs ≡ true
    → find
        (λ (r : CrawlRun). r.id == run.id)
        (update_where (λ (r : CrawlRun). r.id == run.id) (λ _. run) rs)
      ≡ some run
find-update run [] h = ground (arith, h)
find-update run (r ∷ rs) h = ground (arith, find-update run rs, h)

find-append :
    (run : CrawlRun) (rs : List CrawlRun)
    → any (λ (r : CrawlRun). r.id == run.id) rs ≡ false
    → find (λ (r : CrawlRun). r.id == run.id) (rs ++ run ∷ []) ≡ some run
find-append run [] h = ground arith
find-append run (r ∷ rs) h = ground (arith, find-append run rs, h)

find-put_run :
    (run : CrawlRun) (s : Store)
    → find (λ (r : CrawlRun). r.id == run.id) (put_run run s).runs ≡ some run
find-put_run run s = ground (arith, find-update run s.runs, find-append run s.runs)

finished_run-put_run :
    (run : CrawlRun) (id : ℕ) (s : Store)
    → run.id ≡ id
    → run.status ≡ CrawlRunStatus.succeeded
    → finished_run id (put_run run s) ≡ some run
finished_run-put_run run id s same done = rw⁻¹ same (rw (find-put_run run s) (ground (arith, done)))

judged_run-id :
    (c : CollectorService) (r : CrawlRun) (f : FetchResult) (p : Progress)
    → (judged_run c r f p).id ≡ r.id
unfolding judged_run apply_live_coverage_guard
judged_run-id c r f p = ground arith

abbrev pub NotSucceeded : Outcome → Type 0
NotSucceeded (returned r) = is_succeeded r.status ≡ false
NotSucceeded (raised status) = Unit

-- Either the run has succeeded and is stored, or it has not and nothing else was written.
abbrev pub AllOrNothing : ℕ → Store → Outcome × Store → Type 0
AllOrNothing id s x = IsStored id x.0 x.1 ⊎ (NotSucceeded x.0 × IsUnchanged s x.1)

module _ (c : CollectorService) (w : World) (a : SourceAdapter) where
  finish_failure-AllOrNothing :
      (id : ℕ) (status : CrawlRunStatus) (error_type message : String) (s : Store)
      → AllOrNothing id s (finish_failure c w a id status error_type message s)
  unfolding finish_failure
  finish_failure-AllOrNothing id status error_type message s = inr (tt, IsUnchanged-put_run _ s)

  complete_run-IsStored :
      (r : CrawlRun) (f : FetchResult) (p : Progress)
      → IsStored r.id
          (returned (result_from_run (complete_run c w r f p).0))
          (complete_run c w r f p).1
  unfolding complete_run finish_success
  complete_run-IsStored r f p =
      let (finished, s) = complete_run c w r f p in
      (
        finished,
        finished_run-put_run finished r.id
            (settle_presences c w.finished_at (judged_run c r f p) p).1 (judged_run-id c r f p)
            refl,
        refl,
      )

  collect_processed-AllOrNothing :
      (q : Result Progress) (r : CrawlRun) (f : FetchResult) (s : Store)
      → AllOrNothing r.id s (collect_processed q c w a r f s)
  unfolding collect_processed
  collect_processed-AllOrNothing (err e) r f s =
      finish_failure-AllOrNothing r.id CrawlRunStatus.failed _ _ s
  collect_processed-AllOrNothing (ok p) r f s = inl (complete_run-IsStored r f p)

  collect_fetched-AllOrNothing :
      (r : CrawlRun) (f : FetchResult) (s : Store)
      → AllOrNothing r.id s (collect_fetched c w a r f s)
  unfolding collect_fetched
  collect_fetched-AllOrNothing r f s =
      elim (Bool-cases (str_eq a.source_id f.source_id && str_eq a.scope_key f.scope_key)) [
        | inl same ↦ rw same (collect_processed-AllOrNothing _ r f s)
        | inr mismatch ↦ rw mismatch (finish_failure-AllOrNothing r.id CrawlRunStatus.failed _ _ s)
      ]

  collect_locked-AllOrNothing :
      (o : FetchOutcome) (r : CrawlRun) (s : Store)
      → AllOrNothing r.id s (collect_locked o c w a r s)
  unfolding collect_locked
  collect_locked-AllOrNothing (authentication_required m) r s =
      finish_failure-AllOrNothing r.id CrawlRunStatus.paused_auth _ m s
  collect_locked-AllOrNothing (failed t m) r s =
      finish_failure-AllOrNothing r.id CrawlRunStatus.failed t m s
  collect_locked-AllOrNothing (fetched f) r s = collect_fetched-AllOrNothing r f s

  collect_unless-AllOrNothing :
      (existing : Option CrawlRun) (id : ℕ) (locked : Bool) (s : Store)
      → finished_run id s ≡ existing
      → AllOrNothing id s (collect_unless existing c w a id locked s)
  unfolding collect_unless result_from_run
  collect_unless-AllOrNothing (some r) id locked s e = inl (r, e, refl)
  collect_unless-AllOrNothing none id true s e =
      collect_locked-AllOrNothing a.fetch (start_run id a w.started_at c.data_mode) s
  collect_unless-AllOrNothing none id false s e = inr (refl, IsUnchanged-put_run _ s)

-- A collection run either has succeeded, and is then stored under its identifier with the result that
-- it returns, or it has not, and then it leaves every row but those of the runs as it was.
pub collect-AllOrNothing :
    (c : CollectorService) (w : World) (a : SourceAdapter) (id : ℕ) (locked : Bool) (s : Store)
    → AllOrNothing id s (collect c w a id locked s)
unfolding collect
collect-AllOrNothing c w a id locked s =
    collect_unless-AllOrNothing c w a (finished_run id s) id locked s refl

collect_again :
    (c : CollectorService) (w : World) (a : SourceAdapter) (id : ℕ) (locked : Bool) (s : Store)
    (run : CrawlRun)
    → finished_run id s ≡ some run
    → collect c w a id locked s ≡ (returned (result_from_run run), s)
unfolding collect collect_unless
collect_again c w a id locked s run e = rw e refl

-- A run that has returned a success is not done again: whatever the service, the source and the lock
-- are then, the same identifier returns the same result and changes nothing.
pub collect-rerun :
    (c : CollectorService) (w : World) (a : SourceAdapter) (id : ℕ) (locked : Bool) (s s' : Store)
    (r : CollectionResult)
    → collect c w a id locked s ≡ (returned r, s')
    → r.status ≡ CrawlRunStatus.succeeded
    → (c' : CollectorService) (w' : World) (a' : SourceAdapter) (locked' : Bool)
    → collect c' w' a' id locked' s' ≡ (returned r, s')
collect-rerun c w a id locked s s' r e done c' w' a' locked' =
    let all : AllOrNothing id s (returned r, s') =
      rw e at (collect-AllOrNothing c w a id locked s) in
    elim all [
      | inl (run, stored, same) ↦
          collect_again c' w' a' id locked' s' run stored ∙ ap (λ x. (returned x, s')) same
      | inr (open_run, unchanged) ↦ absurd (ground (arith, open_run, done))
    ]
