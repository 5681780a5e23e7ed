-- ===== src/Collector/Tests.antt =====
-- Runs of the collector on a small store, and its theorems at them.
use shanghai_home_radar.Prelude.{
  ℕ, ◌≡◌, ◌↔◌, refl, true, false, none, some, [], ◌∷◌, arith, All, min, max, ◌+◌,
}
use shanghai_home_radar.Collector.Domain.{CrawlRunStatus, ListingPresence, Store}
use shanghai_home_radar.Collector.Changes.{price_changes, detect_observation_changes}
use shanghai_home_radar.Collector.Repository.{
  new_listing, take_listing, record_observation, store_observation, apply_current_state,
  add_event_once, ingest_observation, find,
}
use shanghai_home_radar.Collector.Presence.{
  has_identity, seen, mark_observed_presence, refresh_listing_status, miss, note_change,
  append_reconciliation_snapshot, miss_presence, reconcile_all, reconcile_complete_scope,
}
use shanghai_home_radar.Collector.Service.{
  CollectionResult, result_from_run, start_run, final_completeness, coverage_guard_reason,
  latest_complete_run, apply_live_coverage_guard, is_complete, is_live, normalized_count,
}
use shanghai_home_radar.Collector.Service.Collect.{
  returned, mark_all, judged_run, reconcile_if_complete, settle_presences, finish_success,
  complete_run, collect_processed, collect_fetched, collect_locked, collect_unless, finished_run,
  collect,
}
use shanghai_home_radar.Collector.Service.Items.{ingest_unless, process_normalized, process_items}
use shanghai_home_radar.Collector.Samples.{
  service, world, adapter, fetch_result, store, partial_run, one_seen,
}
use shanghai_home_radar.Collector.Invariants.Presences.{Fits, collect-presences_fit}
use shanghai_home_radar.Collector.Invariants.Uniqueness.{IsUnique, collect-rows-IsUnique}
use shanghai_home_radar.Collector.Invariants.Outcomes.{
  AllOrNothing, collect-AllOrNothing, collect-rerun,
}
use shanghai_home_radar.Collector.Invariants.Counts.{collect-counts_balance}
use shanghai_home_radar.Collector.Invariants.Completeness.{
  IsCovered, judged_run-complete_iff, StaysOrActive, settle_presences-partial,
}
use shanghai_home_radar.Collector.Invariants.Misses.{
  Unseen, sighted, missed, changed, state_after, find-Unseen,
}

-- A run of the sample source returns and succeeds.
done_run :
    (r : CollectionResult) × (s : Store) × (collect service world adapter 5 true store
      ≡ (returned r, s))
    × (r.status ≡ CrawlRunStatus.succeeded)
unfolding collect collect_unless collect_locked collect_fetched collect_processed complete_run
    settle_presences reconcile_if_complete judged_run finish_success process_items
    process_normalized ingest_unless mark_all ingest_observation take_listing record_observation
    store_observation apply_current_state add_event_once detect_observation_changes price_changes
    new_listing mark_observed_presence refresh_listing_status seen reconcile_complete_scope
    reconcile_all miss_presence note_change miss append_reconciliation_snapshot result_from_run
    start_run final_completeness apply_live_coverage_guard latest_complete_run coverage_guard_reason
done_run = (_, _, refl, refl)

collect-presences_fit_example :
    All (Fits 2) (collect service world adapter 5 true store).1.presences
collect-presences_fit_example = collect-presences_fit service world adapter 5 true store (refl, tt)

collect-rows-IsUnique_example : IsUnique (collect service world adapter 5 true store).1
collect-rows-IsUnique_example =
    collect-rows-IsUnique service world adapter 5 true store
      (record { events = (refl, tt); snapshots = (refl, tt) })

collect-AllOrNothing_example : AllOrNothing 5 store (collect service world adapter 5 true store)
collect-AllOrNothing_example = collect-AllOrNothing service world adapter 5 true store

collect-rerun_example :
    collect service world adapter 5 false done_run.1 ≡ (returned done_run.0, done_run.1)
collect-rerun_example =
    collect-rerun service world adapter 5 true store done_run.1 done_run.0 done_run.2 done_run.3
      service world adapter false

no_run : finished_run 5 store ≡ none
no_run = refl

collect-counts_balance_example :
    done_run.0.raw_item_count ≡ done_run.0.normalized_item_count + done_run.0.parse_error_count
collect-counts_balance_example =
    collect-counts_balance service world adapter 5 true store done_run.1 done_run.0 no_run
      done_run.2

judged_run-complete_iff_example :
    (is_complete (judged_run service partial_run fetch_result one_seen).completeness ≡ true) ↔ (
      (is_complete fetch_result.completeness ≡ true)
      × (one_seen.parse_errors ≡ 0)
      × (is_live service.data_mode ≡ true
          → IsCovered service one_seen.normalized
              (normalized_count (latest_complete_run "feed" "shanghai" service.data_mode store))))
judged_run-complete_iff_example = judged_run-complete_iff service partial_run fetch_result one_seen

settle_presences-partial_example :
    All
      (StaysOrActive store.presences)
      (settle_presences service 22 partial_run one_seen).1.presences
settle_presences-partial_example = settle_presences-partial service 22 partial_run one_seen refl

-- The old listing is seen, and then another one; two runs see that one alone.
unseen_twice : (s : Store) × Unseen 2 7 "feed" "shanghai" 2 s
unfolding mark_observed_presence refresh_listing_status seen
unseen_twice =
    let other : ℕ = 9 in
    (
      _,
      missed 3 30 (other ∷ []) refl (
          missed 2 25 (other ∷ []) refl (
            changed
              (mark_observed_presence 1 other "feed" "shanghai" 20 true
                (mark_observed_presence 1 7 "feed" "shanghai" 20 true store).1).1
              refl (sighted 1 20 true store (omega arith)))),
    )

find-Unseen_example :
    (p : ListingPresence) × (find (has_identity 7 "feed" "shanghai") unseen_twice.0.presences
      ≡ some p)
    × (p.state ≡ state_after 2 2)
    × (p.consecutive_complete_misses ≡ min 2 (max 1 2))
find-Unseen_example = find-Unseen 2 7 "feed" "shanghai" 2 unseen_twice.0 unseen_twice.1
