-- ===== src/Collector/Invariants/Uniqueness.antt =====
-- A run has at most one snapshot of a listing, and at most one event of a type for it.
use shanghai_home_radar.Prelude.{
  ℕ, ◌≡◌, Bool, true, false, not, ◌||◌, Option, none, some, List, [], ◌∷◌, ok, arith, OnOk,
  OnOk-then, OnOk-trivial, String, Bool-cases, inl, inr, Decimal, pos, if◌then◌else◌, ltb, is_none,
}
use shanghai_home_radar.Collector.Domain.{
  Listing, ListingObservation, ListingPresence, ListingEvent, ListingSnapshot, ListingEventType,
  PresenceState, Store,
}
use shanghai_home_radar.Collector.Changes.{DetectedChange, detect_observation_changes}
use shanghai_home_radar.Collector.Repository.{
  IngestionResult, find, any, has_id, has_source, same_event, add_event_once, in_run, at_time,
  change_event, add_changes, new_listing, take_listing, sees_current, price_before, unit_price_of,
  store_observation, record_observation, ingest_observation,
}
use shanghai_home_radar.Collector.Presence.{
  refresh_listing_status, mark_observed_presence, relisted_event, is_absent, has_identity, miss,
  note_change, miss_presence, add_missing_snapshot, append_reconciliation_snapshot,
}
use shanghai_home_radar.Collector.Rows.{Distinct, Distinct-snoc, find_fits, OnSome, All-trivial}
use shanghai_home_radar.Collector.Service.{CollectorService, SourceAdapter}
use shanghai_home_radar.Collector.Service.Collect.{collect}
use shanghai_home_radar.Collector.Service.Items.{World}
use shanghai_home_radar.Collector.Service.Preserve.{collect-carries}

-- Two snapshots of one listing in one run.
abbrev pub same_snapshot : ListingSnapshot → ListingSnapshot → Bool
same_snapshot a b = in_run a.crawl_run_id a.listing_id b

pub record IsUnique (s : Store) : Type 0 where
  pub events : Distinct same_event s.events
  pub snapshots : Distinct same_snapshot s.snapshots

same_event_symm : (e f : ListingEvent) → same_event e f ≡ same_event f e
same_event_symm e f = ground arith

same_snapshot_symm : (a b : ListingSnapshot) → same_snapshot a b ≡ same_snapshot b a
same_snapshot_symm a b = ground arith

add_event_once-Distinct :
    (e : ListingEvent) (es : List ListingEvent)
    → Distinct same_event es
    → Distinct same_event (add_event_once e es)
unfolding add_event_once
add_event_once-Distinct e es d = elim (Bool-cases (any (same_event e) es)) [
  | inl known ↦ rw known d
  | inr new ↦ rw new (Distinct-snoc same_event same_event_symm es e d new)
]

add_changes-Distinct :
    (run listing time : ℕ) (changes : List DetectedChange) (es : List ListingEvent)
    → Distinct same_event es
    → Distinct same_event (add_changes run listing time changes es)
add_changes-Distinct run listing time [] es d = d
add_changes-Distinct run listing time (c ∷ changes) es d =
    add_changes-Distinct run listing time changes _
      (add_event_once-Distinct (change_event run listing time c) es d)

store_observation-IsUnique :
    (created is_current : Bool) (unit : Decimal) (run : ℕ) (o : ListingObservation) (raw : ℕ)
    (found : Option Listing) (l : Listing) (s : Store)
    → any (in_run run l.id) s.snapshots ≡ false
    → IsUnique s
    → IsUnique (store_observation created is_current unit run o raw found l s)
unfolding store_observation
store_observation-IsUnique true true unit run o raw found l s n h = record {
  events =
      add_changes-Distinct run l.id o.observed_at
        (detect_observation_changes (is_none found) (price_before found) o.total_price) s.events
        h.events;
  snapshots = Distinct-snoc same_snapshot same_snapshot_symm s.snapshots _ h.snapshots n;
}
store_observation-IsUnique true false unit run o raw found l s n h = record {
  events = h.events;
  snapshots = Distinct-snoc same_snapshot same_snapshot_symm s.snapshots _ h.snapshots n;
}
store_observation-IsUnique false true unit run o raw found l s n h = record {
  events = h.events;
  snapshots = h.snapshots;
}
store_observation-IsUnique false false unit run o raw found l s n h = record {
  events = h.events;
  snapshots = h.snapshots;
}

take_listing-IsUnique :
    (found : Option Listing) (o : ListingObservation) (s : Store)
    → IsUnique s
    → OnOk (λ (x : Listing × Store). IsUnique x.1) (take_listing found o s)
unfolding take_listing
take_listing-IsUnique none o s h =
    OnOk-then (λ _. Unit {0}) (λ (x : Listing × Store). IsUnique x.1) (new_listing s.fresh o) _
      (OnOk-trivial _) (λ l _. record { events = h.events; snapshots = h.snapshots })
take_listing-IsUnique (some l) o s h = elim (Bool-cases (ltb o.observed_at l.first_seen_at)) [
  | inl earlier ↦ rw earlier (record { events = h.events; snapshots = h.snapshots })
  | inr later ↦ rw later h
]

ingest_observation-IsUnique :
    (run : ℕ) (o : ListingObservation) (raw : ℕ) (s : Store)
    → IsUnique s
    → OnOk (λ (x : IngestionResult × Store). IsUnique x.1) (ingest_observation run o raw s)
unfolding ingest_observation record_observation
ingest_observation-IsUnique run o raw s h =
    let found = find (has_source o.source o.source_listing_id) s.listings in
    OnOk-then (λ (x : Listing × Store). IsUnique x.1)
      (λ (x : IngestionResult × Store). IsUnique x.1) (take_listing found o s) _
      (take_listing-IsUnique found o s h)
      (λ x k. elim (Bool-cases (any (in_run run x.0.id) x.1.snapshots)) [
        | inl known ↦ rw known k
        | inr new ↦ rw new (
            OnOk-then (λ _. Unit {0}) (λ (y : IngestionResult × Store). IsUnique y.1)
              (if not (any (at_time x.0.id o.observed_at) x.1.snapshots) || sees_current found o
                then unit_price_of o
                else ok (pos 0))
              _ (OnOk-trivial _)
              (λ unit _.
                store_observation-IsUnique (not (any (at_time x.0.id o.observed_at) x.1.snapshots))
                  (sees_current found o) unit run o raw found x.0 x.1 new k))
      ])

mark_observed_presence-IsUnique :
    (run listing : ℕ) (source scope : String) (time : ℕ) (complete : Bool) (s : Store)
    → IsUnique s
    → IsUnique (mark_observed_presence run listing source scope time complete s).1
unfolding mark_observed_presence refresh_listing_status
mark_observed_presence-IsUnique run listing source scope time complete s h =
    elim (Bool-cases (is_absent (find (has_identity listing source scope) s.presences))) [
      | inl absent ↦ rw absent (record {
        events = add_event_once-Distinct (relisted_event run listing scope time) s.events h.events;
        snapshots = h.snapshots;
      })
      | inr present ↦ rw present (record { events = h.events; snapshots = h.snapshots })
    ]

add_missing_snapshot-Distinct :
    (found : Option Listing) (run listing time : ℕ) (state : PresenceState) (scope : String)
    (snapshots : List ListingSnapshot)
    → OnSome (λ l. has_id listing l ≡ true) found
    → any (in_run run listing) snapshots ≡ false
    → Distinct same_snapshot snapshots
    → Distinct same_snapshot (add_missing_snapshot found run time state scope snapshots)
add_missing_snapshot-Distinct none run listing time state scope snapshots f n h = h
add_missing_snapshot-Distinct (some l) run listing time state scope snapshots f n h =
    let same : l.id ≡ listing = ground (arith, f) in
    Distinct-snoc same_snapshot same_snapshot_symm snapshots _ h (rw same n)

append_reconciliation_snapshot-Distinct :
    (run listing time : ℕ) (state : PresenceState) (scope : String) (s : Store)
    → Distinct same_snapshot s.snapshots
    → Distinct same_snapshot (append_reconciliation_snapshot run listing time state scope s)
unfolding append_reconciliation_snapshot
append_reconciliation_snapshot-Distinct run listing time state scope s h =
    elim (Bool-cases (any (in_run run listing) s.snapshots)) [
      | inl known ↦ rw known h
      | inr new ↦ rw new (
          add_missing_snapshot-Distinct (find (has_id listing) s.listings) run listing time state
            scope s.snapshots (find_fits (has_id listing) s.listings) new h)
    ]

note_change-IsUnique :
    (change : Option ListingEventType) (run time : ℕ) (p after : ListingPresence) (s : Store)
    → IsUnique s
    → IsUnique (note_change change run time p after s).1
unfolding note_change refresh_listing_status
note_change-IsUnique none run time p after s h = h
note_change-IsUnique (some e) run time p after s h = record {
  events = add_event_once-Distinct _ s.events h.events;
  snapshots =
      append_reconciliation_snapshot-Distinct run p.listing_id time after.state p.scope_key s
        h.snapshots;
}

miss_presence-IsUnique :
    (run time final : ℕ) (p : ListingPresence) (s : Store)
    → IsUnique s
    → IsUnique (miss_presence run time final p s).1
unfolding miss_presence
miss_presence-IsUnique run time final p s h =
    note_change-IsUnique (miss final p).1 run time p (miss final p).0 _
      (record { events = h.events; snapshots = h.snapshots })

-- Whatever a collection run ends in, no run has two snapshots of a listing, or two events of one
-- type for it.
pub collect-rows-IsUnique :
    (c : CollectorService) (w : World) (a : SourceAdapter) (id : ℕ) (locked : Bool) (s : Store)
    → IsUnique s
    → IsUnique (collect c w a id locked s).1
collect-rows-IsUnique c w a id locked s h =
    collect-carries c IsUnique (λ _. Unit) (λ s k. All-trivial s.presences)
      (λ r s k. record { events = k.events; snapshots = k.snapshots })
      (λ r s k. record { events = k.events; snapshots = k.snapshots }) ingest_observation-IsUnique
      mark_observed_presence-IsUnique
      (λ run time p s q k. miss_presence-IsUnique run time c.final_after_missing_runs p s k) w a id
      locked s h
