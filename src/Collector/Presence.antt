-- ===== src/Collector/Presence.antt =====
-- services/collector/src/home_radar_collector/repository.py: the presence of listings in a scope.
use shanghai_home_radar.Prelude.{
  ℕ, ◌+◌, Bool, true, false, not, ◌&&◌, ◌||◌, Option, none, some, List, [], ◌∷◌, ◌++◌, String, leb,
  ◌==◌, str_eq, if◌then◌else◌, select,
}
use shanghai_home_radar.Collector.Domain.{
  Listing, ListingSnapshot, ListingEvent, ListingPresence, Store, ListingStatus, ListingEventType,
  PresenceState, EventValue, EventDetails, SnapshotStatus, SnapshotPayload,
}
use shanghai_home_radar.Collector.Repository.{
  find, any, update_where, in_run, has_id, add_event_once,
}

abbrev pub is_active : PresenceState → Bool
is_active PresenceState.active = true
is_active _ = false

abbrev pub is_missing : PresenceState → Bool
is_missing PresenceState.missing_candidate = true
is_missing _ = false

abbrev pub is_sold : ListingStatus → Bool
is_sold ListingStatus.sold = true
is_sold _ = false

-- The primary key of a presence.
abbrev pub has_identity : ℕ → String → String → ListingPresence → Bool
has_identity listing source scope p =
    p.listing_id == listing && str_eq p.source source && str_eq p.scope_key scope

-- The states of one listing's presences.
abbrev pub states_of : ℕ → List ListingPresence → List PresenceState
states_of listing [] = []
states_of listing (p ∷ ps) =
    if p.listing_id == listing then p.state ∷ states_of listing ps else states_of listing ps

-- The status that the states of the presences give a listing.
abbrev pub status_from : List PresenceState → ListingStatus → ListingStatus
status_from states status =
    if any is_active states
    then ListingStatus.active
    else if any is_missing states
    then ListingStatus.missing_candidate
    else if any (λ _. true) states && not (is_sold status)
    then ListingStatus.inactive
    else status

-- `_refresh_listing_status`
unfoldable pub refresh_listing_status : ℕ → Store → Store
refresh_listing_status listing s = record s {
  listings =
      update_where (has_id listing)
        (λ (l : Listing). record l {
          status = status_from (states_of listing s.presences) l.status;
        })
        s.listings;
}

abbrev pub relisted_event : ℕ → ℕ → String → ℕ → ListingEvent
relisted_event run listing scope time = record {
  listing_id = listing;
  crawl_run_id = run;
  event_type = ListingEventType.relisted;
  occurred_at = time;
  previous_value = EventValue.listing_status ListingStatus.inactive;
  current_value = EventValue.listing_status ListingStatus.active;
  details = EventDetails.scope scope;
}

-- A presence that has just been seen.
unfoldable pub seen : ℕ → Bool → ListingPresence → ListingPresence
seen time complete p = record p {
  state = PresenceState.active;
  consecutive_complete_misses = 0;
  last_seen_complete_run_at = if complete then some time else p.last_seen_complete_run_at;
}

abbrev pub new_presence : ℕ → String → String → ListingPresence
new_presence listing source scope = record {
  listing_id = listing;
  source = source;
  scope_key = scope;
  state = PresenceState.active;
  consecutive_complete_misses = 0;
  last_seen_complete_run_at = none;
}

-- A presence that is known and not active.
abbrev pub is_absent : Option ListingPresence → Bool
is_absent none = false
is_absent (some p) = not (is_active p.state)

-- The presences with the one that was found, or else the new one, marked as seen.
abbrev pub with_seen :
    Option ListingPresence
    → (ListingPresence → Bool)
    → (ListingPresence → ListingPresence)
    → ListingPresence
    → List ListingPresence
    → List ListingPresence
with_seen none key see fresh presences = presences ++ see fresh ∷ []
with_seen (some p) key see fresh presences = update_where key see presences

-- `mark_observed_presence`, and whether the listing had been absent.
unfoldable pub mark_observed_presence : ℕ → ℕ → String → String → ℕ → Bool → Store → Bool × Store
unfolding seen
mark_observed_presence run listing source scope time complete s =
    let key = has_identity listing source scope in
    let was_absent = is_absent (find key s.presences) in
    let presences =
      with_seen (find key s.presences) key (seen time complete) (new_presence listing source scope)
        s.presences in
    let events =
      if was_absent
      then add_event_once (relisted_event run listing scope time) s.events
      else s.events in
    (
      was_absent,
      refresh_listing_status listing (record s { presences = presences; events = events }),
    )

-- One miss in a complete run: the new presence, and the event if its state changes.
unfoldable pub miss : ℕ → ListingPresence → ListingPresence × Option ListingEventType
miss final_after_runs p =
    let misses = p.consecutive_complete_misses + 1 in
    if leb final_after_runs misses
    then (
      record p { consecutive_complete_misses = misses; state = PresenceState.inactive },
      some ListingEventType.inactivated,
    )
    else if is_active p.state
    then (
      record p { consecutive_complete_misses = misses; state = PresenceState.missing_candidate },
      some ListingEventType.missing_candidate,
    )
    else (record p { consecutive_complete_misses = misses }, none)

-- The prices that a reconciliation snapshot copies from the listing.
abbrev pub missing_snapshot : ℕ → Listing → ℕ → PresenceState → String → ListingSnapshot
missing_snapshot run l time state scope = record {
  listing_id = l.id;
  crawl_run_id = run;
  snapshot_at = time;
  total_price = l.total_price;
  unit_price = l.unit_price;
  status = SnapshotStatus.presence state;
  raw_payload = SnapshotPayload.not_seen_in_complete_scope scope;
}

abbrev pub add_missing_snapshot :
    Option Listing → ℕ → ℕ → PresenceState → String → List ListingSnapshot → List ListingSnapshot
add_missing_snapshot none run time state scope snapshots = snapshots
add_missing_snapshot (some l) run time state scope snapshots =
    snapshots ++ missing_snapshot run l time state scope ∷ []

-- `_append_reconciliation_snapshot`
unfoldable pub append_reconciliation_snapshot :
    ℕ → ℕ → ℕ → PresenceState → String → Store → List ListingSnapshot
append_reconciliation_snapshot run listing time state scope s =
    if any (in_run run listing) s.snapshots
    then s.snapshots
    else add_missing_snapshot (find (has_id listing) s.listings) run time state scope s.snapshots

-- The snapshot and the event of a change of state.
unfoldable pub note_change :
    Option ListingEventType
    → ℕ
    → ℕ
    → ListingPresence
    → ListingPresence
    → Store
    → Option ListingEventType × Store
unfolding append_reconciliation_snapshot
note_change none run time p after s = (none, s)
note_change (some event_type) run time p after s =
    let event : ListingEvent = record {
      listing_id = p.listing_id;
      crawl_run_id = run;
      event_type = event_type;
      occurred_at = time;
      previous_value = EventValue.presence p.state;
      current_value = EventValue.presence after.state;
      details = EventDetails.scope_misses p.scope_key after.consecutive_complete_misses;
    } in
    (
      some event_type,
      refresh_listing_status p.listing_id (record s {
        snapshots = append_reconciliation_snapshot run p.listing_id time after.state p.scope_key s;
        events = add_event_once event s.events;
      }),
    )

-- One round of the loop of `reconcile_complete_scope`.
unfoldable pub miss_presence : ℕ → ℕ → ℕ → ListingPresence → Store → Option ListingEventType × Store
unfolding miss
miss_presence run time final_after_runs p s =
    let (after, change) = miss final_after_runs p in
    let presences =
      update_where (has_identity p.listing_id p.source p.scope_key) (λ _. after) s.presences in
    note_change change run time p after (record s { presences = presences })

pub record ReconciliationResult : Type 0 where
  pub missing_candidates : ℕ
  pub inactivated : ℕ

abbrev pub is_inactivation : ListingEventType → Bool
is_inactivation ListingEventType.inactivated = true
is_inactivation _ = false

-- The counters of the loop.
abbrev pub tally : Option ListingEventType → ReconciliationResult → ReconciliationResult
tally none r = r
tally (some e) r =
    if is_inactivation e
    then record r { inactivated = r.inactivated + 1 }
    else record r { missing_candidates = r.missing_candidates + 1 }

unfoldable pub reconcile_all :
    ℕ → ℕ → ℕ → List ListingPresence → ReconciliationResult → Store → ReconciliationResult × Store
reconcile_all run time final_after_runs [] r s = (r, s)
reconcile_all run time final_after_runs (p ∷ ps) r s =
    let (change, s') = miss_presence run time final_after_runs p s in
    reconcile_all run time final_after_runs ps (tally change r) s'

-- The rows of the query: in the scope, not yet inactive, and not seen in the run.
abbrev pub is_candidate : String → String → List ℕ → ListingPresence → Bool
is_candidate source scope seen_ids p =
    str_eq p.source source
    && str_eq p.scope_key scope
    && (is_active p.state || is_missing p.state)
    && not (any (λ id. id == p.listing_id) seen_ids)

unfoldable pub reconcile_complete_scope :
    ℕ → String → String → ℕ → ℕ → List ℕ → Store → ReconciliationResult × Store
reconcile_complete_scope run source scope time final_after_runs seen_ids s =
    reconcile_all run time final_after_runs
      (select (is_candidate source scope seen_ids) s.presences)
      (record { missing_candidates = 0; inactivated = 0 }) s
