-- ===== src/Collector/Invariants/Times.antt =====
-- No listing is first seen after it was last seen.
use shanghai_home_radar.Prelude.{
  ℕ, ◌≤◌, Bool, true, false, Option, none, some, ok, arith, All, OnOk, OnOk-then, OnOk-trivial,
  String, Bool-cases, inl, inr, ltb, Decimal, pos, not, ◌||◌, if◌then◌else◌,
}
use shanghai_home_radar.Collector.Domain.{
  Listing, ListingObservation, ListingPresence, ListingEventType, Store,
}
use shanghai_home_radar.Collector.Repository.{
  IngestionResult, find, any, has_id, has_source, new_listing, apply_current_state, take_listing,
  record_observation, store_observation, at_time, sees_current, unit_price_of, ingest_observation,
}
use shanghai_home_radar.Collector.Presence.{
  refresh_listing_status, mark_observed_presence, miss_presence, miss, note_change,
}
use shanghai_home_radar.Collector.Rows.{All-update_where, All-snoc, All-find, OnSome, All-trivial}
use shanghai_home_radar.Collector.Service.{CollectorService, SourceAdapter}
use shanghai_home_radar.Collector.Service.Collect.{collect}
use shanghai_home_radar.Collector.Service.Items.{World}
use shanghai_home_radar.Collector.Service.Preserve.{collect-carries}

abbrev pub Ordered : Listing → Type 0
Ordered l = l.first_seen_at ≤ l.last_seen_at

abbrev Times : Store → Type 0
Times s = All Ordered s.listings

new_listing-Ordered : (id : ℕ) (o : ListingObservation) → OnOk Ordered (new_listing id o)
unfolding new_listing
new_listing-Ordered id o = ground arith

take_listing-Ordered :
    (found : Option Listing) (o : ListingObservation) (s : Store)
    → OnSome Ordered found
    → Times s
    → OnOk (λ (x : Listing × Store). Ordered x.0 × Times x.1) (take_listing found o s)
unfolding take_listing
take_listing-Ordered none o s f h =
    OnOk-then Ordered (λ (x : Listing × Store). Ordered x.0 × Times x.1) (new_listing s.fresh o) _
      (new_listing-Ordered s.fresh o) (λ l k. (k, All-snoc Ordered s.listings l h k))
take_listing-Ordered (some l) o s f h = elim (Bool-cases (ltb o.observed_at l.first_seen_at)) [
  | inl earlier ↦
      let l' = record l { first_seen_at = o.observed_at } in
      let k : o.observed_at ≤ l.last_seen_at = ground (arith, earlier, f) in
      rw earlier (k, All-update_where Ordered (has_id l.id) (λ _. l') s.listings (λ x _. k) h)
  | inr later ↦ rw later (f, h)
]

apply_current_state-Ordered :
    (unit : Decimal) (o : ListingObservation) (l : Listing)
    → Ordered l
    → Ordered (apply_current_state unit o l)
unfolding apply_current_state
apply_current_state-Ordered unit o l h = omega (arith, h)

store_observation-Times :
    (created is_current : Bool) (unit : Decimal) (run : ℕ) (o : ListingObservation) (raw : ℕ)
    (found : Option Listing) (l : Listing) (s : Store)
    → Times s
    → Times (store_observation created is_current unit run o raw found l s)
unfolding store_observation
store_observation-Times created true unit run o raw found l s h =
    All-update_where Ordered (has_id l.id) (apply_current_state unit o) s.listings
      (apply_current_state-Ordered unit o) h
store_observation-Times created false unit run o raw found l s h = h

record_observation-Times :
    (run : ℕ) (o : ListingObservation) (raw : ℕ) (found : Option Listing) (l : Listing) (s : Store)
    → Times s
    → OnOk (λ (x : IngestionResult × Store). Times x.1) (record_observation run o raw found l s)
unfolding record_observation
record_observation-Times run o raw found l s h =
    let created = not (any (at_time l.id o.observed_at) s.snapshots) in
    OnOk-then (λ _. Unit {0}) (λ (x : IngestionResult × Store). Times x.1)
      (if created || sees_current found o then unit_price_of o else ok (pos 0)) _ (OnOk-trivial _)
      (λ unit _. store_observation-Times created (sees_current found o) unit run o raw found l s h)

ingest_observation-Times :
    (run : ℕ) (o : ListingObservation) (raw : ℕ) (s : Store)
    → Times s
    → OnOk (λ (x : IngestionResult × Store). Times x.1) (ingest_observation run o raw s)
unfolding ingest_observation
ingest_observation-Times run o raw s h =
    let found = find (has_source o.source o.source_listing_id) s.listings in
    OnOk-then (λ (x : Listing × Store). Ordered x.0 × Times x.1)
      (λ (x : IngestionResult × Store). Times x.1) (take_listing found o s) _
      (take_listing-Ordered found o s (All-find Ordered _ s.listings h) h)
      (λ x k. ground (arith, record_observation-Times run o raw found x.0 x.1 k.1, k))

refresh_listing_status-Times : (id : ℕ) (s : Store) → Times s → Times (refresh_listing_status id s)
unfolding refresh_listing_status
refresh_listing_status-Times id s h = All-update_where Ordered (has_id id) _ s.listings (λ x k. k) h

mark_observed_presence-Times :
    (run listing : ℕ) (source scope : String) (time : ℕ) (complete : Bool) (s : Store)
    → Times s
    → Times (mark_observed_presence run listing source scope time complete s).1
unfolding mark_observed_presence
mark_observed_presence-Times run listing source scope time complete s h =
    refresh_listing_status-Times listing _ h

note_change-Times :
    (change : Option ListingEventType) (run time : ℕ) (p after : ListingPresence) (s : Store)
    → Times s
    → Times (note_change change run time p after s).1
unfolding note_change
note_change-Times none run time p after s h = h
note_change-Times (some e) run time p after s h = refresh_listing_status-Times p.listing_id _ h

miss_presence-Times :
    (run time final : ℕ) (p : ListingPresence) (s : Store)
    → Times s
    → Times (miss_presence run time final p s).1
unfolding miss_presence
miss_presence-Times run time final p s h =
    note_change-Times (miss final p).1 run time p (miss final p).0 _ h

-- Whatever a collection run ends in, no listing is first seen after it was last seen.
pub collect-times-Ordered :
    (c : CollectorService) (w : World) (a : SourceAdapter) (id : ℕ) (locked : Bool) (s : Store)
    → All Ordered s.listings
    → All Ordered (collect c w a id locked s).1.listings
collect-times-Ordered c w a id locked s h =
    collect-carries c Times (λ _. Unit) (λ s k. All-trivial s.presences) (λ r s k. k) (λ r s k. k)
      ingest_observation-Times mark_observed_presence-Times
      (λ run time p s q k. miss_presence-Times run time c.final_after_missing_runs p s k) w a id
      locked s h
