-- ===== src/Collector/Repository.antt =====
-- services/collector/src/home_radar_collector/repository.py: each method maps the store to the store
-- after it. The session flushes before each query, so a query sees what was added before. The lock of
-- the database and the hash of its key are not modelled.
use shanghai_home_radar.Prelude.{
  ℕ, suc, max, Bool, true, false, not, ◌&&◌, ◌||◌, Option, none, some, List, [], ◌∷◌, ◌++◌, String,
  Decimal, pos, Result, ok, err, value_error, ◌>>=◌, leb, ltb, ◌==◌, str_eq, is_none, if◌then◌else◌,
}
use shanghai_home_radar.Collector.Domain.{
  Listing, ListingObservation, ListingSnapshot, ListingEvent, Store, ListingStatus,
  ListingEventType, EventDetails, SnapshotStatus, SnapshotPayload,
}
use shanghai_home_radar.Collector.Changes.{DetectedChange, detect_observation_changes}

module _ {ℓ} {A : Type ℓ} where
  -- The first row that fits: `session.scalar(select(..).where(..))`.
  abbrev pub find : (A → Bool) → List A → Option A
  find p [] = none
  find p (x ∷ xs) = if p x then some x else find p xs

  abbrev pub any : (A → Bool) → List A → Bool
  any p [] = false
  any p (x ∷ xs) = p x || any p xs

  -- The rows that fit are changed in place.
  abbrev pub update_where : (A → Bool) → (A → A) → List A → List A
  update_where p f [] = []
  update_where p f (x ∷ xs) = (if p x then f x else x) ∷ update_where p f xs

-- `_unit_price`
abbrev pub unit_price_of : ListingObservation → Result Decimal
unit_price_of o = elim o.unit_price [
  | none ↦ err (value_error "unit price was not derived")
  | some p ↦ ok p
]

abbrev pub both : Option Decimal → Option Decimal → Option (Decimal × Decimal)
both (some x) (some y) = some (x, y)
both _ _ = none

-- `_new_listing`
unfoldable pub new_listing : ℕ → ListingObservation → Result Listing
new_listing id o = do
  unit ← unit_price_of o
  ok (record {
    id = id;
    source = o.source;
    source_listing_id = o.source_listing_id;
    source_url = o.source_url;
    district = o.district;
    submarket = o.submarket;
    community = o.community;
    longitude = none;
    latitude = none;
    coordinates = none;
    total_price = o.total_price;
    unit_price = unit;
    area_sqm = o.area_sqm;
    bedrooms = none;
    living_rooms = none;
    floor = none;
    total_floors = none;
    orientation = none;
    year_built = none;
    elevator = none;
    building_type = none;
    first_seen_at = o.observed_at;
    last_seen_at = o.observed_at;
    status = ListingStatus.active;
  })

-- `_apply_current_state`
unfoldable pub apply_current_state : Decimal → ListingObservation → Listing → Listing
apply_current_state unit o l = record l {
  source_url = o.source_url;
  district = o.district;
  submarket = o.submarket;
  community = o.community;
  longitude = o.longitude;
  latitude = o.latitude;
  coordinates = both o.longitude o.latitude;
  total_price = o.total_price;
  unit_price = unit;
  area_sqm = o.area_sqm;
  bedrooms = o.bedrooms;
  living_rooms = o.living_rooms;
  floor = o.floor;
  total_floors = o.total_floors;
  orientation = o.orientation;
  year_built = o.year_built;
  elevator = o.elevator;
  building_type = o.building_type;
  last_seen_at = max l.last_seen_at o.observed_at;
}

abbrev pub event_code : ListingEventType → ℕ
event_code ListingEventType.new = 0
event_code ListingEventType.price_cut = 1
event_code ListingEventType.price_increase = 2
event_code ListingEventType.missing_candidate = 3
event_code ListingEventType.inactivated = 4
event_code ListingEventType.relisted = 5

-- Two events of one run, listing and type.
abbrev pub same_event : ListingEvent → ListingEvent → Bool
same_event e f =
    e.crawl_run_id == f.crawl_run_id
    && e.listing_id == f.listing_id
    && event_code e.event_type == event_code f.event_type

-- `_add_event_once`
unfoldable pub add_event_once : ListingEvent → List ListingEvent → List ListingEvent
add_event_once e events = if any (same_event e) events then events else events ++ e ∷ []

-- The snapshot of the listing in the run.
abbrev pub in_run : ℕ → ℕ → ListingSnapshot → Bool
in_run run listing s = s.crawl_run_id == run && s.listing_id == listing

abbrev pub at_time : ℕ → ℕ → ListingSnapshot → Bool
at_time listing time s = s.listing_id == listing && s.snapshot_at == time

-- The listing that a source knows by an identifier.
abbrev pub has_source : String → String → Listing → Bool
has_source source id l = str_eq l.source source && str_eq l.source_listing_id id

abbrev pub has_id : ℕ → Listing → Bool
has_id id l = l.id == id

-- The listing of the observation, new or with an earlier first sight.
unfoldable pub take_listing : Option Listing → ListingObservation → Store → Result (Listing × Store)
unfolding new_listing
take_listing none o s = do
  l ← new_listing s.fresh o
  ok (l, record s { fresh = suc s.fresh; listings = s.listings ++ l ∷ [] })
take_listing (some l) o s =
    if ltb o.observed_at l.first_seen_at
    then (let l' = record l { first_seen_at = o.observed_at } in
        ok (l', record s { listings = update_where (has_id l.id) (λ _. l') s.listings }))
    else ok (l, s)

-- The event of a change, in its run.
abbrev pub change_event : ℕ → ℕ → ℕ → DetectedChange → ListingEvent
change_event run listing time change = record {
  listing_id = listing;
  crawl_run_id = run;
  event_type = change.event_type;
  occurred_at = time;
  previous_value = change.previous_value;
  current_value = change.current_value;
  details = EventDetails.none_given;
}

abbrev pub add_changes : ℕ → ℕ → ℕ → List DetectedChange → List ListingEvent → List ListingEvent
add_changes run listing time [] events = events
add_changes run listing time (change ∷ changes) events =
    add_changes run listing time changes
      (add_event_once (change_event run listing time change) events)

-- The listing's identifier and whether a snapshot was created.
pub record IngestionResult : Type 0 where
  pub listing_id : ℕ
  pub snapshot_created : Bool

-- `is_current`: the observation is not older than what is known.
abbrev pub sees_current : Option Listing → ListingObservation → Bool
sees_current none o = true
sees_current (some before) o = leb before.last_seen_at o.observed_at

abbrev pub price_before : Option Listing → Option Decimal
price_before none = none
price_before (some before) = some before.total_price

-- What the observation adds, with the unit price for the rows that store it. `created` says whether a
-- snapshot is.
unfoldable pub store_observation :
    Bool → Bool → Decimal → ℕ → ListingObservation → ℕ → Option Listing → Listing → Store → Store
unfolding apply_current_state add_event_once detect_observation_changes
store_observation created is_current unit run o raw found l s =
    let snapshot : ListingSnapshot = record {
      listing_id = l.id;
      crawl_run_id = run;
      snapshot_at = o.observed_at;
      total_price = o.total_price;
      unit_price = unit;
      status = SnapshotStatus.observed o.status;
      raw_payload = SnapshotPayload.raw raw;
    } in
    let changes = detect_observation_changes (is_none found) (price_before found) o.total_price in
    record s {
      snapshots = if created then s.snapshots ++ snapshot ∷ [] else s.snapshots;
      listings =
          if is_current
          then update_where (has_id l.id) (apply_current_state unit o) s.listings
          else s.listings;
      events =
          if is_current && created
          then add_changes run l.id o.observed_at changes s.events
          else s.events;
    }

-- The part behind the test for a snapshot of this run. The unit price is asked for only where it is
-- stored.
unfoldable pub record_observation :
    ℕ → ListingObservation → ℕ → Option Listing → Listing → Store → Result (IngestionResult × Store)
record_observation run o raw found l s = do
  let created = not (any (at_time l.id o.observed_at) s.snapshots)
  let is_current = sees_current found o
  unit ← if created || is_current then unit_price_of o else ok (pos 0)
  ok (
    record { listing_id = l.id; snapshot_created = created },
    store_observation created is_current unit run o raw found l s,
  )

unfoldable pub ingest_observation :
    ℕ → ListingObservation → ℕ → Store → Result (IngestionResult × Store)
ingest_observation run o raw s = do
  let found = find (has_source o.source o.source_listing_id) s.listings
  (l, s') ← take_listing found o s
  if any (in_run run l.id) s'.snapshots
      then ok (record { listing_id = l.id; snapshot_created = false }, s')
      else record_observation run o raw found l s'
