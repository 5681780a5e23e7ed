-- ===== src/Collector/Samples.antt =====
-- A service, a source and a store, for the tests of the collector.
use shanghai_home_radar.Prelude.{ℕ, zero, suc, true, none, some, [], ◌∷◌, whole}
use shanghai_home_radar.Collector.Domain.{
  ListingObservation, Listing, ListingSnapshot, ListingEvent, ListingPresence, CrawlRun, Store,
  ListingStatus, ListingEventType, EventValue, EventDetails, SnapshotStatus, SnapshotPayload,
  PresenceState, DataMode, CrawlRunStatus, CrawlCompleteness,
}
use shanghai_home_radar.Collector.Service.{
  CollectorService, SourceAdapter, FetchResult, fetched, Normalized, observation, rejected,
}
use shanghai_home_radar.Collector.Service.Items.{World, Progress}

abbrev pub service : CollectorService
service = record {
  final_after_missing_runs = 2;
  data_mode = DataMode.live;
  min_complete_items = 1;
  ratio_num = 1;
  ratio_den = 2;
}

abbrev pub world : World
world = record { refuses = λ _. none; started_at = 20; now = 21; finished_at = 22; failed_at = 23 }

abbrev pub flat_observation : ListingObservation
flat_observation = record {
  source = "feed";
  source_listing_id = "flat-1";
  source_url = "https://example.org/flat-1";
  district = "Xuhui";
  submarket = "Tianlin";
  community = "Garden";
  longitude = none;
  latitude = none;
  total_price = whole 5000000;
  unit_price = some (whole 62500);
  area_sqm = whole 80;
  bedrooms = some 2;
  living_rooms = some 1;
  floor = none;
  total_floors = none;
  orientation = none;
  year_built = some 1999;
  elevator = some true;
  building_type = none;
  status = ListingStatus.active;
  observed_at = 20;
}

-- The items above 0 are refused.
abbrev normalize_flat : ℕ → Normalized
normalize_flat zero = observation flat_observation
normalize_flat (suc n) = rejected "ValueError: no price"

abbrev pub fetch_result : FetchResult
fetch_result = record {
  source_id = "feed";
  scope_key = "shanghai";
  raw_items = 0 ∷ [];
  completeness = CrawlCompleteness.complete;
  metadata = [];
}

abbrev pub adapter : SourceAdapter
adapter = record {
  source_id = "feed";
  scope_key = "shanghai";
  fetch = fetched fetch_result;
  normalize = normalize_flat;
  source_record_id = λ _. none;
}

abbrev pub old_listing : Listing
old_listing = record {
  id = 7;
  source = "feed";
  source_listing_id = "flat-0";
  source_url = "https://example.org/flat-0";
  district = "Xuhui";
  submarket = "Tianlin";
  community = "Garden";
  longitude = none;
  latitude = none;
  coordinates = none;
  total_price = whole 4000000;
  unit_price = whole 50000;
  area_sqm = whole 80;
  bedrooms = none;
  living_rooms = none;
  floor = none;
  total_floors = none;
  orientation = none;
  year_built = none;
  elevator = none;
  building_type = none;
  first_seen_at = 3;
  last_seen_at = 4;
  status = ListingStatus.active;
}

abbrev pub old_presence : ListingPresence
old_presence = record {
  listing_id = 7;
  source = "feed";
  scope_key = "shanghai";
  state = PresenceState.active;
  consecutive_complete_misses = 0;
  last_seen_complete_run_at = some 4;
}

abbrev old_snapshot : ListingSnapshot
old_snapshot = record {
  listing_id = 7;
  crawl_run_id = 1;
  snapshot_at = 4;
  total_price = whole 4000000;
  unit_price = whole 50000;
  status = SnapshotStatus.observed ListingStatus.active;
  raw_payload = SnapshotPayload.raw 0;
}

abbrev old_event : ListingEvent
old_event = record {
  listing_id = 7;
  crawl_run_id = 1;
  event_type = ListingEventType.new;
  occurred_at = 3;
  previous_value = EventValue.nothing;
  current_value = EventValue.price (whole 4000000);
  details = EventDetails.none_given;
}

abbrev pub store : Store
store = record {
  fresh = 8;
  listings = old_listing ∷ [];
  snapshots = old_snapshot ∷ [];
  events = old_event ∷ [];
  presences = old_presence ∷ [];
  raw_records = [];
  runs = [];
}

abbrev pub partial_run : CrawlRun
partial_run = record {
  id = 5;
  source = "feed";
  data_mode = DataMode.live;
  scope_key = "shanghai";
  status = CrawlRunStatus.running;
  completeness = CrawlCompleteness.partial;
  started_at = 20;
  finished_at = none;
  raw_item_count = 0;
  normalized_item_count = 0;
  parse_error_count = 0;
  error_type = none;
  error_message = none;
  run_metadata = [];
}

-- One item was normalized, and gave the old listing.
abbrev pub one_seen : Progress
one_seen = record { store = store; seen = 7 ∷ []; normalized = 1; parse_errors = 0 }
