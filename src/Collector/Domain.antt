-- ===== src/Collector/Domain.antt =====
-- The records of the collector: packages/models/src/home_radar_models/enums.py, listing.py and
-- collection.py, and services/collector/src/home_radar_collector/contracts.py. Identifiers are numbers,
-- timestamps the microseconds of their instant, and a raw source item a number that stands for it.
use shanghai_home_radar.Prelude.{ℕ, Bool, Option, List, String, Decimal}

pub data ListingStatus : Type 0 where
  active missing_candidate inactive sold : ListingStatus

pub data ListingEventType : Type 0 where
  new price_cut price_increase missing_candidate inactivated relisted : ListingEventType

pub data CrawlRunStatus : Type 0 where
  running succeeded failed paused_auth already_running : CrawlRunStatus

pub data CrawlCompleteness : Type 0 where
  unknown complete partial : CrawlCompleteness

pub data NormalizationStatus : Type 0 where
  pending success failed : NormalizationStatus

pub data DataMode : Type 0 where
  demo sample live : DataMode

pub data PresenceState : Type 0 where
  active missing_candidate inactive : PresenceState

pub record ListingObservation : Type 0 where
  pub source : String
  pub source_listing_id : String
  pub source_url : String
  pub district : String
  pub submarket : String
  pub community : String
  pub longitude : Option Decimal
  pub latitude : Option Decimal
  pub total_price : Decimal
  pub unit_price : Option Decimal
  pub area_sqm : Decimal
  pub bedrooms : Option ℕ
  pub living_rooms : Option ℕ
  pub floor : Option String
  pub total_floors : Option ℕ
  pub orientation : Option String
  pub year_built : Option ℕ
  pub elevator : Option Bool
  pub building_type : Option String
  pub status : ListingStatus
  pub observed_at : ℕ

pub record Listing : Type 0 where
  pub id : ℕ
  pub source : String
  pub source_listing_id : String
  pub source_url : String
  pub district : String
  pub submarket : String
  pub community : String
  pub longitude : Option Decimal
  pub latitude : Option Decimal
  pub coordinates : Option (Decimal × Decimal)
  pub total_price : Decimal
  pub unit_price : Decimal
  pub area_sqm : Decimal
  pub bedrooms : Option ℕ
  pub living_rooms : Option ℕ
  pub floor : Option String
  pub total_floors : Option ℕ
  pub orientation : Option String
  pub year_built : Option ℕ
  pub elevator : Option Bool
  pub building_type : Option String
  pub first_seen_at : ℕ
  pub last_seen_at : ℕ
  pub status : ListingStatus

-- The status of a snapshot is that of an observation or of a presence.
pub data SnapshotStatus : Type 0 where
  observed : ListingStatus → SnapshotStatus
  presence : PresenceState → SnapshotStatus

pub data SnapshotPayload : Type 0 where
  raw : ℕ → SnapshotPayload
  not_seen_in_complete_scope : String → SnapshotPayload

pub record ListingSnapshot : Type 0 where
  pub listing_id : ℕ
  pub crawl_run_id : ℕ
  pub snapshot_at : ℕ
  pub total_price : Decimal
  pub unit_price : Decimal
  pub status : SnapshotStatus
  pub raw_payload : SnapshotPayload

-- What the text of a previous or current value stands for.
pub data EventValue : Type 0 where
  nothing : EventValue
  price : Decimal → EventValue
  listing_status : ListingStatus → EventValue
  presence : PresenceState → EventValue

pub data EventDetails : Type 0 where
  none_given : EventDetails
  scope : String → EventDetails
  scope_misses : String → ℕ → EventDetails

pub record ListingEvent : Type 0 where
  pub listing_id : ℕ
  pub crawl_run_id : ℕ
  pub event_type : ListingEventType
  pub occurred_at : ℕ
  pub previous_value : EventValue
  pub current_value : EventValue
  pub details : EventDetails

pub record ListingPresence : Type 0 where
  pub listing_id : ℕ
  pub source : String
  pub scope_key : String
  pub state : PresenceState
  pub consecutive_complete_misses : ℕ
  pub last_seen_complete_run_at : Option ℕ

-- A value of the JSON metadata; `ratio n d` is the quotient n / d.
pub data Meta : Type 0 where
  null : Meta
  flag : Bool → Meta
  count : ℕ → Meta
  text : String → Meta
  ratio : ℕ → ℕ → Meta

pub record CrawlRun : Type 0 where
  pub id : ℕ
  pub source : String
  pub data_mode : DataMode
  pub scope_key : String
  pub status : CrawlRunStatus
  pub completeness : CrawlCompleteness
  pub started_at : ℕ
  pub finished_at : Option ℕ
  pub raw_item_count : ℕ
  pub normalized_item_count : ℕ
  pub parse_error_count : ℕ
  pub error_type : Option String
  pub error_message : Option String
  pub run_metadata : List (String × Meta)

pub record RawSourceRecord : Type 0 where
  pub crawl_run_id : ℕ
  pub listing_id : Option ℕ
  pub source_record_id : Option String
  pub observed_at : ℕ
  pub payload : ℕ
  pub normalization_status : NormalizationStatus
  pub normalization_error : Option String

-- What the session sees of the database. `fresh` is an identifier that no listing has, for the next
-- `uuid4`.
pub record Store : Type 0 where
  pub fresh : ℕ
  pub listings : List Listing
  pub snapshots : List ListingSnapshot
  pub events : List ListingEvent
  pub presences : List ListingPresence
  pub raw_records : List RawSourceRecord
  pub runs : List CrawlRun
