-- ===== src/Collector/Service/Items.antt =====
-- services/collector/src/home_radar_collector/service.py: the loop of `collect` over the items.
use shanghai_home_radar.Prelude.{
  ℕ, ◌+◌, Option, none, some, List, [], ◌∷◌, ◌++◌, String, ◌==◌, str_eq, if◌then◌else◌, Result, ok,
  err, identity_error, ◌>>=◌,
}
use Prim.Native.String.{◌++◌ as ◌<>◌}
use shanghai_home_radar.Collector.Domain.{
  ListingObservation, RawSourceRecord, NormalizationStatus, Store,
}
use shanghai_home_radar.Collector.Repository.{any, ingest_observation}
use shanghai_home_radar.Collector.Service.{
  SourceAdapter, FetchResult, Normalized, observation, rejected,
}

-- What the loop over the raw items has done.
pub record Progress : Type 0 where
  pub store : Store
  pub seen : List ℕ
  pub normalized : ℕ
  pub parse_errors : ℕ

-- `add_raw_record`
abbrev pub add_raw_record : RawSourceRecord → Store → Store
add_raw_record r s = record s { raw_records = s.raw_records ++ r ∷ [] }

-- `seen[id] = listing`
abbrev pub add_seen : ℕ → List ℕ → List ℕ
add_seen id seen = if any (λ other. other == id) seen then seen else seen ++ id ∷ []

-- A raw item that gave no listing.
abbrev pub fail_item : SourceAdapter → ℕ → ℕ → ℕ → String → Progress → Progress
fail_item adapter run time raw error p = record p {
  store =
      add_raw_record
        (record {
          crawl_run_id = run;
          listing_id = none;
          source_record_id = adapter.source_record_id raw;
          observed_at = time;
          payload = raw;
          normalization_status = NormalizationStatus.failed;
          normalization_error = some error;
        })
        p.store;
  parse_errors = p.parse_errors + 1;
}

-- The items that the database refuses, with the text that is kept of its error; and the clock.
pub record World : Type 0 where
  pub refuses : ℕ → Option String
  pub started_at : ℕ
  pub now : ℕ
  pub finished_at : ℕ
  pub failed_at : ℕ

-- The savepoint: the writes of an item that the database refuses are undone. The first argument
-- is the text of the refusal.
unfoldable pub ingest_unless :
    Option String → SourceAdapter → ℕ → ℕ → ListingObservation → Progress → Result Progress
ingest_unless (some error) adapter run raw o p =
    ok (fail_item adapter run o.observed_at raw error p)
ingest_unless none adapter run raw o p = do
  (ingested, s) ← ingest_observation run o raw p.store
  ok (record {
    store =
        add_raw_record
          (record {
            crawl_run_id = run;
            listing_id = some ingested.listing_id;
            source_record_id = adapter.source_record_id raw;
            observed_at = o.observed_at;
            payload = raw;
            normalization_status = NormalizationStatus.success;
            normalization_error = none;
          })
          s;
    seen = add_seen ingested.listing_id p.seen;
    normalized = p.normalized + 1;
    parse_errors = p.parse_errors;
  })

abbrev pub mismatch_text : ListingObservation → FetchResult → String
mismatch_text o fetch =
    "observation source " <> (o.source <> (" does not match fetch source " <> fetch.source_id))

-- What is done with the outcome of `normalize`.
unfoldable pub process_normalized :
    Normalized → World → SourceAdapter → FetchResult → ℕ → ℕ → Progress → Result Progress
process_normalized (rejected error) w adapter fetch run raw p =
    ok (fail_item adapter run w.now raw error p)
process_normalized (observation o) w adapter fetch run raw p =
    if str_eq o.source fetch.source_id
    then ingest_unless (w.refuses raw) adapter run raw o p
    else err (identity_error (mismatch_text o fetch))

-- One round of the loop over the raw items.
abbrev pub process_item : World → SourceAdapter → FetchResult → ℕ → ℕ → Progress → Result Progress
process_item w adapter fetch run raw p =
    process_normalized (adapter.normalize raw) w adapter fetch run raw p

unfoldable pub process_items :
    World → SourceAdapter → FetchResult → ℕ → List ℕ → Progress → Result Progress
process_items w adapter fetch run [] p = ok p
process_items w adapter fetch run (raw ∷ rest) p = do
  p' ← process_item w adapter fetch run raw p
  process_items w adapter fetch run rest p'
