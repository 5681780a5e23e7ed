-- ===== src/Market/Latest.antt =====
-- services/market/src/home_radar_market/domain.py: `latest_per_entity`. How a UUID is written is an
-- argument; the texts of two UUIDs compare as their numbers do.
pub mod Newest
use Prim.Native.String.{◌++◌ as append_text}
use shanghai_home_radar.Prelude.{
  ℕ, Bool, ◌&&◌, ◌||◌, ◌==◌, Option, none, some, List, [], ◌∷◌, String, str_eq, text_leb, ltb,
  if◌then◌else◌,
}
use shanghai_home_radar.Sorting.{sort_by}
use shanghai_home_radar.Keyed.{same_key, note, note_each}
use shanghai_home_radar.Market.Slices.{ObservationRecord}

-- `entity_key`
abbrev pub entity_key : (ℕ → String) → ObservationRecord → String
entity_key uuid_text r = elim r.listing_id [
  | some id ↦ append_text "listing:" (uuid_text id)
  | none ↦ append_text "source:" (
      append_text r.observation_type
        (append_text ":" (append_text r.source (append_text ":" r.source_record_id))))
]

-- `(observed_at, created_at, id) > (observed_at, created_at, id)`
unfoldable pub is_newer : ObservationRecord → ObservationRecord → Bool
is_newer r e =
    ltb e.observed_at r.observed_at
    || (e.observed_at == r.observed_at
        && (ltb e.created_at r.created_at || (e.created_at == r.created_at && ltb e.id r.id)))

abbrev pub same_entity : (ℕ → String) → ObservationRecord → ObservationRecord → Bool
same_entity uuid_text = same_key (entity_key uuid_text) is_newer

-- The values of the dictionary after the loop's step, and after the loop.
abbrev pub note_record :
    (ℕ → String) → ObservationRecord → List ObservationRecord → List ObservationRecord
note_record uuid_text = note (entity_key uuid_text) is_newer

abbrev pub note_all :
    (ℕ → String) → List ObservationRecord → List ObservationRecord → List ObservationRecord
note_all uuid_text = note_each (entity_key uuid_text) is_newer

abbrev pub by_entity : (ℕ → String) → ObservationRecord → ObservationRecord → Bool
by_entity uuid_text a b = text_leb (entity_key uuid_text a) (entity_key uuid_text b)

unfoldable pub latest_per_entity : (ℕ → String) → List ObservationRecord → List ObservationRecord
latest_per_entity uuid_text records = sort_by (by_entity uuid_text) (note_all uuid_text [] records)
