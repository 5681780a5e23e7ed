-- ===== src/Market/Tests.antt =====
-- Observations of two listings, and the theorems at them.
use shanghai_home_radar.Prelude.{
  ℕ, ◌≡◌, ◌↔◌, ◌+◌, ◌*◌, ◌-◌, ◌≤◌, ◌<◌, refl, true, ◌&&◌, ◌==◌, none, some, List, [], ◌∷◌, String,
  ok, if◌then◌else◌, map,
}
use shanghai_home_radar.Sorting.{sort_by, insert}
use shanghai_home_radar.Collector.Repository.{any}
use shanghai_home_radar.Market.Slices.{
  ObservationRecord, BaselineSliceKey, submarket, slice_keys, record_matches_key,
}
use shanghai_home_radar.Market.Slices.Membership.{any-slice_keys}
use shanghai_home_radar.Market.Slices.Places.{same_key, is_consistent}
use shanghai_home_radar.Market.Windows.{
  ObservationWindow, day, ahead, within_window, closed_day_window,
}
use shanghai_home_radar.Market.Windows.Days.{shanghai_date, within_window-closed_day_window_iff}
use shanghai_home_radar.Market.Latest.{is_newer, latest_per_entity}
use shanghai_home_radar.Keyed.{note}
use shanghai_home_radar.Market.Latest.Newest.{IsLatest, latest_per_entity-IsLatest}

abbrev seen_at : ℕ → ℕ → ℕ → ObservationRecord
seen_at id listing time = record {
  id = id;
  observation_type = "ask";
  source = "beike";
  source_record_id = "r";
  listing_id = some listing;
  district = some "Pudong";
  submarket = some "Huamu";
  community = none;
  area_bucket = some "60-90";
  layout = none;
  observed_at = time;
  created_at = 5;
}

abbrev uuid_text : ℕ → String
uuid_text n = if n == 1 then "one" else "two"

abbrev observations : List ObservationRecord
observations = seen_at 1 1 10 ∷ seen_at 2 2 10 ∷ seen_at 3 1 20 ∷ []

latest_of_observations :
    map (λ (r : ObservationRecord). r.id) (latest_per_entity uuid_text observations) ≡ 3 ∷ 2 ∷ []
unfolding latest_per_entity note is_newer sort_by insert
latest_of_observations = refl

latest_per_entity-IsLatest_example :
    IsLatest uuid_text observations (latest_per_entity uuid_text observations)
latest_per_entity-IsLatest_example = latest_per_entity-IsLatest uuid_text observations

-- The slice of the submarket, for all areas and layouts.
abbrev huamu : BaselineSliceKey
huamu = record {
  observation_type = "ask";
  window_days = 30;
  level = submarket;
  district = some "Pudong";
  submarket = some "Huamu";
  community = none;
  area_bucket = none;
  layout = none;
}

huamu_is_slice : any (same_key huamu) (slice_keys (seen_at 1 1 10) 30) ≡ true
unfolding slice_keys
huamu_is_slice = refl

any-slice_keys_example : any (same_key huamu) (slice_keys (seen_at 1 1 10) 30) ≡ (
    huamu.window_days == 30
    && is_consistent huamu.level huamu.district huamu.submarket huamu.community
    && record_matches_key (seen_at 1 1 10) huamu)
any-slice_keys_example = any-slice_keys (seen_at 1 1 10) 30 huamu

-- Thirty days up to the date 1000.
abbrev month : ObservationWindow
month = record { start_at = 971 * day - ahead; end_at = 1001 * day - ahead }

month_lem : closed_day_window 1000 30 ≡ ok month
unfolding closed_day_window
month_lem = refl

within_window-closed_day_window_iff_example :
    (within_window month (record { is_aware = true; at = 980 * day }) ≡ ok true)
    ↔ ((1000 < shanghai_date (980 * day) + 30) × (shanghai_date (980 * day) ≤ 1000))
within_window-closed_day_window_iff_example =
    within_window-closed_day_window_iff 1000 30 (980 * day) month month_lem
