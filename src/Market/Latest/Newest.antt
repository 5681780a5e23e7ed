-- ===== src/Market/Latest/Newest.antt =====
-- What stays of the observations of an entity.
use mathlib.Core.List.{Mem}
use shanghai_home_radar.Prelude.{ℕ, ◌≡◌, ◌∙◌, true, false, arith, not, ◌&&◌, List, [], String, All}
use shanghai_home_radar.Collector.Rows.{Distinct}
use shanghai_home_radar.Sorting.Kept.{any-sort_by, sort_by-All, sort_by-Distinct}
use shanghai_home_radar.Market.Slices.{ObservationRecord}
use shanghai_home_radar.Market.Latest.{
  entity_key, is_newer, same_entity, note_all, by_entity, latest_per_entity,
}
use shanghai_home_radar.Keyed.{covers}
use shanghai_home_radar.Keyed.Noted.{
  str_eq_symm, All-map, All-Mem_self, note_each-Distinct, note_each-All, covered,
}

-- The observations that stay of some, where a UUID is written in a given way.
pub record IsLatest (uuid_text : ℕ → String) (records latest : List ObservationRecord)
    : Type 0 where
  pub distinct : Distinct (same_entity uuid_text) latest
  pub newest : All (λ r. covers (entity_key uuid_text) is_newer r latest ≡ true) records
  pub taken : All (λ m. Mem m records) latest

is_newer_irrefl : (r : ObservationRecord) → is_newer r r ≡ false
unfolding is_newer
is_newer_irrefl r = ground arith

is_newer_trans :
    (x e r : ObservationRecord) → is_newer x e ≡ false → is_newer r e ≡ true → is_newer x r ≡ false
unfolding is_newer
is_newer_trans x e r h k = ground (arith, h, k)

-- Of the observations, `latest_per_entity` keeps no two of one entity, and for each one of its entity
-- than which it is not newer; it keeps none that was not there.
pub latest_per_entity-IsLatest :
    (uuid_text : ℕ → String) (records : List ObservationRecord)
    → IsLatest uuid_text records (latest_per_entity uuid_text records)
unfolding latest_per_entity
latest_per_entity-IsLatest uuid_text records =
    let kept = note_all uuid_text [] records in
    let leb_by = by_entity uuid_text in
    record {
      distinct =
          sort_by-Distinct leb_by (same_entity uuid_text)
            (λ a b. str_eq_symm (entity_key uuid_text a) (entity_key uuid_text b)) kept
            (note_each-Distinct (entity_key uuid_text) is_newer is_newer_irrefl is_newer_trans []
              records tt);
      newest =
          All-map
            (λ r h.
              any-sort_by leb_by (λ m. same_entity uuid_text r m && not (is_newer r m)) kept ∙ h)
            records
            (covered (entity_key uuid_text) is_newer is_newer_irrefl is_newer_trans [] records);
      taken =
          sort_by-All leb_by (λ m. Mem m records) kept
            (note_each-All (entity_key uuid_text) is_newer is_newer_irrefl is_newer_trans
              (λ m. Mem m records) [] records (All-Mem_self records) tt);
    }
