-- ===== src/Collector/Invariants/Presences.antt =====
-- The state of a presence and its count of misses always fit.
use shanghai_home_radar.Prelude.{
  ℕ, ◌≡◌, ◌≤◌, ◌<◌, refl, Bool, Option, none, some, List, arith, All, OnOk, OnOk-map, String,
}
use shanghai_home_radar.Collector.Domain.{ListingObservation, ListingPresence, Store, PresenceState}
use shanghai_home_radar.Collector.Repository.{
  IngestionResult, find, update_where, take_listing, record_observation, store_observation,
  ingest_observation,
}
use shanghai_home_radar.Collector.Presence.{
  has_identity, new_presence, with_seen, refresh_listing_status, seen, mark_observed_presence, miss,
  note_change, miss_presence,
}
use shanghai_home_radar.Collector.Rows.{All-update_where, All-snoc}
use shanghai_home_radar.Collector.Service.{CollectorService, SourceAdapter}
use shanghai_home_radar.Collector.Service.Collect.{collect}
use shanghai_home_radar.Collector.Service.Items.{World}
use shanghai_home_radar.Collector.Service.Preserve.{collect-carries}

-- An active presence has no misses, a candidate has some but not enough, an inactive one enough.
abbrev pub FitsState : ℕ → PresenceState → ℕ → Type 0
FitsState final PresenceState.active misses = misses ≡ 0
FitsState final PresenceState.missing_candidate misses = (0 < misses) × (misses < final)
FitsState final PresenceState.inactive misses = final ≤ misses

abbrev pub Fits : ℕ → ListingPresence → Type 0
Fits final p = FitsState final p.state p.consecutive_complete_misses

seen-Fits :
    (final time : ℕ) (complete : Bool) (p : ListingPresence) → Fits final (seen time complete p)
unfolding seen
seen-Fits final time complete p = refl

pub miss-Fits : (final : ℕ) (p : ListingPresence) → Fits final p → Fits final (miss final p).0
unfolding miss
miss-Fits final p h = ground (arith, h)

with_seen-Fits :
    (final time : ℕ) (complete : Bool) (o : Option ListingPresence) (key : ListingPresence → Bool)
    (fresh : ListingPresence) (ps : List ListingPresence)
    → All (Fits final) ps
    → All (Fits final) (with_seen o key (seen time complete) fresh ps)
with_seen-Fits final time complete none key fresh ps h =
    All-snoc (Fits final) ps _ h (seen-Fits final time complete fresh)
with_seen-Fits final time complete (some p) key fresh ps h =
    All-update_where (Fits final) key _ ps (λ x _. seen-Fits final time complete x) h

ingest_observation-presences :
    (run : ℕ) (o : ListingObservation) (raw : ℕ) (s : Store)
    → OnOk
        (λ (x : IngestionResult × Store). x.1.presences ≡ s.presences)
        (ingest_observation run o raw s)
unfolding ingest_observation take_listing record_observation store_observation
ingest_observation-presences run o raw s = ground arith

pub miss_presence-presences :
    (run time final : ℕ) (p : ListingPresence) (s : Store)
    → (miss_presence run time final p s).1.presences
      ≡ update_where
          (has_identity p.listing_id p.source p.scope_key)
          (λ _. (miss final p).0)
          s.presences
unfolding miss_presence note_change refresh_listing_status
miss_presence-presences run time final p s = ground arith

ingest_observation-presences_fit :
    (final run : ℕ) (o : ListingObservation) (raw : ℕ) (s : Store)
    → All (Fits final) s.presences
    → OnOk
        (λ (x : IngestionResult × Store). All (Fits final) x.1.presences)
        (ingest_observation run o raw s)
ingest_observation-presences_fit final run o raw s k =
    OnOk-map (λ (x : IngestionResult × Store). x.1.presences ≡ s.presences)
      (λ (x : IngestionResult × Store). All (Fits final) x.1.presences)
      (ingest_observation run o raw s) (λ x e. rw e k) (ingest_observation-presences run o raw s)

mark_observed_presence-presences_fit :
    (final run listing : ℕ) (source scope : String) (time : ℕ) (complete : Bool) (s : Store)
    → All (Fits final) s.presences
    → All (Fits final) (mark_observed_presence run listing source scope time complete s).1.presences
unfolding mark_observed_presence refresh_listing_status
mark_observed_presence-presences_fit final run listing source scope time complete s k =
    let key = has_identity listing source scope in
    with_seen-Fits final time complete (find key s.presences) key
      (new_presence listing source scope) s.presences k

miss_presence-presences_fit :
    (final run time : ℕ) (p : ListingPresence) (s : Store)
    → Fits final p
    → All (Fits final) s.presences
    → All (Fits final) (miss_presence run time final p s).1.presences
miss_presence-presences_fit final run time p s q k =
    rw (miss_presence-presences run time final p s) (
      All-update_where (Fits final) (has_identity p.listing_id p.source p.scope_key) _ s.presences
        (λ x _. miss-Fits final p q) k)

-- Whatever a collection run ends in, every presence still fits.
pub collect-presences_fit :
    (c : CollectorService) (w : World) (a : SourceAdapter) (id : ℕ) (locked : Bool) (s : Store)
    → All (Fits c.final_after_missing_runs) s.presences
    → All (Fits c.final_after_missing_runs) (collect c w a id locked s).1.presences
collect-presences_fit c w a id locked s h =
    let final = c.final_after_missing_runs in
    collect-carries c (λ s. All (Fits final) s.presences) (Fits final) (λ s k. k) (λ r s k. k)
      (λ r s k. k) (λ run o raw s k. ingest_observation-presences_fit final run o raw s k)
      (λ run listing source scope time complete s k.
        mark_observed_presence-presences_fit final run listing source scope time complete s k)
      (λ run time p s q k. miss_presence-presences_fit final run time p s q k) w a id locked s h
