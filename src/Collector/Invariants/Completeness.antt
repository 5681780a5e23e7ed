-- ===== src/Collector/Invariants/Completeness.antt =====
-- When a run counts as complete, and what a run that does not leaves alone.
use mathlib.Core.List.{Memᴰ}
use shanghai_home_radar.Prelude.{
  ℕ, ◌≡◌, ◌≤◌, ◌*◌, refl, Bool, true, false, ◌⊎◌, ◌↔◌, Option, none, some, List, [], ◌∷◌, arith,
  inl, inr, is_none, All, String,
}
use shanghai_home_radar.Collector.Domain.{CrawlRun, ListingPresence, PresenceState, Store}
use shanghai_home_radar.Collector.Repository.{find}
use shanghai_home_radar.Collector.Presence.{
  has_identity, seen, new_presence, with_seen, refresh_listing_status, mark_observed_presence,
}
use shanghai_home_radar.Collector.Rows.{OnSome, All-snoc, All-update_where}
use shanghai_home_radar.Collector.Service.{
  CollectorService, FetchResult, is_complete, is_live, final_completeness, coverage_guard_reason,
  latest_complete_run, normalized_count, apply_live_coverage_guard,
}
use shanghai_home_radar.Collector.Service.Collect.{
  mark_all, judged_run, reconcile_if_complete, settle_presences,
}
use shanghai_home_radar.Collector.Service.Items.{Progress}

-- The count reaches the configured minimum and the configured share of the count before.
abbrev pub IsCovered : CollectorService → ℕ → Option ℕ → Type 0
IsCovered c current previous =
    (c.min_complete_items ≤ current)
    × OnSome (λ before. c.ratio_num * before ≤ current * c.ratio_den) previous

product_zero : (n m : ℕ) → m ≡ 0 → n * m ≡ 0
product_zero n m e = rw e (omega arith)

coverage_guard_reason-silent_iff :
    (c : CollectorService) (current : ℕ) (previous : Option ℕ)
    → (is_none (coverage_guard_reason c current previous).0 ≡ true) ↔ IsCovered c current previous
unfolding coverage_guard_reason
coverage_guard_reason-silent_iff c current none = (λ h. ground (arith, h), λ h. ground (arith, h))
coverage_guard_reason-silent_iff c current (some before) =
    let zero_product = product_zero c.ratio_num before in
    (λ h. ground (arith, zero_product, h), λ h. ground (arith, zero_product, h))

-- A run counts as complete exactly if the source says so, no item was refused, and, for a live
-- source, the items reach the configured minimum and the configured share of the last complete run.
pub judged_run-complete_iff :
    (c : CollectorService) (r : CrawlRun) (f : FetchResult) (p : Progress)
    → (is_complete (judged_run c r f p).completeness ≡ true) ↔ (
        (is_complete f.completeness ≡ true)
        × (p.parse_errors ≡ 0)
        × (is_live c.data_mode ≡ true
            → IsCovered c p.normalized
                (normalized_count (latest_complete_run r.source r.scope_key c.data_mode p.store))))
unfolding judged_run apply_live_coverage_guard final_completeness
judged_run-complete_iff c r f p =
    let silent =
      coverage_guard_reason-silent_iff c p.normalized
        (normalized_count (latest_complete_run r.source r.scope_key c.data_mode p.store)) in
    (λ h. ground (arith, silent, h), λ h. ground (arith, silent, h))

-- The presence is active, or it is one of those before.
abbrev pub StaysOrActive : List ListingPresence → ListingPresence → Type 0
StaysOrActive ps p = (p.state ≡ PresenceState.active) ⊎ Memᴰ p ps

StaysOrActive-refl : (ps : List ListingPresence) → All (StaysOrActive ps) ps
StaysOrActive-refl ps = from ps ps (λ p m. m)
  where
    from :
        (xs ps : List ListingPresence)
        → ((p : ListingPresence) → Memᴰ p xs → Memᴰ p ps)
        → All (StaysOrActive ps) xs
    from [] ps k = tt
    from (x ∷ xs) ps k = (inr (k x (Memᴰ.head refl)), from xs ps (λ p m. k p (Memᴰ.tail m)))

seen-StaysOrActive :
    (ps : List ListingPresence) (time : ℕ) (complete : Bool) (p : ListingPresence)
    → StaysOrActive ps (seen time complete p)
unfolding seen
seen-StaysOrActive ps time complete p = inl refl

with_seen-StaysOrActive :
    (ps : List ListingPresence) (time : ℕ) (complete : Bool) (o : Option ListingPresence)
    (key : ListingPresence → Bool) (fresh : ListingPresence) (qs : List ListingPresence)
    → All (StaysOrActive ps) qs
    → All (StaysOrActive ps) (with_seen o key (seen time complete) fresh qs)
with_seen-StaysOrActive ps time complete none key fresh qs h =
    All-snoc (StaysOrActive ps) qs _ h (seen-StaysOrActive ps time complete fresh)
with_seen-StaysOrActive ps time complete (some p) key fresh qs h =
    All-update_where (StaysOrActive ps) key _ qs (λ q _. seen-StaysOrActive ps time complete q) h

mark_observed_presence-StaysOrActive :
    (ps : List ListingPresence) (run id : ℕ) (source scope : String) (time : ℕ) (complete : Bool)
    (s : Store)
    → All (StaysOrActive ps) s.presences
    → All
        (StaysOrActive ps)
        (mark_observed_presence run id source scope time complete s).1.presences
unfolding mark_observed_presence refresh_listing_status
mark_observed_presence-StaysOrActive ps run id source scope time complete s h =
    with_seen-StaysOrActive ps time complete (find (has_identity id source scope) s.presences)
      (has_identity id source scope) (new_presence id source scope) s.presences h

mark_all-StaysOrActive :
    (ps : List ListingPresence) (r : CrawlRun) (time : ℕ) (complete : Bool) (ids : List ℕ)
    (s : Store)
    → All (StaysOrActive ps) s.presences
    → All (StaysOrActive ps) (mark_all r time complete ids s).presences
unfolding mark_all
mark_all-StaysOrActive ps r time complete [] s h = h
mark_all-StaysOrActive ps r time complete (id ∷ ids) s h =
    mark_all-StaysOrActive ps r time complete ids _
      (mark_observed_presence-StaysOrActive ps r.id id r.source r.scope_key time complete s h)

-- Where the run does not count as complete, each presence behind it is active, or it is exactly a
-- presence from before: no listing goes missing.
pub settle_presences-partial :
    (c : CollectorService) (time : ℕ) (r : CrawlRun) (p : Progress)
    → is_complete r.completeness ≡ false
    → All (StaysOrActive p.store.presences) (settle_presences c time r p).1.presences
unfolding settle_presences reconcile_if_complete
settle_presences-partial c time r p partial = rw partial (
    mark_all-StaysOrActive p.store.presences r time false p.seen p.store
      (StaysOrActive-refl p.store.presences))
