-- ===== src/Collector/Invariants/Misses.antt =====
-- The presences that are not seen in complete runs.
pub mod Row
use shanghai_home_radar.Prelude.{
  ℕ, zero, suc, ◌≡◌, ◌+◌, max, min, refl, Bool, false, ◌&&◌, not, Option, none, some, List, [], ◌∷◌,
  arith, ◌∙◌, ◌≤◌, ◌==◌, leb, count_if, select, String, if◌then◌else◌,
}
use shanghai_home_radar.Collector.Domain.{ListingPresence, ListingEventType, PresenceState, Store}
use shanghai_home_radar.Collector.Presence.{
  is_active, is_candidate, has_identity, seen, mark_observed_presence, miss, note_change,
  miss_presence, ReconciliationResult, tally, reconcile_all, reconcile_complete_scope,
}
use shanghai_home_radar.Collector.Repository.{find, any}
use shanghai_home_radar.Collector.Rows.Selected.{select-find}
use shanghai_home_radar.Collector.Invariants.Misses.Row.{
  rows, IsRow, absence, mark_observed_presence-IsRow, reconcile_complete_scope-IsRow,
}

-- What the policy promises after `k` absences.
abbrev pub state_after : ℕ → ℕ → PresenceState
state_after final zero = PresenceState.active
state_after final (suc k) =
    if leb final (suc k) then PresenceState.inactive else PresenceState.missing_candidate

module _ (final listing : ℕ) (source scope : String) where
  -- The stores behind a sighting of the listing in the scope and `k` complete runs over the scope that
  -- do not see it. Between them the store may change in any way that keeps the listing's row there.
  pub data Unseen : ℕ → Store → Type 0 where
    sighted :
        (run time : ℕ) (complete : Bool) (s : Store)
        → count_if (has_identity listing source scope) s.presences ≤ 1
        → Unseen 0 (mark_observed_presence run listing source scope time complete s).1
    missed :
        {k : ℕ} {s : Store} (run time : ℕ) (seen_ids : List ℕ)
        → any (λ id. id == listing) seen_ids ≡ false
        → Unseen k s
        → Unseen (suc k) (reconcile_complete_scope run source scope time final seen_ids s).1
    changed :
        {k : ℕ} {s : Store} (t : Store)
        → rows listing source scope t.presences ≡ rows listing source scope s.presences
        → Unseen k s
        → Unseen k t

  -- A row as the policy promises it.
  abbrev pub IsAbsentFor : ℕ → ListingPresence → Type 0
  IsAbsentFor k p =
      (p.state ≡ state_after final k) × (p.consecutive_complete_misses ≡ min k (max 1 final))

  seen-IsAbsentFor :
      (time : ℕ) (complete : Bool) (p : ListingPresence) → IsAbsentFor 0 (seen time complete p)
  unfolding seen
  seen-IsAbsentFor time complete p = (refl, omega arith)

  absence-IsAbsentFor :
      (k : ℕ) (p : ListingPresence) → IsAbsentFor k p → IsAbsentFor (suc k) (absence final p)
  unfolding miss
  absence-IsAbsentFor zero p h = ground (arith, h)
  absence-IsAbsentFor (suc k) p h = ground (arith, h)

  Unseen-IsRow :
      (k : ℕ) (s : Store)
      → Unseen k s
      → (p : ListingPresence) × IsRow listing source scope p s × IsAbsentFor k p
  Unseen-IsRow _ _ (sighted run time complete s one) =
      let (p, row) = mark_observed_presence-IsRow listing source scope run time complete s one in
      (seen time complete p, row, seen-IsAbsentFor time complete p)
  Unseen-IsRow _ _ (missed {k} {s} run time seen_ids unseen before) =
      let (p, row, h) = Unseen-IsRow k s before in
      (
        absence final p,
        reconcile_complete_scope-IsRow listing source scope run time final seen_ids p s unseen row,
        absence-IsAbsentFor k p h,
      )
  Unseen-IsRow _ _ (changed {k} {s} t same before) =
      let (p, row, h) = Unseen-IsRow k s before in (p, same ∙ row, h)

  -- A listing that was seen in a scope, with at most one row there, and then is not for `k` complete
  -- runs over the scope, whatever else happens to the store in between as long as that keeps the
  -- listing's row there, is found there, active for `k = 0`, inactive from the configured number of
  -- runs on, and a missing candidate between; the misses are counted up to that number, and at least
  -- once.
  pub find-Unseen :
      (k : ℕ) (s : Store)
      → Unseen k s
      → (p : ListingPresence) × (find (has_identity listing source scope) s.presences ≡ some p)
        × (p.state ≡ state_after final k)
        × (p.consecutive_complete_misses ≡ min k (max 1 final))
  find-Unseen k s h =
      let (p, row, (state, misses)) = Unseen-IsRow k s h in
      (p, select-find (has_identity listing source scope) s.presences p row, state, misses)

-- The presence reaches the configured number of misses with the next one.
abbrev pub is_final_miss : ℕ → ListingPresence → Bool
is_final_miss final p = leb final (p.consecutive_complete_misses + 1)

-- The presence is missed for the first time, and that is not enough.
abbrev pub is_first_miss : ℕ → ListingPresence → Bool
is_first_miss final p = not (is_final_miss final p) && is_active p.state

note_change-change :
    (change : Option ListingEventType) (run time : ℕ) (p after : ListingPresence) (s : Store)
    → (note_change change run time p after s).0 ≡ change
unfolding note_change
note_change-change none run time p after s = refl
note_change-change (some e) run time p after s = refl

miss_presence-change :
    (run time final : ℕ) (p : ListingPresence) (s : Store)
    → (miss_presence run time final p s).0 ≡ (miss final p).1
unfolding miss_presence
miss_presence-change run time final p s =
    note_change-change (miss final p).1 run time p (miss final p).0 _

-- The counters behind one more presence.
tally-miss :
    (final : ℕ) (p : ListingPresence) (r : ReconciliationResult)
    → ((tally (miss final p).1 r).inactivated
        ≡ (if is_final_miss final p then suc r.inactivated else r.inactivated))
      × ((tally (miss final p).1 r).missing_candidates
          ≡ (if is_first_miss final p then suc r.missing_candidates else r.missing_candidates))
unfolding miss
tally-miss final p r = ground arith

tally-miss_presence :
    (run time final : ℕ) (p : ListingPresence) (r : ReconciliationResult) (s : Store)
    → ((tally (miss_presence run time final p s).0 r).inactivated
        ≡ (if is_final_miss final p then suc r.inactivated else r.inactivated))
      × ((tally (miss_presence run time final p s).0 r).missing_candidates
          ≡ (if is_first_miss final p then suc r.missing_candidates else r.missing_candidates))
tally-miss_presence run time final p r s =
    rw (miss_presence-change run time final p s) (tally-miss final p r)

reconcile_all-counts :
    (run time final : ℕ) (ps : List ListingPresence) (r : ReconciliationResult) (s : Store)
    → ((reconcile_all run time final ps r s).0.inactivated
        ≡ count_if (is_final_miss final) ps + r.inactivated)
      × ((reconcile_all run time final ps r s).0.missing_candidates
          ≡ count_if (is_first_miss final) ps + r.missing_candidates)
unfolding reconcile_all
reconcile_all-counts run time final [] r s = (omega arith, omega arith)
reconcile_all-counts run time final (p ∷ ps) r s = ground (
  arith,
  reconcile_all-counts run time final ps (tally (miss_presence run time final p s).0 r)
      (miss_presence run time final p s).1,
  tally-miss_presence run time final p r s,
)

-- A pass over a complete scope counts as inactivated the presences of the scope that reach the
-- configured number of misses with it, and as missing candidates those that it misses for the first
-- time otherwise.
pub reconcile_complete_scope-counts :
    (run : ℕ) (source scope : String) (time final : ℕ) (seen_ids : List ℕ) (s : Store)
    → let missed = select (is_candidate source scope seen_ids) s.presences in
      ((reconcile_complete_scope run source scope time final seen_ids s).0.inactivated
        ≡ count_if (is_final_miss final) missed)
      × ((reconcile_complete_scope run source scope time final seen_ids s).0.missing_candidates
          ≡ count_if (is_first_miss final) missed)
unfolding reconcile_complete_scope
reconcile_complete_scope-counts run source scope time final seen_ids s = ground (
  arith,
  reconcile_all-counts run time final (select (is_candidate source scope seen_ids) s.presences)
      (record { missing_candidates = 0; inactivated = 0 }) s,
)
