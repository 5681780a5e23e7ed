-- ===== src/Collector/Invariants/Misses/Row.antt =====
-- The row of one listing in one scope, behind a sighting and behind a complete run.
use shanghai_home_radar.Prelude.{
  ℕ, ◌≡◌, ◌∙◌, ◌≤◌, refl, ap, Bool, true, false, ◌||◌, Option, none, some, List, [], ◌∷◌, arith,
  Bool-cases, inl, inr, map, count_if, select, String, ◌==◌, eq_iff, if◌then◌else◌,
}
use shanghai_home_radar.Collector.Domain.{ListingPresence, Store}
use shanghai_home_radar.Collector.Repository.{find, any}
use shanghai_home_radar.Collector.Presence.{
  is_active, is_missing, is_candidate, has_identity, new_presence, with_seen, seen,
  mark_observed_presence, refresh_listing_status, miss, miss_presence, ReconciliationResult, tally,
  reconcile_all, reconcile_complete_scope,
}
use shanghai_home_radar.Collector.Rows.Selected.{
  find-select, find-select_absent, select-append, select-select, select-update_where,
  select-update_where_other, update_where-agree,
}
use shanghai_home_radar.Collector.Invariants.Presences.{miss_presence-presences}

-- What one complete run that does not see the listing makes of its row.
abbrev pub absence : ℕ → ListingPresence → ListingPresence
absence final p = if is_active p.state || is_missing p.state then (miss final p).0 else p

module _ (listing : ℕ) (source scope : String) where
  abbrev pub rows : List ListingPresence → List ListingPresence
  rows ps = select (has_identity listing source scope) ps

  -- The one row is this one.
  abbrev pub IsRow : ListingPresence → Store → Type 0
  IsRow p s = rows s.presences ≡ p ∷ []

  -- A row that has the primary key names the same rows.
  identity-agree :
      (q x : ListingPresence)
      → has_identity listing source scope q ≡ true
      → has_identity q.listing_id q.source q.scope_key x ≡ has_identity listing source scope x
  identity-agree q x h = ground (arith, h, eq_iff q.source source, eq_iff q.scope_key scope)

  -- A row that has another key names none of them.
  identity-other :
      (q x : ListingPresence)
      → has_identity listing source scope q ≡ false
      → has_identity q.listing_id q.source q.scope_key x ≡ true
      → has_identity listing source scope x ≡ false
  identity-other q x h k =
      ground (arith, h, k, eq_iff x.source q.source, eq_iff x.scope_key q.scope_key)

  miss-identity :
      (final : ℕ) (p : ListingPresence)
      → has_identity listing source scope (miss final p).0 ≡ has_identity listing source scope p
  unfolding miss
  miss-identity final p = ground arith

  self_identity : has_identity listing source scope (new_presence listing source scope) ≡ true
  self_identity = ground (arith, eq_iff source source, eq_iff scope scope)

  with_seen-IsRow :
      (time : ℕ) (complete : Bool) (o : Option ListingPresence) (ps : List ListingPresence)
      → find (has_identity listing source scope) ps ≡ o
      → count_if (has_identity listing source scope) ps ≤ 1
      → (p : ListingPresence) × (rows (
            with_seen o
              (has_identity listing source scope)
              (seen time complete)
              (new_presence listing source scope)
              ps)
          ≡ seen time complete p ∷ [])
  unfolding seen
  with_seen-IsRow time complete none ps found one = (
    new_presence listing source scope,
    select-append (has_identity listing source scope) ps _
        ∙ ground
            (arith, self_identity, find-select_absent (has_identity listing source scope) ps found),
  )
  with_seen-IsRow time complete (some p) ps found one = (
    p,
    select-update_where (has_identity listing source scope) (seen time complete) ps (λ x k. k)
        ∙ ap (map (seen time complete))
            (find-select (has_identity listing source scope) ps p found one),
  )

  pub mark_observed_presence-IsRow :
      (run time : ℕ) (complete : Bool) (s : Store)
      → count_if (has_identity listing source scope) s.presences ≤ 1
      → (p : ListingPresence) × IsRow
          (seen time complete p)
          (mark_observed_presence run listing source scope time complete s).1
  unfolding mark_observed_presence refresh_listing_status
  mark_observed_presence-IsRow run time complete s one =
      with_seen-IsRow time complete (find (has_identity listing source scope) s.presences)
        s.presences refl one

  module _ (run time final : ℕ) where
    miss_presence-here :
        (q p : ListingPresence) (s : Store)
        → has_identity listing source scope q ≡ true
        → IsRow p s
        → IsRow (miss final q).0 (miss_presence run time final q s).1
    miss_presence-here q p s here row = rw (miss_presence-presences run time final q s) (
        ap rows (
          update_where-agree (has_identity q.listing_id q.source q.scope_key)
            (has_identity listing source scope) (λ _. (miss final q).0) s.presences
            (λ x. identity-agree q x here))
        ∙ select-update_where (has_identity listing source scope) (λ _. (miss final q).0)
            s.presences (λ x k. miss-identity final q ∙ here)
        ∙ ap (map (λ _. (miss final q).0)) row)

    miss_presence-elsewhere :
        (q : ListingPresence) (s : Store)
        → has_identity listing source scope q ≡ false
        → rows (miss_presence run time final q s).1.presences ≡ rows s.presences
    miss_presence-elsewhere q s there = rw (miss_presence-presences run time final q s) (
        select-update_where_other (has_identity listing source scope)
          (has_identity q.listing_id q.source q.scope_key) (λ _. (miss final q).0) s.presences
          (λ x k. identity-other q x there k) (λ x k. miss-identity final q ∙ there))

    reconcile_all-elsewhere :
        (qs : List ListingPresence) (r : ReconciliationResult) (s : Store)
        → rows qs ≡ []
        → rows (reconcile_all run time final qs r s).1.presences ≡ rows s.presences
    unfolding reconcile_all
    reconcile_all-elsewhere [] r s h = refl
    reconcile_all-elsewhere (q ∷ qs) r s h = ground (
      arith,
      h,
      miss_presence-elsewhere q s,
      reconcile_all-elsewhere qs (tally (miss_presence run time final q s).0 r)
          (miss_presence run time final q s).1,
    )

    reconcile_all-IsRow :
        (qs : List ListingPresence) (r : ReconciliationResult) (q p : ListingPresence) (s : Store)
        → rows qs ≡ q ∷ []
        → IsRow p s
        → IsRow (miss final q).0 (reconcile_all run time final qs r s).1
    unfolding reconcile_all
    reconcile_all-IsRow [] r q p s h row = ground (arith, h)
    reconcile_all-IsRow (x ∷ qs) r q p s h row =
        let s' = (miss_presence run time final x s).1 in
        let r' = tally (miss_presence run time final x s).0 r in
        elim (Bool-cases (has_identity listing source scope x)) [
          | inl here ↦
              let (same, rest) : (x ≡ q) × (rows qs ≡ []) = ground (arith, h, here) in
              reconcile_all-elsewhere qs r' s' rest
              ∙ miss_presence-here x p s here row
              ∙ ap (λ y. (miss final y).0 ∷ []) same
          | inr there ↦
              reconcile_all-IsRow qs r' q p s' (ground (arith, h, there))
                (miss_presence-elsewhere x s there ∙ row)
        ]

  select-holds :
      (ps : List ListingPresence) (p : ListingPresence)
      → rows ps ≡ p ∷ []
      → has_identity listing source scope p ≡ true
  select-holds [] p h = ground (arith, h)
  select-holds (q ∷ qs) p h = ground (arith, h, select-holds qs p)

  is_candidate-unseen :
      (seen_ids : List ℕ) (p : ListingPresence)
      → has_identity listing source scope p ≡ true
      → any (λ id. id == listing) seen_ids ≡ false
      → is_candidate source scope seen_ids p ≡ (is_active p.state || is_missing p.state)
  is_candidate-unseen seen_ids p h k =
      let same : p.listing_id ≡ listing = ground (arith, h) in rw same (ground (arith, h, k))

  -- A complete run over the scope that does not see the listing.
  pub reconcile_complete_scope-IsRow :
      (run time final : ℕ) (seen_ids : List ℕ) (p : ListingPresence) (s : Store)
      → any (λ id. id == listing) seen_ids ≡ false
      → IsRow p s
      → IsRow (absence final p) (reconcile_complete_scope run source scope time final seen_ids s).1
  unfolding reconcile_complete_scope
  reconcile_complete_scope-IsRow run time final seen_ids p s k row =
      let candidates = select (is_candidate source scope seen_ids) s.presences in
      let asked : rows candidates ≡ select (is_candidate source scope seen_ids) (p ∷ []) =
        select-select (has_identity listing source scope) (is_candidate source scope seen_ids)
          s.presences
        ∙ ap (select (is_candidate source scope seen_ids)) row in
      let wanted = is_candidate-unseen seen_ids p (select-holds s.presences p row) k in
      elim (Bool-cases (is_active p.state || is_missing p.state)) [
        | inl e ↦ rw e (
            reconcile_all-IsRow run time final candidates _ p p s (asked ∙ rw (wanted, e) refl) row)
        | inr e ↦ rw e (
            reconcile_all-elsewhere run time final candidates _ s (asked ∙ rw (wanted, e) refl)
            ∙ row)
      ]
