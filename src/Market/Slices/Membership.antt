-- ===== src/Market/Slices/Membership.antt =====
-- Which slices an observation belongs to.
use shanghai_home_radar.Prelude.{
  ℕ, ◌≡◌, refl, ◌∙◌, Bool, false, not, ◌&&◌, ◌||◌, ◌==◌, Option, List, [], ◌∷◌, ◌++◌, String,
  str_eq, map, arith, if◌then◌else◌,
}
use shanghai_home_radar.Collector.Repository.{any}
use shanghai_home_radar.Market.Slices.{
  ObservationRecord, BaselineSliceKey, Geography, geographies, segments, key_of, all_keys,
  slice_keys, allows, record_matches_key,
}
use shanghai_home_radar.Market.Slices.Places.{
  same_place, same_segment, same_key, is_consistent, any-places, any-segments,
}

any-append {ℓ} :
    {A : Type ℓ} (p : A → Bool) (xs ys : List A) → any p (xs ++ ys) ≡ (any p xs || any p ys)
any-append p [] ys = refl
any-append p (x ∷ xs) ys = ground (arith, any-append p xs ys)

-- The keys of one place.
any-map :
    (k : BaselineSliceKey) (r : ObservationRecord) (window : ℕ) (g : Geography)
    (ss : List (Option String × Option String))
    → any (same_key k) (map (key_of r window g) ss) ≡ (
        str_eq k.observation_type r.observation_type
        && k.window_days == window
        && (same_place k g && any (same_segment k) ss))
any-map k r window g [] = ground arith
any-map k r window g (s ∷ ss) =
    let kind = str_eq k.observation_type r.observation_type in
    let same_window = k.window_days == window in
    let here : same_key k (key_of r window g s)
        ≡ (kind && same_window && (same_place k g && same_segment k s)) =
      refl in
    one kind same_window (same_place k g) (same_segment k s) (any (same_segment k) ss) _ _ here
      (any-map k r window g ss)
  where
    one :
        (a b c d e x y : Bool)
        → x ≡ (a && b && (c && d))
        → y ≡ (a && b && (c && e))
        → (x || y) ≡ (a && b && (c && (d || e)))
    one a b c d e x y h k = ground (arith, h, k)

any-all_keys :
    (k : BaselineSliceKey) (r : ObservationRecord) (window : ℕ) (gs : List Geography)
    (ss : List (Option String × Option String))
    → any (same_key k) (all_keys r window gs ss) ≡ (
        str_eq k.observation_type r.observation_type
        && k.window_days == window
        && (any (same_place k) gs && any (same_segment k) ss))
any-all_keys k r window [] ss = ground arith
any-all_keys k r window (g ∷ gs) ss =
    any-append (same_key k) (map (key_of r window g) ss) (all_keys r window gs ss)
    ∙ one (str_eq k.observation_type r.observation_type) (k.window_days == window) (same_place k g)
        (any (same_place k) gs) (any (same_segment k) ss) _ _ (any-map k r window g ss)
        (any-all_keys k r window gs ss)
  where
    one :
        (a b c d e x y : Bool)
        → x ≡ (a && b && (c && e))
        → y ≡ (a && b && (d && e))
        → (x || y) ≡ (a && b && ((c || d) && e))
    one a b c d e x y h k = ground (arith, h, k)

-- A key is among the slices of an observation exactly if it has the window, its level has the names
-- that the level asks for and no others, and the observation matches it.
pub any-slice_keys :
    (r : ObservationRecord) (window : ℕ) (k : BaselineSliceKey)
    → any (same_key k) (slice_keys r window) ≡ (
        k.window_days == window
        && is_consistent k.level k.district k.submarket k.community
        && record_matches_key r k)
unfolding slice_keys record_matches_key
any-slice_keys r window k =
    any-all_keys k r window (geographies r.district r.submarket r.community)
      (segments r.area_bucket r.layout)
    ∙ together (str_eq k.observation_type r.observation_type) (k.window_days == window) _ _ _
        (allows k.district r.district) (allows k.submarket r.submarket)
        (allows k.community r.community) (allows k.area_bucket r.area_bucket)
        (allows k.layout r.layout)
        (any-places k.level k.district k.submarket k.community r.district r.submarket r.community)
        (any-segments k.area_bucket k.layout r.area_bucket r.layout)
  where
    together :
        (a w p q i d s c e l : Bool)
        → p ≡ (i && (d && s && c))
        → q ≡ (e && l)
        → (a && w && (p && q)) ≡ (
            w
            && i
            && (if not a
                then false
                else if not d
                then false
                else if not s
                then false
                else if not c
                then false
                else if not e
                then false
                else l))
    together a w p q i d s c e l h k = ground (arith, h, k)
