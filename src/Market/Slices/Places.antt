-- ===== src/Market/Slices/Places.antt =====
-- The places and the segments of a key.
use shanghai_home_radar.Prelude.{
  ◌≡◌, refl, Bool, true, false, not, ◌&&◌, ◌==◌, Option, none, some, String, str_eq, is_none, arith,
}
use shanghai_home_radar.Collector.Repository.{any}
use shanghai_home_radar.Market.Slices.{
  BaselineLevel, community, submarket, district, shanghai, BaselineSliceKey, Geography, geographies,
  segments, opt_eq, allows,
}

abbrev pub level_eq : BaselineLevel → BaselineLevel → Bool
level_eq community community = true
level_eq submarket submarket = true
level_eq district district = true
level_eq shanghai shanghai = true
level_eq _ _ = false

abbrev pub same_place : BaselineSliceKey → Geography → Bool
same_place k g =
    level_eq k.level g.level
    && opt_eq k.district g.district
    && opt_eq k.submarket g.submarket
    && opt_eq k.community g.community

abbrev pub same_segment : BaselineSliceKey → Option String × Option String → Bool
same_segment k s = opt_eq k.area_bucket s.0 && opt_eq k.layout s.1

-- Two keys are equal.
abbrev pub same_key : BaselineSliceKey → BaselineSliceKey → Bool
same_key k j =
    str_eq k.observation_type j.observation_type
    && k.window_days == j.window_days
    && (same_place k (record {
      level = j.level;
      district = j.district;
      submarket = j.submarket;
      community = j.community;
    })
        && same_segment k (j.area_bucket, j.layout))

-- The names that a level asks for, and no others.
abbrev pub is_consistent : BaselineLevel → Option String → Option String → Option String → Bool
is_consistent shanghai d s c = is_none d && is_none s && is_none c
is_consistent district d s c = not (is_none d) && is_none s && is_none c
is_consistent submarket d s c = not (is_none d) && not (is_none s) && is_none c
is_consistent community d s c = not (is_none d) && not (is_none s) && not (is_none c)

opt_eq-none : (k : Option String) → opt_eq k none ≡ is_none k
opt_eq-none none = refl
opt_eq-none (some t) = refl

opt_eq-some : (k : Option String) (t : String) → (is_none k && opt_eq k (some t)) ≡ false
opt_eq-some none t = refl
opt_eq-some (some u) t = refl

pub any-places :
    (l : BaselineLevel) (kd ks kc d s c : Option String)
    → any
        (λ (g : Geography).
          level_eq l g.level
          && opt_eq kd g.district
          && opt_eq ks g.submarket
          && opt_eq kc g.community)
        (geographies d s c)
      ≡ (is_consistent l kd ks kc && (allows kd d && allows ks s && allows kc c))
any-places l kd ks kc none s c = elim l [
  | shanghai ↦ ground (arith, opt_eq-none kd, opt_eq-none ks, opt_eq-none kc)
  | district ↦ ground (arith, opt_eq-none kd)
  | submarket ↦ ground (arith, opt_eq-none kd)
  | community ↦ ground (arith, opt_eq-none kd)
]
any-places l kd ks kc (some d) none c = elim l [
  | shanghai ↦ ground (arith, opt_eq-none kd, opt_eq-none ks, opt_eq-none kc, opt_eq-some kd d)
  | district ↦ ground (arith, opt_eq-none kd, opt_eq-none ks, opt_eq-none kc, opt_eq-some kd d)
  | submarket ↦ ground (arith, opt_eq-none kd, opt_eq-none ks, opt_eq-none kc, opt_eq-some kd d)
  | community ↦ ground (arith, opt_eq-none kd, opt_eq-none ks, opt_eq-none kc, opt_eq-some kd d)
]
any-places l kd ks kc (some d) (some s) none = elim l [
  | shanghai ↦
      ground
        (arith, opt_eq-none kd, opt_eq-none ks, opt_eq-none kc, opt_eq-some kd d, opt_eq-some ks s)
  | district ↦
      ground
        (arith, opt_eq-none kd, opt_eq-none ks, opt_eq-none kc, opt_eq-some kd d, opt_eq-some ks s)
  | submarket ↦
      ground
        (arith, opt_eq-none kd, opt_eq-none ks, opt_eq-none kc, opt_eq-some kd d, opt_eq-some ks s)
  | community ↦
      ground
        (arith, opt_eq-none kd, opt_eq-none ks, opt_eq-none kc, opt_eq-some kd d, opt_eq-some ks s)
]
any-places l kd ks kc (some d) (some s) (some c) = elim l [
  | shanghai ↦ ground (
    arith,
    opt_eq-none kd,
    opt_eq-none ks,
    opt_eq-none kc,
    opt_eq-some kd d,
    opt_eq-some ks s,
    opt_eq-some kc c,
  )
  | district ↦ ground (
    arith,
    opt_eq-none kd,
    opt_eq-none ks,
    opt_eq-none kc,
    opt_eq-some kd d,
    opt_eq-some ks s,
    opt_eq-some kc c,
  )
  | submarket ↦ ground (
    arith,
    opt_eq-none kd,
    opt_eq-none ks,
    opt_eq-none kc,
    opt_eq-some kd d,
    opt_eq-some ks s,
    opt_eq-some kc c,
  )
  | community ↦ ground (
    arith,
    opt_eq-none kd,
    opt_eq-none ks,
    opt_eq-none kc,
    opt_eq-some kd d,
    opt_eq-some ks s,
    opt_eq-some kc c,
  )
]

pub any-segments :
    (ka kl a l : Option String)
    → any (λ (s : Option String × Option String). opt_eq ka s.0 && opt_eq kl s.1) (segments a l)
      ≡ (allows ka a && allows kl l)
any-segments ka kl none none = ground (arith, opt_eq-none ka, opt_eq-none kl)
any-segments ka kl none (some l) = ground (arith, opt_eq-none ka, opt_eq-none kl, opt_eq-some kl l)
any-segments ka kl (some a) none = ground (arith, opt_eq-none ka, opt_eq-none kl, opt_eq-some ka a)
any-segments ka kl (some a) (some l) =
    ground (arith, opt_eq-none ka, opt_eq-none kl, opt_eq-some ka a, opt_eq-some kl l)
