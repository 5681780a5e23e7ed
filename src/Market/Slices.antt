-- ===== src/Market/Slices.antt =====
-- services/market/src/home_radar_market/domain.py: the slices of the market that an observation
-- belongs to. The prices and the metadata of an observation, which nothing here reads, are left out;
-- a set is a list in which an element may stand more than once.
pub mod Places
pub mod Membership
use shanghai_home_radar.Prelude.{
  ℕ, Bool, true, false, not, ◌&&◌, ◌||◌, Option, none, some, List, [], ◌∷◌, ◌++◌, String, str_eq,
  is_none, map, if◌then◌else◌,
}

pub record ObservationRecord : Type 0 where
  pub id : ℕ
  pub observation_type : String
  pub source : String
  pub source_record_id : String
  pub listing_id : Option ℕ
  pub district : Option String
  pub submarket : Option String
  pub community : Option String
  pub area_bucket : Option String
  pub layout : Option String
  pub observed_at : ℕ
  pub created_at : ℕ

-- `BaselineLevel`
pub data BaselineLevel : Type 0 where
  community submarket district shanghai : BaselineLevel

pub record BaselineSliceKey : Type 0 where
  pub observation_type : String
  pub window_days : ℕ
  pub level : BaselineLevel
  pub district : Option String
  pub submarket : Option String
  pub community : Option String
  pub area_bucket : Option String
  pub layout : Option String

-- A level with the names of the place.
pub record Geography : Type 0 where
  pub level : BaselineLevel
  pub district : Option String
  pub submarket : Option String
  pub community : Option String

abbrev pub in_district : Option String → List Geography
in_district none = []
in_district (some d) =
    record { level = district; district = some d; submarket = none; community = none } ∷ []

abbrev pub in_submarket : Option String → Option String → List Geography
in_submarket none s = []
in_submarket (some d) none = []
in_submarket (some d) (some s) =
    record { level = submarket; district = some d; submarket = some s; community = none } ∷ []

abbrev pub in_community : Option String → Option String → Option String → List Geography
in_community none s c = []
in_community (some d) none c = []
in_community (some d) (some s) none = []
in_community (some d) (some s) (some c) =
    record { level = community; district = some d; submarket = some s; community = some c } ∷ []

abbrev pub geographies : Option String → Option String → Option String → List Geography
geographies d s c =
    record { level = shanghai; district = none; submarket = none; community = none }
    ∷ (in_district d ++ (in_submarket d s ++ in_community d s c))

abbrev pub by_area : Option String → List (Option String × Option String)
by_area none = []
by_area (some a) = (some a, none) ∷ []

abbrev pub by_layout : Option String → List (Option String × Option String)
by_layout none = []
by_layout (some l) = (none, some l) ∷ []

abbrev pub by_both : Option String → Option String → List (Option String × Option String)
by_both none l = []
by_both (some a) none = []
by_both (some a) (some l) = (some a, some l) ∷ []

abbrev pub segments : Option String → Option String → List (Option String × Option String)
segments a l = (none, none) ∷ (by_area a ++ (by_layout l ++ by_both a l))

abbrev pub key_of :
    ObservationRecord → ℕ → Geography → Option String × Option String → BaselineSliceKey
key_of r window g s = record {
  observation_type = r.observation_type;
  window_days = window;
  level = g.level;
  district = g.district;
  submarket = g.submarket;
  community = g.community;
  area_bucket = s.0;
  layout = s.1;
}

-- `for geography in geographies for segment in segments`
abbrev pub all_keys :
    ObservationRecord
    → ℕ
    → List Geography
    → List (Option String × Option String)
    → List BaselineSliceKey
all_keys r window [] ss = []
all_keys r window (g ∷ gs) ss = map (key_of r window g) ss ++ all_keys r window gs ss

unfoldable pub slice_keys : ObservationRecord → ℕ → List BaselineSliceKey
slice_keys r window =
    all_keys r window (geographies r.district r.submarket r.community)
      (segments r.area_bucket r.layout)

-- `record.x == key.x`
abbrev pub opt_eq : Option String → Option String → Bool
opt_eq none none = true
opt_eq none (some t) = false
opt_eq (some s) none = false
opt_eq (some s) (some t) = str_eq s t

-- The key asks for nothing, or for what the record has.
abbrev pub allows : Option String → Option String → Bool
allows asked has = is_none asked || opt_eq asked has

unfoldable pub record_matches_key : ObservationRecord → BaselineSliceKey → Bool
record_matches_key r k =
    if not (str_eq k.observation_type r.observation_type)
    then false
    else if not (allows k.district r.district)
    then false
    else if not (allows k.submarket r.submarket)
    then false
    else if not (allows k.community r.community)
    then false
    else if not (allows k.area_bucket r.area_bucket)
    then false
    else allows k.layout r.layout
