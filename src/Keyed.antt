-- ===== src/Keyed.antt =====
-- A dictionary that keeps the newest element of each key, as the list of its values.
pub mod Noted
use shanghai_home_radar.Prelude.{Bool, not, ◌&&◌, List, [], ◌∷◌, String, str_eq, if◌then◌else◌}
use shanghai_home_radar.Collector.Repository.{any}

module _ {A : Type 0} (key : A → String) (newer : A → A → Bool) where
  abbrev pub same_key : A → A → Bool
  same_key x y = str_eq (key x) (key y)

  -- The values after an element: a key that is there keeps its place.
  unfoldable pub note : A → List A → List A
  note r [] = r ∷ []
  note r (e ∷ d) =
      let rest = note r d in if same_key r e then (if newer r e then r else e) ∷ d else e ∷ rest

  abbrev pub note_each : List A → List A → List A
  note_each d [] = d
  note_each d (r ∷ rs) = note_each (note r d) rs

  -- The list has an element of the same key than which the one given is not newer.
  abbrev pub covers : A → List A → Bool
  covers r = any (λ m. same_key r m && not (newer r m))
