-- ===== src/Sorting.antt =====
-- Python's `sorted`: a stable sort by a key, and the order of the key tuples.
pub mod Counts
pub mod Kept
pub mod Laws
pub mod Lex
pub mod Texts
use shanghai_home_radar.Prelude.{Bool, true, false, List, [], ◌∷◌, ℤ, ltb_ℤ, if◌then◌else◌}

module _ {ℓ} {A : Type ℓ} (leb_by : A → A → Bool) where
  -- In front of the first element that is not smaller, so equal elements keep their order.
  unfoldable pub insert : A → List A → List A
  insert x [] = x ∷ []
  insert x (y ∷ ys) = if leb_by x y then x ∷ y ∷ ys else y ∷ insert x ys

  unfoldable pub sort_by : List A → List A
  unfolding insert
  sort_by [] = []
  sort_by (x ∷ xs) = insert x (sort_by xs)

-- `<=` on tuples: the first component that differs decides.
unfoldable pub lex_leb : List ℤ → List ℤ → Bool
lex_leb [] ys = true
lex_leb (x ∷ xs) [] = false
lex_leb (x ∷ xs) (y ∷ ys) = if ltb_ℤ x y then true else if ltb_ℤ y x then false else lex_leb xs ys
