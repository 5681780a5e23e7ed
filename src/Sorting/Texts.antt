-- ===== src/Sorting/Texts.antt =====
-- Membership of a text in lists that are joined, filtered, made free of repetitions or sorted.
use mathlib.Core.Path.{◌≡◌, refl}
use mathlib.Core.Bool.{Bool, false, ◌&&◌, ◌||◌, not}
use mathlib.Core.List.{List, [], ◌∷◌, ◌++◌}
use Prim.Native.String.{String}
use native.Mathlib.Omega.{arith}
use text.Mathlib.TextEquality.{eq_iff}
use shanghai_home_radar.Prelude.{str_eq}
use shanghai_home_radar.Prelude.{contains, select}
use shanghai_home_radar.Prelude.{dedupe_from, dedupe}
use shanghai_home_radar.Sorting.{insert, sort_by}

pub contains-append :
    (w : String) (xs ys : List String) → contains w (xs ++ ys) ≡ (contains w xs || contains w ys)
contains-append w [] ys = refl
contains-append w (x ∷ xs) ys = ground (arith, contains-append w xs ys)

pub contains-select :
    (w : String) (p : String → Bool) (xs : List String)
    → contains w (select p xs) ≡ (contains w xs && p w)
contains-select w p [] = refl
contains-select w p (x ∷ xs) = ground (arith, eq_iff w x, contains-select w p xs)

pub contains-dedupe_from :
    (w : String) (seen xs : List String)
    → contains w (dedupe_from seen xs) ≡ (contains w xs && not (contains w seen))
contains-dedupe_from w seen [] = refl
contains-dedupe_from w seen (x ∷ xs) =
    ground (arith, eq_iff w x, contains-dedupe_from w seen xs, contains-dedupe_from w (x ∷ seen) xs)

-- Removing repetitions loses and invents nothing.
pub contains-dedupe : (w : String) (xs : List String) → contains w (dedupe xs) ≡ contains w xs
contains-dedupe w xs = ground (arith, contains-dedupe_from w [] xs)

-- No text stands twice in the list.
abbrev pub NoRepeat : List String → Type 0
NoRepeat [] = Unit
NoRepeat (x ∷ xs) = (contains x xs ≡ false) × NoRepeat xs

pub dedupe_from-NoRepeat : (seen xs : List String) → NoRepeat (dedupe_from seen xs)
dedupe_from-NoRepeat seen [] = tt
dedupe_from-NoRepeat seen (x ∷ xs) = ground (
  arith,
  eq_iff x x,
  contains-dedupe_from x (x ∷ seen) xs,
  dedupe_from-NoRepeat seen xs,
  dedupe_from-NoRepeat (x ∷ seen) xs,
)

module _ (leb_by : String → String → Bool) where
  contains-insert :
      (w x : String) (l : List String)
      → contains w (insert leb_by x l) ≡ (str_eq w x || contains w l)
  unfolding insert
  contains-insert w x [] = refl
  contains-insert w x (y ∷ ys) = ground (arith, contains-insert w x ys)

  pub contains-sort_by :
      (w : String) (xs : List String) → contains w (sort_by leb_by xs) ≡ contains w xs
  unfolding sort_by
  contains-sort_by w [] = refl
  contains-sort_by w (x ∷ xs) =
      ground (arith, contains-insert w x (sort_by leb_by xs), contains-sort_by w xs)

  insert-NoRepeat :
      (x : String) (l : List String)
      → contains x l ≡ false
      → NoRepeat l
      → NoRepeat (insert leb_by x l)
  unfolding insert
  insert-NoRepeat x [] c h = (refl, tt)
  insert-NoRepeat x (y ∷ ys) c h =
      ground (arith, eq_iff x y, eq_iff y x, contains-insert y x ys, insert-NoRepeat x ys)

  pub sort_by-NoRepeat : (xs : List String) → NoRepeat xs → NoRepeat (sort_by leb_by xs)
  unfolding sort_by
  sort_by-NoRepeat [] h = tt
  sort_by-NoRepeat (x ∷ xs) h =
      insert-NoRepeat x (sort_by leb_by xs) (rw (contains-sort_by x xs) h.0)
        (sort_by-NoRepeat xs h.1)
