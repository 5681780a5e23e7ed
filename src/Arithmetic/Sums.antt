-- ===== src/Arithmetic/Sums.antt =====
-- Sums of numbers that are not negative.
use shanghai_home_radar.Prelude.{◌≡◌, true, List, [], ◌∷◌, All}
use shanghai_home_radar.Arithmetic.{Arithmetic, IsRounded, ◌≼◌, ◌⊕◌, nought, sum_from, sum}
use shanghai_home_radar.Arithmetic.Order.{≼_refl, add_mono_both, add-nonneg}

module _ {D : Type 0} ⦃a : Arithmetic D⦄ where
  -- Each number of the first list is at most its fellow in the second.
  abbrev pub AllBelow : List D → List D → Type 0
  AllBelow [] [] = Unit
  AllBelow (x ∷ xs) (y ∷ ys) = ((x ≼ y) ≡ true) × AllBelow xs ys
  AllBelow _ _ = ⊥

  abbrev pub IsNonneg : D → Type 0
  IsNonneg x = (nought ≼ x) ≡ true

module _ {D : Type 0} ⦃a : Arithmetic D⦄ (r : IsRounded D) where
  sum_from_mono :
      (x y : D) (xs ys : List D)
      → (x ≼ y) ≡ true
      → AllBelow xs ys
      → (sum_from x xs ≼ sum_from y ys) ≡ true
  unfolding sum_from
  sum_from_mono x y [] [] h k = h
  sum_from_mono x y (z ∷ xs) (w ∷ ys) h k =
      sum_from_mono (x ⊕ z) (y ⊕ w) xs ys (add_mono_both r x y z w h k.0) k.1
  sum_from_mono x y [] (w ∷ ys) h k = absurd k
  sum_from_mono x y (z ∷ xs) [] h k = absurd k

  pub sum_mono : (xs ys : List D) → AllBelow xs ys → (sum xs ≼ sum ys) ≡ true
  sum_mono xs ys = sum_from_mono nought nought xs ys (≼_refl r nought)

  sum_from-IsNonneg :
      (x : D) (xs : List D) → IsNonneg x → All IsNonneg xs → IsNonneg (sum_from x xs)
  unfolding sum_from
  sum_from-IsNonneg x [] h k = h
  sum_from-IsNonneg x (y ∷ xs) h k = sum_from-IsNonneg (x ⊕ y) xs (add-nonneg r x y h k.0) k.1

  pub sum-IsNonneg : (xs : List D) → All IsNonneg xs → IsNonneg (sum xs)
  sum-IsNonneg xs = sum_from-IsNonneg nought xs (≼_refl r nought)
