-- ===== src/Sorting/Kept.antt =====
-- What sorting keeps of a list.
use shanghai_home_radar.Prelude.{
  ◌≡◌, refl, ap, ◌∙◌, Bool, false, ◌||◌, List, [], ◌∷◌, arith, All, Bool-cases, inl, inr, ℕ, suc,
  sym, is_empty, length,
}
use shanghai_home_radar.Collector.Repository.{any}
use shanghai_home_radar.Collector.Rows.{Distinct}
use shanghai_home_radar.Sorting.{insert, sort_by}
use shanghai_home_radar.Sorting.Laws.{length-sort_by}

module _ {ℓ} {A : Type ℓ} (leb_by : A → A → Bool) where
  any-insert : (p : A → Bool) (x : A) (l : List A) → any p (insert leb_by x l) ≡ (p x || any p l)
  unfolding insert
  any-insert p x [] = refl
  any-insert p x (y ∷ ys) = elim (Bool-cases (leb_by x y)) [
    | inl e ↦ rw (e, insert) refl
    | inr e ↦ rw (e, insert) (ground (arith, any-insert p x ys))
  ]

  pub any-sort_by : (p : A → Bool) (l : List A) → any p (sort_by leb_by l) ≡ any p l
  unfolding sort_by
  any-sort_by p [] = refl
  any-sort_by p (x ∷ xs) =
      any-insert p x (sort_by leb_by xs) ∙ ap (λ b. p x || b) (any-sort_by p xs)

  insert-All {κ} : (P : A → Type κ) (x : A) (l : List A) → P x → All P l → All P (insert leb_by x l)
  unfolding insert
  insert-All P x [] p h = (p, tt)
  insert-All P x (y ∷ ys) p h = elim (Bool-cases (leb_by x y)) [
    | inl e ↦ rw (e, insert) (p, h)
    | inr e ↦ rw (e, insert) (h.0, insert-All P x ys p h.1)
  ]

  pub sort_by-All {κ} : (P : A → Type κ) (l : List A) → All P l → All P (sort_by leb_by l)
  unfolding sort_by
  sort_by-All P [] h = tt
  sort_by-All P (x ∷ xs) h = insert-All P x (sort_by leb_by xs) h.0 (sort_by-All P xs h.1)

  insert-Distinct :
      (same : A → A → Bool) (symm : (x y : A) → same x y ≡ same y x) (x : A) (l : List A)
      → any (same x) l ≡ false
      → Distinct same l
      → Distinct same (insert leb_by x l)
  unfolding insert
  insert-Distinct same symm x [] h d = (refl, tt)
  insert-Distinct same symm x (y ∷ ys) h d = elim (Bool-cases (leb_by x y)) [
    | inl e ↦ rw (e, insert) (h, d)
    | inr e ↦
        rw (e, insert)
          (
            any-insert (same y) x ys ∙ ground (arith, symm y x, h, d.0),
            insert-Distinct same symm x ys (ground (arith, h)) d.1,
          )
  ]

  pub sort_by-Distinct :
      (same : A → A → Bool) (symm : (x y : A) → same x y ≡ same y x) (l : List A)
      → Distinct same l
      → Distinct same (sort_by leb_by l)
  unfolding sort_by
  sort_by-Distinct same symm [] d = tt
  sort_by-Distinct same symm (x ∷ xs) d =
      insert-Distinct same symm x (sort_by leb_by xs) (any-sort_by (same x) xs ∙ d.0)
        (sort_by-Distinct same symm xs d.1)

  pub sort_by-not_empty : (l : List A) → is_empty l ≡ false → sort_by leb_by l ≡ [] → ⊥
  sort_by-not_empty [] h e = cc h
  sort_by-not_empty (x ∷ xs) h e =
      suc_not_zero (length xs) (sym (length-sort_by leb_by (x ∷ xs)) ∙ ap length e)
    where
      suc_not_zero : (n : ℕ) → suc n ≡ 0 → ⊥
      suc_not_zero n e = omega (arith, e)
