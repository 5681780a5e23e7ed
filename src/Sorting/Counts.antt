-- ===== src/Sorting/Counts.antt =====
-- How often something occurs in a list that is selected from, cut, joined, mapped or sorted.
use shanghai_home_radar.Prelude.{
  ℕ, zero, suc, ◌+◌, ◌≤◌, ◌≡◌, refl, ap, Bool, true, false, List, [], ◌∷◌, ◌++◌, arith, Bool-cases,
  inl, inr, count_if, length, select, take, map, All,
}
use shanghai_home_radar.Collector.Repository.{any}
use shanghai_home_radar.Sorting.{insert, sort_by}

module _ {ℓ} {A : Type ℓ} where
  pub count_if-select-le : (p q : A → Bool) (l : List A) → count_if p (select q l) ≤ count_if p l
  count_if-select-le p q [] = omega arith
  count_if-select-le p q (x ∷ l) = ground (arith, count_if-select-le p q l)

  pub count_if-append :
      (p : A → Bool) (l m : List A) → count_if p (l ++ m) ≡ count_if p l + count_if p m
  count_if-append p [] m = omega arith
  count_if-append p (x ∷ l) m = ground (arith, count_if-append p l m)

  pub count_if-take-le : (p : A → Bool) (n : ℕ) (l : List A) → count_if p (take n l) ≤ count_if p l
  count_if-take-le p zero l = omega arith
  count_if-take-le p (suc n) [] = omega arith
  count_if-take-le p (suc n) (x ∷ l) = ground (arith, count_if-take-le p n l)

  pub count_if-none : (p : A → Bool) (l : List A) → any p l ≡ false → count_if p l ≡ 0
  count_if-none p [] h = refl
  count_if-none p (x ∷ l) h = ground (arith, h, count_if-none p l)

  pub count_if-map :
      (p : A → Bool) (f : A → A) (l : List A)
      → ((x : A) → p (f x) ≡ p x)
      → count_if p (map f l) ≡ count_if p l
  count_if-map p f [] h = refl
  count_if-map p f (x ∷ l) h = ground (arith, h x, count_if-map p f l h)

  -- What is selected has the property.
  pub select-All {κ} :
      (P : A → Type κ) (q : A → Bool) (l : List A)
      → All P l
      → All (λ x. (q x ≡ true) × P x) (select q l)
  select-All P q [] h = tt
  select-All P q (x ∷ l) h = elim (Bool-cases (q x)) [
    | inl e ↦ rw e ((e, h.0), select-All P q l (h.1))
    | inr e ↦ rw e (select-All P q l (h.1))
  ]

  pub take-All {κ} : (P : A → Type κ) (n : ℕ) (l : List A) → All P l → All P (take n l)
  take-All P zero l h = tt
  take-All P (suc n) [] h = tt
  take-All P (suc n) (x ∷ l) h = (h.0, take-All P n l (h.1))

  pub append-All {κ} : (P : A → Type κ) (l m : List A) → All P l → All P m → All P (l ++ m)
  append-All P [] m h k = k
  append-All P (x ∷ l) m h k = (h.0, append-All P l m (h.1) k)

module _ {ℓ} {A : Type ℓ} (leb_by : A → A → Bool) where
  count_if-insert :
      (p : A → Bool) (x : A) (l : List A) → count_if p (insert leb_by x l) ≡ count_if p (x ∷ l)
  unfolding insert
  count_if-insert p x [] = refl
  count_if-insert p x (y ∷ l) = ground (arith, count_if-insert p x l)

  pub count_if-sort_by : (p : A → Bool) (l : List A) → count_if p (sort_by leb_by l) ≡ count_if p l
  unfolding sort_by
  count_if-sort_by p [] = refl
  count_if-sort_by p (x ∷ l) =
      ground (arith, count_if-insert p x (sort_by leb_by l), count_if-sort_by p l)

pub length-map {ℓ κ} :
    {A : Type ℓ} {B : Type κ} (f : A → B) (l : List A) → length (map f l) ≡ length l
length-map f [] = refl
length-map f (x ∷ l) = ap suc (length-map f l)
