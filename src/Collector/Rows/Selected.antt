-- ===== src/Collector/Rows/Selected.antt =====
-- The rows with one key, behind the changes of a table.
use shanghai_home_radar.Prelude.{
  ◌≡◌, ◌≤◌, refl, Bool, true, false, none, some, List, [], ◌∷◌, ◌++◌, arith, map, select, count_if,
}
use shanghai_home_radar.Collector.Repository.{find, update_where}

module _ {ℓ} {A : Type ℓ} where
  pub count_if-select : (p : A → Bool) (xs : List A) → count_if p xs ≤ 0 → select p xs ≡ []
  count_if-select p [] h = refl
  count_if-select p (x ∷ xs) h = ground (arith, h, count_if-select p xs)

  -- The only row with a key is the one that is found.
  pub find-select :
      (p : A → Bool) (xs : List A) (x : A)
      → find p xs ≡ some x
      → count_if p xs ≤ 1
      → select p xs ≡ x ∷ []
  find-select p [] x h k = ground (arith, h)
  find-select p (y ∷ xs) x h k = ground (arith, h, k, count_if-select p xs, find-select p xs x)

  pub find-select_absent : (p : A → Bool) (xs : List A) → find p xs ≡ none → select p xs ≡ []
  find-select_absent p [] h = refl
  find-select_absent p (y ∷ xs) h = ground (arith, h, find-select_absent p xs)

  pub select-find : (p : A → Bool) (xs : List A) (x : A) → select p xs ≡ x ∷ [] → find p xs ≡ some x
  select-find p [] x h = ground (arith, h)
  select-find p (y ∷ xs) x h = ground (arith, h, select-find p xs x)

  pub select-append :
      (p : A → Bool) (xs ys : List A) → select p (xs ++ ys) ≡ select p xs ++ select p ys
  select-append p [] ys = refl
  select-append p (x ∷ xs) ys = ground (arith, select-append p xs ys)

  pub select-select :
      (p q : A → Bool) (xs : List A) → select p (select q xs) ≡ select q (select p xs)
  select-select p q [] = refl
  select-select p q (x ∷ xs) = ground (arith, select-select p q xs)

  -- A change of the rows with the key that keeps their key.
  pub select-update_where :
      (p : A → Bool) (f : A → A) (xs : List A)
      → ((x : A) → p x ≡ true → p (f x) ≡ true)
      → select p (update_where p f xs) ≡ map f (select p xs)
  select-update_where p f [] k = refl
  select-update_where p f (x ∷ xs) k = ground (arith, k x, select-update_where p f xs k)

  -- A change of rows with another key.
  pub select-update_where_other :
      (p q : A → Bool) (f : A → A) (xs : List A)
      → ((x : A) → q x ≡ true → p x ≡ false)
      → ((x : A) → q x ≡ true → p (f x) ≡ false)
      → select p (update_where q f xs) ≡ select p xs
  select-update_where_other p q f [] k l = refl
  select-update_where_other p q f (x ∷ xs) k l =
      ground (arith, k x, l x, select-update_where_other p q f xs k l)

  pub update_where-agree :
      (p q : A → Bool) (f : A → A) (xs : List A)
      → ((x : A) → p x ≡ q x)
      → update_where p f xs ≡ update_where q f xs
  update_where-agree p q f [] k = refl
  update_where-agree p q f (x ∷ xs) k = ground (arith, k x, update_where-agree p q f xs k)
