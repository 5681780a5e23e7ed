-- ===== src/Collector/Rows.antt =====
-- Laws of the tables: rows that are found, changed in place and added.
pub mod Selected
use shanghai_home_radar.Prelude.{
  ◌≡◌, refl, Bool, true, false, Option, none, some, List, [], ◌∷◌, ◌++◌, arith, All, if◌then◌else◌,
}
use shanghai_home_radar.Collector.Repository.{find, any, update_where}

module _ {ℓ κ} {A : Type ℓ} (P : A → Type κ) where
  pub All-update_where :
      (p : A → Bool) (f : A → A) (xs : List A)
      → ((x : A) → P x → P (f x))
      → All P xs
      → All P (update_where p f xs)
  All-update_where p f [] k h = tt
  All-update_where p f (x ∷ xs) k (hx, h) = (one (p x) (k x hx) hx, All-update_where p f xs k h)
    where
      one : {x y : A} (b : Bool) → P y → P x → P (if b then y else x)
      one true hy hx = hy
      one false hy hx = hx

  pub All-snoc : (xs : List A) (x : A) → All P xs → P x → All P (xs ++ x ∷ [])
  All-snoc [] x h hx = (hx, tt)
  All-snoc (y ∷ xs) x h hx = (h.0, All-snoc xs x h.1 hx)

  -- What holds of the row that was found, if there is one.
  abbrev pub OnSome : Option A → Type κ
  OnSome none = Unit
  OnSome (some x) = P x

  pub All-find : (p : A → Bool) (xs : List A) → All P xs → OnSome (find p xs)
  All-find p [] h = tt
  All-find p (x ∷ xs) (hx, h) = choose (p x) (find p xs) hx (All-find p xs h)
    where
      choose : {x : A} (b : Bool) (o : Option A) → P x → OnSome o → OnSome (if b then some x else o)
      choose true o hx h = hx
      choose false o hx h = h

-- The row that is found fits.
pub find_fits {ℓ} : {A : Type ℓ} (p : A → Bool) (xs : List A) → OnSome (λ x. p x ≡ true) (find p xs)
find_fits p [] = tt
find_fits {A = A} p (x ∷ xs) = choose (p x) (find p xs) refl (find_fits p xs)
  where
    choose :
        (b : Bool) (o : Option A)
        → p x ≡ b
        → OnSome (λ x. p x ≡ true) o
        → OnSome (λ x. p x ≡ true) (if b then some x else o)
    choose true o e h = e
    choose false o e h = h

module _ {ℓ} {A : Type ℓ} (same : A → A → Bool) where
  -- No two rows have the same key.
  abbrev pub Distinct : List A → Type 0
  Distinct [] = Unit
  Distinct (x ∷ xs) = (any (same x) xs ≡ false) × Distinct xs

  any-snoc :
      (p : A → Bool) (xs : List A) (x : A)
      → any p xs ≡ false
      → p x ≡ false
      → any p (xs ++ x ∷ []) ≡ false
  any-snoc p [] x h hx = ground (arith, hx)
  any-snoc p (y ∷ xs) x h hx = ground (arith, any-snoc p xs x, h, hx)

  pub Distinct-snoc :
      ((x y : A) → same x y ≡ same y x)
      → (xs : List A) (x : A) → Distinct xs
      → any (same x) xs ≡ false
      → Distinct (xs ++ x ∷ [])
  Distinct-snoc symm [] x d h = (refl, tt)
  Distinct-snoc symm (y ∷ xs) x d h = (
    any-snoc (same y) xs x d.0 (ground (arith, symm y x, h)),
    Distinct-snoc symm xs x d.1 (ground (arith, h)),
  )

pub All-trivial {ℓ} : {A : Type ℓ} (xs : List A) → All (λ _. Unit {0}) xs
All-trivial [] = tt
All-trivial (x ∷ xs) = (tt, All-trivial xs)
