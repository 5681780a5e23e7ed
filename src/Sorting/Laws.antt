-- ===== src/Sorting/Laws.antt =====
-- `sort_by` returns an ascending permutation, and where no two elements tie the result does not
-- depend on the order of the input.
use mathlib.Core.List.{Perm, Permᴰ, Pairwise, mem-cons_self, is_set as list_set}
use mathlib.Core.List.Perm
use mathlib.Core.List.Permᴰ as PermD
use mathlib.Core.Logic.{∥∥₁_elim}
use mathlib.Core.Path.{ap₂, subst, subst₂}
use shanghai_home_radar.Prelude.{
  ◌≡◌, refl, ap, ◌∙◌, inl, inr, Bool, true, false, List, [], ◌∷◌, arith, Bool-cases, length, select,
  suc,
}
use shanghai_home_radar.Sorting.{insert, sort_by}

-- The laws of the comparison that a sort is given.
pub record IsTotal {ℓ} {A : Type ℓ} (leb_by : A → A → Bool) : Type ℓ where
  pub total : (x y : A) → leb_by x y ≡ false → leb_by y x ≡ true
  pub trans : (x y z : A) → leb_by x y ≡ true → leb_by y z ≡ true → leb_by x z ≡ true

module _ {ℓ} {A : Type ℓ} (leb_by : A → A → Bool) where
  abbrev pub IsBelow : A → List A → Type ℓ
  IsBelow x [] = Unit
  IsBelow x (y ∷ ys) = (leb_by x y ≡ true) × IsBelow x ys

  -- Every element is at most each of those after it.
  abbrev pub IsSorted : List A → Type ℓ
  IsSorted [] = Unit
  IsSorted (x ∷ xs) = IsBelow x xs × IsSorted xs

  -- Two elements that the comparison tells apart.
  abbrev pub Differ : A → A → Type 0
  Differ x y = (leb_by x y ≡ true) → (leb_by y x ≡ true) → ⊥

  pub insert-perm : (x : A) (l : List A) → Perm (insert leb_by x l) (x ∷ l)
  unfolding insert
  insert-perm x [] = Perm.rfl
  insert-perm x (y ∷ ys) = elim (Bool-cases (leb_by x y)) [
    | inl e ↦ rw (e, insert) Perm.rfl
    | inr e ↦ rw (e, insert) (Perm.trans (Perm.cons y (insert-perm x ys)) (Perm.swap x y ys))
  ]

  pub sort_by-perm : (l : List A) → Perm (sort_by leb_by l) l
  unfolding sort_by
  sort_by-perm [] = Perm.rfl
  sort_by-perm (x ∷ xs) =
      Perm.trans (insert-perm x (sort_by leb_by xs)) (Perm.cons x (sort_by-perm xs))

  pub length-insert : (x : A) (l : List A) → length (insert leb_by x l) ≡ suc (length l)
  unfolding insert
  length-insert x [] = refl
  length-insert x (y ∷ ys) = ground (arith, length-insert x ys)

  pub length-sort_by : (l : List A) → length (sort_by leb_by l) ≡ length l
  unfolding sort_by
  length-sort_by [] = refl
  length-sort_by (x ∷ xs) = length-insert x (sort_by leb_by xs) ∙ ap suc (length-sort_by xs)

module _ {ℓ} {A : Type ℓ} (leb_by : A → A → Bool) (order : IsTotal leb_by) where
  IsBelow-trans :
      (x y : A) (l : List A) → leb_by x y ≡ true → IsBelow leb_by y l → IsBelow leb_by x l
  IsBelow-trans x y [] h b = tt
  IsBelow-trans x y (z ∷ l) h b = (order.trans x y z h b.0, IsBelow-trans x y l h b.1)

  IsBelow-insert :
      (x y : A) (l : List A)
      → leb_by x y ≡ true
      → IsBelow leb_by x l
      → IsBelow leb_by x (insert leb_by y l)
  unfolding insert
  IsBelow-insert x y [] h b = (h, tt)
  IsBelow-insert x y (z ∷ l) h b = elim (Bool-cases (leb_by y z)) [
    | inl e ↦ rw (e, insert) (h, b)
    | inr e ↦ rw (e, insert) (b.0, IsBelow-insert x y l h b.1)
  ]

  pub insert-IsSorted :
      (x : A) (l : List A) → IsSorted leb_by l → IsSorted leb_by (insert leb_by x l)
  unfolding insert
  insert-IsSorted x [] s = (tt, tt)
  insert-IsSorted x (y ∷ ys) s = elim (Bool-cases (leb_by x y)) [
    | inl e ↦ rw (e, insert) ((e, IsBelow-trans x y ys e s.0), s)
    | inr e ↦
        rw (e, insert) (IsBelow-insert y x ys (order.total x y e) s.0, insert-IsSorted x ys s.1)
  ]

  pub sort_by-IsSorted : (l : List A) → IsSorted leb_by (sort_by leb_by l)
  unfolding sort_by
  sort_by-IsSorted [] = tt
  sort_by-IsSorted (x ∷ xs) = insert-IsSorted x (sort_by leb_by xs) (sort_by-IsSorted xs)

  -- Two insertions of elements that do not tie commute.
  insert_comm :
      (x y : A) (l : List A)
      → Differ leb_by x y
      → insert leb_by x (insert leb_by y l) ≡ insert leb_by y (insert leb_by x l)
  unfolding insert
  insert_comm x y [] d = ground (arith, order.total x y)
  insert_comm x y (z ∷ l) d = ground (
    arith,
    order.total x y,
    order.trans x y z,
    order.trans y x z,
    order.trans x z y,
    order.total x z,
    order.total y z,
    insert_comm x y l d,
  )

  Differ-symm : (x y : A) → Differ leb_by x y → Differ leb_by y x
  Differ-symm x y d h k = d k h

  Differ-prop : (x y : A) → IsProp (Differ leb_by x y)
  Differ-prop x y = hlevel

  pub sort_by_of_permᴰ :
      {l m : List A} → Permᴰ l m → Pairwise (Differ leb_by) l → sort_by leb_by l ≡ sort_by leb_by m
  unfolding sort_by
  sort_by_of_permᴰ Permᴰ.nil d = refl
  sort_by_of_permᴰ (Permᴰ.cons {a = a} {b = b} e p) (Pairwise.cons _ d) =
      ap₂ (insert leb_by) e (sort_by_of_permᴰ p d)
  sort_by_of_permᴰ (Permᴰ.swap {a = a} {b = b} {a' = a'} {b' = b'} {l = l} e f)
        (Pairwise.cons below d) =
      insert_comm a b (sort_by leb_by l) (below b mem-cons_self)
      ∙ ap₂ (λ x y. insert leb_by x (insert leb_by y (sort_by leb_by l))) f e
  sort_by_of_permᴰ (Permᴰ.trans {l₁ = l} {l₂ = m} {l₃ = n} p q) d =
      sort_by_of_permᴰ p d ∙ sort_by_of_permᴰ q (Perm.pairwise Differ-prop Differ-symm ∣ p ∣₁ d)

  pub sort_by_of_perm :
      IsSet A
      → (l m : List A) → Perm l m
      → Pairwise (Differ leb_by) l
      → sort_by leb_by l ≡ sort_by leb_by m
  sort_by_of_perm s l m p d = ∥∥₁_elim p (list_set s _ _) (λ q. sort_by_of_permᴰ q d)

-- Filtering a rearranged list rearranges what is left.
module _ {ℓ} {A : Type ℓ} (p : A → Bool) where
  select_cons :
      (a : A) (l m : List A)
      → Permᴰ (select p l) (select p m)
      → Permᴰ (select p (a ∷ l)) (select p (a ∷ m))
  select_cons a l m q = elim (Bool-cases (p a)) [
    | inl e ↦ rw e (Permᴰ.cons refl q)
    | inr e ↦ rw e q
  ]

  select_swap : (a b : A) (l : List A) → Permᴰ (select p (a ∷ b ∷ l)) (select p (b ∷ a ∷ l))
  select_swap a b l = elim (Bool-cases (p a)) [
    | inl e ↦ elim (Bool-cases (p b)) [
      | inl f ↦ rw (e, f) (Permᴰ.swap refl refl)
      | inr f ↦ rw (e, f) (PermD.refl (a ∷ select p l))
    ]
    | inr e ↦ elim (Bool-cases (p b)) [
      | inl f ↦ rw (e, f) (PermD.refl (b ∷ select p l))
      | inr f ↦ rw (e, f) (PermD.refl (select p l))
    ]
  ]

  pub select-perm : {l m : List A} → Permᴰ l m → Permᴰ (select p l) (select p m)
  select-perm Permᴰ.nil = Permᴰ.nil
  select-perm (Permᴰ.cons {a = a} {l₁ = l} {l₂ = m} e q) =
      subst (λ b. Permᴰ (select p (a ∷ l)) (select p (b ∷ m))) e (select_cons a l m (select-perm q))
  select-perm (Permᴰ.swap {a = a} {b = b} {l = l} e f) =
      subst₂ (λ b' a'. Permᴰ (select p (a ∷ b ∷ l)) (select p (a' ∷ b' ∷ l))) e f
        (select_swap a b l)
  select-perm (Permᴰ.trans q r) = Permᴰ.trans (select-perm q) (select-perm r)
