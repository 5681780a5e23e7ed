-- ===== src/Keyed/Noted.antt =====
-- What the dictionary keeps: one element of each key, none that was not there, and for each that was
-- noted one of its key than which it is not newer.
use mathlib.Core.List.{Mem, mem-cons_self, mem-cons_of_mem}
use shanghai_home_radar.Prelude.{
  ◌≡◌, refl, ap, ◌∙◌, Bool, true, false, ◌||◌, List, [], ◌∷◌, String, str_eq, arith, eq_iff, All,
  Bool-cases, inl, inr,
}
use shanghai_home_radar.Collector.Repository.{any}
use shanghai_home_radar.Collector.Rows.{Distinct}
use shanghai_home_radar.Keyed.{same_key, note, note_each, covers}

str_eq_refl : (s : String) → str_eq s s ≡ true
str_eq_refl s = (eq_iff s s).1 refl

-- Texts that equal a third compare alike.
str_eq_same : (s t u : String) → str_eq s t ≡ true → str_eq s u ≡ str_eq t u
str_eq_same s t u h = ap (λ x. str_eq x u) ((eq_iff s t).0 h)

str_eq_same_right : (s t u : String) → str_eq s t ≡ true → str_eq u s ≡ str_eq u t
str_eq_same_right s t u h = ap (λ x. str_eq u x) ((eq_iff s t).0 h)

pub str_eq_symm : (s t : String) → str_eq s t ≡ str_eq t s
str_eq_symm s t = ground (arith, eq_iff s t, eq_iff t s)

pub All-map {ℓ κ ι} :
    {A : Type ℓ} {P : A → Type κ} {Q : A → Type ι}
    → ((x : A) → P x → Q x)
    → (xs : List A) → All P xs
    → All Q xs
All-map k [] h = tt
All-map k (x ∷ xs) h = (k x h.0, All-map k xs h.1)

pub All-Mem_self {ℓ} : {A : Type ℓ} (l : List A) → All (λ x. Mem x l) l
All-Mem_self [] = tt
All-Mem_self (x ∷ xs) = (mem-cons_self, All-map (λ y m. mem-cons_of_mem x m) xs (All-Mem_self xs))

module _ {A : Type 0} (key : A → String) (newer : A → A → Bool)
    (irrefl : (x : A) → newer x x ≡ false)
    (newer_trans : (x e r : A) → newer x e ≡ false → newer r e ≡ true → newer x r ≡ false) where
  covers-note_self : (r : A) (d : List A) → covers key newer r (note key newer r d) ≡ true
  unfolding note
  covers-note_self r [] = ground (arith, irrefl r, str_eq_refl (key r))
  covers-note_self r (e ∷ d) = ground (arith, irrefl r, str_eq_refl (key r), covers-note_self r d)

  covers-note :
      (x r : A) (d : List A)
      → covers key newer x d ≡ true
      → covers key newer x (note key newer r d) ≡ true
  unfolding note
  covers-note x r [] h = ground (arith, h)
  covers-note x r (e ∷ d) h = elim (Bool-cases (same_key key newer r e)) [
    | inr other ↦ ground (arith, other, h, covers-note x r d)
    | inl same ↦ elim (Bool-cases (newer r e)) [
      | inr older ↦ ground (arith, same, older, h)
      | inl fresh ↦ elim (Bool-cases (newer x e)) [
        | inl past ↦ ground (arith, same, fresh, past, h)
        | inr beside ↦ ground (
          arith,
          same,
          fresh,
          beside,
          h,
          str_eq_same_right (key r) (key e) (key x) same,
          newer_trans x e r beside fresh,
        )
      ]
    ]
  ]

  -- Which entities are there.
  any-note :
      (x r : A) (d : List A)
      → any (same_key key newer x) (note key newer r d)
        ≡ (same_key key newer x r || any (same_key key newer x) d)
  unfolding note
  any-note x r [] = refl
  any-note x r (e ∷ d) = elim (Bool-cases (same_key key newer r e)) [
    | inr other ↦ ground (arith, other, any-note x r d)
    | inl same ↦ elim (Bool-cases (newer r e)) [
      | inl fresh ↦ ground (arith, same, fresh, str_eq_same_right (key r) (key e) (key x) same)
      | inr older ↦ ground (arith, same, older, str_eq_same_right (key r) (key e) (key x) same)
    ]
  ]

  any-same_key :
      (r e : A) (d : List A)
      → same_key key newer r e ≡ true
      → any (same_key key newer r) d ≡ any (same_key key newer e) d
  any-same_key r e [] h = refl
  any-same_key r e (x ∷ d) h =
      ground (arith, any-same_key r e d h, str_eq_same (key r) (key e) (key x) h)

  note-Distinct :
      (r : A) (d : List A)
      → Distinct (same_key key newer) d
      → Distinct (same_key key newer) (note key newer r d)
  unfolding note
  note-Distinct r [] h = (refl, tt)
  note-Distinct r (e ∷ d) h = elim (Bool-cases (same_key key newer r e)) [
    | inr other ↦ rw other (
      any-note e r d ∙ ground (arith, other, h.0, str_eq_symm (key e) (key r)),
      note-Distinct r d h.1,
    )
    | inl same ↦ elim (Bool-cases (newer r e)) [
      | inl fresh ↦ rw (same, fresh) (any-same_key r e d same ∙ h.0, h.1)
      | inr older ↦ rw (same, older) h
    ]
  ]

  note-All {κ} : (P : A → Type κ) (r : A) (d : List A) → P r → All P d → All P (note key newer r d)
  unfolding note
  note-All P r [] p h = (p, tt)
  note-All P r (e ∷ d) p h = elim (Bool-cases (same_key key newer r e)) [
    | inr other ↦ rw other (h.0, note-All P r d p h.1)
    | inl same ↦ elim (Bool-cases (newer r e)) [
      | inl fresh ↦ rw (same, fresh) (p, h.1)
      | inr older ↦ rw (same, older) h
    ]
  ]

  pub note_each-Distinct :
      (d rs : List A)
      → Distinct (same_key key newer) d
      → Distinct (same_key key newer) (note_each key newer d rs)
  note_each-Distinct d [] h = h
  note_each-Distinct d (r ∷ rs) h = note_each-Distinct (note key newer r d) rs (note-Distinct r d h)

  pub note_each-All {κ} :
      (P : A → Type κ) (d rs : List A) → All P rs → All P d → All P (note_each key newer d rs)
  note_each-All P d [] h k = k
  note_each-All P d (r ∷ rs) h k =
      note_each-All P (note key newer r d) rs h.1 (note-All P r d h.0 k)

  covers-note_each :
      (x : A) (d rs : List A)
      → covers key newer x d ≡ true
      → covers key newer x (note_each key newer d rs) ≡ true
  covers-note_each x d [] h = h
  covers-note_each x d (r ∷ rs) h = covers-note_each x (note key newer r d) rs (covers-note x r d h)

  pub covered : (d rs : List A) → All (λ x. covers key newer x (note_each key newer d rs) ≡ true) rs
  covered d [] = tt
  covered d (r ∷ rs) = (
    covers-note_each r (note key newer r d) rs (covers-note_self r d),
    covered (note key newer r d) rs,
  )
