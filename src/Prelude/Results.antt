-- ===== src/Prelude/Results.antt =====
-- Python's exceptions as values, dictionaries with text keys, and texts that are put together from
-- pieces.
use Prim.Native.String.{compare as compare_text}
use text.Mathlib.Text.{is_le}
use shanghai_home_radar.Prelude.Tests.{Bool-cases, str_eq, if◌then◌else◌}
use shanghai_home_radar.Prelude.Lists.{contains}
use shanghai_home_radar.Prelude.Decimals.{ℤ, Decimal}
use Prim.Native.Nat.{ℕ, ◌+◌, ◌*◌, ◌/◌, ◌%◌, compare, Ordering}
use Prim.Native.String.{String}
use mathlib.Core.Path.{◌≡◌, refl}
use mathlib.Core.Logic.{◌⊎◌, inl, inr}
use mathlib.Core.Bool.{Bool, true, false}
use mathlib.Core.Option.{Option, none, some}
use mathlib.Core.List.{List, [], ◌∷◌}

-- The exception's class and what it says.
pub data Error : Type 0 where
  value_error key_error lookup_error identity_error assertion_error overflow_error
        arithmetic_error :
      String → Error

pub data Result {ℓ} (A : Type ℓ) : Type ℓ where
  ok : A → Result A
  err : Error → Result A

-- A step that raises ends the block.
module _ {ℓ κ} {A : Type ℓ} {B : Type κ} where
  infixl 5 ◌>>=◌
  abbrev pub ◌>>=◌ : Result A → (A → Result B) → Result B
  ◌>>=◌ step rest = elim step [ ok value ↦ rest value | err raised ↦ err raised ]

module _ {ℓ} {B : Type ℓ} where
  infixl 5 ◌>>◌
  abbrev pub ◌>>◌ : Result (Unit {0}) → Result B → Result B
  ◌>>◌ step rest = elim step [ ok _ ↦ rest | err raised ↦ err raised ]

-- `if test: raise e`
abbrev pub raise_if : Bool → Error → Result (Unit {0})
raise_if test e = if test then err e else ok tt

pub Result-cases {ℓ} :
    {A : Type ℓ} (r : Result A) → ((a : A) × (r ≡ ok a)) ⊎ ((e : Error) × (r ≡ err e))
Result-cases (ok a) = inl (a, refl)
Result-cases (err e) = inr (e, refl)

-- A dictionary, as its entries; `d.get(k)`.
abbrev pub lookup {ℓ} : {V : Type ℓ} → String → List (String × V) → Option V
lookup k [] = none
lookup k ((j, v) ∷ d) = if str_eq k j then some v else lookup k d

abbrev pub keys {ℓ} : {V : Type ℓ} → List (String × V) → List String
keys [] = []
keys ((k, v) ∷ d) = k ∷ keys d

-- `d[k]`
abbrev pub item {ℓ} : {V : Type ℓ} → List (String × V) → String → Result V
item d k = elim (lookup k d) [ none ↦ err (key_error k) | some v ↦ ok v ]

pub lookup-contains {ℓ} :
    {V : Type ℓ} (k : String) (d : List (String × V))
    → contains k (keys d) ≡ true
    → (v : V) × (lookup k d ≡ some v)
lookup-contains k [] h = cc
lookup-contains k ((j, v) ∷ d) h = elim (Bool-cases (str_eq k j)) [
  | inl e ↦ (v, rw e)
  | inr e ↦ rw e (lookup-contains k d (rw e at h))
]

-- `dict.fromkeys`: the first occurrence of each text, in order. `seen` is what came before.
abbrev pub dedupe_from : List String → List String → List String
dedupe_from seen [] = []
dedupe_from seen (x ∷ xs) = elim (contains x seen) [
  | true ↦ dedupe_from seen xs
  | false ↦ x ∷ dedupe_from (x ∷ seen) xs
]

abbrev pub dedupe : List String → List String
dedupe = dedupe_from []

-- The order of texts by code points.
abbrev pub text_leb : String → String → Bool
text_leb s t = is_le (compare_text s t)

-- A text that is put together from pieces: `printed d` is `str(d)`, `tenths n` is a decimal of one
-- digit behind the point.
pub data Piece : Type 0 where
  literal : String → Piece
  printed : Decimal → Piece
  tenths : ℤ → Piece

-- n / d rounded to the nearest whole number, a tie to the even one.
abbrev pub half_even : ℕ → ℕ → ℕ
half_even n d = elim (compare (2 * (n % d)) d) [
  | Ordering.lt ↦ n / d
  | Ordering.eq ↦ n / d + n / d % 2
  | Ordering.gt ↦ n / d + 1
]

-- n / d rounded to the nearest whole number, a tie upwards.
abbrev pub half_up : ℕ → ℕ → ℕ
half_up n d = (2 * n + d) / (2 * d)

-- `P` holds of the result, if there is one.
abbrev pub OnOk {ℓ κ} : {A : Type ℓ} → (A → Type κ) → Result A → Type κ
OnOk P (ok a) = P a
OnOk P (err e) = Unit

-- The property that the first step gives is what the rest may use.
pub OnOk-then {ℓ κ ι} :
    {A : Type ℓ} {B : Type ι} (P : A → Type κ) (Q : B → Type κ) (r : Result A) (f : A → Result B)
    → OnOk P r
    → ((a : A) → P a → OnOk Q (f a))
    → OnOk Q (r >>= f)
OnOk-then P Q (ok a) f h k = k a h
OnOk-then P Q (err e) f h k = tt

pub OnOk-ok {ℓ κ} : {A : Type ℓ} (P : A → Type κ) (r : Result A) (a : A) → OnOk P r → r ≡ ok a → P a
OnOk-ok P r a h e = rw e at h

pub OnOk-map {ℓ κ ι} :
    {A : Type ℓ} (P : A → Type κ) (Q : A → Type ι) (r : Result A)
    → ((a : A) → P a → Q a)
    → OnOk P r
    → OnOk Q r
OnOk-map P Q (ok a) k h = k a h
OnOk-map P Q (err e) k h = tt

pub OnOk-trivial {ℓ} : {A : Type ℓ} (r : Result A) → OnOk (λ _. Unit {0}) r
OnOk-trivial (ok a) = tt
OnOk-trivial (err e) = tt

-- There is a result, and `P` holds of it.
abbrev pub Returns {ℓ} : {A : Type ℓ} → (A → Type 0) → Result A → Type 0
Returns P (ok a) = P a
Returns P (err e) = ⊥

pub Returns-then {ℓ ι} :
    {A : Type ℓ} {B : Type ι} (P : A → Type 0) (Q : B → Type 0) (r : Result A) (f : A → Result B)
    → Returns P r
    → ((a : A) → P a → Returns Q (f a))
    → Returns Q (r >>= f)
Returns-then P Q (ok a) f h k = k a h
Returns-then P Q (err e) f h k = absurd h

pub Returns-OnOk {ℓ κ} :
    {A : Type ℓ} (P : A → Type κ) (Q : A → Type 0) (r : Result A)
    → OnOk P r
    → Returns Q r
    → (a : A) × (r ≡ ok a) × P a
Returns-OnOk P Q (ok a) h k = (a, refl, h)
Returns-OnOk P Q (err e) h k = absurd k

pub item-Returns {ℓ} :
    {V : Type ℓ} (d : List (String × V)) (k : String)
    → contains k (keys d) ≡ true
    → Returns (λ _. Unit {0}) (item d k)
item-Returns d k h = let (v, e) = lookup-contains k d h in rw (Returns, e) tt

pub Returns-value {ℓ} :
    {A : Type ℓ} (P : A → Type 0) (r : Result A) → Returns P r → (a : A) × (r ≡ ok a) × P a
Returns-value P (ok a) h = (a, refl, h)
Returns-value P (err e) h = absurd h
