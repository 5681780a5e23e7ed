-- ===== src/Arithmetic.antt =====
-- Python's `decimal` module, which rounds every result to 28 digits: what the valuation does with a
-- `Decimal` is an argument, with the laws that correct rounding gives. The values are numbers, not
-- their representations, of at most 28 digits, without NaN; a result that does not fit is left out.
pub mod Order
pub mod Sums
pub mod Exact
pub mod Fixed
use shanghai_home_radar.Prelude.{
  ℕ, ℤ, ◌+◌, ◌*◌, ◌-◌, ◌^◌, ◌≤◌, ◌≡◌, pos, Bool, true, false, not, ◌&&◌, List, [], ◌∷◌, Decimal,
  whole, leb_ℤ, if◌then◌else◌,
}

-- `lit n` is the decimal with n millionths; `quantize k` rounds to k digits behind the point, a half
-- away from zero.
pub record Arithmetic (D : Type 0) : Type 0 where
  pub lit : Decimal → D
  pub add : D → D → D
  pub sub : D → D → D
  pub mul : D → D → D
  pub div : D → D → D
  pub minus : D → D
  pub absolute : D → D
  pub leb : D → D → Bool
  pub quantize : ℕ → D → D

module _ {D : Type 0} ⦃a : Arithmetic D⦄ where
  infixl 65 ◌⊕◌ ◌⊖◌
  infixl 70 ◌⊗◌ ◌⊘◌
  infix 50 ◌≼◌ ◌≺◌ ◌≈◌
  abbrev pub ◌⊕◌ : D → D → D
  x ⊕ y = a.add x y

  abbrev pub ◌⊖◌ : D → D → D
  x ⊖ y = a.sub x y

  abbrev pub ◌⊗◌ : D → D → D
  x ⊗ y = a.mul x y

  abbrev pub ◌⊘◌ : D → D → D
  x ⊘ y = a.div x y

  -- `x <= y`, `x < y` and `x == y`
  abbrev pub ◌≼◌ : D → D → Bool
  x ≼ y = a.leb x y

  abbrev pub ◌≺◌ : D → D → Bool
  x ≺ y = not (a.leb y x)

  abbrev pub ◌≈◌ : D → D → Bool
  x ≈ y = a.leb x y && a.leb y x

  abbrev pub lit : Decimal → D
  lit n = a.lit n

  -- `Decimal(n)`
  abbrev pub int : ℕ → D
  int n = a.lit (whole n)

  abbrev pub nought : D
  nought = a.lit (pos 0)

  abbrev pub one : D
  one = a.lit (pos 1000000)

  abbrev pub hundred : D
  hundred = a.lit (pos 100000000)

  abbrev pub quantize : ℕ → D → D
  quantize k x = a.quantize k x

  -- `min(x, y)` and `max(x, y)`: the first where they tie.
  unfoldable pub least : D → D → D
  least x y = if y ≺ x then y else x

  unfoldable pub greatest : D → D → D
  greatest x y = if x ≺ y then y else x

  -- `sum(xs, start)`
  unfoldable pub sum_from : D → List D → D
  sum_from x [] = x
  sum_from x (y ∷ ys) = sum_from (x ⊕ y) ys

  abbrev pub sum : List D → D
  sum = sum_from nought

-- A positive number of millionths that has at most 28 digits.
abbrev pub Fits : ℕ → Type 0
Fits n = n ≤ 10 ^ 27

-- Rounding to the nearest is monotone, and a result that fits is not rounded.
pub record IsRounded (D : Type 0) ⦃a : Arithmetic D⦄ : Type 0 where
  pub total : (x y : D) → a.leb x y ≡ false → a.leb y x ≡ true
  pub trans : (x y z : D) → a.leb x y ≡ true → a.leb y z ≡ true → a.leb x z ≡ true
  pub lit_leb : (m n : Decimal) → a.leb (a.lit m) (a.lit n) ≡ leb_ℤ m n
  pub lit_add :
      (m n : ℕ) → Fits (m + n) → a.add (a.lit (pos m)) (a.lit (pos n)) ≡ a.lit (pos (m + n))
  pub add_mono : (x y z : D) → a.leb x y ≡ true → a.leb (a.add x z) (a.add y z) ≡ true
  pub add_comm : (x y : D) → a.add x y ≡ a.add y x
  pub nought-add : (x : D) → a.add (a.lit (pos 0)) x ≡ x
  pub sub_anti : (x y z : D) → a.leb x y ≡ true → a.leb (a.sub z y) (a.sub z x) ≡ true
  pub sub_self : (x : D) → a.sub x x ≡ a.lit (pos 0)
  pub sub-nought : (x : D) → a.sub x (a.lit (pos 0)) ≡ x
  pub mul_mono :
      (x y z : D)
      → a.leb x y ≡ true
      → a.leb (a.lit (pos 0)) z ≡ true
      → a.leb (a.mul x z) (a.mul y z) ≡ true
  pub mul_comm : (x y : D) → a.mul x y ≡ a.mul y x
  pub one-mul : (x : D) → a.mul (a.lit (pos 1000000)) x ≡ x
  pub nought-mul : (x : D) → a.mul (a.lit (pos 0)) x ≡ a.lit (pos 0)
  pub div_mono :
      (x y z : D)
      → a.leb x y ≡ true
      → a.leb z (a.lit (pos 0)) ≡ false
      → a.leb (a.div x z) (a.div y z) ≡ true
  pub nought-div :
      (x : D) → a.leb x (a.lit (pos 0)) ≡ false → a.div (a.lit (pos 0)) x ≡ a.lit (pos 0)
  pub div_self : (x : D) → a.leb x (a.lit (pos 0)) ≡ false → a.div x x ≡ a.lit (pos 1000000)
  pub minus_nonpos :
      (x : D) → a.leb (a.lit (pos 0)) x ≡ true → a.leb (a.minus x) (a.lit (pos 0)) ≡ true
  pub add_minus : (x y : D) → a.add x (a.minus y) ≡ a.sub x y
  pub absolute_nonneg : (x : D) → a.leb (a.lit (pos 0)) (a.absolute x) ≡ true
  pub quantize_mono :
      (k : ℕ) (x y : D) → a.leb x y ≡ true → a.leb (a.quantize k x) (a.quantize k y) ≡ true
  pub quantize_lit :
      (n : ℕ) → Fits (n * 10000) → a.quantize 2 (a.lit (pos (n * 10000))) ≡ a.lit (pos (n * 10000))
  pub quantize_one : (k : ℕ) → k ≤ 6 → a.quantize k (a.lit (pos 1000000)) ≡ a.lit (pos 1000000)
  pub quantize_nought : (k : ℕ) → k ≤ 6 → a.quantize k (a.lit (pos 0)) ≡ a.lit (pos 0)
