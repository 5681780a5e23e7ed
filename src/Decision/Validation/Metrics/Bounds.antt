-- ===== src/Decision/Validation/Metrics/Bounds.antt =====
-- The rates are shares.
use native.Mathlib.Nat.{div-lt_iff_lt-mul}
use shanghai_home_radar.Prelude.{
  ℕ, ◌<◌, ◌*◌, ◌≤◌, Option, none, some, Decimal, pos, whole, ◌≤ℤ◌, arith, half_up, Bool-cases, inl,
  inr, ◌==◌,
}
use shanghai_home_radar.Decision.Gate.{rate}

abbrev pub Within : Option Decimal → Type 0
Within none = Unit
Within (some d) = (pos 0 ≤ℤ d) × (d ≤ℤ whole 1)

-- A rate that is there lies between 0 and 1.
pub record IsShare (rate_or_none : Option Decimal) : Type 0 where
  pub within : Within rate_or_none

half_up-le : (n d : ℕ) → 1 ≤ d → n ≤ d → half_up (n * 10000) d ≤ 10000
half_up-le n d one h =
    let small : half_up (n * 10000) d < 10001 =
      (div-lt_iff_lt-mul {k = 2 * d} {y = 10001} (omega (arith, one))).1 (omega (arith, one, h)) in
    omega (arith, small)

rate-Within : (n d : ℕ) → n ≤ d → Within (rate n d)
unfolding rate
rate-Within n d h = elim (Bool-cases (d == 0)) [
  | inl e ↦ rw e tt
  | inr e ↦ rw e (omega arith, omega (arith, half_up-le n d (ground (arith, e)) h))
]

pub rate-IsShare : (n d : ℕ) → n ≤ d → IsShare (rate n d)
rate-IsShare n d h = record { within = rate-Within n d h }
