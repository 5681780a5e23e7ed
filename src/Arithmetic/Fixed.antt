-- ===== src/Arithmetic/Fixed.antt =====
-- The laws can be met: whole millionths, products and quotients cut off behind the sixth digit.
use native.Mathlib.Nat.{
  mul_comm, mul-le-mul_right, le-div_iff_mul-le, div-zero, zero-lt-suc, mul-div_cancel, le_refl,
  le_trans,
}
use shanghai_home_radar.Prelude.{
  ℕ, ℤ, zero, suc, ◌+◌, ◌-◌, ◌*◌, ◌/◌, ◌^◌, ◌≤◌, ◌≡◌, refl, ap, pos, negsuc, true, false, arith,
  leb_ℤ, neg, pos_part, neg_part, sub_ℕ, leb→le,
}
use shanghai_home_radar.Arithmetic.{Arithmetic, IsRounded}

-- A function of the magnitude, with the sign kept.
abbrev pub scale : (ℕ → ℕ) → ℤ → ℤ
scale f (pos n) = pos (f n)
scale f (negsuc n) = neg (pos (f (suc n)))

abbrev times : ℕ → ℕ → ℕ
times k n = n * k / 1000000

abbrev over : ℕ → ℕ → ℕ
over k n = n * 1000000 / k

abbrev nearest : ℕ → ℕ → ℕ
nearest u n = (2 * n + u) / (2 * u) * u

abbrev pub mul_ℤ : ℤ → ℤ → ℤ
mul_ℤ x (pos k) = scale (times k) x
mul_ℤ x (negsuc k) = neg (scale (times (suc k)) x)

abbrev pub div_ℤ : ℤ → ℤ → ℤ
div_ℤ x (pos k) = scale (over k) x
div_ℤ x (negsuc k) = neg (scale (over (suc k)) x)

instance abbrev pub millionths : Arithmetic ℤ
millionths = record {
  lit = λ n. n;
  add = λ x y. sub_ℕ (pos_part x + pos_part y) (neg_part x + neg_part y);
  sub = λ x y. sub_ℕ (pos_part x + neg_part y) (neg_part x + pos_part y);
  mul = mul_ℤ;
  div = div_ℤ;
  minus = neg;
  absolute = λ x. pos (pos_part x + neg_part x);
  leb = leb_ℤ;
  quantize = λ k x. scale (nearest (10 ^ (6 - k))) x;
}

div_le_div : (d m n : ℕ) → m ≤ n → m / d ≤ n / d
div_le_div zero m n h = rw (div-zero m, div-zero n) (omega arith)
div_le_div (suc d) m n h =
    (le-div_iff_mul-le {k = suc d} {x = m / suc d} {y = n} (zero-lt-suc d)).1 (
      le_trans
        ((le-div_iff_mul-le {k = suc d} {x = m / suc d} {y = m} (zero-lt-suc d)).0
          (le_refl (m / suc d)))
        h)

abbrev Monotone : (ℕ → ℕ) → Type 0
Monotone f = (m n : ℕ) → m ≤ n → f m ≤ f n

scale_mono :
    (f : ℕ → ℕ) → Monotone f → (x y : ℤ) → leb_ℤ x y ≡ true → leb_ℤ (scale f x) (scale f y) ≡ true
scale_mono f h (pos m) (pos n) e = ground (arith, h m n, leb→le m n)
scale_mono f h (pos m) (negsuc n) e = ground (arith, e)
scale_mono f h (negsuc m) (pos n) e = ground (arith)
scale_mono f h (negsuc m) (negsuc n) e = ground (arith, h (suc n) (suc m), e)

times_mono : (k : ℕ) → Monotone (times k)
times_mono k m n h = div_le_div 1000000 (m * k) (n * k) (mul-le-mul_right k h)

over_mono : (k : ℕ) → Monotone (over k)
over_mono k m n h = div_le_div k (m * 1000000) (n * 1000000) (omega (arith, h))

nearest_mono : (u : ℕ) → Monotone (nearest u)
nearest_mono u m n h =
    mul-le-mul_right u (div_le_div (2 * u) (2 * m + u) (2 * n + u) (omega (arith, h)))

mul_ℤ_mono :
    (x y z : ℤ) → leb_ℤ x y ≡ true → leb_ℤ (pos 0) z ≡ true → leb_ℤ (mul_ℤ x z) (mul_ℤ y z) ≡ true
mul_ℤ_mono x y (pos k) h p = scale_mono (times k) (times_mono k) x y h
mul_ℤ_mono x y (negsuc k) h p = ground (arith, p)

div_ℤ_mono :
    (x y z : ℤ) → leb_ℤ x y ≡ true → leb_ℤ z (pos 0) ≡ false → leb_ℤ (div_ℤ x z) (div_ℤ y z) ≡ true
div_ℤ_mono x y (pos k) h p = scale_mono (over k) (over_mono k) x y h
div_ℤ_mono x y (negsuc k) h p = ground (arith, p)

mul_ℤ_comm : (x y : ℤ) → mul_ℤ x y ≡ mul_ℤ y x
mul_ℤ_comm (pos m) (pos n) = rw (mul_comm m n) refl
mul_ℤ_comm (pos m) (negsuc n) = rw (mul_comm m (suc n)) refl
mul_ℤ_comm (negsuc m) (pos n) = rw (mul_comm (suc m) n) refl
mul_ℤ_comm (negsuc m) (negsuc n) = rw (mul_comm (suc m) (suc n)) refl

one-mul_ℤ : (x : ℤ) → mul_ℤ (pos 1000000) x ≡ x
one-mul_ℤ (pos n) = ground arith
one-mul_ℤ (negsuc n) = ground arith

nought-div_ℤ : (x : ℤ) → leb_ℤ x (pos 0) ≡ false → div_ℤ (pos 0) x ≡ pos 0
nought-div_ℤ (pos zero) h = ground (arith, h)
nought-div_ℤ (pos (suc k)) h = ground arith
nought-div_ℤ (negsuc k) h = ground (arith, h)

nought-mul_ℤ : (x : ℤ) → mul_ℤ (pos 0) x ≡ pos 0
nought-mul_ℤ (pos k) = ground arith
nought-mul_ℤ (negsuc k) = ground arith

div_ℤ_self : (x : ℤ) → leb_ℤ x (pos 0) ≡ false → div_ℤ x x ≡ pos 1000000
div_ℤ_self (pos zero) h = ground (arith, h)
div_ℤ_self (pos (suc k)) h =
    ap pos (rw (mul_comm (suc k) 1000000) (mul-div_cancel 1000000 {n = suc k} (zero-lt-suc k)))
div_ℤ_self (negsuc k) h = ground (arith, h)

lit_add_ℤ : (m n : ℕ) → sub_ℕ (m + n) 0 ≡ pos (m + n)
lit_add_ℤ m n = ground arith

quantize_lit_ℤ : (n : ℕ) → scale (nearest 10000) (pos (n * 10000)) ≡ pos (n * 10000)
quantize_lit_ℤ n = ground arith

quantize_one_ℤ : (k : ℕ) → k ≤ 6 → scale (nearest (10 ^ (6 - k))) (pos 1000000) ≡ pos 1000000
quantize_one_ℤ zero h = refl
quantize_one_ℤ (suc zero) h = refl
quantize_one_ℤ (suc (suc zero)) h = refl
quantize_one_ℤ (suc (suc (suc zero))) h = refl
quantize_one_ℤ (suc (suc (suc (suc zero)))) h = refl
quantize_one_ℤ (suc (suc (suc (suc (suc zero))))) h = refl
quantize_one_ℤ (suc (suc (suc (suc (suc (suc zero)))))) h = refl
quantize_one_ℤ (suc (suc (suc (suc (suc (suc (suc k))))))) h = absurd (omega (arith, h))

quantize_nought_ℤ : (k : ℕ) → k ≤ 6 → scale (nearest (10 ^ (6 - k))) (pos 0) ≡ pos 0
quantize_nought_ℤ zero h = refl
quantize_nought_ℤ (suc zero) h = refl
quantize_nought_ℤ (suc (suc zero)) h = refl
quantize_nought_ℤ (suc (suc (suc zero))) h = refl
quantize_nought_ℤ (suc (suc (suc (suc zero)))) h = refl
quantize_nought_ℤ (suc (suc (suc (suc (suc zero))))) h = refl
quantize_nought_ℤ (suc (suc (suc (suc (suc (suc zero)))))) h = refl
quantize_nought_ℤ (suc (suc (suc (suc (suc (suc (suc k))))))) h = absurd (omega (arith, h))

pub millionths-IsRounded : IsRounded ℤ
millionths-IsRounded = record {
  total = λ x y h. ground (arith, h);
  trans = λ x y z h k. ground (arith, h, k);
  lit_leb = λ m n. refl;
  lit_add = λ m n h. lit_add_ℤ m n;
  add_mono = λ x y z h. ground (arith, h);
  add_comm = λ x y. ground arith;
  nought-add = λ x. ground arith;
  sub_anti = λ x y z h. ground (arith, h);
  sub_self = λ x. ground arith;
  sub-nought = λ x. ground arith;
  mul_mono = mul_ℤ_mono;
  mul_comm = mul_ℤ_comm;
  one-mul = one-mul_ℤ;
  nought-mul = nought-mul_ℤ;
  div_mono = div_ℤ_mono;
  nought-div = nought-div_ℤ;
  div_self = div_ℤ_self;
  minus_nonpos = λ x h. ground (arith, h);
  add_minus = λ x y. ground arith;
  absolute_nonneg = λ x. ground arith;
  quantize_mono =
      λ k x y h. scale_mono (nearest (10 ^ (6 - k))) (nearest_mono (10 ^ (6 - k))) x y h;
  quantize_lit = λ n h. quantize_lit_ℤ n;
  quantize_one = quantize_one_ℤ;
  quantize_nought = quantize_nought_ℤ;
}
