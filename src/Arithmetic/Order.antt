-- ===== src/Arithmetic/Order.antt =====
-- What the order gives: the smaller and the larger of two numbers, and bounds on results.
use shanghai_home_radar.Prelude.{ℕ, ◌≤◌, ◌≡◌, pos, true, false, inl, inr, Bool-cases, refl, arith}
use mathlib.Core.Path.{subst}
use shanghai_home_radar.Arithmetic.{
  Arithmetic, IsRounded, ◌≼◌, ◌≺◌, ◌⊗◌, ◌⊘◌, ◌⊖◌, ◌⊕◌, nought, one, hundred, least, greatest,
  quantize,
}

module _ {D : Type 0} ⦃a : Arithmetic D⦄ (r : IsRounded D) where
  pub ≼_refl : (x : D) → (x ≼ x) ≡ true
  ≼_refl x = elim (Bool-cases (x ≼ x)) [ inl e ↦ e | inr e ↦ r.total x x e ]

  pub ≼_trans : (x y z : D) → (x ≼ y) ≡ true → (y ≼ z) ≡ true → (x ≼ z) ≡ true
  ≼_trans = r.trans

  pub least-le_left : (x y : D) → (least x y ≼ x) ≡ true
  unfolding least
  least-le_left x y = elim (Bool-cases (x ≼ y)) [
    | inl e ↦ rw e (≼_refl x)
    | inr e ↦ rw e (r.total x y e)
  ]

  pub least-le_right : (x y : D) → (least x y ≼ y) ≡ true
  unfolding least
  least-le_right x y = elim (Bool-cases (x ≼ y)) [ inl e ↦ rw e e | inr e ↦ rw e (≼_refl y) ]

  pub greatest-ge_left : (x y : D) → (x ≼ greatest x y) ≡ true
  unfolding greatest
  greatest-ge_left x y = elim (Bool-cases (y ≼ x)) [
    | inl e ↦ rw e (≼_refl x)
    | inr e ↦ rw e (r.total y x e)
  ]

  pub greatest-ge_right : (x y : D) → (y ≼ greatest x y) ≡ true
  unfolding greatest
  greatest-ge_right x y = elim (Bool-cases (y ≼ x)) [ inl e ↦ rw e e | inr e ↦ rw e (≼_refl y) ]

  -- A bound of both is a bound of either.
  pub le-least : (z x y : D) → (z ≼ x) ≡ true → (z ≼ y) ≡ true → (z ≼ least x y) ≡ true
  unfolding least
  le-least z x y h k = elim (Bool-cases (x ≼ y)) [ inl e ↦ rw e h | inr e ↦ rw e k ]

  pub greatest-le : (x y z : D) → (x ≼ z) ≡ true → (y ≼ z) ≡ true → (greatest x y ≼ z) ≡ true
  unfolding greatest
  greatest-le x y z h k = elim (Bool-cases (y ≼ x)) [ inl e ↦ rw e h | inr e ↦ rw e k ]

  pub ≺-le : (x y : D) → (x ≺ y) ≡ true → (x ≼ y) ≡ true
  ≺-le x y h = r.total y x (ground (arith, h))

  pub one-nonneg : a.leb nought one ≡ true
  one-nonneg = rw (r.lit_leb (pos 0) (pos 1000000)) refl

  pub one-pos : a.leb one nought ≡ false
  one-pos = rw (r.lit_leb (pos 1000000) (pos 0)) refl

  pub hundred-pos : a.leb hundred nought ≡ false
  hundred-pos = rw (r.lit_leb (pos 100000000) (pos 0)) refl

  pub mul-nonneg : (x y : D) → (nought ≼ x) ≡ true → (nought ≼ y) ≡ true → (nought ≼ (x ⊗ y)) ≡ true
  mul-nonneg x y h k =
      subst (λ z. (z ≼ (x ⊗ y)) ≡ true) (r.nought-mul y) (r.mul_mono nought x y h k)

  -- A share of a number that is not negative is at most that number.
  pub mul-le_right : (x y : D) → (x ≼ one) ≡ true → (nought ≼ y) ≡ true → ((x ⊗ y) ≼ y) ≡ true
  mul-le_right x y h k = subst (λ z. ((x ⊗ y) ≼ z) ≡ true) (r.one-mul y) (r.mul_mono x one y h k)

  pub mul_mono_right :
      (x y z : D) → (x ≼ y) ≡ true → (nought ≼ z) ≡ true → ((z ⊗ x) ≼ (z ⊗ y)) ≡ true
  mul_mono_right x y z h k = rw (r.mul_comm z x, r.mul_comm z y) (r.mul_mono x y z h k)

  pub div-nonneg :
      (x y : D) → (nought ≼ x) ≡ true → (y ≼ nought) ≡ false → (nought ≼ (x ⊘ y)) ≡ true
  div-nonneg x y h k =
      subst (λ z. (z ≼ (x ⊘ y)) ≡ true) (r.nought-div y k) (r.div_mono nought x y h k)

  pub div-le_one : (x y : D) → (x ≼ y) ≡ true → (y ≼ nought) ≡ false → ((x ⊘ y) ≼ one) ≡ true
  div-le_one x y h k = subst (λ z. ((x ⊘ y) ≼ z) ≡ true) (r.div_self y k) (r.div_mono x y y h k)

  -- What is left of one is at most one.
  pub sub-le : (x y : D) → (nought ≼ y) ≡ true → ((x ⊖ y) ≼ x) ≡ true
  sub-le x y h = subst (λ z. ((x ⊖ y) ≼ z) ≡ true) (r.sub-nought x) (r.sub_anti nought y x h)

  pub sub-nonneg : (x y : D) → (y ≼ x) ≡ true → (nought ≼ (x ⊖ y)) ≡ true
  sub-nonneg x y h = subst (λ z. (z ≼ (x ⊖ y)) ≡ true) (r.sub_self x) (r.sub_anti y x x h)

  pub add_mono_both : (x y z w : D) → (x ≼ y) ≡ true → (z ≼ w) ≡ true → ((x ⊕ z) ≼ (y ⊕ w)) ≡ true
  add_mono_both x y z w h k =
      r.trans (x ⊕ z) (y ⊕ z) (y ⊕ w) (r.add_mono x y z h)
        (rw (r.add_comm y z, r.add_comm y w) (r.add_mono z w y k))

  pub add-nonneg : (x y : D) → (nought ≼ x) ≡ true → (nought ≼ y) ≡ true → (nought ≼ (x ⊕ y)) ≡ true
  add-nonneg x y h k =
      subst (λ z. (z ≼ (x ⊕ y)) ≡ true) (r.nought-add nought) (add_mono_both nought x nought y h k)

  pub quantize-nonneg :
      (k : ℕ) (x : D) → k ≤ 6 → (nought ≼ x) ≡ true → (nought ≼ quantize k x) ≡ true
  quantize-nonneg k x s h =
      subst (λ z. (z ≼ quantize k x) ≡ true) (r.quantize_nought k s) (r.quantize_mono k nought x h)

  pub quantize-le_one : (k : ℕ) (x : D) → k ≤ 6 → (x ≼ one) ≡ true → (quantize k x ≼ one) ≡ true
  quantize-le_one k x s h =
      subst (λ z. (quantize k x ≼ z) ≡ true) (r.quantize_one k s) (r.quantize_mono k x one h)
