-- ===== src/Valuation/Adjustments/Limits.antt =====
-- services/valuation/src/home_radar_valuation/adjustments.py: how far an adjustment can move a price.
use mathlib.Core.Path.{subst}
use shanghai_home_radar.Prelude.{◌≡◌, refl, pos, true, List, String, arith, ok, map, leb_ℤ, whole}
use shanghai_home_radar.Arithmetic.{
  Arithmetic, IsRounded, ◌≼◌, ◌⊕◌, ◌⊖◌, ◌⊗◌, lit, nought, one, quantize, greatest, sum,
}
use shanghai_home_radar.Arithmetic.Order.{
  le-least, least-le_right, greatest-ge_right, mul_mono_right, mul-nonneg, quantize-nonneg,
  sub-nonneg,
}
use shanghai_home_radar.Valuation.Domain.{
  TargetProperty, SelectedComparable, AdjustedComparable, TextTools,
}
use shanghai_home_radar.Valuation.Config.{AdjustmentConfig}
use shanghai_home_radar.Valuation.Config.Accepted.{accepts_adjustments}
use shanghai_home_radar.Valuation.Adjustments.{
  bounded_rate, adjustment_rates, adjusted_by, adjust_comparable,
}

accepted_maximum :
    (c : AdjustmentConfig)
    → accepts_adjustments c ≡ true
    → (leb_ℤ (pos 0) c.maximum_absolute_total_rate ≡ true)
      × (leb_ℤ c.maximum_absolute_total_rate (whole 1) ≡ true)
unfolding accepts_adjustments
accepted_maximum c h = ground (arith, h)

module _ {D : Type 0} ⦃a : Arithmetic D⦄ where
  -- The rate lies within the maximum on both sides, the price for a square metre within the prices that these
  -- give, and no price is negative.
  pub record IsLimited (maximum unit_price : D) (v : AdjustedComparable D) : Type 0 where
    pub rate_low : (quantize 6 (a.minus maximum) ≼ v.total_adjustment_rate) ≡ true
    pub rate_high : (v.total_adjustment_rate ≼ quantize 6 maximum) ≡ true
    pub unit_low : (quantize 2 (unit_price ⊗ (one ⊖ maximum)) ≼ v.adjusted_unit_price) ≡ true
    pub unit_high : (v.adjusted_unit_price ≼ quantize 2 (unit_price ⊗ (one ⊕ maximum))) ≡ true
    pub unit_nonneg : (nought ≼ v.adjusted_unit_price) ≡ true
    pub value_nonneg : (nought ≼ v.adjusted_value) ≡ true

module _ {D : Type 0} ⦃a : Arithmetic D⦄ (r : IsRounded D) where
  bounded_rate-le : (x m : D) → (bounded_rate x m ≼ m) ≡ true
  unfolding bounded_rate
  bounded_rate-le x m = least-le_right r (greatest x (a.minus m)) m

  bounded_rate-ge : (x m : D) → (nought ≼ m) ≡ true → (a.minus m ≼ bounded_rate x m) ≡ true
  unfolding bounded_rate
  bounded_rate-ge x m h =
      le-least r (a.minus m) (greatest x (a.minus m)) m (greatest-ge_right r x (a.minus m))
        (r.trans (a.minus m) nought m (r.minus_nonpos m h) h)

  add_mono_right : (x y z : D) → (x ≼ y) ≡ true → ((z ⊕ x) ≼ (z ⊕ y)) ≡ true
  add_mono_right x y z h = rw (r.add_comm z x, r.add_comm z y) (r.add_mono x y z h)

  adjusted_by-IsLimited :
      (target : TargetProperty D) (comparable : SelectedComparable D) (config : AdjustmentConfig)
      (rates : List (String × D))
      → accepts_adjustments config ≡ true
      → (nought ≼ comparable.record_of.unit_price) ≡ true
      → (nought ≼ target.area_sqm) ≡ true
      → IsLimited
          (lit config.maximum_absolute_total_rate)
          comparable.record_of.unit_price
          (adjusted_by target comparable config rates)
  unfolding adjusted_by
  adjusted_by-IsLimited target comparable config rates accepted p s =
      let (low, high) = accepted_maximum config accepted in
      let m = a.lit config.maximum_absolute_total_rate in
      let unit = comparable.record_of.unit_price in
      let m_nonneg : a.leb nought m ≡ true =
        rw (r.lit_leb (pos 0) config.maximum_absolute_total_rate) low in
      let total = sum (map (λ (e : String × D). e.1) rates) in
      let rate = bounded_rate total m in
      let unit_low = r.quantize_mono 2 (unit ⊗ (one ⊖ m)) (unit ⊗ (one ⊕ rate)) (
        mul_mono_right r (one ⊖ m) (one ⊕ rate) unit
          (subst (λ z. (z ≼ (one ⊕ rate)) ≡ true) (r.add_minus one m)
            (add_mono_right (a.minus m) rate one (bounded_rate-ge total m m_nonneg)))
          p) in
      let unit_nonneg =
        r.trans nought (quantize 2 (unit ⊗ (one ⊖ m))) _
          (quantize-nonneg r 2 (unit ⊗ (one ⊖ m)) (omega arith) (
            mul-nonneg r unit (one ⊖ m) p (
              sub-nonneg r one m
                (rw (r.lit_leb config.maximum_absolute_total_rate (pos 1000000)) high))))
          unit_low in
      record {
        rate_low = r.quantize_mono 6 (a.minus m) rate (bounded_rate-ge total m m_nonneg);
        rate_high = r.quantize_mono 6 rate m (bounded_rate-le total m);
        unit_low = unit_low;
        unit_high = r.quantize_mono 2 (unit ⊗ (one ⊕ rate)) (unit ⊗ (one ⊕ m)) (
            mul_mono_right r (one ⊕ rate) (one ⊕ m) unit
              (add_mono_right rate m one (bounded_rate-le total m)) p);
        unit_nonneg = unit_nonneg;
        value_nonneg =
            quantize-nonneg r 2 _ (omega arith)
              (mul-nonneg r (quantize 2 (unit ⊗ (one ⊕ rate))) target.area_sqm unit_nonneg s);
      }

  -- If the rates of all classes are found, the configuration is accepted and neither the price nor the area is
  -- negative, then the adjustment returns: its rate and its price for a square metre lie within the maximum
  -- of the configuration, and no price is negative.
  pub adjust_comparable-IsLimited :
      (tools : TextTools) (target : TargetProperty D) (comparable : SelectedComparable D)
      (config : AdjustmentConfig) (rates : List (String × D))
      → adjustment_rates tools target comparable.record_of config ≡ ok rates
      → accepts_adjustments config ≡ true
      → (nought ≼ comparable.record_of.unit_price) ≡ true
      → (nought ≼ target.area_sqm) ≡ true
      → (v : AdjustedComparable D) × (adjust_comparable tools target comparable config ≡ ok v)
        × IsLimited (lit config.maximum_absolute_total_rate) comparable.record_of.unit_price v
  unfolding adjust_comparable
  adjust_comparable-IsLimited tools target comparable config rates e accepted p s = (
    adjusted_by target comparable config rates,
    rw e refl,
    adjusted_by-IsLimited target comparable config rates accepted p s,
  )
