-- ===== src/Decision/Gate.antt =====
-- services/decision/src/home_radar_decision/p56_metrics.py and p56_config.py: the gate of the
-- validation on real listings. `gate_recommendation` reads seven of the metrics.
pub mod Verdicts
use shanghai_home_radar.Prelude.{
  ℕ, Bool, false, not, ◌&&◌, ◌||◌, Option, none, some, List, String, Decimal, pos, Result, ok, err,
  value_error, raise_if, ◌>>◌, leb, ltb, leb_ℤ, ltb_ℤ, ◌==◌, if◌then◌else◌, half_up, length, dedupe,
  ◌*◌,
}

pub record ValidationDatasetConfig : Type 0 where
  pub target_sample_size : ℕ
  pub minimum_sample_size : ℕ
  pub maximum_sample_size : ℕ
  pub minimum_price_rmb : Decimal
  pub maximum_price_rmb : Decimal
  pub required_geography_buckets : List String
  pub minimum_distinct_archetypes : ℕ
  pub maximum_single_archetype_share : Decimal

-- `ValidationDatasetConfig.validate_ranges`
unfoldable pub validate_ranges : ValidationDatasetConfig → Result (Unit {0})
validate_ranges c = do
  raise_if
      (not (
        leb c.minimum_sample_size c.target_sample_size
        && leb c.target_sample_size c.maximum_sample_size))
      (value_error "target sample size must be within the configured range")
  raise_if (leb_ℤ c.maximum_price_rmb c.minimum_price_rmb)
      (value_error "validation price range is invalid")
  raise_if
      (not (length (dedupe c.required_geography_buckets) == length c.required_geography_buckets))
      (value_error "required geography buckets must be unique")

pub record ValidationGateConfig : Type 0 where
  pub precision_at_5 : Decimal
  pub precision_at_10 : Decimal
  pub human_acceptance_at_10 : Decimal
  pub maximum_value_traps_at_10 : ℕ
  pub human_view_recall : Decimal
  pub maximum_why_ranked_major_contradiction_rate : Decimal
  pub maximum_regret_at_5 : ℕ

-- The metrics that the gate reads; a rate of nothing is absent.
pub record GateMetrics : Type 0 where
  pub precision_at_5 : Option Decimal
  pub precision_at_10 : Option Decimal
  pub human_acceptance_at_10 : Option Decimal
  pub value_traps_at_10 : ℕ
  pub human_view_recall : Option Decimal
  pub why_ranked_major_contradiction_rate : Option Decimal
  pub regret_at_5 : ℕ

-- `_rate`, in millionths: a quotient of four decimals.
unfoldable pub rate : ℕ → ℕ → Option Decimal
rate numerator denominator =
    if denominator == 0 then none else some (pos (half_up (numerator * 10000) denominator * 100))

-- `_gte`
unfoldable pub gte : Option Decimal → Decimal → Bool
gte none expected = false
gte (some actual) expected = leb_ℤ expected actual

-- `_lte`, which the source writes with `<`.
unfoldable pub lte : Option Decimal → Decimal → Bool
lte none expected = false
lte (some actual) expected = ltb_ℤ actual expected

pub record Checks : Type 0 where
  pub precision_at_5 : Bool
  pub precision_at_10 : Bool
  pub human_acceptance_at_10 : Bool
  pub value_traps_at_10 : Bool
  pub human_view_recall : Bool
  pub why_ranked_major_contradiction_rate : Bool
  pub regret_at_5 : Bool

pub data Verdict : Type 0 where
  p6_ready p6_ready_with_limitations p5_calibration_required : Verdict

unfoldable pub gate_checks : GateMetrics → ValidationGateConfig → Checks
unfolding gte lte
gate_checks m c = record {
  precision_at_5 = gte m.precision_at_5 c.precision_at_5;
  precision_at_10 = gte m.precision_at_10 c.precision_at_10;
  human_acceptance_at_10 = gte m.human_acceptance_at_10 c.human_acceptance_at_10;
  value_traps_at_10 = leb m.value_traps_at_10 c.maximum_value_traps_at_10;
  human_view_recall = gte m.human_view_recall c.human_view_recall;
  why_ranked_major_contradiction_rate =
      lte m.why_ranked_major_contradiction_rate c.maximum_why_ranked_major_contradiction_rate;
  regret_at_5 = leb m.regret_at_5 c.maximum_regret_at_5;
}

abbrev pub all_checks : Checks → Bool
all_checks k =
    k.precision_at_5 && k.precision_at_10 && k.human_acceptance_at_10 && k.value_traps_at_10
    && k.human_view_recall && k.why_ranked_major_contradiction_rate && k.regret_at_5

abbrev pub safety_checks : Checks → Bool
safety_checks k = k.value_traps_at_10 && k.why_ranked_major_contradiction_rate && k.regret_at_5

unfoldable pub gate_recommendation : GateMetrics → ValidationGateConfig → Verdict × Checks
unfolding gate_checks
gate_recommendation m c =
    let checks = gate_checks m c in
    if all_checks checks
    then (Verdict.p6_ready, checks)
    else if safety_checks checks
    then (Verdict.p6_ready_with_limitations, checks)
    else (Verdict.p5_calibration_required, checks)
