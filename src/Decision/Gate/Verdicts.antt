-- ===== src/Decision/Gate/Verdicts.antt =====
-- What the verdict of the validation gate means.
use shanghai_home_radar.Prelude.{
  ◌≡◌, refl, ◌≤◌, ◌↔◌, Bool, true, false, Option, none, some, Decimal, arith, ◌≤ℤ◌, ◌<ℤ◌, ◌&&◌,
  if◌then◌else◌,
}
use shanghai_home_radar.Decision.Gate.{
  ValidationGateConfig, GateMetrics, Verdict, Checks, safety_checks, gte, lte, gate_checks,
  gate_recommendation,
}

-- The rate is known and reaches the bound.
abbrev pub Reaches : Option Decimal → Decimal → Type 0
Reaches rate bound = (r : Decimal) × (rate ≡ some r) × (bound ≤ℤ r)

-- The rate is known and below the bound.
abbrev pub StaysBelow : Option Decimal → Decimal → Type 0
StaysBelow rate bound = (r : Decimal) × (rate ≡ some r) × (r <ℤ bound)

pub record IsSafe (m : GateMetrics) (c : ValidationGateConfig) : Type 0 where
  pub traps : m.value_traps_at_10 ≤ c.maximum_value_traps_at_10
  pub contradictions :
      StaysBelow m.why_ranked_major_contradiction_rate c.maximum_why_ranked_major_contradiction_rate
  pub regret : m.regret_at_5 ≤ c.maximum_regret_at_5

pub record IsAccurate (m : GateMetrics) (c : ValidationGateConfig) : Type 0 where
  pub first_five : Reaches m.precision_at_5 c.precision_at_5
  pub first_ten : Reaches m.precision_at_10 c.precision_at_10
  pub acceptance : Reaches m.human_acceptance_at_10 c.human_acceptance_at_10
  pub recall : Reaches m.human_view_recall c.human_view_recall

-- What each verdict stands for, from the two groups of conditions.
abbrev pub Meant : Type 0 → Type 0 → Verdict → Type 0
Meant S A Verdict.p6_ready = S × A
Meant S A Verdict.p6_ready_with_limitations = S × ¬ A
Meant S A Verdict.p5_calibration_required = ¬ S

-- What each verdict stands for.
abbrev pub Means : Verdict → GateMetrics → ValidationGateConfig → Type 0
Means v m c = Meant (IsSafe m c) (IsAccurate m c) v

gte_iff : (o : Option Decimal) (b : Decimal) → (gte o b ≡ true) ↔ Reaches o b
unfolding gte
gte_iff none b = (λ h. ground (arith, h), λ h. ground (arith, h))
gte_iff (some r) b = (λ h. (r, refl, ground (arith, h)), λ h. ground (arith, h))

lte_iff : (o : Option Decimal) (b : Decimal) → (lte o b ≡ true) ↔ StaysBelow o b
unfolding lte
lte_iff none b = (λ h. ground (arith, h), λ h. ground (arith, h))
lte_iff (some r) b = (λ h. (r, refl, ground (arith, h)), λ h. ground (arith, h))

abbrev accurate_checks : Checks → Bool
accurate_checks k =
    k.precision_at_5 && k.precision_at_10 && k.human_acceptance_at_10 && k.human_view_recall

safety_checks_iff :
    (m : GateMetrics) (c : ValidationGateConfig)
    → (safety_checks (gate_checks m c) ≡ true) ↔ IsSafe m c
unfolding gate_checks
safety_checks_iff m c =
    let below =
      lte_iff m.why_ranked_major_contradiction_rate c.maximum_why_ranked_major_contradiction_rate in
    (
      λ h. record {
        traps = ground (arith, h);
        contradictions = below.0 (ground (arith, h));
        regret = ground (arith, h);
      },
      λ h. ground (arith, below.1 h.contradictions, h.traps, h.regret),
    )

accurate_checks_iff :
    (m : GateMetrics) (c : ValidationGateConfig)
    → (accurate_checks (gate_checks m c) ≡ true) ↔ IsAccurate m c
unfolding gate_checks
accurate_checks_iff m c =
    let five = gte_iff m.precision_at_5 c.precision_at_5 in
    let ten = gte_iff m.precision_at_10 c.precision_at_10 in
    let accepted = gte_iff m.human_acceptance_at_10 c.human_acceptance_at_10 in
    let recalled = gte_iff m.human_view_recall c.human_view_recall in
    (
      λ h. record {
        first_five = five.0 (ground (arith, h));
        first_ten = ten.0 (ground (arith, h));
        acceptance = accepted.0 (ground (arith, h));
        recall = recalled.0 (ground (arith, h));
      },
      λ h. ground (
        arith,
        five.1 h.first_five,
        ten.1 h.first_ten,
        accepted.1 h.acceptance,
        recalled.1 h.recall,
      ),
    )

-- The verdict by the two groups of checks.
gate_recommendation-groups :
    (m : GateMetrics) (c : ValidationGateConfig)
    → (gate_recommendation m c).0 ≡ (
        if safety_checks (gate_checks m c)
        then (if accurate_checks (gate_checks m c)
            then Verdict.p6_ready
            else Verdict.p6_ready_with_limitations)
        else Verdict.p5_calibration_required)
unfolding gate_recommendation
gate_recommendation-groups m c = ground arith

verdict_iff :
    {S A : Type 0} (safe accurate : Bool) (v : Verdict)
    → ((safe ≡ true) ↔ S)
    → ((accurate ≡ true) ↔ A)
    → ((if safe
          then (if accurate then Verdict.p6_ready else Verdict.p6_ready_with_limitations)
          else Verdict.p5_calibration_required)
        ≡ v)
      ↔ Meant S A v
verdict_iff safe accurate Verdict.p6_ready s a =
    (λ h. (s.0 (ground (arith, h)), a.0 (ground (arith, h))), λ h. ground (arith, s.1 h.0, a.1 h.1))
verdict_iff safe accurate Verdict.p6_ready_with_limitations s a = (
  λ h. (s.0 (ground (arith, h)), λ k. absurd (ground (arith, h, a.1 k))),
  λ h. split safe accurate (s.1 h.0) (λ e. h.1 (a.0 e)),
)
  where
    split :
        (safe accurate : Bool)
        → safe ≡ true
        → ¬ (accurate ≡ true)
        → (if safe
            then (if accurate then Verdict.p6_ready else Verdict.p6_ready_with_limitations)
            else Verdict.p5_calibration_required)
          ≡ Verdict.p6_ready_with_limitations
    split true true e n = absurd (n refl)
    split true false e n = refl
    split false accurate e n = absurd (ground (arith, e))
verdict_iff safe accurate Verdict.p5_calibration_required s a =
    (λ h. λ k. absurd (ground (arith, h, s.1 k)), λ h. split safe accurate (λ e. h (s.0 e)))
  where
    split :
        (safe accurate : Bool)
        → ¬ (safe ≡ true)
        → (if safe
            then (if accurate then Verdict.p6_ready else Verdict.p6_ready_with_limitations)
            else Verdict.p5_calibration_required)
          ≡ Verdict.p5_calibration_required
    split true accurate n = absurd (n refl)
    split false accurate n = refl

-- The gate gives a verdict exactly if what the verdict stands for holds: ready where every rate
-- reaches its bound and no limit on the risks is broken, ready with limitations where only the
-- limits hold, and in need of calibration where a limit is broken.
pub gate_recommendation-iff-Means :
    (m : GateMetrics) (c : ValidationGateConfig) (v : Verdict)
    → ((gate_recommendation m c).0 ≡ v) ↔ Means v m c
gate_recommendation-iff-Means m c v = rw (gate_recommendation-groups m c) (
    verdict_iff (safety_checks (gate_checks m c)) (accurate_checks (gate_checks m c)) v
      (safety_checks_iff m c) (accurate_checks_iff m c))
