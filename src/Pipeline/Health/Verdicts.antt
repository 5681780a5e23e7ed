-- ===== src/Pipeline/Health/Verdicts.antt =====
-- What the health of the day's output says of it.
use shanghai_home_radar.Prelude.{
  ℕ, ◌≡◌, ◌≢◌, ◌≤◌, ◌<◌, ◌+◌, ◌*◌, ◌↔◌, ◌⊎◌, refl, Bool, true, false, Option, List, [], ◌∷◌, arith,
  is_empty, if◌then◌else◌,
}
use shanghai_home_radar.Collector.Domain.{DataMode}
use shanghai_home_radar.Collector.Service.{is_live}
use shanghai_home_radar.Pipeline.Jobs.{JobCounts}
use shanghai_home_radar.Pipeline.Health.{
  Snapshot, HealthReason, HealthStatus, healthy, degraded, blocked, total_count, count_of,
  evaluated_in, skipped_in, batch_reasons, health_reasons, assess_opportunity_output,
}

-- Nothing speaks against the output.
pub record IsSound (s : Snapshot) (decision : Option JobCounts) (ratio_num ratio_den : ℕ)
    : Type 0 where
  pub evaluated : 0 < s.evaluated_count
  pub accounted : total_count s.classification_counts ≡ s.evaluated_count
  pub sufficient : count_of "INSUFFICIENT_DATA" s.classification_counts ≢ s.evaluated_count
  pub not_all_skipped : (skipped_in decision ≡ 0) ⊎ (0 < evaluated_in decision)
  pub covered :
      0 < evaluated_in decision + skipped_in decision
      → ratio_num * (evaluated_in decision + skipped_in decision)
        ≤ evaluated_in decision * ratio_den

pub health_reasons-IsSound :
    (s : Snapshot) (d : Option JobCounts) (n m : ℕ) → health_reasons s d n m ≡ [] → IsSound s d n m
unfolding health_reasons batch_reasons
health_reasons-IsSound s d n m h = record {
  evaluated = ground (arith, h);
  accounted = ground (arith, h);
  sufficient = λ e. ground (arith, h, e);
  not_all_skipped = ground (arith, h);
  covered = λ e. ground (arith, h, e);
}

IsSound-health_reasons :
    (s : Snapshot) (d : Option JobCounts) (n m : ℕ) → IsSound s d n m → health_reasons s d n m ≡ []
unfolding health_reasons batch_reasons
IsSound-health_reasons s d n m h =
    ground (arith, h.evaluated, h.accounted, h.sufficient, h.not_all_skipped, h.covered)

-- What each status stands for, from the soundness and the mode.
abbrev pub Meant : Type 0 → Bool → HealthStatus → Type 0
Meant S live healthy = S
Meant S live degraded = (live ≡ false) × ¬ S
Meant S live blocked = (live ≡ true) × ¬ S

status_iff :
    {S : Type 0} (reasons : List HealthReason) (live : Bool) (status : HealthStatus)
    → (reasons ≡ []) ↔ S
    → ((if is_empty reasons then healthy else if live then blocked else degraded) ≡ status)
      ↔ Meant S live status
status_iff [] live healthy e = (λ h. e.0 refl, λ h. refl)
status_iff [] live degraded e = (λ h. absurd (ground (arith, h)), λ h. absurd (h.1 (e.0 refl)))
status_iff [] live blocked e = (λ h. absurd (ground (arith, h)), λ h. absurd (h.1 (e.0 refl)))
status_iff (r ∷ rs) live healthy e =
    (λ h. absurd (ground (arith, h)), λ h. absurd (ground (arith, e.1 h)))
status_iff (r ∷ rs) live degraded e =
    (λ h. (ground (arith, h), λ k. ground (arith, e.1 k)), λ h. ground (arith, h.0))
status_iff (r ∷ rs) live blocked e =
    (λ h. (ground (arith, h), λ k. ground (arith, e.1 k)), λ h. ground (arith, h.0))

-- What each status stands for.
abbrev pub Means : HealthStatus → Snapshot → Option JobCounts → DataMode → ℕ → ℕ → Type 0
Means status s d mode n m = Meant (IsSound s d n m) (is_live mode) status

-- The output of the day has a status exactly if what the status stands for holds: healthy if some
-- decision was evaluated, the classes account for all and not all of them lack data, and the current
-- batch was neither skipped as a whole nor evaluated below the minimal share; otherwise blocked on
-- live data and degraded on other.
pub assess_opportunity_output-iff-Means :
    (s : Snapshot) (d : Option JobCounts) (mode : DataMode) (n m : ℕ) (status : HealthStatus)
    → ((assess_opportunity_output s d mode n m).status ≡ status) ↔ Means status s d mode n m
unfolding assess_opportunity_output
assess_opportunity_output-iff-Means s d mode n m status =
    let there = health_reasons-IsSound s d n m in
    let back = IsSound-health_reasons s d n m in
    status_iff (health_reasons s d n m) (is_live mode) status (there, back)
