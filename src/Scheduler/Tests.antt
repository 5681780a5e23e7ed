-- ===== src/Scheduler/Tests.antt =====
-- Runs of the scheduler at concrete times, and its theorems at them.
use shanghai_home_radar.Prelude.{
  ℕ, ◌≡◌, ◌≤◌, ◌<◌, ◌+◌, ◌*◌, ◌%◌, refl, ℤ, pos, true, [], ◌∷◌, ok, arith, if◌then◌else◌, leb,
}
use shanghai_home_radar.Scheduler.{
  Moment, WallTime, next_run_at, Attempts, attempts_from, run_pipeline_with_retries,
}
use shanghai_home_radar.Scheduler.Retries.{next_run_at-total, Went, run_pipeline_with_retries-Went}

-- 09:30, and a schedule at 08:00.
abbrev morning : Moment
morning = record { is_aware = true; wall = 34200000000 }

abbrev eight : WallTime
eight = record { hour = 8; minute = 0 }

-- The pipeline asks twice for a retry.
abbrev flaky : ℕ → ℤ
flaky attempt = if leb attempt 2 then pos 75 else pos 0

next_run_at-total_example :
    (next : Moment) × (next_run_at morning eight ≡ ok next)
    × (morning.wall < next.wall)
    × (next.wall ≤ morning.wall + 86400000000)
    × (next.wall % 86400000000 ≡ (eight.hour * 60 + eight.minute) * 60000000)
next_run_at-total_example = next_run_at-total morning eight refl (omega arith) (omega arith)

run_pipeline_with_retries-Went_example :
    (r : Attempts) × (run_pipeline_with_retries flaky 4 300 500 ≡ ok r) × Went flaky 500 4 1 r
run_pipeline_with_retries-Went_example =
    run_pipeline_with_retries-Went flaky 4 300 500 (omega arith) (omega arith) (omega arith)

flaky_retries :
    run_pipeline_with_retries flaky 4 300 500
    ≡ ok (record { return_code = pos 0; attempts = 3; delays = 300 ∷ 500 ∷ [] })
unfolding run_pipeline_with_retries attempts_from
flaky_retries = refl
