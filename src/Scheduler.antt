-- ===== src/Scheduler.antt =====
-- scripts/daily_scheduler.py: when the pipeline runs, and how often it is tried. A moment is a
-- wall-clock time in microseconds; moments of one zone compare by it. A delay is a number of
-- microseconds; a negative one, that the source refuses like zero, does not occur.
pub mod Retries
mod Tests
use shanghai_home_radar.Prelude.{
  true, ℕ, zero, suc, ◌+◌, ◌-◌, ◌*◌, ◌/◌, ◌^◌, min, ℤ, pos, Bool, not, ◌&&◌, ◌||◌, Option, none,
  some, List, [], ◌∷◌, String, Result, ok, err, value_error, assertion_error, raise_if, ◌>>◌, ◌>>=◌,
  leb_ℤ, ltb, ◌==◌, if◌then◌else◌,
}

pub record Moment : Type 0 where
  pub is_aware : Bool
  pub wall : ℕ

pub record WallTime : Type 0 where
  pub hour : ℕ
  pub minute : ℕ

-- `now.replace(hour=.., minute=.., second=0, microsecond=0)`
abbrev pub on_day_of : ℕ → WallTime → ℕ
on_day_of now scheduled =
    now / 86400000000 * 86400000000 + (scheduled.hour * 60 + scheduled.minute) * 60000000

unfoldable pub next_run_at : Moment → WallTime → Result Moment
next_run_at now scheduled = do
  raise_if (not now.is_aware) (value_error "now must be timezone-aware")
  let candidate = on_day_of now.wall scheduled
  ok (record {
    is_aware = true;
    wall = if ltb now.wall candidate then candidate else candidate + 86400000000;
  })

-- `latest_attempt_at` against the scheduled time of the day; `local` is `astimezone`.
abbrev pub reason_after : (Moment → ℕ) → ℕ → Option Moment → Option String
reason_after local scheduled_today none = some "missed_schedule"
reason_after local scheduled_today (some latest) =
    if not latest.is_aware || ltb (local latest) scheduled_today
    then some "missed_schedule"
    else none

unfoldable pub startup_run_reason :
    (Moment → ℕ) → Bool → Bool → Moment → WallTime → Option Moment → Result (Option String)
startup_run_reason local force catch_up now scheduled latest =
    if force
    then ok (some "forced")
    else if not catch_up
    then ok none
    else if not now.is_aware
    then err (value_error "now must be timezone-aware")
    else if ltb now.wall (on_day_of now.wall scheduled)
    then ok none
    else ok (reason_after local (on_day_of now.wall scheduled) latest)

-- `RETRYABLE_PIPELINE_EXIT_CODE`
abbrev pub is_retryable : ℤ → Bool
is_retryable code = leb_ℤ code (pos 75) && leb_ℤ (pos 75) code

-- What `run_pipeline_with_retries` returns, the number of attempts and the delays slept.
pub record Attempts : Type 0 where
  pub return_code : ℤ
  pub attempts : ℕ
  pub delays : List ℕ

-- The loop from `attempt` on, with as many rounds left as the last argument says. The pipeline gives
-- the exit code of each attempt.
unfoldable pub attempts_from : (ℕ → ℤ) → ℕ → ℕ → ℕ → ℕ → ℕ → Result Attempts
attempts_from pipeline initial_delay max_delay max_attempts attempt zero =
    err (assertion_error "unreachable")
attempts_from pipeline initial_delay max_delay max_attempts attempt (suc left) =
    let rest = attempts_from pipeline initial_delay max_delay max_attempts (attempt + 1) left in
    if not (is_retryable (pipeline attempt)) || attempt == max_attempts
    then ok (record { return_code = pipeline attempt; attempts = attempt; delays = [] })
    else do
      r ← rest
      ok (record r { delays = min (initial_delay * 2 ^ (attempt - 1)) max_delay ∷ r.delays })

unfoldable pub run_pipeline_with_retries : (ℕ → ℤ) → ℕ → ℕ → ℕ → Result Attempts
unfolding attempts_from
run_pipeline_with_retries pipeline max_attempts initial_delay max_delay = do
  raise_if (ltb max_attempts 1) (value_error "SHR_DAILY_MAX_ATTEMPTS_PER_DAY must be positive")
  raise_if (initial_delay == 0 || max_delay == 0)
      (value_error "daily retry delays must be positive")
  raise_if (ltb max_delay initial_delay)
      (value_error "daily retry maximum must not be below the initial delay")
  attempts_from pipeline initial_delay max_delay max_attempts 1 max_attempts
