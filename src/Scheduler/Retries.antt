-- ===== src/Scheduler/Retries.antt =====
-- The next run lies within a day, and the retries end.
use shanghai_home_radar.Prelude.{
  Bool, Option, none, some, ◌⊎◌, ◌↔◌, ℕ, zero, suc, ◌≡◌, ◌≤◌, ◌<◌, ◌+◌, ◌-◌, ◌*◌, ◌%◌, ◌^◌, min,
  refl, ℤ, true, false, ok, arith, All, length, [], ◌∷◌, Bool-cases, inl, inr, not, ◌||◌, ◌==◌,
  if◌then◌else◌, ltb,
}
use shanghai_home_radar.Scheduler.{
  Moment, WallTime, on_day_of, next_run_at, startup_run_reason, is_retryable, Attempts,
  attempts_from, run_pipeline_with_retries,
}

-- For a zone-aware moment and a time of the day there is a next run: it is later, at most a day later,
-- and at that time of its day.
pub next_run_at-total :
    (now : Moment) (scheduled : WallTime)
    → now.is_aware ≡ true
    → scheduled.hour < 24
    → scheduled.minute < 60
    → (next : Moment) × (next_run_at now scheduled ≡ ok next)
      × (now.wall < next.wall)
      × (next.wall ≤ now.wall + 86400000000)
      × (next.wall % 86400000000 ≡ (scheduled.hour * 60 + scheduled.minute) * 60000000)
unfolding next_run_at
next_run_at-total now scheduled aware h m =
    let candidate = on_day_of now.wall scheduled in
    let wall = if ltb now.wall candidate then candidate else candidate + 86400000000 in
    (
      record { is_aware = true; wall = wall },
      ground (arith, aware),
      ground (arith, h, m),
      ground (arith, h, m),
      ground (arith, h, m),
    )

-- How the attempts from `attempt` to the last one went.
pub record Went (pipeline : ℕ → ℤ) (max_delay max_attempts attempt : ℕ) (r : Attempts)
    : Type 0 where
  pub code : r.return_code ≡ pipeline r.attempts
  pub from_first : attempt ≤ r.attempts
  pub to_last : r.attempts ≤ max_attempts
  pub slept : attempt + length r.delays ≡ r.attempts
  pub bounded : All (λ d. d ≤ max_delay) r.delays
  pub exhausted : is_retryable r.return_code ≡ true → r.attempts ≡ max_attempts

-- The last attempt.
stop-Went :
    (pipeline : ℕ → ℤ) (max_delay max_attempts attempt : ℕ)
    → attempt ≤ max_attempts
    → (is_retryable (pipeline attempt) ≡ true → attempt ≡ max_attempts)
    → Went pipeline max_delay max_attempts attempt
        (record { return_code = pipeline attempt; attempts = attempt; delays = [] })
stop-Went pipeline max_delay max_attempts attempt h k = record {
  code = refl;
  from_first = omega arith;
  to_last = h;
  slept = omega arith;
  bounded = tt;
  exhausted = k;
}

-- One attempt more before the others.
retry-Went :
    (pipeline : ℕ → ℤ) (max_delay max_attempts attempt d : ℕ) (r : Attempts)
    → Went pipeline max_delay max_attempts (attempt + 1) r
    → Went pipeline max_delay max_attempts attempt
        (record r { delays = min d max_delay ∷ r.delays })
retry-Went pipeline max_delay max_attempts attempt d r w = record {
  code = w.code;
  from_first = omega (arith, w.from_first);
  to_last = w.to_last;
  slept = omega (arith, w.slept);
  bounded = (omega arith, w.bounded);
  exhausted = w.exhausted;
}

pub attempts_from-Went :
    (pipeline : ℕ → ℤ) (initial_delay max_delay max_attempts attempt left : ℕ)
    → attempt + left ≡ max_attempts
    → (r : Attempts) × (attempts_from pipeline initial_delay max_delay max_attempts attempt
          (suc left)
        ≡ ok r)
      × Went pipeline max_delay max_attempts attempt r
unfolding attempts_from
attempts_from-Went pipeline initial_delay max_delay max_attempts attempt zero e =
    let last : attempt ≡ max_attempts = omega (arith, e) in
    (
      record { return_code = pipeline attempt; attempts = attempt; delays = [] },
      ground (arith, last),
      stop-Went pipeline max_delay max_attempts attempt (omega (arith, e)) (λ _. last),
    )
attempts_from-Went pipeline initial_delay max_delay max_attempts attempt (suc left) e =
    elim (Bool-cases (not (is_retryable (pipeline attempt)) || attempt == max_attempts)) [
      | inl stop ↦ (
        record { return_code = pipeline attempt; attempts = attempt; delays = [] },
        rw stop refl,
        stop-Went pipeline max_delay max_attempts attempt (omega (arith, e))
            (λ k. ground (arith, stop, k)),
      )
      | inr again ↦
          let (r, done, w) =
            attempts_from-Went pipeline initial_delay max_delay max_attempts (attempt + 1) left
              (omega (arith, e)) in
          (
            record r { delays = min (initial_delay * 2 ^ (attempt - 1)) max_delay ∷ r.delays },
            rw again (rw done refl),
            retry-Went pipeline max_delay max_attempts attempt (initial_delay * 2 ^ (attempt - 1)) r
                w,
          )
    ]

-- With settings that are accepted the retries end with the exit code of the last attempt. There are
-- at most as many attempts as configured, a delay between any two of them and none above the
-- maximum, and a code that asks for a retry is returned only when the attempts are used up.
pub run_pipeline_with_retries-Went :
    (pipeline : ℕ → ℤ) (max_attempts initial_delay max_delay : ℕ)
    → 1 ≤ max_attempts
    → 1 ≤ initial_delay
    → initial_delay ≤ max_delay
    → (r : Attempts) × (run_pipeline_with_retries pipeline max_attempts initial_delay max_delay
        ≡ ok r)
      × Went pipeline max_delay max_attempts 1 r
unfolding run_pipeline_with_retries
run_pipeline_with_retries-Went pipeline zero initial_delay max_delay a b d =
    absurd (ground (arith, a))
run_pipeline_with_retries-Went pipeline (suc left) initial_delay max_delay a b d =
    let (r, done, w) =
      attempts_from-Went pipeline initial_delay max_delay (suc left) 1 left (omega arith) in
    (r, ground (arith, b, d, done), w)

-- The latest attempt is known, has a zone, and is not before the moment.
abbrev pub AttemptedSince : (Moment → ℕ) → ℕ → Option Moment → Type 0
AttemptedSince local moment none = ⊥
AttemptedSince local moment (some latest) = (latest.is_aware ≡ true) × (moment ≤ local latest)

-- At a start-up at a zone-aware moment there is no run exactly if it is not forced and either
-- catching up is off, or the scheduled time of the day is still ahead, or the day's run was already
-- tried.
pub startup_run_reason-none_iff :
    (local : Moment → ℕ) (force catch_up : Bool) (now : Moment) (scheduled : WallTime)
    (latest : Option Moment)
    → now.is_aware ≡ true
    → (startup_run_reason local force catch_up now scheduled latest ≡ ok none) ↔ (
        (force ≡ false)
        × ((catch_up ≡ false)
            ⊎ ((now.wall < on_day_of now.wall scheduled)
                ⊎ AttemptedSince local (on_day_of now.wall scheduled) latest)))
unfolding startup_run_reason
startup_run_reason-none_iff local force catch_up now scheduled none aware =
    (λ h. ground (arith, h, aware), λ h. ground (arith, h, aware))
startup_run_reason-none_iff local force catch_up now scheduled (some latest) aware =
    (λ h. ground (arith, h, aware), λ h. ground (arith, h, aware))
