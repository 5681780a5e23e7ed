-- ===== src/Pipeline/Jobs/Waits.antt =====
-- How the wait for a job ends.
use shanghai_home_radar.Prelude.{
  ℕ, zero, suc, refl, ◌≡◌, ◌≤◌, ◌<◌, ◌+◌, ◌*◌, ◌⊎◌, inl, inr, none, some, arith, Option-cases,
  Bool-cases, ltb, ◌==◌,
}
use shanghai_home_radar.Pipeline.Jobs.{
  Polled, StepResult, settled, timed_out, wait_from, wait_for_job,
}

-- The rounds from `round` up to `last` find the job pending.
abbrev pub PendingUpTo : (ℕ → Polled) → ℕ → ℕ → Type 0
PendingUpTo polls round last = (i : ℕ) → round ≤ i → i < last → settled (polls i) ≡ none

-- The wait ends at the round `last`: with what that poll gives, in time, or without, as the time is
-- over.
abbrev pub EndsAt : (ℕ → Polled) → ℕ → ℕ → ℕ → StepResult → Type 0
EndsAt polls timeout at_last last r =
    ((at_last < timeout) × (settled (polls last) ≡ some r))
    ⊎ ((timeout ≤ at_last) × (r ≡ timed_out))

-- How the rounds from `round` on end.
pub record Ends (polls : ℕ → Polled) (timeout poll_seconds round elapsed : ℕ) (r : StepResult)
    : Type 0 where
  pub waits : ℕ
  pub pending_before : PendingUpTo polls round (round + waits)
  pub ends : EndsAt polls timeout (elapsed + waits * poll_seconds) (round + waits) r

product-suc : (w p : ℕ) → suc w * p ≡ p + w * p
product-suc w p = grind arith

-- One pending round in front.
pending-Ends :
    (polls : ℕ → Polled) (timeout poll_seconds round elapsed : ℕ) (r : StepResult)
    → settled (polls round) ≡ none
    → Ends polls timeout poll_seconds (suc round) (elapsed + poll_seconds) r
    → Ends polls timeout poll_seconds round elapsed r
pending-Ends polls timeout p round elapsed r first e = record {
  waits = suc e.waits;
  pending_before = λ i from before. elim (Bool-cases (i == round)) [
    | inl here ↦ let same : i ≡ round = ground (arith, here) in rw same first
    | inr later ↦ e.pending_before i (ground (arith, later, from)) (omega (arith, before))
  ];
  ends = grind (arith, e.ends, product-suc e.waits p);
}

-- The wait ends in its first round.
at_once-Ends :
    (polls : ℕ → Polled) (timeout poll_seconds round elapsed : ℕ) (r : StepResult)
    → EndsAt polls timeout elapsed round r
    → Ends polls timeout poll_seconds round elapsed r
at_once-Ends polls timeout p round elapsed r e = record {
  waits = 0;
  pending_before = λ i from before. absurd (omega (arith, from, before));
  ends = grind (arith, e);
}

wait_from-Ends :
    (polls : ℕ → Polled) (timeout poll_seconds round elapsed left : ℕ)
    → 1 ≤ poll_seconds
    → timeout ≤ elapsed + left
    → (r : StepResult) × (wait_from polls timeout poll_seconds round elapsed (suc left) ≡ some r)
      × Ends polls timeout poll_seconds round elapsed r
unfolding wait_from
wait_from-Ends polls timeout p round elapsed zero one enough = (
  timed_out,
  ground (arith, enough),
  at_once-Ends polls timeout p round elapsed timed_out (inr (omega (arith, enough), refl)),
)
wait_from-Ends polls timeout p round elapsed (suc k) one enough =
    elim (Bool-cases (ltb elapsed timeout)) [
      | inr over ↦ (
        timed_out,
        rw over refl,
        at_once-Ends polls timeout p round elapsed timed_out (inr (ground (arith, over), refl)),
      )
      | inl time ↦ elim (Option-cases (settled (polls round))) [
        | inr (r, now) ↦ (
          r,
          ground (arith, time, now),
          at_once-Ends polls timeout p round elapsed r (inl (ground (arith, time), now)),
        )
        | inl waiting ↦
            let (r, later, e) =
              wait_from-Ends polls timeout p (suc round) (elapsed + p) k one
                (omega (arith, enough, one)) in
            (
              r,
              ground (arith, time, waiting, later),
              pending-Ends polls timeout p round elapsed r waiting e,
            )
      ]
    ]

-- With a pause of a second or more, the wait for a job always ends: with the first poll that finds the
-- job settled while there is time, and as timed out if no poll before the time is over does.
pub wait_for_job-Ends :
    (polls : ℕ → Polled) (timeout poll_seconds : ℕ)
    → 1 ≤ poll_seconds
    → (r : StepResult) × (wait_for_job polls timeout poll_seconds ≡ some r)
      × Ends polls timeout poll_seconds 0 0 r
unfolding wait_for_job
wait_for_job-Ends polls timeout p one = wait_from-Ends polls timeout p 0 0 timeout one (omega arith)
