-- ===== src/Jobs/Engine/Fuel.antt =====
-- The retry loop of a stage and its fuel.
use knovaryn.Base.{
  ℕ, zero, suc, ◌+◌, ◌≤◌, ◌<◌, ◌≡◌, refl, String, Option, none, some, arith, Bool-cases, inl, inr,
}
use knovaryn.Jobs.Retry.{Failure, RetryPolicy, is_retryable}
use knovaryn.Jobs.Retry.Laws.{is_retryable_iff}
use knovaryn.Jobs.Engine.{
  Raised, Run, StageFn, Exec, call_stage, noted, pause_and, after_failure, after_call,
  execute_with_retry, failure_of,
}

module _ (uniform : ℕ → ℕ) (policy : RetryPolicy) (name : String) where
  pause_and-same :
      (attempt : ℕ) (f g : Run → Exec) (s : Run)
      → ((t : Run) → f t ≡ g t)
      → pause_and uniform policy name attempt f s ≡ pause_and uniform policy name attempt g s
  unfolding pause_and
  pause_and-same attempt f g s h = rw (h (noted name attempt s)) refl

  after_failure-same :
      (o : Option Failure) (e : Raised) (attempt : ℕ) (f g : Run → Exec) (s : Run)
      → (attempt < policy.max_attempts → (t : Run) → f t ≡ g t)
      → after_failure uniform policy o e name attempt f s
        ≡ after_failure uniform policy o e name attempt g s
  unfolding after_failure
  after_failure-same none e attempt f g s h = refl
  after_failure-same (some x) e attempt f g s h =
      elim (Bool-cases (is_retryable x policy.max_attempts attempt)) [
        | inl t ↦
            rw (t, after_failure)
              (pause_and-same attempt f g s
                (h ((is_retryable_iff x policy.max_attempts attempt).0.0 t).1))
        | inr t ↦ rw (t, after_failure) refl
      ]

  after_call-same :
      (r : Exec) (attempt : ℕ) (f g : Run → Exec)
      → (attempt < policy.max_attempts → (t : Run) → f t ≡ g t)
      → after_call uniform policy r name attempt f ≡ after_call uniform policy r name attempt g
  unfolding after_call
  after_call-same (none, s) attempt f g h = refl
  after_call-same (some e, s) attempt f g h = after_failure-same (failure_of e) e attempt f g s h

-- When the fuel of the retry loop is at least one more than the retries that are left, one more turn
-- of fuel changes nothing.
pub execute_with_retry-ends :
    (uniform : ℕ → ℕ) (policy : RetryPolicy) (name : String) (fn : StageFn) (fuel attempt : ℕ)
    (s : Run)
    → policy.max_attempts ≤ fuel + attempt
    → execute_with_retry uniform policy (suc (suc fuel)) name fn attempt s
      ≡ execute_with_retry uniform policy (suc fuel) name fn attempt s
unfolding execute_with_retry
execute_with_retry-ends uniform policy name fn zero attempt s h =
    after_call-same uniform policy name (call_stage name fn attempt s) attempt _ _
      (λ lt. absurd (omega (arith, lt, h)))
execute_with_retry-ends uniform policy name fn (suc fuel) attempt s h =
    after_call-same uniform policy name (call_stage name fn attempt s) attempt _ _ (λ lt t.
      execute_with_retry-ends uniform policy name fn fuel (attempt + 1) t (omega (arith, h)))
