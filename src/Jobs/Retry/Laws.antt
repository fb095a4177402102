-- ===== src/Jobs/Retry/Laws.antt =====
-- Retries: what is tried again, how often, and how long the pause is.
use knovaryn.Base.{ℕ, ◌≤◌, ◌<◌, ◌≡◌, ◌↔◌, Bool, true, false, Option, none, some, arith, ◌*◌, ◌^◌}
use knovaryn.Jobs.State.{paused}
use knovaryn.Jobs.Retry.{
  Failure, budget_exceeded, policy_block, provider_error, other, FailureKey, budget_exhausted,
  policy_blocked, provider_non_retryable, RetryPolicy, classify_failure, is_retryable, delay_cap,
  backoff_delay, state_for_exc,
}

abbrev pub is_final : FailureKey → Bool
is_final budget_exhausted = true
is_final policy_blocked = true
is_final provider_non_retryable = true
is_final _ = false

-- A failure is tried again exactly if its class is not one of the three final ones and attempts are
-- left. A job is paused for a failure, and not failed, only if the failure is final.
pub is_retryable_iff :
    (e : Failure) (max_attempts attempt : ℕ)
    → ((is_retryable e max_attempts attempt ≡ true)
        ↔ ((is_final (classify_failure e) ≡ false) × (attempt < max_attempts)))
      × (state_for_exc e ≡ paused → is_final (classify_failure e) ≡ true)
unfolding is_retryable state_for_exc
is_retryable_iff budget_exceeded m a = ground arith
is_retryable_iff policy_block m a = ground arith
is_retryable_iff (provider_error r) m a = ground arith
is_retryable_iff (other name) m a = ground arith

-- A pause never lasts longer than the policy allows, with or without a header; without one it also
-- keeps the exponential bound. The random draw is assumed to respect the bound it is given.
pub backoff_delay-le :
    (uniform : ℕ → ℕ) (p : RetryPolicy) (attempt : ℕ) (retry_after : Option ℕ)
    → ((cap : ℕ) → uniform cap ≤ cap)
    → (backoff_delay uniform p attempt retry_after ≤ p.max_delay)
      × (retry_after ≡ none
          → backoff_delay uniform p attempt retry_after ≤ p.base_delay * p.multiplier ^ attempt)
unfolding backoff_delay
backoff_delay-le uniform p attempt (some v) u = (omega arith, λ h. absurd (cc h))
backoff_delay-le uniform p attempt none u =
    (omega (arith, u (delay_cap p attempt)), λ h. omega (arith, u (delay_cap p attempt)))
