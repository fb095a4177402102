-- ===== src/Jobs/Retry.antt =====
-- knovaryn/pipeline/jobs/retry.py. Delays are whole milliseconds; a policy's multiplier is whole.
pub mod Laws
use Prim.Native.Nat.{max, min}
use knovaryn.Base.{
  ℕ, ◌*◌, ◌^◌, Bool, true, false, ◌&&◌, ◌||◌, String, List, Option, none, some, ltb, if◌then◌else◌,
}
use knovaryn.Text.{codes, lower, infix_of}
use knovaryn.Jobs.State.{JobState, paused, failed}

-- The exceptions that the retry policy tells apart. `other` carries the name of its class.
pub data Failure : Type 0 where
  budget_exceeded : Failure
  policy_block : Failure
  provider_error : Bool → Failure
  other : String → Failure

pub data FailureKey : Type 0 where
  budget_exhausted policy_blocked provider provider_non_retryable transient worker_failure :
      FailureKey

pub record RetryPolicy : Type 0 where
  pub max_attempts : ℕ
  pub base_delay : ℕ
  pub max_delay : ℕ
  pub multiplier : ℕ

abbrev mentions : String → String → Bool
mentions part name = infix_of (codes part) (lower (codes name))

unfoldable pub is_transient_name : String → Bool
unfolding lower infix_of
is_transient_name name =
    mentions "timeout" name
    || mentions "ratelimit" name
    || mentions "rate_limit" name
    || mentions "connection" name

unfoldable pub classify_failure : Failure → FailureKey
classify_failure budget_exceeded = budget_exhausted
classify_failure policy_block = policy_blocked
classify_failure (provider_error retryable) = if retryable then provider else provider_non_retryable
classify_failure (other name) = if is_transient_name name then transient else worker_failure

-- The tests on the key, for the failures that no class has settled.
unfoldable pub retry_key : FailureKey → ℕ → ℕ → Bool
retry_key transient max_attempts attempt = ltb attempt max_attempts
retry_key provider max_attempts attempt = ltb attempt max_attempts
retry_key worker_failure max_attempts attempt = ltb attempt max_attempts
retry_key _ max_attempts attempt = false

unfoldable pub is_retryable : Failure → ℕ → ℕ → Bool
unfolding classify_failure retry_key
is_retryable budget_exceeded max_attempts attempt = false
is_retryable policy_block max_attempts attempt = false
is_retryable (provider_error retryable) max_attempts attempt = retryable && ltb attempt max_attempts
is_retryable (other name) max_attempts attempt =
    retry_key (classify_failure (other name)) max_attempts attempt

-- The bound of the random delay.
unfoldable pub delay_cap : RetryPolicy → ℕ → ℕ
delay_cap p attempt = min (p.base_delay * p.multiplier ^ attempt) p.max_delay

-- `retry_after` is the value of the header, where there is one that is a number; `uniform cap`
-- stands for random.uniform(0.0, cap).
unfoldable pub backoff_delay : (ℕ → ℕ) → RetryPolicy → ℕ → Option ℕ → ℕ
unfolding delay_cap
backoff_delay uniform p attempt (some retry_after) = min (max 100 retry_after) p.max_delay
backoff_delay uniform p attempt none = uniform (delay_cap p attempt)

unfoldable pub state_for_exc : Failure → JobState
state_for_exc budget_exceeded = paused
state_for_exc policy_block = paused
state_for_exc _ = failed
