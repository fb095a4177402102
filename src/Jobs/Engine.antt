-- ===== src/Jobs/Engine.antt =====
-- knovaryn/pipeline/jobs/engine.py: JobEngine.run over the job table and the checkpoint table.
--
-- The stage functions and the sources of randomness are parameters. A call of a stage function sees
-- the state of the run; what it does is an `Effect`: how it ends, what it costs, the cancel request
-- that reaches the job's row meanwhile, and whether the stage itself polls for one. A method that
-- may raise is a function into the exception, if there is one, and the state that it leaves.
mod Context
unfoldable pub use Context.*
pub mod Resume
pub mod Ends
pub mod Durable
pub mod Fuel
pub mod Stops
use Prim.Native.Nat.{max}
use Prim.Native.String.{◌++◌ as str_append}
use knovaryn.Base.{
  ℕ, zero, suc, ◌+◌, ◌/◌, Bool, true, false, String, List, [], ◌∷◌, ◌++◌, Option, none, some,
  length, contains, if◌then◌else◌,
}
use knovaryn.Jobs.State.{
  JobState, running, succeeded, failed, cancelled, cancelling, paused, transition,
}
use knovaryn.Jobs.Store.{coalesce}
use knovaryn.Jobs.Checkpoints.{record_checkpoint, completed_checkpoints}
use knovaryn.Jobs.Retry.{Failure, other, RetryPolicy, is_retryable, backoff_delay}

module _ (uniform : ℕ → ℕ) (policy : RetryPolicy) where
  abbrev pub rounds : ℕ → ℕ
  rounds attempt = max 1 (backoff_delay uniform policy attempt none / 100)

  -- `again` is the next turn of the loop, after a failure of the attempt that may be retried.
  unfoldable pub pause_and : String → ℕ → (Run → Exec) → Run → Exec
  pause_and name attempt again s =
      let next = again (noted name attempt s) in
      if poll (rounds (attempt + 1)) (noted name attempt s)
      then (some cancelled_error, noted name attempt s)
      else next

  unfoldable pub after_failure : Option Failure → Raised → String → ℕ → (Run → Exec) → Run → Exec
  after_failure none e name attempt again s = (some e, s)
  after_failure (some f) e name attempt again s =
      let retried = pause_and name attempt again s in
      if is_retryable f policy.max_attempts attempt then retried else (some e, s)

  unfoldable pub after_call : Exec → String → ℕ → (Run → Exec) → Exec
  after_call (none, s) name attempt again =
      (none, record s { notes = s.notes ++ stage_complete name ∷ [] })
  after_call (some e, s) name attempt again = after_failure (failure_of e) e name attempt again s

  -- _execute_with_retry, with fuel for its `while True`
  unfoldable pub execute_with_retry : ℕ → String → StageFn → ℕ → Run → Exec
  execute_with_retry zero name fn attempt s = (some out_of_fuel, s)
  execute_with_retry (suc fuel) name fn attempt s =
      after_call (call_stage name fn attempt s) name attempt
        (λ s'. execute_with_retry fuel name fn (attempt + 1) s')

  -- StageContext.checkpoint for a finished stage, and the set of completed stages
  unfoldable pub commit : String → Run → Run
  commit name s =
      let s1 = record s {
        checkpoint_sequence = s.checkpoint_sequence + 1;
        clock = s.clock + 1;
        job = record s.job { current_stage = some name };
        checkpoints =
            record_checkpoint
              (record {
                job_id = s.job.id;
                stage_name = name;
                stage_version = "1";
                checkpoint_key = str_append name ":done";
                checkpoint_sequence = s.checkpoint_sequence + 1;
                status = "completed";
                worker_id = "";
                error = "";
              })
              s.checkpoints;
        completed = name ∷ s.completed;
      } in
      if contains s.completed name then s else save_job s1

  -- One stage after the check for a cancel request; the fuel is one more than the retries.
  unfoldable pub run_stage : ℕ → ℕ → String → StageFn → Run → Exec
  run_stage total idx name fn s =
      then_do
        (execute_with_retry (suc policy.max_attempts) name fn 0 (start_stage total idx name s))
        (λ s2. (none, commit name s2))

  unfoldable pub visit : ℕ → ℕ → String → StageFn → Run → Exec
  visit total idx name fn s =
      if contains s.completed name
      then (none, record s { job = record s.job { current_stage = some name } })
      else run_stage total idx name fn s

  -- `for idx, (name, fn) in enumerate(stages)`; a cancel request breaks the loop.
  unfoldable pub run_stages : ℕ → ℕ → List (String × StageFn) → Run → Exec
  run_stages total idx [] s = (none, s)
  run_stages total idx ((name, fn) ∷ stages) s =
      let s1 = (refresh_cancellation s).1 in
      let rest = then_do (visit total idx name fn s1) (run_stages total (idx + 1) stages) in
      if (refresh_cancellation s).0 then (none, s1) else rest

  unfoldable pub finish_as : JobState → Run → Run
  finish_as state s = save_job (record s {
    clock = s.clock + 1;
    job = record s.job { state = state; finished_at = some s.clock; actual_cost = s.spent };
  })

  abbrev bad_transition : Raised
  bad_transition = known_error (other "JobStateError") "job_state_error" "invalid job transition"

  unfoldable pub finish_running : Option JobState → Run → Exec
  finish_running none s = (some bad_transition, s)
  finish_running (some state) s = (none, finish_as state s)

  -- After the loop.
  unfoldable pub conclude : Run → Exec
  conclude s =
      let s1 = (refresh_cancellation s).1 in
      if (refresh_cancellation s).0
      then (none, finish_as cancelled s1)
      else finish_running (transition running succeeded) s1

  unfoldable pub begin_as : Option JobState → Run → Exec
  begin_as none s = (some bad_transition, s)
  begin_as (some state) s =
      let s1 = save_job (record s {
        clock = s.clock + 1;
        job = record s.job {
          state = state;
          started_at = coalesce s.job.started_at (some s.clock);
          current_stage = none;
        };
      }) in
      (none, record s1 { completed = completed_checkpoints s1.job.id s1.checkpoints })

  unfoldable pub stop_as : JobState → String → String → Run → Run
  stop_as state code summary s = save_job (record s {
    clock = s.clock + 1;
    job = record s.job {
      state = state;
      error_code = code;
      error_summary = summary;
      finished_at = some s.clock;
    };
  })

  -- The `except` clauses: whether `run` returns the job, or raises again, and the state.
  unfoldable pub handle : Raised → Run → Bool × Run
  handle cancelled_error s = if cancellation_requested s then (true, finish_as cancelled s) else (
    false,
    save_job (record s {
      clock = s.clock + 1;
      job = record s.job { state = cancelling; cancellation_requested_at = some s.clock };
    }),
  )
  handle (budget_error message) s = (true, stop_as paused "budget_exhausted" message s)
  handle (known_error f code message) s = (true, stop_as failed code message s)
  handle (unknown_error f message) s = (true, stop_as failed "unhandled" message s)
  handle out_of_fuel s = (true, stop_as failed "unhandled" "" s)

  unfoldable pub settle : Exec → Bool × Run
  settle (none, s) = (true, s)
  settle (some e, s) = handle e s

  -- The body of the `try`.
  unfoldable pub attempt_run : List (String × StageFn) → Run → Exec
  attempt_run stages s =
      then_do (begin_as (transition s.job.state running) s)
        (λ s1. then_do (run_stages (length stages) 0 stages s1) conclude)

  unfoldable pub run : List (String × StageFn) → Run → Bool × Run
  run stages s = settle (attempt_run stages s)
