-- ===== src/Jobs/Engine/Context.antt =====
-- knovaryn/pipeline/jobs/engine.py: the state of a run, the stages, and what a run does to its job
-- before and between the stages.
use knovaryn.Base.{
  ℕ, zero, suc, ◌+◌, Bool, true, false, ◌||◌, String, List, [], ◌∷◌, ◌++◌, Option, none, some,
  is_some,
}
use knovaryn.Jobs.Store.{Job, get, save, update_where, coalesce}
use knovaryn.Jobs.Checkpoints.{Checkpoint}
use knovaryn.Jobs.Retry.{Failure}

-- What a stage, or the engine, raises. `known_error` is a KnovarynError with its code.
pub data Raised : Type 0 where
  cancelled_error : Raised
  budget_error : String → Raised
  known_error : Failure → String → String → Raised
  unknown_error : Failure → String → Raised
  out_of_fuel : Raised

pub data Note : Type 0 where
  stage_complete : String → Note
  stage_retrying : String → ℕ → Note

-- One run: the job in memory, the tables, and what the context carries. `calls` lists the stages
-- whose functions have been called, for the statements about them.
pub record Run : Type 0 where
  pub job : Job
  pub rows : List Job
  pub checkpoints : List Checkpoint
  pub notes : List Note
  pub completed : List String
  pub checkpoint_sequence : ℕ
  pub spent : ℕ
  pub clock : ℕ
  pub calls : List String

pub record Effect : Type 0 where
  pub raised : Option Raised
  pub stamp : Option ℕ
  pub cost : ℕ
  pub polls : Bool

abbrev pub StageFn : Type 0
StageFn = Run → Effect

abbrev pub Exec : Type 0
Exec = Option Raised × Run

unfoldable pub then_do : Exec → (Run → Exec) → Exec
then_do (none, s) k = k s
then_do (some e, s) k = (some e, s)

unfoldable pub save_job : Run → Run
save_job s = record s { rows = save s.job s.rows }

unfoldable pub cancellation_requested : Run → Bool
cancellation_requested s = is_some s.job.cancellation_requested_at

abbrev pub adopt_stamp : ℕ → Run → Run
adopt_stamp t s = record s {
  job = record s.job {
    cancellation_requested_at = coalesce s.job.cancellation_requested_at (some t);
  };
}

unfoldable pub adopt_from : Option ℕ → Run → Bool × Run
unfolding cancellation_requested
adopt_from none s = (cancellation_requested s, s)
adopt_from (some t) s = (true, adopt_stamp t s)

unfoldable pub adopt : Option Job → Run → Bool × Run
unfolding adopt_from
adopt none s = (cancellation_requested s, s)
adopt (some r) s = adopt_from r.cancellation_requested_at s

unfoldable pub refresh_cancellation : Run → Bool × Run
unfolding adopt
refresh_cancellation s = adopt (get s.job.id s.rows) s

abbrev pub stamp_row : Option ℕ → Job → Job
stamp_row stamp r = record r {
  cancellation_requested_at = coalesce r.cancellation_requested_at stamp;
}

-- A stage that polls sees the request that has reached its row.
unfoldable pub refresh_if : Bool → Run → Run
unfolding refresh_cancellation
refresh_if true s = (refresh_cancellation s).1
refresh_if false s = s

-- `result = await fn(ctx)`
unfoldable pub call_stage : String → StageFn → ℕ → Run → Exec
unfolding refresh_if
call_stage name fn attempt s =
    let s1 = record s {
      job = record s.job { attempt_count = attempt + 1 };
      calls = s.calls ++ name ∷ [];
    } in
    let e = fn s1 in
    let s2 = record s1 {
      rows = update_where s1.job.id (stamp_row e.stamp) s1.rows;
      spent = s1.spent + e.cost;
    } in
    (e.raised, refresh_if e.polls s2)

-- The polls during a pause of the given number of tenths of a second.
unfoldable pub poll : ℕ → Run → Bool
poll zero s = false
poll (suc n) s = cancellation_requested s || poll n s

-- The exceptions that `except Exception` of the retry loop meets, as the retry policy sees them.
unfoldable pub failure_of : Raised → Option Failure
failure_of cancelled_error = none
failure_of (budget_error m) = none
failure_of (known_error f code m) = some f
failure_of (unknown_error f m) = some f
failure_of out_of_fuel = none

abbrev pub noted : String → ℕ → Run → Run
noted name attempt s = record s { notes = s.notes ++ stage_retrying name (attempt + 1) ∷ [] }

unfoldable pub start_stage : ℕ → ℕ → String → Run → Run
unfolding save_job
start_stage total idx name s = save_job (record s {
  job = record s.job { current_stage = some name; progress_total = total; progress_current = idx };
})
