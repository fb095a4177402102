-- ===== src/Jobs/Worker/Tests.antt =====
-- A worker that takes up a job whose first stage has a checkpoint.
use knovaryn.Base.{ℕ, ◌≡◌, refl, false, String, List, [], ◌∷◌, Option, none, some}
use knovaryn.Jobs.State.{leased, transition, can_transition, transitions}
use knovaryn.Jobs.Store.{
  Job, claim_eligible, oldest, claimable, eligible, take_row, update_where, older_of, get, save,
}
use knovaryn.Jobs.Store.Lease.{Claimed}
use knovaryn.Jobs.Sequence.{next_seq, max_seq, order_by, insert_row}
use knovaryn.Jobs.Checkpoints.{record_checkpoint, completed_checkpoints, first_of_each}
use knovaryn.Jobs.Retry.{RetryPolicy}
use knovaryn.Jobs.Engine.{
  StageFn, run, execute_with_retry, attempt_run, settle, then_do, begin_as, conclude,
  finish_running, finish_as, save_job, run_stages, visit, run_stage, start_stage, call_stage,
  refresh_if, after_call, commit, refresh_cancellation, adopt, adopt_from, cancellation_requested,
}
use knovaryn.Jobs.Worker.{
  WorkerState, Turn, discard, add, heartbeats, run_of, after_run, run_claimed, after_claim, tick,
}
use knovaryn.Jobs.Worker.Loop.{renewed, Turned, begins, tick_lem}

-- A row whose lease has run out.
abbrev row : Job
row = record {
  id = "j";
  owner_principal = "alice";
  idempotency_key = none;
  created_at = 7;
  state = leased;
  current_stage = none;
  progress_current = 0;
  progress_total = 0;
  lease_owner = some "v";
  lease_expires_at = some 10;
  heartbeat_at = none;
  attempt_count = 0;
  cancellation_requested_at = none;
  estimated_cost = 0;
  actual_cost = 0;
  started_at = none;
  finished_at = none;
  error_code = "";
  error_summary = "";
}

abbrev idle : WorkerState
idle = record {
  rows = row ∷ [];
  checkpoints =
      record {
        job_id = "j";
        stage_name = "parse";
        stage_version = "1";
        checkpoint_key = "parse:done";
        checkpoint_sequence = 1;
        status = "completed";
        worker_id = "";
        error = "";
      }
      ∷ [];
  notes = [];
  tracked = [];
  calls = [];
}

abbrev turn : Turn
turn = record { now = 20; locked = [] }

abbrev draw : ℕ → ℕ
draw bound = 0

abbrev policy : RetryPolicy
policy = record { max_attempts = 1; base_delay = 100; max_delay = 1000; multiplier = 2 }

abbrev stage_fn : StageFn
stage_fn s = record { raised = none; stamp = none; cost = 3; polls = false }

abbrev provider : Job → Option (List (String × StageFn))
provider j = some (("parse", stage_fn) ∷ ("chunk", stage_fn) ∷ [])

resumed : (tick draw policy provider "w" 5 turn idle).1.calls ≡ "chunk" ∷ []
unfolding tick heartbeats after_claim run_claimed after_run run_of claim_eligible oldest claimable
    eligible take_row update_where older_of add discard run settle attempt_run then_do begin_as
    transition can_transition transitions run_stages refresh_cancellation get save_job save visit
    completed_checkpoints first_of_each order_by insert_row next_seq max_seq run_stage
    execute_with_retry after_call call_stage conclude finish_running finish_as start_stage
    refresh_if commit record_checkpoint adopt adopt_from cancellation_requested
resumed = refl

tick_lem_example :
    let before = renewed draw policy provider "w" 5 turn idle in
    let c = claim_eligible 20 "w" 5 [] (before.rows) in
    (before.checkpoints ≡ idle.checkpoints)
    × Claimed 20 "w" 5 [] (before.rows) c.0
    × Turned draw policy provider "w" 5 20 c.0
        (begins draw policy provider "w" 5 c.0 c.1 before)
        (tick draw policy provider "w" 5 turn idle)
tick_lem_example = tick_lem draw policy provider "w" 5 turn idle
