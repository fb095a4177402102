-- ===== src/Jobs/Tests.antt =====
-- Runs of the job engine and its tables at concrete inputs.
use knovaryn.Base.{
  ℕ, ◌≤◌, ◌≡◌, ◌≢◌, ◌⊎◌, refl, true, false, String, List, [], ◌∷◌, Option, none, some, All,
  contains, arith,
}
use knovaryn.Jobs.State.{
  JobState, queued, leased, running, paused, succeeded, cancelled, cancelling, is_terminal,
  transition, can_transition, transitions,
}
use knovaryn.Jobs.Store.{
  Job, get, save, update_where, eligible, claimable, claim_eligible, renew_lease, Request, claim,
  execute_all, take_row, lease_to, oldest, older_of, renew_row,
}
use knovaryn.Jobs.Store.Exclusion.{claim-excludes}
use knovaryn.Jobs.Store.Cancel.{IsStamped, execute_all-IsStamped, save-undoes_renewal}
use knovaryn.Jobs.Checkpoints.{Checkpoint, record_checkpoint, completed_checkpoints, first_of_each}
use knovaryn.Jobs.Sequence.{next_seq, max_seq, order_by, insert_row}
use knovaryn.Jobs.Retry.{RetryPolicy, other}
use knovaryn.Jobs.Engine.{
  Run, StageFn, run, execute_with_retry, attempt_run, settle, then_do, begin_as, conclude,
  finish_running, finish_as, save_job, run_stages, visit, run_stage, start_stage, call_stage,
  refresh_if, after_call, commit, refresh_cancellation, adopt, adopt_from, cancellation_requested,
  unknown_error,
}
use knovaryn.Jobs.Engine.Ends.{run-resumes, run-completes, run-ends}
use knovaryn.Jobs.Engine.Stops.{run-stops}
use knovaryn.Jobs.Engine.Fuel.{execute_with_retry-ends}

abbrev job : JobState → Option ℕ → Option ℕ → Job
job state lease stamp = record {
  id = "j";
  owner_principal = "alice";
  idempotency_key = none;
  created_at = 7;
  state = state;
  current_stage = none;
  progress_current = 0;
  progress_total = 0;
  lease_owner = some "w";
  lease_expires_at = lease;
  heartbeat_at = none;
  attempt_count = 0;
  cancellation_requested_at = stamp;
  estimated_cost = 0;
  actual_cost = 0;
  started_at = none;
  finished_at = none;
  error_code = "";
  error_summary = "";
}

abbrev fresh : Job
fresh = job queued none none

abbrev held : Job
held = job running (some 10) none

abbrev policy : RetryPolicy
policy = record { max_attempts = 2; base_delay = 1000; max_delay = 30000; multiplier = 2 }

abbrev draw : ℕ → ℕ
draw bound = 0

abbrev stage_fn : StageFn
stage_fn s = record { raised = none; stamp = none; cost = 3; polls = false }

abbrev failing : StageFn
failing s = record {
  raised = some (unknown_error (other "ValueError") "no");
  stamp = none;
  cost = 3;
  polls = false;
}

abbrev stages : List (String × StageFn)
stages = ("parse", stage_fn) ∷ ("chunk", stage_fn) ∷ []

abbrev parsed : Checkpoint
parsed = record {
  job_id = "j";
  stage_name = "parse";
  stage_version = "1";
  checkpoint_key = "parse:done";
  checkpoint_sequence = 1;
  status = "completed";
  worker_id = "";
  error = "";
}

-- A run of a leased job whose first stage has a checkpoint.
abbrev resumed : Run
resumed = record {
  job = job leased (some 10) none;
  rows = job leased (some 10) none ∷ [];
  checkpoints = parsed ∷ [];
  notes = [];
  completed = [];
  checkpoint_sequence = 0;
  spent = 0;
  clock = 3;
  calls = [];
}

run-resumes_example :
    All
      (λ n. contains (completed_checkpoints "j" (parsed ∷ [])) n ≡ false)
      (run draw policy stages resumed).1.calls
run-resumes_example = run-resumes draw policy stages resumed refl

run-resumes_calls :
    ((run draw policy stages resumed).1.calls ≡ "chunk" ∷ [])
    × ((run draw policy stages resumed).1.job.state ≡ succeeded)
unfolding run settle attempt_run then_do begin_as transition can_transition transitions run_stages
    refresh_cancellation get save_job save update_where visit completed_checkpoints first_of_each
    order_by insert_row next_seq max_seq run_stage execute_with_retry after_call call_stage conclude
    record_checkpoint adopt adopt_from cancellation_requested commit finish_as finish_running
    refresh_if start_stage
run-resumes_calls = (refl, refl)

run-completes_example :
    All
      (λ st.
        contains
          (completed_checkpoints
            (run draw policy stages resumed).1.job.id
            (run draw policy stages resumed).1.checkpoints)
          st.0
        ≡ true)
      stages
run-completes_example = run-completes draw policy stages resumed run-resumes_calls.1

run-ends_example :
    ((run draw policy stages resumed).0 ≡ true
      → (is_terminal (run draw policy stages resumed).1.job.state ≡ true)
        ⊎ ((run draw policy stages resumed).1.job.state ≡ paused))
    × ((run draw policy stages resumed).0 ≡ false
        → (run draw policy stages resumed).1.job.state ≡ cancelling)
run-ends_example = run-ends draw policy stages resumed

execute_with_retry-ends_example :
    execute_with_retry draw policy 4 "parse" failing 0 resumed
    ≡ execute_with_retry draw policy 3 "parse" failing 0 resumed
execute_with_retry-ends_example =
    execute_with_retry-ends draw policy "parse" failing 2 0 resumed (omega arith)

abbrev other_job : Job
other_job = record held { id = "k"; created_at = 8; lease_expires_at = some 2 }

claim-excludes_example : other_job.id ≢ fresh.id
unfolding claim_eligible take_row oldest older_of eligible update_where execute_all claimable
claim-excludes_example =
    claim-excludes 5 "w" 30 [] (fresh ∷ other_job ∷ []) (lease_to "w" 5 30 fresh) [] 9000 "v" 60 []
      (lease_to "v" 9000 60 other_job) refl tt (omega arith) refl

-- A job with a cancel request, claimed by a worker and then written from a copy without it.
execute_all-IsStamped_example :
    IsStamped "j" 4
      (execute_all (claim 5 "w" 30 [] ∷ Request.write held ∷ []) (job queued none (some 4) ∷ []))
unfolding get
execute_all-IsStamped_example =
    execute_all-IsStamped "j" 4 (claim 5 "w" 30 [] ∷ Request.write held ∷ [])
      (job queued none (some 4) ∷ []) (job queued none (some 4), refl, refl)

save-undoes_renewal_example :
    (r : Job) × (s : Job) × (get "j" (renew_lease 8 "j" "w" 30 (held ∷ [])).1 ≡ some r)
    × (eligible 20 r ≡ false)
    × (get "j" (save held (renew_lease 8 "j" "w" 30 (held ∷ [])).1) ≡ some s)
    × (eligible 20 s ≡ true)
unfolding renew_lease get renew_row
save-undoes_renewal_example =
    save-undoes_renewal 8 20 30 "w" (held ∷ []) held 10 refl refl refl (omega arith) (omega arith)

draw_le : (bound : ℕ) → draw bound ≤ bound
draw_le bound = omega arith

-- The job of the resumed run with a cancel request.
abbrev stamped : Run
stamped = record resumed { job = job leased (some 10) (some 4) }

run-stops_example :
    ((run draw policy stages stamped).0 ≡ true)
    × ((run draw policy stages stamped).1.job.state ≡ cancelled)
    × ((run draw policy stages stamped).1.calls ≡ [])
unfolding transition can_transition transitions cancellation_requested
run-stops_example = run-stops draw policy stages stamped refl refl
