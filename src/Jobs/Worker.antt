-- ===== src/Jobs/Worker.antt =====
-- knovaryn/pipeline/jobs/worker.py: the loop of a worker over the job table and the engine. Each call of the
-- repository is a transaction that commits. `stage_provider` is none where it raises; a turn of the loop
-- is given by its time and by the rows that other transactions lock meanwhile. The worker's own heartbeats
-- during a run are renewals of the job table.

mod Tests
pub mod Loop
pub mod Idle
use knovaryn.Base.{
  ℕ, Bool, true, false, not, String, str_eq, contains, List, [], ◌∷◌, ◌++◌, filter, Option, none,
  some, if◌then◌else◌,
}
use knovaryn.Jobs.State.{JobState, succeeded, failed, cancelled, paused, mem_state}
use knovaryn.Jobs.Store.{Job, claim_eligible, renew_lease}
use knovaryn.Jobs.Checkpoints.{Checkpoint}
use knovaryn.Jobs.Retry.{RetryPolicy}
use knovaryn.Jobs.Engine.{Note, Run, StageFn, run}

-- A worker between two turns, with the tables. `calls` are the stages that the last turn has called.
pub record WorkerState : Type 0 where
  pub rows : List Job
  pub checkpoints : List Checkpoint
  pub notes : List Note
  pub tracked : List String
  pub calls : List String

pub record Turn : Type 0 where
  pub now : ℕ
  pub locked : List String

-- set.discard
unfoldable pub discard : String → List String → List String
discard id ids = filter (λ i. not (str_eq i id)) ids

-- set.add
unfoldable pub add : String → List String → List String
add id ids = if contains ids id then ids else ids ++ id ∷ []

module _ (uniform : ℕ → ℕ) (policy : RetryPolicy)
    (stage_provider : Job → Option (List (String × StageFn))) (worker_id : String)
    (lease_seconds : ℕ) where
  -- _heartbeat
  unfoldable pub heartbeat : ℕ → String → WorkerState → WorkerState
  unfolding discard renew_lease
  heartbeat now id s =
      let (renewed, rows) = renew_lease now id worker_id lease_seconds (s.rows) in
      record s { rows = rows; tracked = if renewed then s.tracked else discard id (s.tracked) }

  unfoldable pub heartbeats : ℕ → List String → WorkerState → WorkerState
  unfolding heartbeat
  heartbeats now [] s = s
  heartbeats now (id ∷ ids) s = heartbeats now ids (heartbeat now id s)

  unfoldable pub run_of : ℕ → Job → WorkerState → Run
  run_of now job s = record {
    job = job;
    rows = s.rows;
    checkpoints = s.checkpoints;
    notes = s.notes;
    completed = [];
    checkpoint_sequence = 0;
    spent = 0;
    clock = now;
    calls = [];
  }

  abbrev pub is_over : JobState → Bool
  is_over state = mem_state state (succeeded ∷ failed ∷ cancelled ∷ paused ∷ [])

  -- The state after the engine: whether the cancellation is raised again, and the worker.
  unfoldable pub after_run : String → Bool × Run → WorkerState → Bool × WorkerState
  unfolding discard
  after_run id (returned, r) s = (
    not returned,
    record {
      rows = r.rows;
      checkpoints = r.checkpoints;
      notes = r.notes;
      tracked =
          if not returned
          then discard id (s.tracked)
          else if is_over (r.job.state)
          then discard id (s.tracked)
          else s.tracked;
      calls = r.calls;
    },
  )

  unfoldable pub run_claimed :
      ℕ → Job → Option (List (String × StageFn)) → WorkerState → Bool × WorkerState
  unfolding after_run run_of run discard
  run_claimed now job none s =
      (false, record s { tracked = discard (job.id) (s.tracked); calls = [] })
  run_claimed now job (some stages) s =
      after_run (job.id) (run uniform policy stages (run_of now job s)) s

  unfoldable pub after_claim : ℕ → Option Job × List Job → WorkerState → Bool × WorkerState
  unfolding run_claimed add
  after_claim now (none, rows) s = (false, record s { rows = rows; calls = [] })
  after_claim now (some job, rows) s =
      run_claimed now job (stage_provider job)
        (record s { rows = rows; tracked = add (job.id) (s.tracked) })

  -- _tick, and whether it raises the cancellation
  unfoldable pub tick : Turn → WorkerState → Bool × WorkerState
  unfolding heartbeats after_claim claim_eligible
  tick t s =
      let s1 = heartbeats (t.now) (s.tracked) s in
      after_claim (t.now) (claim_eligible (t.now) worker_id lease_seconds (t.locked) (s1.rows)) s1

  -- run_forever, as far as the turns go; a cancellation breaks the loop.
  unfoldable pub run_forever : List Turn → WorkerState → WorkerState
  unfolding tick
  run_forever [] s = s
  run_forever (t ∷ ts) s =
      let r = tick t s in let rest = run_forever ts r.1 in if r.0 then r.1 else rest
