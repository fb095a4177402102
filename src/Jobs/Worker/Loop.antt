-- ===== src/Jobs/Worker/Loop.antt =====
-- What one turn of the loop of a worker does, and what it leaves.
use knovaryn.Base.{
  ℕ, ◌≡◌, ◌⊎◌, inl, inr, refl, ap, ◌∙◌, arith, Bool, true, false, not, String, contains, List, [],
  ◌∷◌, Option, none, some, All, if◌then◌else◌,
}
use knovaryn.Jobs.State.{JobState, paused, succeeded, cancelling, is_terminal}
use knovaryn.Jobs.Store.{Job, claim_eligible}
use knovaryn.Jobs.Store.Lease.{Claimed, claim-takes_oldest}
use knovaryn.Jobs.Checkpoints.{completed_checkpoints}
use knovaryn.Jobs.Retry.{RetryPolicy}
use knovaryn.Jobs.Engine.{Run, StageFn, run}
use knovaryn.Jobs.Engine.Ends.{run-ends, run-resumes, run-completes}
use knovaryn.Jobs.Worker.{
  WorkerState, Turn, discard, add, heartbeat, heartbeats, run_of, is_over, after_run, run_claimed,
  after_claim, tick,
}

contains-discard : (id : String) (ids : List String) → contains (discard id ids) id ≡ false
unfolding discard
contains-discard id [] = refl
contains-discard id (x ∷ ids) = ground (arith, contains-discard id ids)

module _ (uniform : ℕ → ℕ) (policy : RetryPolicy)
    (stage_provider : Job → Option (List (String × StageFn))) (worker_id : String)
    (lease_seconds : ℕ) where
  over_lem :
      (state : JobState)
      → (is_terminal state ≡ true) ⊎ (state ≡ paused)
      → is_over uniform policy stage_provider worker_id lease_seconds state ≡ true
  unfolding is_terminal
  over_lem state (inl h) = ground (arith, h)
  over_lem state (inr h) = rw h refl

  heartbeats-checkpoints :
      (now : ℕ) (ids : List String) (s : WorkerState)
      → (heartbeats uniform policy stage_provider worker_id lease_seconds now ids s).checkpoints
        ≡ s.checkpoints
  unfolding heartbeats heartbeat
  heartbeats-checkpoints now [] s = refl
  heartbeats-checkpoints now (id ∷ ids) s =
      heartbeats-checkpoints now ids
        (heartbeat uniform policy stage_provider worker_id lease_seconds now id s)

  -- A run that has ended is no longer in progress, however it has ended.
  after_run-tracked :
      (id : String) (stages : List (String × StageFn)) (r : Run) (s : WorkerState)
      → (after_run uniform policy stage_provider worker_id lease_seconds id
          (run uniform policy stages r)
          s).1.tracked
        ≡ discard id (s.tracked)
  unfolding after_run
  after_run-tracked id stages r s = by (run uniform policy stages r).0 refl
    where
      by :
          (b : Bool)
          → (run uniform policy stages r).0 ≡ b
          → (if not b
              then discard id (s.tracked)
              else if is_over uniform policy stage_provider worker_id lease_seconds
                  (run uniform policy stages r).1.job.state
              then discard id (s.tracked)
              else s.tracked)
            ≡ discard id (s.tracked)
      by false e = refl
      by true e = rw (over_lem _ ((run-ends uniform policy stages r).0 e)) refl

  pub run_claimed-tracked :
      (now : ℕ) (job : Job) (o : Option (List (String × StageFn))) (s : WorkerState)
      → (run_claimed uniform policy stage_provider worker_id lease_seconds now job o s).1.tracked
        ≡ discard (job.id) (s.tracked)
  unfolding run_claimed
  run_claimed-tracked now job none s = refl
  run_claimed-tracked now job (some stages) s =
      after_run-tracked (job.id) stages
        (run_of uniform policy stage_provider worker_id lease_seconds now job s) s

  -- The stages that are called are not completed ones of the job.
  abbrev pub IsFresh : Job → WorkerState → List String → Type 0
  IsFresh job s calls =
      All (λ n. contains (completed_checkpoints (job.id) (s.checkpoints)) n ≡ false) calls

  run_claimed-IsFresh :
      (now : ℕ) (job : Job) (o : Option (List (String × StageFn))) (s : WorkerState)
      → IsFresh job s
          (run_claimed uniform policy stage_provider worker_id lease_seconds now job o s).1.calls
  unfolding run_claimed after_run run_of
  run_claimed-IsFresh now job none s = tt
  run_claimed-IsFresh now job (some stages) s = run-resumes uniform policy stages _ refl

  abbrev pub renewed : Turn → WorkerState → WorkerState
  renewed t s =
      heartbeats uniform policy stage_provider worker_id lease_seconds (t.now) (s.tracked) s

  -- The tables after a run, what it has called, and what the run says of the job.
  pub record Ran (job : Job) (stages : List (String × StageFn)) (before r : WorkerState) (now : ℕ)
      (raises : Bool) : Type 0 where
    pub ending : Bool × Run
    pub is_run :
        ending
        ≡ run uniform policy stages
            (run_of uniform policy stage_provider worker_id lease_seconds now job before)
    pub stored_rows : r.rows ≡ ending.1.rows
    pub stored_checkpoints : r.checkpoints ≡ ending.1.checkpoints
    pub stored_notes : r.notes ≡ ending.1.notes
    pub called : r.calls ≡ ending.1.calls
    pub raised : raises ≡ not ending.0
    pub settled :
        (is_over uniform policy stage_provider worker_id lease_seconds ending.1.job.state ≡ true)
        ⊎ ((raises ≡ true) × (ending.1.job.state ≡ cancelling))
    pub complete :
        ending.1.job.state ≡ succeeded
        → All
            (λ st. contains (completed_checkpoints ending.1.job.id (r.checkpoints)) st.0 ≡ true)
            stages

  -- What becomes of the job that a turn has claimed: it is run on the tables as the claim has left them, or
  -- its stages cannot be had, and nothing but the claim is stored.
  abbrev pub Served :
      ℕ → Job → Option (List (String × StageFn)) → WorkerState → Bool × WorkerState → Type 0
  Served now job none before (raises, r) =
      (r ≡ record before { tracked = discard (job.id) (before.tracked); calls = [] })
      × (raises ≡ false)
  Served now job (some stages) before (raises, r) =
      Ran job stages before r now raises
      × IsFresh job before (r.calls)
      × (contains (r.tracked) (job.id) ≡ false)

  run_claimed-Served :
      (now : ℕ) (job : Job) (o : Option (List (String × StageFn))) (s : WorkerState)
      → Served now job o s
          (run_claimed uniform policy stage_provider worker_id lease_seconds now job o s)
  unfolding run_claimed after_run
  run_claimed-Served now job none s = (refl, refl)
  run_claimed-Served now job (some stages) s = (
    record {
      ending = e;
      is_run = refl;
      stored_rows = refl;
      stored_checkpoints = refl;
      stored_notes = refl;
      called = refl;
      raised = refl;
      settled = ends e.0 refl;
      complete = run-completes uniform policy stages begun;
    },
    run_claimed-IsFresh now job (some stages) s,
    ap (λ ids. contains ids (job.id)) (run_claimed-tracked now job (some stages) s)
        ∙ contains-discard (job.id) (s.tracked),
  )
    where
      begun : Run
      begun = run_of uniform policy stage_provider worker_id lease_seconds now job s

      e : Bool × Run
      e = run uniform policy stages begun

      ends :
          (b : Bool)
          → e.0 ≡ b
          → (is_over uniform policy stage_provider worker_id lease_seconds e.1.job.state ≡ true)
            ⊎ ((not e.0 ≡ true) × (e.1.job.state ≡ cancelling))
      ends true h = inl (over_lem _ ((run-ends uniform policy stages begun).0 h))
      ends false h = inr (ap not h, (run-ends uniform policy stages begun).1 h)

  -- The worker with what a claim has left of the table, and, if a job is claimed, with that in progress.
  abbrev pub begins : Option Job → List Job → WorkerState → WorkerState
  begins none rows s = record s { rows = rows; calls = [] }
  begins (some job) rows s = record s { rows = rows; tracked = add (job.id) (s.tracked) }

  -- What a turn does after its claim.
  abbrev pub Turned : ℕ → Option Job → WorkerState → Bool × WorkerState → Type 0
  Turned now none before r = r ≡ (false, before)
  Turned now (some job) before r = Served now job (stage_provider job) before r

  -- A turn of the loop renews the leases that it holds, which leaves the checkpoints as they are, and makes one claim, which takes the oldest row that
  -- is then claimable, if there is one. Without a claim it calls no stage and changes nothing more. With
  -- one, if the stages of the job can be had, they are run by the engine on the tables that the claim has left,
  -- and the rows, the checkpoints, the notes and the calls of that run are what the turn leaves; no stage is
  -- called that the job has completed before; the job is then succeeded, failed, cancelled or paused, or the
  -- turn raises the cancellation with the job cancelling; if it has succeeded, each of its stages has a
  -- completed checkpoint; and it is no longer in progress. If the stages cannot be had, the turn stores
  -- nothing but the claim.
  pub tick_lem :
      (t : Turn) (s : WorkerState)
      → let c = claim_eligible (t.now) worker_id lease_seconds (t.locked) (renewed t s).rows in
        ((renewed t s).checkpoints ≡ s.checkpoints)
        × Claimed (t.now) worker_id lease_seconds (t.locked) (renewed t s).rows c.0
        × Turned
            (t.now)
            c.0
            (begins c.0 c.1 (renewed t s))
            (tick uniform policy stage_provider worker_id lease_seconds t s)
  unfolding tick after_claim
  tick_lem t s = (
    heartbeats-checkpoints (t.now) (s.tracked) s,
    claim-takes_oldest (t.now) worker_id lease_seconds (t.locked) (renewed t s).rows,
    by (claim_eligible (t.now) worker_id lease_seconds (t.locked) (renewed t s).rows),
  )
    where
      by :
          (c : Option Job × List Job)
          → Turned (t.now) c.0 (begins c.0 c.1 (renewed t s)) (
              after_claim uniform policy stage_provider worker_id lease_seconds
                (t.now)
                c
                (renewed t s))
      by (none, rows) = refl
      by (some job, rows) = run_claimed-Served (t.now) job (stage_provider job) _
