-- ===== src/Jobs/Worker/Idle.antt =====
-- A worker holds no job between the turns of its loop.
use knovaryn.Base.{
  ℕ, ◌≡◌, refl, ap, ◌∙◌, Bool, true, false, String, eq_refl, List, [], ◌∷◌, Option, none, some,
  if◌then◌else◌,
}
use knovaryn.Jobs.Store.{Job, claim_eligible}
use knovaryn.Jobs.Retry.{RetryPolicy}
use knovaryn.Jobs.Engine.{StageFn}
use knovaryn.Jobs.Worker.{
  WorkerState, Turn, discard, add, heartbeats, after_claim, tick, run_forever,
}
use knovaryn.Jobs.Worker.Loop.{run_claimed-tracked, renewed}

discard-add : (id : String) → discard id (add id []) ≡ []
unfolding discard add
discard-add id = rw (eq_refl id) refl

module _ (uniform : ℕ → ℕ) (policy : RetryPolicy)
    (stage_provider : Job → Option (List (String × StageFn))) (worker_id : String)
    (lease_seconds : ℕ) where
  after_claim-idle :
      (now : ℕ) (c : Option Job × List Job) (s : WorkerState)
      → s.tracked ≡ []
      → (after_claim uniform policy stage_provider worker_id lease_seconds now c s).1.tracked ≡ []
  unfolding after_claim
  after_claim-idle now (none, rows) s h = h
  after_claim-idle now (some job, rows) s h =
      run_claimed-tracked uniform policy stage_provider worker_id lease_seconds now job
        (stage_provider job) (record s { rows = rows; tracked = add (job.id) (s.tracked) })
      ∙ (ap (λ ids. discard (job.id) (add (job.id) ids)) h ∙ discard-add (job.id))

  heartbeats-idle :
      (now : ℕ) (ids : List String) (s : WorkerState)
      → ids ≡ []
      → (heartbeats uniform policy stage_provider worker_id lease_seconds now ids s).tracked
        ≡ s.tracked
  unfolding heartbeats
  heartbeats-idle now [] s e = refl
  heartbeats-idle now (x ∷ ids) s e = absurd cc

  tick-idle :
      (t : Turn) (s : WorkerState)
      → s.tracked ≡ []
      → (tick uniform policy stage_provider worker_id lease_seconds t s).1.tracked ≡ []
  unfolding tick
  tick-idle t s h =
      after_claim-idle (t.now)
        (claim_eligible (t.now) worker_id lease_seconds (t.locked)
          (renewed uniform policy stage_provider worker_id lease_seconds t s).rows)
        (renewed uniform policy stage_provider worker_id lease_seconds t s)
        (heartbeats-idle (t.now) (s.tracked) s h ∙ h)

  -- A worker that begins with no job in progress has none after any turns, so that no turn finds the lease of
  -- an earlier one to renew.
  pub run_forever-tracked :
      (ts : List Turn) (s : WorkerState)
      → s.tracked ≡ []
      → (run_forever uniform policy stage_provider worker_id lease_seconds ts s).tracked ≡ []
  unfolding run_forever
  run_forever-tracked [] s h = h
  run_forever-tracked (t ∷ ts) s h =
      by (run_forever-tracked ts) (tick uniform policy stage_provider worker_id lease_seconds t s)
        (tick-idle t s h)
    where
      by :
          ((s' : WorkerState)
            → s'.tracked ≡ []
            → (run_forever uniform policy stage_provider worker_id lease_seconds ts s').tracked
              ≡ [])
          → (r : Bool × WorkerState) → r.1.tracked ≡ []
          → (if r.0
              then r.1
              else run_forever uniform policy stage_provider worker_id lease_seconds ts r.1).tracked
            ≡ []
      by next (true, s') e = e
      by next (false, s') e = next s' e
