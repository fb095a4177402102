-- ===== src/Jobs/Engine/Resume.antt =====
-- An invariant rule for the stage loop of a run.
use knovaryn.Base.{
  ℕ, zero, suc, ◌+◌, ◌≡◌, refl, Bool, true, false, String, List, [], ◌∷◌, ◌++◌, Option, none, some,
  contains, Bool-cases, inl, inr,
}
use knovaryn.Jobs.Store.{Job, get}
use knovaryn.Jobs.Checkpoints.{Checkpoint, record_checkpoint}
use knovaryn.Jobs.Retry.{Failure, RetryPolicy, is_retryable}
use knovaryn.Jobs.Engine.{
  Raised, Run, StageFn, Exec, then_do, save_job, adopt, adopt_from, refresh_cancellation,
  call_stage, poll, pause_and, after_failure, after_call, execute_with_retry, commit, run_stage,
  visit, run_stages, failure_of, refresh_if, rounds, start_stage, noted,
}

-- A checkpoint that makes a stage of a job count as completed.
abbrev pub Commits : String → String → Checkpoint → Type 0
Commits job_id name c = (c.job_id ≡ job_id) × (c.stage_name ≡ name) × (c.status ≡ "completed")

-- A property of what a run may repeat: the job, the completed stages, the checkpoint table and the
-- calls. It has to survive the call of a stage that is not completed, and the commit of one.
pub record Survives (P : String → List String → List Checkpoint → List String → Type 0)
    : Type 0 where
  pub call :
      (id : String) (done : List String) (table : List Checkpoint) (calls : List String)
      (name : String)
      → contains done name ≡ false
      → P id done table calls
      → P id done table (calls ++ name ∷ [])
  pub committed :
      (id : String) (done : List String) (table : List Checkpoint) (calls : List String)
      (name : String) (c : Checkpoint)
      → Commits id name c
      → P id done table calls
      → P id (name ∷ done) (record_checkpoint c table) calls

-- Reading the cancel request changes none of the four.
module _ (Q : String → List String → List Checkpoint → List String → Type 0) where
  abbrev At : Run → Type 0
  At s = Q s.job.id s.completed s.checkpoints s.calls

  adopt_from-At : (o : Option ℕ) (s : Run) → At s → At (adopt_from o s).1
  unfolding adopt_from
  adopt_from-At none s h = h
  adopt_from-At (some t) s h = h

  adopt-At : (o : Option Job) (s : Run) → At s → At (adopt o s).1
  adopt-At none s h = unfold adopt in h
  adopt-At (some r) s h = unfold adopt in adopt_from-At r.cancellation_requested_at s h

  pub refresh-At : (s : Run) → At s → At (refresh_cancellation s).1
  unfolding refresh_cancellation
  refresh-At s h = adopt-At (get s.job.id s.rows) s h

  refresh_if-At : (b : Bool) (s : Run) → At s → At (refresh_if b s)
  refresh_if-At true s h = unfold refresh_if in refresh-At s h
  refresh_if-At false s h = unfold refresh_if in h

  pub then_do-At :
      (e : Exec) (k : Run → Exec) → At e.1 → ((s : Run) → At s → At (k s).1) → At (then_do e k).1
  unfolding then_do
  then_do-At (none, s) k h f = f s h
  then_do-At (some x, s) k h f = h

module _ (P : String → List String → List Checkpoint → List String → Type 0) (rule : Survives P)
    (uniform : ℕ → ℕ) (policy : RetryPolicy) where
  abbrev pub Holds : Run → Type 0
  Holds s = P s.job.id s.completed s.checkpoints s.calls

  module _ (name : String) (fn : StageFn) where
    abbrev WhileOpen : String → List String → List Checkpoint → List String → Type 0
    WhileOpen id done table calls = P id done table calls × (contains done name ≡ false)

    abbrev Open : Run → Type 0
    Open s = WhileOpen s.job.id s.completed s.checkpoints s.calls

    call_stage-Open : (attempt : ℕ) (s : Run) → Open s → Open (call_stage name fn attempt s).1
    unfolding call_stage
    call_stage-Open attempt s h = refresh_if-At WhileOpen _ _ (rule.call _ _ _ _ name h.1 h.0, h.1)

    pause_and-Open :
        (attempt : ℕ) (again : Run → Exec) (s : Run)
        → ((t : Run) → Open t → Open (again t).1)
        → Open s
        → Open (pause_and uniform policy name attempt again s).1
    unfolding pause_and
    pause_and-Open attempt again s f h =
        elim (Bool-cases (poll (rounds uniform policy (attempt + 1)) (noted name attempt s))) [
          | inl t ↦ rw (t, pause_and) h
          | inr t ↦ rw (t, pause_and) (f (noted name attempt s) h)
        ]

    after_failure-Open :
        (o : Option Failure) (e : Raised) (attempt : ℕ) (again : Run → Exec) (s : Run)
        → ((t : Run) → Open t → Open (again t).1)
        → Open s
        → Open (after_failure uniform policy o e name attempt again s).1
    unfolding after_failure
    after_failure-Open none e attempt again s f h = h
    after_failure-Open (some x) e attempt again s f h =
        elim (Bool-cases (is_retryable x policy.max_attempts attempt)) [
          | inl t ↦ rw (t, after_failure) (pause_and-Open attempt again s f h)
          | inr t ↦ rw (t, after_failure) h
        ]

    after_call-Open :
        (r : Exec) (attempt : ℕ) (again : Run → Exec)
        → ((t : Run) → Open t → Open (again t).1)
        → Open r.1
        → Open (after_call uniform policy r name attempt again).1
    unfolding after_call
    after_call-Open (none, s) attempt again f h = h
    after_call-Open (some e, s) attempt again f h =
        after_failure-Open (failure_of e) e attempt again s f h

    execute-Open :
        (fuel attempt : ℕ) (s : Run)
        → Open s
        → Open (execute_with_retry uniform policy fuel name fn attempt s).1
    unfolding execute_with_retry
    execute-Open zero attempt s h = h
    execute-Open (suc fuel) attempt s h =
        after_call-Open _ attempt _ (λ t k. execute-Open fuel (attempt + 1) t k)
          (call_stage-Open attempt s h)

    commit-Holds : (s : Run) → Open s → Holds (commit uniform policy name s)
    unfolding commit save_job
    commit-Holds s h = rw (h.1, commit) (rule.committed _ _ _ _ name _ (refl, refl, refl) h.0)

    run_stage-Holds :
        (total idx : ℕ) (s : Run) → Open s → Holds (run_stage uniform policy total idx name fn s).1
    unfolding run_stage
    run_stage-Holds total idx s h = committed _ (
        execute-Open (suc policy.max_attempts) 0 (start_stage total idx name s)
          (unfold start_stage in h))
      where
        committed :
            (e : Exec)
            → Open e.1
            → Holds (then_do e (λ s2. (none, commit uniform policy name s2))).1
        committed (none, t) k = unfold then_do in commit-Holds t k
        committed (some x, t) k = unfold then_do in k.0

    pub visit-Holds :
        (total idx : ℕ) (s : Run) → Holds s → Holds (visit uniform policy total idx name fn s).1
    unfolding visit
    visit-Holds total idx s h = elim (Bool-cases (contains s.completed name)) [
      | inl e ↦ rw (e, visit) h
      | inr e ↦ rw (e, visit) (run_stage-Holds total idx s (h, e))
    ]

  pub run_stages-Holds :
      (total idx : ℕ) (stages : List (String × StageFn)) (s : Run)
      → Holds s
      → Holds (run_stages uniform policy total idx stages s).1
  unfolding run_stages
  run_stages-Holds total idx [] s h = h
  run_stages-Holds total idx ((name, fn) ∷ stages) s h =
      let h1 = refresh-At P s h in
      elim (Bool-cases (refresh_cancellation s).0) [
        | inl e ↦ rw (e, run_stages) h1
        | inr e ↦
            rw (e, run_stages)
              (then_do-At P _ _ (visit-Holds name fn total idx _ h1)
                (λ t k. run_stages-Holds total (idx + 1) stages t k))
      ]
