-- ===== src/Jobs/Engine/Ends.antt =====
-- JobEngine.run as a whole: its ends, its checkpoints and its calls.
use knovaryn.Base.{
  ℕ, ◌≡◌, refl, Bool, true, false, String, List, [], ◌∷◌, Option, none, some, contains, arith,
  Bool-cases, inl, inr, All, length, ◌⊎◌, ◌≢◌,
}
use knovaryn.Jobs.State.{
  JobState, running, succeeded, cancelled, cancelling, paused, transition, is_terminal,
}
use knovaryn.Jobs.Checkpoints.{Checkpoint, completed_checkpoints}
use knovaryn.Jobs.Retry.{RetryPolicy}
use knovaryn.Jobs.Engine.{
  Raised, cancelled_error, budget_error, known_error, unknown_error, out_of_fuel, Run, StageFn,
  Exec, then_do, save_job, refresh_cancellation, run_stages, conclude, begin_as, finish_as,
  finish_running, attempt_run, run, settle, handle, stop_as, cancellation_requested, bad_transition,
}
use knovaryn.Jobs.Engine.Resume.{run_stages-Holds, refresh-At, then_do-At}
use knovaryn.Jobs.Engine.Durable.{
  Unrepeated, Unrepeated-Survives, Recorded, Recorded-Survives, Completes, run_stages-Completes,
}

module _ (uniform : ℕ → ℕ) (policy : RetryPolicy) where
  -- The end of a run changes the job's state only, and reads the cancel request.
  module _ (Q : String → List String → List Checkpoint → List String → Type 0) where
    abbrev At : Run → Type 0
    At s = Q s.job.id s.completed s.checkpoints s.calls

    finish_as-At : (state : JobState) (s : Run) → At s → At (finish_as uniform policy state s)
    unfolding finish_as save_job
    finish_as-At state s h = h

    finish_running-At :
        (o : Option JobState) (s : Run) → At s → At (finish_running uniform policy o s).1
    unfolding finish_running
    finish_running-At none s h = h
    finish_running-At (some state) s h = finish_as-At state s h

    conclude-At : (s : Run) → At s → At (conclude uniform policy s).1
    unfolding conclude
    conclude-At s h = elim (Bool-cases (refresh_cancellation s).0) [
      | inl e ↦ rw (e, conclude) (finish_as-At cancelled _ (refresh-At Q s h))
      | inr e ↦ rw (e, conclude) (finish_running-At _ _ (refresh-At Q s h))
    ]

    handle-At : (e : Raised) (s : Run) → At s → At (handle uniform policy e s).1
    unfolding handle stop_as save_job
    handle-At cancelled_error s h = elim (Bool-cases (cancellation_requested s)) [
      | inl e ↦ rw (e, handle) (finish_as-At cancelled s h)
      | inr e ↦ rw (e, handle) h
    ]
    handle-At (budget_error m) s h = h
    handle-At (known_error f c m) s h = h
    handle-At (unknown_error f m) s h = h
    handle-At out_of_fuel s h = h

    settle-At : (e : Exec) → At e.1 → At (settle uniform policy e).1
    unfolding settle
    settle-At (none, s) h = h
    settle-At (some e, s) h = handle-At e s h

  abbrev Fresh : List String → String → List String → List Checkpoint → List String → Type 0
  Fresh before id done table calls = All (λ n. contains before n ≡ false) calls

  loop-Fresh :
      (stages : List (String × StageFn)) (o : Option JobState) (s : Run)
      → s.calls ≡ []
      → Fresh
          (completed_checkpoints s.job.id s.checkpoints)
          ""
          []
          []
          (then_do (begin_as uniform policy o s) (λ s1.
            then_do
              (run_stages uniform policy (length stages) 0 stages s1)
              (conclude uniform policy))).1.calls
  unfolding then_do begin_as save_job
  loop-Fresh stages none s h = rw h tt
  loop-Fresh stages (some state) s h =
      let before = completed_checkpoints s.job.id s.checkpoints in
      then_do-At (Fresh before) _ (conclude uniform policy)
        (run_stages-Holds (Unrepeated before) (Unrepeated-Survives before) uniform policy
          (length stages) 0 stages _ (rw h tt, λ n e. e)).0
        (λ t k. conclude-At (Fresh before) t k)

  -- A run that begins with no call listed calls no stage that the checkpoint table held as completed
  -- for the job when it began, whatever the stages do.
  pub run-resumes :
      (stages : List (String × StageFn)) (s : Run)
      → s.calls ≡ []
      → All
          (λ n. contains (completed_checkpoints s.job.id s.checkpoints) n ≡ false)
          (run uniform policy stages s).1.calls
  unfolding run attempt_run
  run-resumes stages s h =
      settle-At (Fresh (completed_checkpoints s.job.id s.checkpoints)) _
        (loop-Fresh stages (transition s.job.state running) s h)

  abbrev HasAll :
      List (String × StageFn) → String → List String → List Checkpoint → List String → Type 0
  HasAll stages id done table calls =
      All (λ st. contains (completed_checkpoints id table) st.0 ≡ true) stages

  All-Recorded :
      (stages : List (String × StageFn)) (id : String) (done : List String)
      (table : List Checkpoint) (calls : List String)
      → Recorded id done table calls
      → All (λ st. contains done st.0 ≡ true) stages
      → HasAll stages id done table calls
  All-Recorded [] id done table calls r h = tt
  All-Recorded (st ∷ stages) id done table calls r h =
      (r st.0 h.0, All-Recorded stages id done table calls r h.1)

  succeeds : transition running succeeded ≡ some succeeded
  unfolding transition
  succeeds = refl

  handle-fails : (e : Raised) (s : Run) → (handle uniform policy e s).1.job.state ≢ succeeded
  unfolding handle stop_as save_job finish_as
  handle-fails cancelled_error s h = ground (arith, h)
  handle-fails (budget_error m) s h = cc h
  handle-fails (known_error f c m) s h = cc h
  handle-fails (unknown_error f m) s h = cc h
  handle-fails out_of_fuel s h = cc h

  -- What the statement below asks of the end of the loop.
  abbrev Finished : List (String × StageFn) → Run → Type 0
  Finished stages s =
      s.job.state ≡ succeeded → HasAll stages s.job.id s.completed s.checkpoints s.calls

  conclude-Finished :
      (stages : List (String × StageFn)) (v : Run)
      → Recorded v.job.id v.completed v.checkpoints v.calls
      → Completes uniform policy stages (none, v)
      → Finished stages (settle uniform policy (conclude uniform policy v)).1
  unfolding conclude settle
  conclude-Finished stages v r c = elim (Bool-cases (refresh_cancellation v).0) [
    | inl e ↦ rw (e, conclude) (λ h. absurd (unfold finish_as save_job in cc h))
    | inr e ↦
        let all = All-Recorded stages _ _ _ v.calls r (c refl e) in
        λ h. settle-At (HasAll stages) _ (conclude-At (HasAll stages) v all)
  ]

  loop-Finished :
      (stages : List (String × StageFn)) (x : Exec)
      → Recorded x.1.job.id x.1.completed x.1.checkpoints x.1.calls
      → Completes uniform policy stages x
      → Finished stages (settle uniform policy (then_do x (conclude uniform policy))).1
  unfolding then_do
  loop-Finished stages (none, v) r c = conclude-Finished stages v r c
  loop-Finished stages (some e, v) r c = λ h. absurd (handle-fails e v (unfold settle in h))

  begun-Finished :
      (stages : List (String × StageFn)) (o : Option JobState) (s : Run)
      → Finished stages
          (settle uniform policy (
            then_do (begin_as uniform policy o s) (λ s1.
              then_do
                (run_stages uniform policy (length stages) 0 stages s1)
                (conclude uniform policy)))).1
  unfolding then_do begin_as save_job
  begun-Finished stages none s =
      λ h. absurd (handle-fails (bad_transition uniform policy) s (unfold settle in h))
  begun-Finished stages (some state) s =
      loop-Finished stages _
        (run_stages-Holds Recorded Recorded-Survives uniform policy (length stages) 0 stages _
          (λ n e. e))
        (run_stages-Completes uniform policy (length stages) 0 stages _)

  -- A run that leaves the job succeeded has left, for every stage, a completed checkpoint of the job
  -- in the table.
  pub run-completes :
      (stages : List (String × StageFn)) (s : Run)
      → (run uniform policy stages s).1.job.state ≡ succeeded
      → All
          (λ st.
            contains
              (completed_checkpoints
                (run uniform policy stages s).1.job.id
                (run uniform policy stages s).1.checkpoints)
              st.0
            ≡ true)
          stages
  unfolding run attempt_run
  run-completes stages s h = begun-Finished stages (transition s.job.state running) s h

  -- How `run` ends: with the job, which is then succeeded, failed, cancelled or paused, or by
  -- raising the cancellation again, with the job cancelling.
  abbrev IsEnded : Bool × Run → Type 0
  IsEnded r =
      (r.0 ≡ true → (is_terminal r.1.job.state ≡ true) ⊎ (r.1.job.state ≡ paused))
      × (r.0 ≡ false → r.1.job.state ≡ cancelling)

  handle-IsEnded : (e : Raised) (s : Run) → IsEnded (handle uniform policy e s)
  unfolding handle stop_as save_job finish_as is_terminal
  handle-IsEnded cancelled_error s = elim (Bool-cases (cancellation_requested s)) [
    | inl e ↦ rw (e, handle) (λ h. inl refl, λ h. absurd (cc h))
    | inr e ↦ rw (e, handle) (λ h. absurd (cc h), λ h. refl)
  ]
  handle-IsEnded (budget_error m) s = (λ h. inr refl, λ h. absurd (cc h))
  handle-IsEnded (known_error f c m) s = (λ h. inl refl, λ h. absurd (cc h))
  handle-IsEnded (unknown_error f m) s = (λ h. inl refl, λ h. absurd (cc h))
  handle-IsEnded out_of_fuel s = (λ h. inl refl, λ h. absurd (cc h))

  conclude-IsEnded : (s : Run) → IsEnded (settle uniform policy (conclude uniform policy s))
  unfolding conclude settle
  conclude-IsEnded s = elim (Bool-cases (refresh_cancellation s).0) [
    | inl e ↦
        rw (e, conclude)
          (unfold finish_as save_job is_terminal in (λ h. inl refl, λ h. absurd (cc h)))
    | inr e ↦
        rw (e, conclude, succeeds)
          (unfold finish_running finish_as save_job is_terminal in
            (λ h. inl refl, λ h. absurd (cc h)))
  ]

  then_do-IsEnded :
      (x : Exec) (k : Run → Exec)
      → ((s : Run) → IsEnded (settle uniform policy (k s)))
      → IsEnded (settle uniform policy (then_do x k))
  unfolding then_do
  then_do-IsEnded (none, s) k f = f s
  then_do-IsEnded (some e, s) k f = unfold settle in handle-IsEnded e s

  -- A run that returns leaves the job succeeded, failed, cancelled or paused, and a run that raises
  -- the cancellation again leaves it cancelling.
  pub run-ends :
      (stages : List (String × StageFn)) (s : Run)
      → ((run uniform policy stages s).0 ≡ true
          → (is_terminal (run uniform policy stages s).1.job.state ≡ true)
            ⊎ ((run uniform policy stages s).1.job.state ≡ paused))
        × ((run uniform policy stages s).0 ≡ false
            → (run uniform policy stages s).1.job.state ≡ cancelling)
  unfolding run attempt_run
  run-ends stages s =
      then_do-IsEnded (begin_as uniform policy (transition s.job.state running) s) _ (λ s1.
        then_do-IsEnded (run_stages uniform policy (length stages) 0 stages s1) _ conclude-IsEnded)
