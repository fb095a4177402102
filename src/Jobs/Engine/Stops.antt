-- ===== src/Jobs/Engine/Stops.antt =====
-- A run of a job with a cancel request.
use knovaryn.Base.{ℕ, ◌≡◌, refl, ◌∙◌, Bool, true, String, List, [], ◌∷◌, Option, none, some, length}
use knovaryn.Jobs.State.{running, cancelled, transition}
use knovaryn.Jobs.Store.{Job, get}
use knovaryn.Jobs.Retry.{RetryPolicy}
use knovaryn.Jobs.Engine.{
  Run, StageFn, then_do, save_job, adopt, adopt_from, refresh_cancellation, cancellation_requested,
  run_stages, conclude, begin_as, finish_as, attempt_run, run, settle,
}
use knovaryn.Jobs.Engine.Resume.{refresh-At}
use knovaryn.Jobs.Engine.Durable.{refresh-again, run_stages_break}

adopt_from-requested :
    (o : Option ℕ) (s : Run) → cancellation_requested s ≡ true → (adopt_from o s).0 ≡ true
unfolding adopt_from
adopt_from-requested none s h = h
adopt_from-requested (some t) s h = refl

adopt-requested :
    (o : Option Job) (s : Run) → cancellation_requested s ≡ true → (adopt o s).0 ≡ true
unfolding adopt
adopt-requested none s h = h
adopt-requested (some r) s h = adopt_from-requested r.cancellation_requested_at s h

refresh-requested : (s : Run) → cancellation_requested s ≡ true → (refresh_cancellation s).0 ≡ true
unfolding refresh_cancellation
refresh-requested s h = adopt-requested (get s.job.id s.rows) s h

module _ (uniform : ℕ → ℕ) (policy : RetryPolicy) where
  abbrev IsStopped : Run → Bool × Run → Type 0
  IsStopped s r = (r.0 ≡ true) × (r.1.job.state ≡ cancelled) × (r.1.calls ≡ s.calls)

  refresh-calls : (s : Run) → (refresh_cancellation s).1.calls ≡ s.calls
  refresh-calls s = refresh-At (λ id done table calls. calls ≡ s.calls) s refl

  conclude-IsStopped :
      (v : Run)
      → (refresh_cancellation v).0 ≡ true
      → IsStopped v (settle uniform policy (conclude uniform policy v))
  unfolding conclude settle
  conclude-IsStopped v e =
      rw (e, conclude) (unfold finish_as save_job in (refl, refl, refresh-calls v))

  loop-IsStopped :
      (total idx : ℕ) (stages : List (String × StageFn)) (s : Run)
      → (refresh_cancellation s).0 ≡ true
      → IsStopped s (
          settle uniform policy
            (then_do (run_stages uniform policy total idx stages s) (conclude uniform policy)))
  loop-IsStopped total idx [] s e = unfold then_do run_stages in conclude-IsStopped s e
  loop-IsStopped total idx ((name, fn) ∷ stages) s e =
      let c = conclude-IsStopped (refresh_cancellation s).1 (refresh-again s e) in
      rw (run_stages_break uniform policy total idx name fn stages s e)
        (unfold then_do in (c.0, c.1, c.2 ∙ refresh-calls s))

  begun-IsStopped :
      (stages : List (String × StageFn)) (s : Run)
      → cancellation_requested s ≡ true
      → IsStopped s (
          settle uniform policy (
            then_do (begin_as uniform policy (some running) s) (λ s1.
              then_do
                (run_stages uniform policy (length stages) 0 stages s1)
                (conclude uniform policy))))
  unfolding then_do begin_as save_job cancellation_requested
  begun-IsStopped stages s h = loop-IsStopped (length stages) 0 stages _ (refresh-requested _ h)

  -- A run of a job that may start and that carries a cancel request calls no stage, and returns the
  -- job cancelled.
  pub run-stops :
      (stages : List (String × StageFn)) (s : Run)
      → transition s.job.state running ≡ some running
      → cancellation_requested s ≡ true
      → ((run uniform policy stages s).0 ≡ true)
        × ((run uniform policy stages s).1.job.state ≡ cancelled)
        × ((run uniform policy stages s).1.calls ≡ s.calls)
  unfolding run attempt_run
  run-stops stages s e h = rw e (begun-IsStopped stages s h)
