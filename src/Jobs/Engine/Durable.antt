-- ===== src/Jobs/Engine/Durable.antt =====
-- Invariants of the stage loop over the checkpoints and the calls of a run.
use knovaryn.Base.{
  ℕ, ◌+◌, ◌≡◌, refl, true, false, String, eq_iff, List, [], ◌∷◌, Option, none, some, contains,
  arith, Bool-cases, inl, inr, All, All-append, ◌∙◌, sym, subst,
}
use mathlib.Core.Bool.{false≢true}
use knovaryn.Jobs.Store.{Job, get}
use knovaryn.Jobs.Checkpoints.{Checkpoint, completed_checkpoints, contains-record_checkpoint}
use knovaryn.Jobs.Retry.{RetryPolicy}
use knovaryn.Jobs.Engine.{
  Run, StageFn, Exec, then_do, save_job, adopt, adopt_from, refresh_cancellation, commit, run_stage,
  visit, run_stages,
}
use knovaryn.Jobs.Engine.Resume.{Survives, run_stages-Holds}

-- No stage that was completed when the run began has been called.
abbrev pub Unrepeated : List String → String → List String → List Checkpoint → List String → Type 0
Unrepeated before id done table calls =
    All (λ n. contains before n ≡ false) calls
    × ((n : String) → contains before n ≡ true → contains done n ≡ true)

pub Unrepeated-Survives : (before : List String) → Survives (Unrepeated before)
Unrepeated-Survives before = record {
  call = λ id done table calls name fresh h. (
    All-append _ calls (name ∷ []) h.0 (elim (Bool-cases (contains before name)) [
      | inl e ↦ absurd (false≢true (sym fresh ∙ h.1 name e))
      | inr e ↦ (e, tt)
    ]),
    h.1,
  );
  committed = λ id done table calls name c k h. (h.0, λ n e. ground (arith, h.1 n e));
}

-- Every stage that the run takes for completed has a checkpoint.
abbrev pub Recorded : String → List String → List Checkpoint → List String → Type 0
Recorded id done table calls =
    (n : String) → contains done n ≡ true → contains (completed_checkpoints id table) n ≡ true

pub Recorded-Survives : Survives Recorded
Recorded-Survives = record {
  call = λ id done table calls name fresh h. h;
  committed = λ id done table calls name c k h n e.
      rw (contains-record_checkpoint id n c table, k.0, k.1, k.2)
        (ground (arith, h n, e, eq_iff id id));
}

-- A stage once completed stays so.
abbrev Includes : String → String → List String → List Checkpoint → List String → Type 0
Includes name id done table calls = contains done name ≡ true

Includes-Survives : (name : String) → Survives (Includes name)
Includes-Survives name = record {
  call = λ id done table calls x fresh h. h;
  committed = λ id done table calls x c k h. ground (arith, h);
}

-- A cancel request that has been seen is seen again.
adopt_from-again :
    (o : Option ℕ) (s : Run)
    → (adopt_from o s).0 ≡ true
    → (adopt_from o (adopt_from o s).1).0 ≡ true
unfolding adopt_from
adopt_from-again none s h = h
adopt_from-again (some t) s h = refl

adopt-again : (o : Option Job) (s : Run) → (adopt o s).0 ≡ true → (adopt o (adopt o s).1).0 ≡ true
unfolding adopt
adopt-again none s h = h
adopt-again (some r) s h = adopt_from-again r.cancellation_requested_at s h

adopt_from_same :
    (o : Option ℕ) (s : Run)
    → ((adopt_from o s).1.job.id ≡ s.job.id) × ((adopt_from o s).1.rows ≡ s.rows)
unfolding adopt_from
adopt_from_same none s = (refl, refl)
adopt_from_same (some t) s = (refl, refl)

adopt_same :
    (o : Option Job) (s : Run) → ((adopt o s).1.job.id ≡ s.job.id) × ((adopt o s).1.rows ≡ s.rows)
unfolding adopt
adopt_same none s = (refl, refl)
adopt_same (some r) s = adopt_from_same r.cancellation_requested_at s

pub refresh-again :
    (s : Run)
    → (refresh_cancellation s).0 ≡ true
    → (refresh_cancellation (refresh_cancellation s).1).0 ≡ true
unfolding refresh_cancellation
refresh-again s h =
    let same = adopt_same (get s.job.id s.rows) s in
    rw (same.0, same.1) (adopt-again (get s.job.id s.rows) s h)

module _ (uniform : ℕ → ℕ) (policy : RetryPolicy) where
  commit-Includes :
      (name : String) (s : Run) → contains (commit uniform policy name s).completed name ≡ true
  unfolding commit save_job
  commit-Includes name s = elim (Bool-cases (contains s.completed name)) [
    | inl e ↦ rw (e, commit) e
    | inr e ↦ rw (e, commit) (rw ((eq_iff name name).1 refl) refl)
  ]

  visit-Includes :
      (total idx : ℕ) (name : String) (fn : StageFn) (s : Run)
      → (visit uniform policy total idx name fn s).0 ≡ none
      → contains (visit uniform policy total idx name fn s).1.completed name ≡ true
  unfolding visit run_stage
  visit-Includes total idx name fn s h = elim (Bool-cases (contains s.completed name)) [
    | inl e ↦ rw (e, visit) e
    | inr e ↦ rw (e, visit) (committed _ (rw (e, visit) at h))
  ]
    where
      committed :
          (x : Exec)
          → (then_do x (λ s2. (none, commit uniform policy name s2))).0 ≡ none
          → contains (then_do x (λ s2. (none, commit uniform policy name s2))).1.completed name
            ≡ true
      committed (none, t) k = unfold then_do in commit-Includes name t
      committed (some y, t) k = absurd (unfold then_do in cc k)

  -- A loop that ends with no exception and no cancel request has completed the stages.
  abbrev pub Completes : List (String × StageFn) → Exec → Type 0
  Completes stages e =
      e.0 ≡ none
      → (refresh_cancellation e.1).0 ≡ false
      → All (λ st. contains e.1.completed st.0 ≡ true) stages

  then_do-Completes :
      (stages : List (String × StageFn)) (name : String) (x : Exec) (rest : Run → Exec)
      → (x.0 ≡ none → contains x.1.completed name ≡ true)
      → ((v : Run) → contains v.completed name ≡ true → Completes stages (rest v))
      → Completes stages (then_do x rest)
  unfolding then_do
  then_do-Completes stages name (none, v) rest h f = f v (h refl)
  then_do-Completes stages name (some y, v) rest h f = λ e r. absurd (cc e)

  pub run_stages_break :
      (total idx : ℕ) (name : String) (fn : StageFn) (stages : List (String × StageFn)) (s : Run)
      → (refresh_cancellation s).0 ≡ true
      → run_stages uniform policy total idx ((name, fn) ∷ stages) s
        ≡ (none, (refresh_cancellation s).1)
  unfolding run_stages
  run_stages_break total idx name fn stages s e = rw (e, run_stages) refl

  run_stages_step :
      (total idx : ℕ) (name : String) (fn : StageFn) (stages : List (String × StageFn)) (s : Run)
      → (refresh_cancellation s).0 ≡ false
      → run_stages uniform policy total idx ((name, fn) ∷ stages) s
        ≡ then_do
            (visit uniform policy total idx name fn (refresh_cancellation s).1)
            (run_stages uniform policy total (idx + 1) stages)
  unfolding run_stages
  run_stages_step total idx name fn stages s e = rw (e, run_stages) refl

  broken-Completes :
      (stages : List (String × StageFn)) (s : Run)
      → (refresh_cancellation s).0 ≡ true
      → Completes stages (none, (refresh_cancellation s).1)
  broken-Completes stages s e = λ h r. absurd (false≢true (sym r ∙ refresh-again s e))

  pub run_stages-Completes :
      (total idx : ℕ) (stages : List (String × StageFn)) (s : Run)
      → Completes stages (run_stages uniform policy total idx stages s)
  run_stages-Completes total idx [] s = λ h r. tt
  run_stages-Completes total idx ((name, fn) ∷ stages) s =
      elim (Bool-cases (refresh_cancellation s).0) [
        | inl e ↦
            subst (Completes ((name, fn) ∷ stages))
              (sym (run_stages_break total idx name fn stages s e))
              (broken-Completes ((name, fn) ∷ stages) s e)
        | inr e ↦
            subst (Completes ((name, fn) ∷ stages))
              (sym (run_stages_step total idx name fn stages s e))
              (then_do-Completes ((name, fn) ∷ stages) name
                (visit uniform policy total idx name fn (refresh_cancellation s).1)
                (run_stages uniform policy total (idx + 1) stages)
                (visit-Includes total idx name fn (refresh_cancellation s).1)
                (λ v k h r. (
                  run_stages-Holds (Includes name) (Includes-Survives name) uniform policy total
                      (idx + 1) stages v k,
                  run_stages-Completes total (idx + 1) stages v h r,
                )))
      ]
