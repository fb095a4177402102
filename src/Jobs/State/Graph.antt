-- ===== src/Jobs/State/Graph.antt =====
-- The transitions as a relation, and what can be reached in it.
use mathlib.Core.Logic.{◌≢◌}
use knovaryn.Base.{◌≡◌, refl, true, some, ◌↔◌, arith}
use knovaryn.Jobs.State.{
  JobState, queued, leased, running, pausing, paused, retry_wait, succeeded, failed, cancelling,
  cancelled, state_eq, is_terminal, can_transition, transition,
}

pub state_eq_iff : (s t : JobState) → (state_eq s t ≡ true) ↔ (s ≡ t)
state_eq_iff s t = ground arith

-- The states in which a worker holds the job, and those in which a failure may be recorded.
pub data IsActive : JobState → Type 0 where
  leased_active : IsActive leased
  running_active : IsActive running
  pausing_active : IsActive pausing
  cancelling_active : IsActive cancelling

pub data IsWaiting : JobState → Type 0 where
  queued_waits : IsWaiting queued
  paused_waits : IsWaiting paused
  retry_waits : IsWaiting retry_wait

-- The life of a job, described without the table.
infix 40 ◌⟶◌ ◌⟶*◌
pub data ◌⟶◌ : JobState → JobState → Type 0 where
  claim : queued ⟶ leased
  start : leased ⟶ running
  release : leased ⟶ queued
  requeue_paused : paused ⟶ queued
  requeue_retry : retry_wait ⟶ queued
  retry_failed : failed ⟶ queued
  ask_pause : running ⟶ pausing
  pause : pausing ⟶ paused
  back_off : running ⟶ retry_wait
  finish : running ⟶ succeeded
  ask_cancel_running : running ⟶ cancelling
  ask_cancel_pausing : pausing ⟶ cancelling
  cancel_active : cancelling ⟶ cancelled
  cancel_leased : leased ⟶ cancelled
  cancel_waiting : {s : JobState} → IsWaiting s → s ⟶ cancelled
  fail_active : {s : JobState} → IsActive s → s ⟶ failed
  fail_waiting : {s : JobState} → IsWaiting s → s ⟶ failed

ruleset edges = (
  claim, start, release, requeue_paused, requeue_retry, retry_failed, ask_pause, pause, back_off,
  finish, ask_cancel_running, ask_cancel_pausing, cancel_active, cancel_leased, cancel_waiting,
  fail_active, fail_waiting,
)

ruleset kinds = (
  leased_active, running_active, pausing_active, cancelling_active, queued_waits, paused_waits,
  retry_waits,
)

step_of_test : (s t : JobState) → can_transition s t ≡ true → s ⟶ t
unfolding can_transition
step_of_test s t h = grind (arith, edges, kinds)

active_fails : {s : JobState} → IsActive s → can_transition s failed ≡ true
unfolding can_transition
active_fails leased_active = refl
active_fails running_active = refl
active_fails pausing_active = refl
active_fails cancelling_active = refl

waiting_ends :
    {s : JobState}
    → IsWaiting s
    → (can_transition s failed ≡ true) × (can_transition s cancelled ≡ true)
unfolding can_transition
waiting_ends queued_waits = (refl, refl)
waiting_ends paused_waits = (refl, refl)
waiting_ends retry_waits = (refl, refl)

test_of_step : {s t : JobState} → s ⟶ t → can_transition s t ≡ true
unfolding can_transition
test_of_step claim = refl
test_of_step start = refl
test_of_step release = refl
test_of_step requeue_paused = refl
test_of_step requeue_retry = refl
test_of_step retry_failed = refl
test_of_step ask_pause = refl
test_of_step pause = refl
test_of_step back_off = refl
test_of_step finish = refl
test_of_step ask_cancel_running = refl
test_of_step ask_cancel_pausing = refl
test_of_step cancel_active = refl
test_of_step cancel_leased = refl
test_of_step (cancel_waiting w) = (waiting_ends w).1
test_of_step (fail_active a) = active_fails a
test_of_step (fail_waiting w) = (waiting_ends w).0

-- The table of transitions is the relation that describes the life of a job: a transition is
-- accepted, and then moves to the requested state, exactly if it is an edge of the relation.
pub transition-iff-step : (s t : JobState) → (transition s t ≡ some t) ↔ (s ⟶ t)
unfolding transition
transition-iff-step s t = (λ h. step_of_test s t (ground (arith, h)), λ e. rw (test_of_step e))

pub data ◌⟶*◌ : JobState → JobState → Type 0 where
  here : {s : JobState} → s ⟶* s
  next : {s t u : JobState} → s ⟶ t → t ⟶* u → s ⟶* u

terminal_exit : (s t : JobState) → is_terminal s ≡ true → s ⟶ t → (s ≡ failed) × (t ≡ queued)
unfolding is_terminal can_transition
terminal_exit s t h e = ground (arith, test_of_step e)

queued-succeeds : queued ⟶* succeeded
queued-succeeds = next claim (next start (next finish here))

live_succeeds : (s : JobState) → s ≢ cancelled → s ⟶* succeeded
live_succeeds succeeded h = here
live_succeeds cancelled h = absurd (h refl)
live_succeeds queued h = queued-succeeds
live_succeeds leased h = next start (next finish here)
live_succeeds running h = next finish here
live_succeeds pausing h = next pause (next requeue_paused queued-succeeds)
live_succeeds paused h = next requeue_paused queued-succeeds
live_succeeds retry_wait h = next requeue_retry queued-succeeds
live_succeeds failed h = next retry_failed queued-succeeds
live_succeeds cancelling h =
    next (fail_active cancelling_active) (next retry_failed queued-succeeds)

-- A state that is_terminal calls terminal is left, if at all, from failed to queued by an explicit
-- retry. From every state but cancelled the transitions lead on to succeeded.
pub terminal_or_live :
    (s : JobState)
    → (is_terminal s ≡ true → (t : JobState) → s ⟶ t → (s ≡ failed) × (t ≡ queued))
      × (s ≢ cancelled → s ⟶* succeeded)
terminal_or_live s = (λ h t e. terminal_exit s t h e, live_succeeds s)
