-- ===== src/Jobs/State.antt =====
-- knovaryn/pipeline/jobs/state.py: the job states, the table of transitions and the state machine.
pub mod Graph
use knovaryn.Base.{
  ℕ, ◌≡◌, Bool, true, false, List, [], ◌∷◌, ◌||◌, Option, none, some, if◌then◌else◌,
}

pub data JobState : Type 0 where
  queued leased running pausing paused retry_wait succeeded failed cancelling cancelled : JobState

-- The position in the enumeration; two states are equal if it is.
abbrev pub index : JobState → ℕ
index queued = 0
index leased = 1
index running = 2
index pausing = 3
index paused = 4
index retry_wait = 5
index succeeded = 6
index failed = 7
index cancelling = 8
index cancelled = 9

abbrev pub state_eq : JobState → JobState → Bool
state_eq queued queued = true
state_eq leased leased = true
state_eq running running = true
state_eq pausing pausing = true
state_eq paused paused = true
state_eq retry_wait retry_wait = true
state_eq succeeded succeeded = true
state_eq failed failed = true
state_eq cancelling cancelling = true
state_eq cancelled cancelled = true
state_eq _ _ = false

abbrev pub mem_state : JobState → List JobState → Bool
mem_state s [] = false
mem_state s (t ∷ ts) = state_eq s t || mem_state s ts

-- _TRANSITIONS
unfoldable pub transitions : JobState → List JobState
transitions queued = leased ∷ cancelled ∷ failed ∷ []
transitions leased = running ∷ queued ∷ cancelled ∷ failed ∷ []
transitions running = pausing ∷ retry_wait ∷ succeeded ∷ failed ∷ cancelling ∷ []
transitions pausing = paused ∷ failed ∷ cancelling ∷ []
transitions paused = queued ∷ failed ∷ cancelled ∷ []
transitions retry_wait = queued ∷ failed ∷ cancelled ∷ []
transitions cancelling = cancelled ∷ failed ∷ []
transitions succeeded = []
transitions failed = queued ∷ []
transitions cancelled = []

unfoldable pub is_terminal : JobState → Bool
is_terminal s = mem_state s (succeeded ∷ failed ∷ cancelled ∷ [])

unfoldable pub can_transition : JobState → JobState → Bool
unfolding transitions
can_transition current to = mem_state to (transitions current)

-- `none` is the JobStateError; else the new current state, which is also the value returned.
unfoldable pub transition : JobState → JobState → Option JobState
unfolding can_transition
transition current to = if can_transition current to then some to else none
