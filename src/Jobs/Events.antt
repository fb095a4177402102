-- ===== src/Jobs/Events.antt =====
-- knovaryn/infrastructure/database/repositories.py: JobRepository.append_event and get_events, the
-- event log of a job and its pages.
pub mod Pages
mod Tests
use knovaryn.Base.{
  ℕ, ◌+◌, Bool, true, false, ◌&&◌, String, str_eq, List, [], ◌∷◌, ◌++◌, Option, none, some, ltb,
  filter, length, take, get_last?, if◌then◌else◌,
}
use knovaryn.Jobs.Sequence.{next_seq, order_by}

pub record JobEvent : Type 0 where
  pub id : String
  pub job_id : String
  pub sequence : ℕ
  pub timestamp : ℕ
  pub level : String
  pub event_type : String
  pub stage : String
  pub message : String
  pub structured_payload : String

abbrev pub sequence_of : JobEvent → ℕ
sequence_of e = e.sequence

abbrev pub of_job : String → JobEvent → Bool
of_job job_id e = str_eq e.job_id job_id

-- The row that is added carries the next sequence number of its job.
unfoldable pub append_event : String → JobEvent → List JobEvent → List JobEvent
unfolding next_seq
append_event job_id event rows =
    rows
    ++ record event {
      job_id = job_id;
      sequence = next_seq sequence_of (filter (of_job job_id) rows);
    }
      ∷ []

abbrev pub past : Option ℕ → JobEvent → Bool
past none e = true
past (some c) e = ltb c e.sequence

-- The rows that the `select` may return, before its limit.
unfoldable pub selected : String → Option ℕ → List JobEvent → List JobEvent
unfolding order_by
selected job_id cursor rows =
    order_by sequence_of (filter (past cursor) (filter (of_job job_id) rows))

abbrev pub sequence? : Option JobEvent → Option ℕ
sequence? none = none
sequence? (some e) = some e.sequence

-- `rows` is what the `select` with its limit of one more than the page returned.
unfoldable pub page_of : ℕ → List JobEvent → List JobEvent × Option ℕ
page_of limit rows = (
  take limit rows,
  if ltb limit (length rows) then sequence? (get_last? (take limit rows)) else none,
)

unfoldable pub get_events : String → Option ℕ → ℕ → List JobEvent → List JobEvent × Option ℕ
unfolding selected page_of
get_events job_id cursor limit rows = page_of limit (take (limit + 1) (selected job_id cursor rows))
