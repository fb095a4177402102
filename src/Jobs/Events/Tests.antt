-- ===== src/Jobs/Events/Tests.antt =====
-- The event log of a job with two events, read in pages of one.
use knovaryn.Base.{ℕ, ◌≡◌, List, [], none, filter, arith}
use knovaryn.Jobs.Events.{JobEvent, of_job, append_event}
use knovaryn.Jobs.Events.Pages.{
  IsNumbered, append_event-IsNumbered, read_pages, read_pages_complete,
}

abbrev event : ℕ → JobEvent
event n = record {
  id = "e";
  job_id = "j";
  sequence = n;
  timestamp = 0;
  level = "info";
  event_type = "stage";
  stage = "parse";
  message = "";
  structured_payload = "";
}

no_events-IsNumbered : IsNumbered []
no_events-IsNumbered = λ key. tt

append_event-IsNumbered_example : IsNumbered (append_event "j" (event 9) [])
append_event-IsNumbered_example = append_event-IsNumbered "j" (event 9) [] no_events-IsNumbered

abbrev log : List JobEvent
log = append_event "j" (event 0) (append_event "j" (event 9) [])

log-IsNumbered : IsNumbered log
log-IsNumbered = append_event-IsNumbered "j" (event 0) _ append_event-IsNumbered_example

read_pages_complete_example : read_pages 3 "j" 1 none log ≡ filter (of_job "j") log
unfolding append_event
read_pages_complete_example = read_pages_complete "j" 0 log log-IsNumbered 3 (omega arith)
