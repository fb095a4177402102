-- ===== src/Jobs/Store.antt =====
-- knovaryn/infrastructure/database/repositories.py, JobRepository: the job table with its leases.
-- A table is the list of its rows. Times are whole microseconds, as `datetime` counts them.
pub mod Lease
pub mod Held
pub mod Exclusion
pub mod Cancel
use knovaryn.Base.{
  ℕ, suc, ◌+◌, ◌*◌, ◌≡◌, Bool, true, false, ◌&&◌, ◌||◌, String, str_eq, List, [], ◌∷◌, ◌++◌, map,
  Option, none, some, is_some, ltb, leb, filter, count_if, if◌then◌else◌, contains,
}
use knovaryn.Jobs.State.{JobState, queued, leased, running, retry_wait, mem_state}

pub record Job : Type 0 where
  pub id : String
  pub owner_principal : String
  pub idempotency_key : Option String
  pub created_at : ℕ
  pub state : JobState
  pub current_stage : Option String
  pub progress_current : ℕ
  pub progress_total : ℕ
  pub lease_owner : Option String
  pub lease_expires_at : Option ℕ
  pub heartbeat_at : Option ℕ
  pub attempt_count : ℕ
  pub cancellation_requested_at : Option ℕ
  pub estimated_cost : ℕ
  pub actual_cost : ℕ
  pub started_at : Option ℕ
  pub finished_at : Option ℕ
  pub error_code : String
  pub error_summary : String

-- timedelta(seconds=1)
abbrev pub second : ℕ
second = 1000000

abbrev pub has_id : String → Job → Bool
has_id job_id r = str_eq r.id job_id

-- The statement `update(JobDB).where(JobDB.id == job_id)`, with what it does to a row.
unfoldable pub update_where : String → (Job → Job) → List Job → List Job
update_where job_id f [] = []
update_where job_id f (r ∷ rows) = (if has_id job_id r then f r else r) ∷ update_where job_id f rows

unfoldable pub get : String → List Job → Option Job
get job_id [] = none
get job_id (r ∷ rows) = if has_id job_id r then some r else get job_id rows

-- The primary key refuses a second row with the same id.
unfoldable pub create : Job → List Job → List Job
create job rows = if is_some (get job.id rows) then rows else rows ++ job ∷ []

abbrev same_key : String → Option String → Bool
same_key key none = false
same_key key (some k) = str_eq k key

unfoldable pub get_by_idempotency : String → List Job → Option Job
get_by_idempotency key [] = none
get_by_idempotency key (r ∷ rows) =
    if same_key key r.idempotency_key then some r else get_by_idempotency key rows

-- func.coalesce
abbrev pub coalesce {ℓ} : {A : Type ℓ} → Option A → Option A → Option A
coalesce (some a) b = some a
coalesce none b = b

-- The columns that `save` writes; the cancel stamp of the row is kept.
abbrev pub save_row : Job → Job → Job
save_row job r = record r {
  state = job.state;
  current_stage = job.current_stage;
  progress_current = job.progress_current;
  progress_total = job.progress_total;
  lease_owner = job.lease_owner;
  lease_expires_at = job.lease_expires_at;
  heartbeat_at = job.heartbeat_at;
  attempt_count = job.attempt_count;
  cancellation_requested_at = coalesce r.cancellation_requested_at job.cancellation_requested_at;
  estimated_cost = job.estimated_cost;
  actual_cost = job.actual_cost;
  started_at = job.started_at;
  finished_at = job.finished_at;
  error_code = job.error_code;
  error_summary = job.error_summary;
}

unfoldable pub save : Job → List Job → List Job
unfolding update_where
save job rows = update_where job.id (save_row job) rows

abbrev pub lease_open : ℕ → Option ℕ → Bool
lease_open now none = true
lease_open now (some t) = ltb t now

-- The `where` clause of `claim_eligible`.
unfoldable pub eligible : ℕ → Job → Bool
eligible now r =
    mem_state r.state (queued ∷ retry_wait ∷ leased ∷ running ∷ [])
    && (mem_state r.state (queued ∷ retry_wait ∷ []) || lease_open now r.lease_expires_at)

-- The rows that the `select` sees: eligible, and not locked by another transaction.
unfoldable pub claimable : ℕ → List String → Job → Bool
unfolding eligible
claimable now locked r = eligible now r && (if contains locked r.id then false else true)

-- `order_by(created_at).limit(1)`; the first row of the table where two are equally old.
unfoldable pub older_of : Job → Option Job → Job
older_of r none = r
older_of r (some s) = if leb r.created_at s.created_at then r else s

unfoldable pub oldest : List Job → Option Job
oldest [] = none
oldest (r ∷ rows) = some (older_of r (oldest rows))

abbrev pub lease_to : String → ℕ → ℕ → Job → Job
lease_to worker now lease_seconds r = record r {
  state = leased;
  lease_owner = some worker;
  lease_expires_at = some (now + lease_seconds * second);
  heartbeat_at = some now;
  attempt_count = r.attempt_count + 1;
}

unfoldable pub take_row : ℕ → String → ℕ → List Job → Option Job → Option Job × List Job
unfolding update_where
take_row now worker lease_seconds rows none = (none, rows)
take_row now worker lease_seconds rows (some r) = (
  some (lease_to worker now lease_seconds r),
  update_where r.id (lease_to worker now lease_seconds) rows,
)

-- `locked` are the ids of the rows that other transactions hold (SKIP LOCKED).
unfoldable pub claim_eligible : ℕ → String → ℕ → List String → List Job → Option Job × List Job
unfolding take_row oldest
claim_eligible now worker lease_seconds locked rows =
    take_row now worker lease_seconds rows (oldest (filter (claimable now locked) rows))

abbrev is_owner : String → Option String → Bool
is_owner worker none = false
is_owner worker (some w) = str_eq w worker

abbrev pub extend : ℕ → ℕ → Job → Job
extend now lease_seconds r = record r {
  heartbeat_at = some now;
  lease_expires_at = some (now + lease_seconds * second);
}

abbrev pub renewable : String → Job → Bool
renewable worker r = is_owner worker r.lease_owner && mem_state r.state (leased ∷ running ∷ [])

unfoldable pub renew_row : ℕ → String → String → ℕ → List Job → Option Job → Bool × List Job
unfolding update_where
renew_row now job_id worker lease_seconds rows none = (false, rows)
renew_row now job_id worker lease_seconds rows (some r) =
    if renewable worker r
    then (true, update_where job_id (extend now lease_seconds) rows)
    else (false, rows)

unfoldable pub renew_lease : ℕ → String → String → ℕ → List Job → Bool × List Job
unfolding get renew_row
renew_lease now job_id worker lease_seconds rows =
    renew_row now job_id worker lease_seconds rows (get job_id rows)

abbrev in_progress : Option String → Job → Bool
in_progress none r = mem_state r.state (leased ∷ running ∷ [])
in_progress (some p) r = mem_state r.state (leased ∷ running ∷ []) && str_eq r.owner_principal p

-- An empty principal counts every owner, as no principal does.
unfoldable pub count_in_progress : Option String → List Job → ℕ
count_in_progress none rows = count_if (in_progress none) rows
count_in_progress (some p) rows =
    if str_eq p "" then count_if (in_progress none) rows else count_if (in_progress (some p)) rows

-- A transaction of the control plane or of a worker on the job table.
pub data Request : Type 0 where
  submit : Job → Request
  write : Job → Request
  claim : ℕ → String → ℕ → List String → Request
  renew : ℕ → String → String → ℕ → Request

unfoldable pub execute : Request → List Job → List Job
execute (submit job) rows = create job rows
execute (write job) rows = save job rows
execute (claim now worker lease_seconds locked) rows =
    (claim_eligible now worker lease_seconds locked rows).1
execute (renew now job_id worker lease_seconds) rows =
    (renew_lease now job_id worker lease_seconds rows).1

unfoldable pub execute_all : List Request → List Job → List Job
unfolding execute
execute_all [] rows = rows
execute_all (q ∷ rest) rows = execute_all rest (execute q rows)
