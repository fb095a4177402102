-- ===== src/Jobs/Checkpoints.antt =====
-- knovaryn/infrastructure/database/repositories.py: JobRepository.record_checkpoint and
-- completed_checkpoints, the durable stage checkpoints of a job.
pub mod Latest
use knovaryn.Base.{
  ℕ, ◌≡◌, refl, ap, ◌∙◌, Bool, false, ◌&&◌, ◌||◌, String, str_eq, eq_iff, List, [], ◌∷◌, ◌++◌,
  filter, contains, map, if◌then◌else◌, arith, Bool-cases, inl, inr, any, any-filter, any-append,
}
use knovaryn.Jobs.Sequence.{next_seq, order_by, any-order_by}

pub record Checkpoint : Type 0 where
  pub job_id : String
  pub stage_name : String
  pub stage_version : String
  pub checkpoint_key : String
  pub checkpoint_sequence : ℕ
  pub status : String
  pub worker_id : String
  pub error : String

abbrev pub number_of : Checkpoint → ℕ
number_of c = c.checkpoint_sequence

abbrev pub for_job : String → Checkpoint → Bool
for_job job_id c = str_eq c.job_id job_id

-- The sequence number that the caller sends is not used.
unfoldable pub record_checkpoint : Checkpoint → List Checkpoint → List Checkpoint
unfolding next_seq
record_checkpoint payload rows =
    rows
    ++ record payload {
      checkpoint_sequence = next_seq number_of (filter (for_job payload.job_id) rows);
    }
      ∷ []

abbrev pub is_done : String → Checkpoint → Bool
is_done job_id c = for_job job_id c && (str_eq c.status "completed" || str_eq c.status "skipped")

-- The loop over the names, with the names seen so far.
unfoldable pub first_of_each : List String → List String → List String
first_of_each seen [] = []
first_of_each seen (name ∷ rows) =
    let again = first_of_each seen rows in
    let fresh = first_of_each (name ∷ seen) rows in
    if contains seen name then again else name ∷ fresh

unfoldable pub completed_checkpoints : String → List Checkpoint → List String
unfolding first_of_each order_by
completed_checkpoints job_id rows =
    first_of_each [] (map (λ c. c.stage_name) (order_by number_of (filter (is_done job_id) rows)))

contains-first_of_each :
    (seen names : List String) (a : String)
    → contains (first_of_each seen names) a ≡ (if contains seen a then false else contains names a)
unfolding first_of_each
contains-first_of_each seen [] a = ground arith
contains-first_of_each seen (name ∷ names) a = ground (
  arith,
  contains-first_of_each seen names a,
  contains-first_of_each (name ∷ seen) names a,
  eq_iff name a,
)

-- The names in a list are all different.
abbrev pub Distinct : List String → Type 0
Distinct [] = Unit
Distinct (x ∷ xs) = (contains xs x ≡ false) × Distinct xs

first_of_each-Distinct : (seen names : List String) → Distinct (first_of_each seen names)
unfolding first_of_each
first_of_each-Distinct seen [] = tt
first_of_each-Distinct seen (name ∷ names) = elim (Bool-cases (contains seen name)) [
  | inl e ↦ rw e (first_of_each-Distinct seen names)
  | inr e ↦ rw e (
    ground (arith, contains-first_of_each (name ∷ seen) names name, eq_iff name name),
    first_of_each-Distinct (name ∷ seen) names,
  )
]

contains-map :
    (rows : List Checkpoint) (a : String)
    → contains (map (λ c. c.stage_name) rows) a ≡ any (λ c. str_eq c.stage_name a) rows
contains-map [] a = refl
contains-map (c ∷ rows) a = ap (λ b. str_eq c.stage_name a || b) (contains-map rows a)

-- The completed stages of a job are listed once each, and they are exactly the stages of which the
-- table has a row of that job whose status is completed or skipped.
pub completed_checkpoints_lem :
    (job_id : String) (rows : List Checkpoint)
    → Distinct (completed_checkpoints job_id rows)
      × ((name : String)
          → contains (completed_checkpoints job_id rows) name
            ≡ any (λ c. is_done job_id c && str_eq c.stage_name name) rows)
unfolding completed_checkpoints
completed_checkpoints_lem job_id rows = (
  first_of_each-Distinct [] _,
  λ name.
      contains-first_of_each [] _ name
      ∙ contains-map _ name
      ∙ any-order_by number_of _ (filter (is_done job_id) rows)
      ∙ any-filter (is_done job_id) _ rows,
)

-- A recorded checkpoint adds its stage to the completed stages of its job if its status is
-- completed or skipped, and changes the completed stages in no other way.
pub contains-record_checkpoint :
    (job_id name : String) (payload : Checkpoint) (rows : List Checkpoint)
    → contains (completed_checkpoints job_id (record_checkpoint payload rows)) name ≡ (
        contains (completed_checkpoints job_id rows) name
        || (is_done job_id payload && str_eq payload.stage_name name))
unfolding record_checkpoint
contains-record_checkpoint job_id name payload rows =
    (completed_checkpoints_lem job_id _).1 name
    ∙ any-append _ rows _
    ∙ ground (arith, (completed_checkpoints_lem job_id rows).1 name)
