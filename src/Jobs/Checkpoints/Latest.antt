-- ===== src/Jobs/Checkpoints/Latest.antt =====
-- knovaryn/infrastructure/database/repositories.py: JobCheckpointRepository, which reads and writes
-- the same table and takes the sequence number from its caller.
use knovaryn.Base.{
  ◌<◌, ◌≡◌, refl, ap, String, eq_iff, List, [], ◌∷◌, ◌++◌, Option, none, some, filter,
  filter-append, leb, if◌then◌else◌, arith, map,
}
use knovaryn.Jobs.Sequence.{next_seq, max_seq, order_by}
use knovaryn.Jobs.Checkpoints.{
  Checkpoint, number_of, for_job, record_checkpoint, is_done, first_of_each,
}

-- JobCheckpointRepository.record
unfoldable pub record_row : Checkpoint → List Checkpoint → List Checkpoint
record_row checkpoint rows = rows ++ checkpoint ∷ []

-- JobCheckpointRepository.completed_stages
unfoldable pub completed_stages : String → List Checkpoint → List String
unfolding first_of_each order_by
completed_stages job_id rows =
    first_of_each [] (map (λ c. c.stage_name) (order_by number_of (filter (is_done job_id) rows)))

-- The first row by descending sequence number.
unfoldable pub later_row : Checkpoint → Option Checkpoint → Checkpoint
later_row c none = c
later_row c (some d) = if leb d.checkpoint_sequence c.checkpoint_sequence then c else d

unfoldable pub latest_row : List Checkpoint → Option Checkpoint
unfolding later_row
latest_row [] = none
latest_row (c ∷ rows) = some (later_row c (latest_row rows))

-- JobCheckpointRepository.get_latest
unfoldable pub get_latest : String → List Checkpoint → Option Checkpoint
unfolding latest_row
get_latest job_id rows = latest_row (filter (for_job job_id) rows)

later_row-below :
    (c d : Checkpoint) → c.checkpoint_sequence < d.checkpoint_sequence → later_row c (some d) ≡ d
unfolding later_row
later_row-below c d h = ground (arith, h)

latest_row-append :
    (rows : List Checkpoint) (d : Checkpoint)
    → max_seq number_of rows < d.checkpoint_sequence
    → latest_row (rows ++ d ∷ []) ≡ some d
unfolding latest_row max_seq
latest_row-append [] d h = unfold later_row in refl
latest_row-append (c ∷ rows) d h =
    rw (latest_row-append rows d (omega arith)) (ap some (later_row-below c d (omega arith)))

-- After a checkpoint has been recorded through the job repository, the latest checkpoint of its job is
-- that one, with the sequence number that the table has given it, whatever number it came with.
pub get_latest-record_checkpoint :
    (payload : Checkpoint) (rows : List Checkpoint)
    → get_latest payload.job_id (record_checkpoint payload rows)
      ≡ some (record payload {
        checkpoint_sequence = next_seq number_of (filter (for_job payload.job_id) rows);
      })
unfolding get_latest record_checkpoint
get_latest-record_checkpoint payload rows =
    rw (filter-append (for_job payload.job_id) rows, (eq_iff payload.job_id payload.job_id).1 refl)
      (latest_row-append (filter (for_job payload.job_id) rows) _ (unfold next_seq in omega arith))
