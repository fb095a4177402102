-- ===== src/Review.antt =====
-- knovaryn/pipeline/review/review.py, with the revisions, the reviews and the status of the examples
-- in knovaryn/infrastructure/database/repositories.py.
--
-- `handle` and `token` stand for the generator of identifiers, by how many it has issued. What is stored
-- before an error is raised stays, as far as the service goes; a caller's transaction may roll it back.
mod Tests
pub mod Once
pub mod Chain
use knovaryn.Base.{
  ℕ, suc, ◌+◌, Bool, true, false, not, String, str_eq, List, [], ◌∷◌, ◌++◌, Option, none, some,
  filter, map, leb, ◌==◌, if◌then◌else◌,
}

pub data QualityStatus : Type 0 where
  accepted : QualityStatus
  review : QualityStatus
  rejected : QualityStatus
  blocked : QualityStatus

pub data ReviewDecision : Type 0 where
  approve : ReviewDecision
  reject : ReviewDecision
  needs_work : ReviewDecision

-- `content` is what a review carries over unchanged.
pub record TrainingExample : Type 0 where
  pub id : String
  pub content_hash : String
  pub content : String
  pub quality_status : QualityStatus

pub record ExampleRevision : Type 0 where
  pub id : String
  pub example_logical_id : String
  pub revision_id : ℕ
  pub parent_revision_id : Option ℕ
  pub content_hash : String
  pub snapshot : TrainingExample
  pub review_state : Option ReviewDecision
  pub concurrency_token : String

pub record ReviewDecisionRecord : Type 0 where
  pub id : String
  pub example_id : String
  pub revision_id : ℕ
  pub reviewer_principal : String
  pub decision : ReviewDecision
  pub note : String
  pub policy_version : String
  pub concurrency_token : String

pub record Tables : Type 0 where
  pub examples : List TrainingExample
  pub revisions : List ExampleRevision
  pub reviews : List ReviewDecisionRecord
  pub issued : ℕ

pub record ReviewRequest : Type 0 where
  pub example_id : String
  pub revision_id : ℕ
  pub reviewer : String
  pub decision : ReviewDecision
  pub note : String
  pub policy_version : String
  pub concurrency_token : Option String

pub data Reviewed : Type 0 where
  reviewed : ExampleRevision → Reviewed
  not_found : Reviewed
  conflict : Reviewed

unfoldable pub decision_to_status : ReviewDecision → QualityStatus
decision_to_status approve = accepted
decision_to_status reject = rejected
decision_to_status needs_work = review

unfoldable pub get_example : String → List TrainingExample → Option TrainingExample
get_example key [] = none
get_example key (e ∷ es) = if str_eq e.id key then some e else get_example key es

-- ExampleRepository.update_quality_status
unfoldable pub update_quality_status :
    String → QualityStatus → List TrainingExample → List TrainingExample
update_quality_status key status [] = []
update_quality_status key status (e ∷ es) =
    (if str_eq e.id key then record e { quality_status = status } else e)
    ∷ update_quality_status key status es

unfoldable pub revisions_of : String → List ExampleRevision → List ExampleRevision
revisions_of key revs = filter (λ r. str_eq r.example_logical_id key) revs

unfoldable pub later_of : ExampleRevision → Option ExampleRevision → ExampleRevision
later_of r none = r
later_of r (some s) = if leb s.revision_id r.revision_id then r else s

unfoldable pub latest_of : List ExampleRevision → Option ExampleRevision
unfolding later_of
latest_of [] = none
latest_of (r ∷ rs) = some (later_of r (latest_of rs))

-- RevisionRepository.latest
unfoldable pub latest : String → List ExampleRevision → Option ExampleRevision
latest key revs = latest_of (revisions_of key revs)

abbrev pub token_differs : Option String → String → Bool
token_differs none t = false
token_differs (some u) t = not (str_eq u t)

module _ (handle token : ℕ → String) where
  unfoldable pub snapshot :
      TrainingExample → ℕ → Option ℕ → Option ReviewDecision → TrainingExample → ℕ → ExampleRevision
  snapshot e revision_id parent review_state payload issued = record {
    id = handle issued;
    example_logical_id = e.id;
    revision_id = revision_id;
    parent_revision_id = parent;
    content_hash = e.content_hash;
    snapshot = payload;
    review_state = review_state;
    concurrency_token = token (issued + 1);
  }

  unfoldable pub add_revision : ExampleRevision → Tables → Tables
  add_revision r db = record db { revisions = db.revisions ++ r ∷ []; issued = db.issued + 2 }

  -- The revision that the review is against; an example without one gets its first.
  unfoldable pub base_revision :
      TrainingExample → Option ExampleRevision → Tables → ExampleRevision × Tables
  unfolding snapshot add_revision
  base_revision e (some r) db = (r, db)
  base_revision e none db = let r = snapshot e 1 none none e db.issued in (r, add_revision r db)

  abbrev pub with_status : TrainingExample → QualityStatus → TrainingExample
  with_status e status = record e { quality_status = status }

  unfoldable pub decision_record : ReviewRequest → ExampleRevision → ℕ → ReviewDecisionRecord
  decision_record q base issued = record {
    id = handle issued;
    example_id = q.example_id;
    revision_id = base.revision_id;
    reviewer_principal = q.reviewer;
    decision = q.decision;
    note = q.note;
    policy_version = q.policy_version;
    concurrency_token = base.concurrency_token;
  }

  unfoldable pub apply_decision :
      ReviewRequest → TrainingExample → ExampleRevision → Tables → Reviewed × Tables
  unfolding snapshot add_revision decision_record
  apply_decision q e base db =
      let status = decision_to_status q.decision in
      let r =
        snapshot e (base.revision_id + 1) (some base.revision_id) (some q.decision)
          (with_status e status) (db.issued + 1) in
      let db1 = add_revision r (record db {
        reviews = db.reviews ++ decision_record q base db.issued ∷ [];
        issued = db.issued + 1;
      }) in
      (reviewed r, record db1 { examples = update_quality_status q.example_id status db1.examples })

  unfoldable pub decide :
      ReviewRequest → TrainingExample → ExampleRevision × Tables → Reviewed × Tables
  unfolding apply_decision
  decide q e (base, db) =
      if token_differs q.concurrency_token base.concurrency_token
      then (conflict, db)
      else if q.revision_id == base.revision_id
      then apply_decision q e base db
      else (conflict, db)

  unfoldable pub review_found : ReviewRequest → Option TrainingExample → Tables → Reviewed × Tables
  unfolding decide base_revision
  review_found q none db = (not_found, db)
  review_found q (some e) db = decide q e (base_revision e (latest q.example_id db.revisions) db)

  -- ReviewService.review_example
  unfoldable pub review_example : ReviewRequest → Tables → Reviewed × Tables
  unfolding review_found
  review_example q db = review_found q (get_example q.example_id db.examples) db

  unfoldable pub review_all : List ReviewRequest → Tables → Tables
  unfolding review_example
  review_all [] db = db
  review_all (q ∷ qs) db = review_all qs (review_example q db).1
