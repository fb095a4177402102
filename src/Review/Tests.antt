-- ===== src/Review/Tests.antt =====
-- Reviews of one example.
use knovaryn.Base.{ℕ, ◌≡◌, ◌≢◌, refl, String, [], ◌∷◌, none, some, arith}
use knovaryn.Review.{
  ExampleRevision, Tables, ReviewRequest, ReviewDecision, approve, reject, review, reviewed,
  review_example, review_all, revisions_of, get_example, review_found, decide, base_revision,
  apply_decision, latest, latest_of, later_of, snapshot, add_revision, decision_to_status,
}
use knovaryn.Review.Once.{review-once}
use knovaryn.Review.Chain.{IsChainFrom, review_all-IsChained}

abbrev tables : Tables
tables = record {
  examples =
      (record { id = "x"; content_hash = "c"; content = "text"; quality_status = review }) ∷ [];
  revisions = [];
  reviews = [];
  issued = 0;
}

abbrev request : ReviewDecision → ReviewRequest
request decision = record {
  example_id = "x";
  revision_id = 1;
  reviewer = "alice";
  decision = decision;
  note = "";
  policy_version = "";
  concurrency_token = none;
}

abbrev new_handle : ℕ → String
new_handle n = "h"

abbrev new_token : ℕ → String
new_token n = "t"

abbrev second_revision : ExampleRevision
second_revision = record {
  id = "h";
  example_logical_id = "x";
  revision_id = 2;
  parent_revision_id = some 1;
  content_hash = "c";
  snapshot = record {
    id = "x";
    content_hash = "c";
    content = "text";
    quality_status = decision_to_status approve;
  };
  review_state = some approve;
  concurrency_token = "t";
}

first_review :
    (review_example new_handle new_token (request approve) tables).0 ≡ reviewed second_revision
unfolding review_example review_found get_example latest latest_of later_of base_revision decide
    apply_decision snapshot add_revision revisions_of
first_review = refl

review-once_example :
    (review_example new_handle new_token (request reject) (
      review_all new_handle new_token []
        (review_example new_handle new_token (request approve) tables).1)).0
    ≢ reviewed second_revision
review-once_example =
    review-once new_handle new_token (request approve) (request reject) [] tables second_revision
      second_revision first_review refl (omega arith)

no_revisions : (key : String) → IsChainFrom 0 (revisions_of key [])
unfolding revisions_of
no_revisions key = tt

review_all-IsChained_example : IsChainFrom 0 (
    revisions_of "x"
      (review_all new_handle new_token (request approve ∷ request reject ∷ []) tables).revisions)
review_all-IsChained_example =
    review_all-IsChained new_handle new_token (request approve ∷ request reject ∷ []) tables
      no_revisions "x"
