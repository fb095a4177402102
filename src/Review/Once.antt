-- ===== src/Review/Once.antt =====
-- Reviews on the same base revision.
use mathlib.Core.List.{Memᴰ}
use mathlib.Core.List.Memᴰ
use knovaryn.Base.{
  ℕ, ◌≤◌, ◌<◌, ◌≡◌, ◌≢◌, refl, ap, ◌∙◌, String, str_eq, eq_iff, List, [], ◌∷◌, Option, none, some,
  arith, ◌==◌, ==_iff, Bool-cases, inl, inr, filter-Memᴰ, is_some,
}
use knovaryn.Review.{
  TrainingExample, ExampleRevision, Tables, ReviewRequest, reviewed, get_example, revisions_of,
  later_of, latest_of, latest, token_differs, snapshot, add_revision, base_revision, apply_decision,
  decide, review_found, review_example, review_all,
}

pub get_example-id :
    (key : String) (es : List TrainingExample) (e : TrainingExample)
    → get_example key es ≡ some e
    → e.id ≡ key
unfolding get_example
get_example-id key [] e h = absurd (cc h)
get_example-id key (x ∷ es) e h = elim (Bool-cases (str_eq x.id key)) [
  | inl t ↦ ground (arith, h, t, eq_iff x.id key)
  | inr t ↦ get_example-id key es e (ground (arith, h, t))
]

later_of-ge :
    (r : ExampleRevision) (o : Option ExampleRevision) → r.revision_id ≤ (later_of r o).revision_id
unfolding later_of
later_of-ge r none = omega arith
later_of-ge r (some s) = ground arith

later_of-ge_rest :
    (r s : ExampleRevision) (o : Option ExampleRevision)
    → o ≡ some s
    → s.revision_id ≤ (later_of r o).revision_id
unfolding later_of
later_of-ge_rest r s none h = absurd (cc h)
later_of-ge_rest r s (some t) h = ground (arith, h, ap (λ x. is_some x) h)

-- The latest of some revisions has the greatest number.
latest_of-ge :
    (rs : List ExampleRevision) (r : ExampleRevision)
    → Memᴰ r rs
    → (l : ExampleRevision) × (latest_of rs ≡ some l) × (r.revision_id ≤ l.revision_id)
unfolding latest_of
latest_of-ge [] r m = elim m [ ]
latest_of-ge (x ∷ rs) r m = elim (Memᴰ.cases_cons m) [
  | inl q ↦ (
    later_of x (latest_of rs),
    refl,
    omega (arith, later_of-ge x (latest_of rs), ap (λ y. y.revision_id) q),
  )
  | inr n ↦
      let k = latest_of-ge rs r n in
      (
        later_of x (latest_of rs),
        refl,
        omega (arith, k.2, later_of-ge_rest x k.0 (latest_of rs) k.1),
      )
]

-- The example has a revision after the number.
abbrev Advanced : String → ℕ → Tables → Type 0
Advanced key n db =
    (r : ExampleRevision) × Memᴰ r db.revisions × (r.example_logical_id ≡ key) × (n < r.revision_id)

latest-Advanced :
    (key : String) (n : ℕ) (db : Tables)
    → Advanced key n db
    → (l : ExampleRevision) × (latest key db.revisions ≡ some l) × (n < l.revision_id)
unfolding latest revisions_of
latest-Advanced key n db h =
    let m =
      filter-Memᴰ (λ r. str_eq r.example_logical_id key) db.revisions h.1 ((eq_iff _ _).1 h.2) in
    let k = latest_of-ge _ h.0 m in (k.0, k.1, omega (arith, k.2, h.3))

module _ (handle token : ℕ → String) where
  -- Revisions are appended, never removed.
  base_revision-keeps :
      (e : TrainingExample) (o : Option ExampleRevision) (db : Tables) (r : ExampleRevision)
      → Memᴰ r db.revisions
      → Memᴰ r (base_revision handle token e o db).1.revisions
  unfolding base_revision add_revision
  base_revision-keeps e none db r m = Memᴰ.append_left _ m
  base_revision-keeps e (some b) db r m = m

  decide-keeps :
      (q : ReviewRequest) (e : TrainingExample) (base : ExampleRevision) (db : Tables)
      (r : ExampleRevision)
      → Memᴰ r db.revisions
      → Memᴰ r (decide handle token q e (base, db)).1.revisions
  unfolding decide apply_decision add_revision
  decide-keeps q e base db r m =
      elim (Bool-cases (token_differs q.concurrency_token base.concurrency_token)) [
        | inl t ↦ rw (t, decide) m
        | inr t ↦ elim (Bool-cases (q.revision_id == base.revision_id)) [
          | inl u ↦ rw (t, u, decide) (Memᴰ.append_left _ m)
          | inr u ↦ rw (t, u, decide) m
        ]
      ]

  review_found-keeps :
      (q : ReviewRequest) (o : Option TrainingExample) (db : Tables) (r : ExampleRevision)
      → Memᴰ r db.revisions
      → Memᴰ r (review_found handle token q o db).1.revisions
  unfolding review_found
  review_found-keeps q none db r m = m
  review_found-keeps q (some e) db r m =
      let d = base_revision handle token e (latest q.example_id db.revisions) db in
      decide-keeps q e d.0 d.1 r (base_revision-keeps e (latest q.example_id db.revisions) db r m)

  review_all-Advanced :
      (qs : List ReviewRequest) (key : String) (n : ℕ) (db : Tables)
      → Advanced key n db
      → Advanced key n (review_all handle token qs db)
  unfolding review_all review_example
  review_all-Advanced [] key n db h = h
  review_all-Advanced (q ∷ qs) key n db h =
      review_all-Advanced qs key n (review_example handle token q db).1
        (h.0, review_found-keeps q (get_example q.example_id db.examples) db h.0 h.1, h.2, h.3)

  decide-advances :
      (q : ReviewRequest) (e : TrainingExample) (base : ExampleRevision) (db : Tables)
      (r : ExampleRevision)
      → e.id ≡ q.example_id
      → (decide handle token q e (base, db)).0 ≡ reviewed r
      → Advanced q.example_id q.revision_id (decide handle token q e (base, db)).1
  unfolding decide apply_decision add_revision snapshot
  decide-advances q e base db r i h =
      elim (Bool-cases (token_differs q.concurrency_token base.concurrency_token)) [
        | inl t ↦ absurd (cc (rw (t, decide) at h))
        | inr t ↦ elim (Bool-cases (q.revision_id == base.revision_id)) [
          | inl u ↦
              rw (t, u, decide)
                (_, Memᴰ.append_right _ (Memᴰ.head refl), i, omega (arith, (==_iff _ _).0 u))
          | inr u ↦ absurd (cc (rw (t, u, decide) at h))
        ]
      ]

  review_found-advances :
      (q : ReviewRequest) (o : Option TrainingExample) (db : Tables) (r : ExampleRevision)
      → ((e : TrainingExample) → o ≡ some e → e.id ≡ q.example_id)
      → (review_found handle token q o db).0 ≡ reviewed r
      → Advanced q.example_id q.revision_id (review_found handle token q o db).1
  unfolding review_found
  review_found-advances q none db r i h = absurd (cc h)
  review_found-advances q (some e) db r i h =
      let d = base_revision handle token e (latest q.example_id db.revisions) db in
      decide-advances q e d.0 d.1 r (i e refl) h

  decide-refuses :
      (q : ReviewRequest) (e : TrainingExample) (base : ExampleRevision) (db : Tables)
      (r : ExampleRevision)
      → q.revision_id < base.revision_id
      → (decide handle token q e (base, db)).0 ≢ reviewed r
  unfolding decide
  decide-refuses q e base db r lt h = ground (arith, h, ==_iff q.revision_id base.revision_id)

  review_found-refuses :
      (q : ReviewRequest) (o : Option TrainingExample) (db : Tables) (r l : ExampleRevision)
      → latest q.example_id db.revisions ≡ some l
      → q.revision_id < l.revision_id
      → (review_found handle token q o db).0 ≢ reviewed r
  unfolding review_found base_revision
  review_found-refuses q none db r l e lt h = cc h
  review_found-refuses q (some x) db r l e lt h =
      decide-refuses q x l db r lt (rw (e, base_revision) at h)

  review-advances :
      (q : ReviewRequest) (db : Tables) (r : ExampleRevision)
      → (review_example handle token q db).0 ≡ reviewed r
      → Advanced q.example_id q.revision_id (review_example handle token q db).1
  unfolding review_example
  review-advances q db r h =
      review_found-advances q (get_example q.example_id db.examples) db r
        (get_example-id q.example_id db.examples) h

  Advanced-refuses :
      (q : ReviewRequest) (key : String) (n : ℕ) (db : Tables) (r : ExampleRevision)
      → q.example_id ≡ key
      → q.revision_id ≤ n
      → Advanced key n db
      → (review_example handle token q db).0 ≢ reviewed r
  unfolding review_example
  Advanced-refuses q key n db r same le h =
      let l = latest-Advanced key n db h in
      review_found-refuses q (get_example q.example_id db.examples) db r l.0
        (ap (λ k. latest k db.revisions) same ∙ l.1) (omega (arith, l.2))

  -- Once a review has succeeded on a base revision, no review of the example on that revision or an
  -- earlier one succeeds, whatever reviews come between.
  pub review-once :
      (q again : ReviewRequest) (between : List ReviewRequest) (db : Tables) (r s : ExampleRevision)
      → (review_example handle token q db).0 ≡ reviewed r
      → again.example_id ≡ q.example_id
      → again.revision_id ≤ q.revision_id
      → (review_example handle token again
          (review_all handle token between (review_example handle token q db).1)).0
        ≢ reviewed s
  review-once q again between db r s h same le =
      Advanced-refuses again q.example_id q.revision_id _ s same le
        (review_all-Advanced between q.example_id q.revision_id _ (review-advances q db r h))
