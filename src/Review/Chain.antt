-- ===== src/Review/Chain.antt =====
-- The numbers and the parents of the revisions of an example.
use mathlib.Core.List.{append-nil}
use knovaryn.Base.{
  ℕ, ◌+◌, ◌<◌, ◌≡◌, refl, ap, String, str_eq, eq_iff, List, [], ◌∷◌, ◌++◌, Option, none, some,
  filter, arith, ◌==◌, if◌then◌else◌, Bool-cases, inl, inr, filter-append, length, length-append,
}
use knovaryn.Review.{
  TrainingExample, ExampleRevision, Tables, ReviewRequest, get_example, revisions_of, later_of,
  latest_of, latest, token_differs, snapshot, add_revision, base_revision, apply_decision, decide,
  review_found, review_example, review_all,
}
use knovaryn.Review.Once.{get_example-id}

abbrev pub parent_of : ℕ → Option ℕ
parent_of k = if k == 0 then none else some k

-- The revisions have the numbers from k + 1 on, and each names the one before it as its parent.
abbrev pub IsChainFrom : ℕ → List ExampleRevision → Type 0
IsChainFrom k [] = Unit
IsChainFrom k (r ∷ rs) =
    (r.revision_id ≡ k + 1) × (r.parent_revision_id ≡ parent_of k) × IsChainFrom (k + 1) rs

later_of-second : (r s : ExampleRevision) → r.revision_id < s.revision_id → later_of r (some s) ≡ s
unfolding later_of
later_of-second r s h = ground (arith, h)

abbrev number_of : Option ExampleRevision → ℕ
number_of none = 0
number_of (some r) = r.revision_id

-- The number of the latest of a chain.
latest_of-IsChain :
    (k : ℕ) (rs : List ExampleRevision) (l : ExampleRevision)
    → IsChainFrom k rs
    → latest_of rs ≡ some l
    → l.revision_id ≡ k + length rs
unfolding latest_of later_of
latest_of-IsChain k [] l h e = absurd (cc e)
latest_of-IsChain k (r ∷ []) l h e = ground (arith, ap number_of e, h.0)
latest_of-IsChain k (r ∷ s ∷ rs) l h e =
    let t = later_of s (latest_of rs) in
    let n = latest_of-IsChain (k + 1) (s ∷ rs) t h.2 refl in
    let q = later_of-second r t (omega (arith, n, h.0)) in
    ground (arith, ap number_of e, ap (λ x. x.revision_id) q, n)

latest_of-none : (rs : List ExampleRevision) → latest_of rs ≡ none → rs ≡ []
unfolding latest_of
latest_of-none [] e = refl
latest_of-none (r ∷ rs) e = absurd (cc e)

append-IsChain :
    (k : ℕ) (rs : List ExampleRevision) (r : ExampleRevision)
    → IsChainFrom k rs
    → r.revision_id ≡ k + length rs + 1
    → r.parent_revision_id ≡ parent_of (k + length rs)
    → IsChainFrom k (rs ++ r ∷ [])
append-IsChain k [] r h i p = (omega arith, ground (arith, p), tt)
append-IsChain k (x ∷ rs) r h i p =
    (h.0, h.1, append-IsChain (k + 1) rs r h.2 (omega arith) (ground (arith, p)))

-- The revisions of an example.
abbrev IsChained : String → List ExampleRevision → Type 0
IsChained key revs = IsChainFrom 0 (revisions_of key revs)

add-IsChained :
    (key : String) (r : ExampleRevision) (revs : List ExampleRevision)
    → IsChained key revs
    → (r.example_logical_id ≡ key
        → (r.revision_id ≡ length (revisions_of key revs) + 1)
          × (r.parent_revision_id ≡ parent_of (length (revisions_of key revs))))
    → IsChained key (revs ++ r ∷ [])
unfolding revisions_of
add-IsChained key r revs h f =
    rw (filter-append (λ x. str_eq x.example_logical_id key) revs (r ∷ []))
      (elim (Bool-cases (str_eq r.example_logical_id key)) [
        | inl e ↦
            let n = f ((eq_iff _ _).0 e) in
            rw e (
              append-IsChain 0 (revisions_of key revs) r h (omega (arith, n.0))
                (ground (arith, n.1)))
        | inr e ↦ rw (e, append-nil (revisions_of key revs)) h
      ])

latest_of-some :
    (rs : List ExampleRevision) (l : ExampleRevision) → latest_of rs ≡ some l → 0 < length rs
unfolding latest_of
latest_of-some [] l e = absurd (cc e)
latest_of-some (r ∷ rs) l e = omega arith

-- A chain has the number of its latest revision as its length.
latest-length :
    (key : String) (revs : List ExampleRevision) (l : ExampleRevision)
    → IsChained key revs
    → latest key revs ≡ some l
    → l.revision_id ≡ length (revisions_of key revs)
unfolding latest
latest-length key revs l h e = omega (arith, latest_of-IsChain 0 (revisions_of key revs) l h e)

module _ (handle token : ℕ → String) where
  -- What a base revision is to its tables.
  abbrev IsBase : TrainingExample → ExampleRevision → Tables → Type 0
  IsBase e base db =
      (base.revision_id ≡ length (revisions_of e.id db.revisions)) × (0 < base.revision_id)

  add_revision-IsBase :
      (e : TrainingExample) (r : ExampleRevision) (db : Tables)
      → r.example_logical_id ≡ e.id
      → r.revision_id ≡ length (revisions_of e.id db.revisions) + 1
      → IsBase e r (add_revision handle token r db)
  unfolding add_revision revisions_of
  add_revision-IsBase e r db i n = (
    rw
        (
          filter-append (λ x. str_eq x.example_logical_id e.id) db.revisions (r ∷ []),
          (eq_iff r.example_logical_id e.id).1 i,
        )
        (omega (
          arith,
          n,
          length-append (filter (λ x. str_eq x.example_logical_id e.id) db.revisions) (r ∷ []),
        )),
    omega (arith, n),
  )

  base_revision-IsBase :
      (e : TrainingExample) (o : Option ExampleRevision) (db : Tables)
      → latest e.id db.revisions ≡ o
      → IsChained e.id db.revisions
      → IsBase e (base_revision handle token e o db).0 (base_revision handle token e o db).1
  unfolding base_revision
  base_revision-IsBase e (some r) db q h =
      let n = latest-length e.id db.revisions r h q in
      (n, omega (arith, n, latest_of-some (revisions_of e.id db.revisions) r (unfold latest in q)))
  base_revision-IsBase e none db q h =
      add_revision-IsBase e (snapshot handle token e 1 none none e db.issued) db
        (unfold snapshot in refl)
        (unfold snapshot in
          rw (latest_of-none (revisions_of e.id db.revisions) (unfold latest in q)) refl)

  base_revision-IsChained :
      (key : String) (e : TrainingExample) (o : Option ExampleRevision) (db : Tables)
      → latest e.id db.revisions ≡ o
      → IsChained key db.revisions
      → IsChained key (base_revision handle token e o db).1.revisions
  unfolding base_revision add_revision snapshot
  base_revision-IsChained key e (some r) db q h = h
  base_revision-IsChained key e none db q h = add-IsChained key _ db.revisions h (λ i.
      let empty = latest_of-none (revisions_of e.id db.revisions) (unfold latest in q) in
      rw (← i, empty) (refl, refl))

  decide-IsChained :
      (key : String) (q : ReviewRequest) (e : TrainingExample) (base : ExampleRevision)
      (db : Tables)
      → IsBase e base db
      → IsChained key db.revisions
      → IsChained key (decide handle token q e (base, db)).1.revisions
  unfolding decide apply_decision add_revision snapshot
  decide-IsChained key q e base db b h =
      elim (Bool-cases (token_differs q.concurrency_token base.concurrency_token)) [
        | inl t ↦ rw (t, decide) h
        | inr t ↦ elim (Bool-cases (q.revision_id == base.revision_id)) [
          | inl u ↦
              rw (t, u, decide)
                (add-IsChained key _ db.revisions h
                  (λ i. rw (← i) (omega (arith, b), ground (arith, b))))
          | inr u ↦ rw (t, u, decide) h
        ]
      ]

  review_found-IsChained :
      (key : String) (q : ReviewRequest) (o : Option TrainingExample) (db : Tables)
      → ((e : TrainingExample) → o ≡ some e → e.id ≡ q.example_id)
      → ((k : String) → IsChained k db.revisions)
      → IsChained key (review_found handle token q o db).1.revisions
  unfolding review_found
  review_found-IsChained key q none db i h = h key
  review_found-IsChained key q (some e) db i h =
      let o = latest q.example_id db.revisions in
      let d = base_revision handle token e o db in
      let l = ap (λ k. latest k db.revisions) (i e refl) in
      decide-IsChained key q e d.0 d.1 (base_revision-IsBase e o db l (h e.id))
        (base_revision-IsChained key e o db l (h key))

  -- Reviews keep the revisions of each example, if they were so before, numbered from 1 without a gap, in the order in which
  -- they were added, with each revision's parent the one before it, and the first without a parent.
  pub review_all-IsChained :
      (qs : List ReviewRequest) (db : Tables)
      → ((key : String) → IsChainFrom 0 (revisions_of key db.revisions))
      → (key : String) → IsChainFrom 0 (revisions_of key (review_all handle token qs db).revisions)
  unfolding review_all review_example
  review_all-IsChained [] db h key = h key
  review_all-IsChained (q ∷ qs) db h key =
      review_all-IsChained qs (review_example handle token q db).1
        (λ k.
          review_found-IsChained k q (get_example q.example_id db.examples) db
            (get_example-id q.example_id db.examples) h)
        key
