-- ===== src/Jobs/Events/Pages.antt =====
-- The numbers of the events of a job, and a client that reads their pages.
use mathlib.Core.List.{append-nil}
use native.Mathlib.Decide.{dec_lt}
use native.Mathlib.Numerals.{add-one}
use knovaryn.Base.{
  ◌⊎◌, take_all, take-take, length-take, length-drop, lt→ltb, take-append-drop, ℕ, zero, suc, ◌+◌,
  ◌≤◌, ◌<◌, ◌≡◌, refl, sym, ap, ◌∙◌, true, String, str_eq, eq_iff, List, [], ◌∷◌, ◌++◌, Option,
  none, some, ltb, filter, filter-append, length, take, drop, arith, Bool-cases, inl, inr,
}
use knovaryn.Jobs.Sequence.{
  next_seq, Ascends, order_by-Ascends, filter-Ascends, append-Ascends, after, after-all,
  after-last_of_take, after-after, after-Ascends,
}
use knovaryn.Jobs.Events.{
  JobEvent, sequence_of, of_job, append_event, past, selected, page_of, get_events,
}

-- The events of every job ascend, in the order in which they were added.
abbrev pub IsNumbered : List JobEvent → Type 0
IsNumbered rows = (job_id : String) → Ascends sequence_of 0 (filter (of_job job_id) rows)

-- Adding an event keeps the log numbered, whatever job and number the event came with.
pub append_event-IsNumbered :
    (job_id : String) (event : JobEvent) (rows : List JobEvent)
    → IsNumbered rows
    → IsNumbered (append_event job_id event rows)
unfolding append_event
append_event-IsNumbered job_id event rows h key =
    rw (filter-append (of_job key) rows) (elim (Bool-cases (str_eq job_id key)) [
      | inl e ↦
          rw (e, (eq_iff job_id key).0 e)
            (append-Ascends sequence_of 0 (filter (of_job key) rows) _ (h key)
              (unfold next_seq in omega arith) (unfold next_seq in omega arith))
      | inr e ↦ rw (e, append-nil) (h key)
    ])

-- A client that reads a job's events page by page, following the cursors; it stops after `fuel`
-- pages if there are still more.
unfoldable pub read_pages : ℕ → String → ℕ → Option ℕ → List JobEvent → List JobEvent
read_pages zero job_id limit cursor rows = []
read_pages (suc fuel) job_id limit cursor rows =
    let (page, next) = get_events job_id cursor limit rows in
    page ++ (elim next [ none ↦ [] | some c ↦ read_pages fuel job_id limit (some c) rows ])

-- The cursor that stands before every event.
abbrev bound : Option ℕ → ℕ
bound none = 0
bound (some c) = c

past-after :
    (cursor : Option ℕ) (rows : List JobEvent)
    → Ascends sequence_of 0 rows
    → filter (past cursor) rows ≡ after sequence_of (bound cursor) rows
past-after (some c) rows h = refl
past-after none rows h = all_pass rows ∙ sym (after-all sequence_of 0 0 rows (omega arith) h)
  where
    all_pass : (xs : List JobEvent) → filter (past none) xs ≡ xs
    all_pass [] = refl
    all_pass (x ∷ xs) = ap (λ ys. x ∷ ys) (all_pass xs)

page_of_short :
    (n : ℕ) (xs : List JobEvent) → length xs ≤ n → page_of n (take (n + 1) xs) ≡ (xs, none)
unfolding page_of
page_of_short n xs h =
    rw (take_all (n + 1) xs (omega arith)) (rw (take_all n xs h) (ground (arith, h)))

page_of_long :
    (n b : ℕ) (xs : List JobEvent)
    → Ascends sequence_of b xs
    → suc n < length xs
    → (c : ℕ) × (page_of (suc n) (take (suc n + 1) xs) ≡ (take (suc n) xs, some c))
      × (after sequence_of c xs ≡ drop (suc n) xs)
      × (b ≤ c)
unfolding page_of
page_of_long n b xs asc h =
    let r = after-last_of_take sequence_of b n xs asc (omega arith) in
    let more : ltb (suc n) (length (take (suc (suc n)) xs)) ≡ true =
      lt→ltb _ _ (omega (arith, length-take (suc (suc n)) xs)) in
    (r.0.sequence, rw (add-one, more, take-take (suc n) xs, r.1) refl, r.3, omega (arith, r.2))

module _ (job_id : String) (limit : ℕ) (rows : List JobEvent) (numbered : IsNumbered rows) where
  abbrev events : List JobEvent
  events = filter (of_job job_id) rows

  selected-after :
      (cursor : Option ℕ) → selected job_id cursor rows ≡ after sequence_of (bound cursor) events
  unfolding selected
  selected-after cursor = rw (past-after cursor events (numbered job_id)) (
      order_by-Ascends sequence_of 0 (after sequence_of (bound cursor) events) (
        filter-Ascends sequence_of (λ x. ltb (bound cursor) x.sequence) 0 events (numbered job_id)))

  -- A page from a cursor on: all that is left, or `limit` events and the cursor of the rest.
  get_events_cases :
      (cursor : Option ℕ)
      → let hits = after sequence_of (bound cursor) events in
        let got = get_events job_id cursor (suc limit) rows in
        (got ≡ (hits, none))
        ⊎ ((c : ℕ) × (got ≡ (take (suc limit) hits, some c))
            × (after sequence_of c events ≡ drop (suc limit) hits)
            × (suc limit < length hits))
  unfolding get_events
  get_events_cases cursor =
      let hits = after sequence_of (bound cursor) events in
      elim (dec_lt (suc limit) (length hits)) [
        | yes l ↦
            let r =
              page_of_long limit (bound cursor) hits
                (after-Ascends sequence_of 0 (bound cursor) events (numbered job_id)) l in
            inr (
              r.0,
              rw (selected-after cursor) r.1,
              sym (after-after sequence_of (bound cursor) r.0 events r.3) ∙ r.2,
              l,
            )
        | no n ↦ inl (rw (selected-after cursor) (page_of_short (suc limit) hits (omega arith)))
      ]

  read_after :
      (fuel : ℕ) (cursor : Option ℕ)
      → length (after sequence_of (bound cursor) events) < fuel
      → read_pages fuel job_id (suc limit) cursor rows ≡ after sequence_of (bound cursor) events
  unfolding read_pages
  read_after zero cursor h = absurd (omega arith)
  read_after (suc fuel) cursor h = elim (get_events_cases cursor) [
    | inl e ↦ rw e (append-nil _)
    | inr (c, e, rest, l) ↦
        let hits = after sequence_of (bound cursor) events in
        let ih = read_after fuel (some c) (rw rest (omega (arith, length-drop (suc limit) hits))) in
        rw e (rw (ih, rest) (take-append-drop (suc limit) hits))
  ]

  -- Following the cursors from the start, with any page size but 0, a client reads every event of
  -- the job exactly once, in the order in which they were added; as many pages as there are events,
  -- and one more, are enough.
  pub read_pages_complete :
      (fuel : ℕ)
      → length (filter (of_job job_id) rows) < fuel
      → read_pages fuel job_id (suc limit) none rows ≡ filter (of_job job_id) rows
  read_pages_complete fuel h =
      let all = after-all sequence_of 0 0 events (omega arith) (numbered job_id) in
      read_after fuel none (rw all h) ∙ all
