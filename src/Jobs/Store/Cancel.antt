-- ===== src/Jobs/Store/Cancel.antt =====
-- The cancel stamp and the lease of a job's row under writes of stale copies.
use mathlib.Core.Bool.{false≢true}
use knovaryn.Jobs.Store.Held.{get-mem}
use knovaryn.Base.{
  ℕ, ◌+◌, ◌*◌, ◌≤◌, ◌<◌, ◌≡◌, refl, true, false, String, str_eq, eq_iff, List, [], ◌∷◌, ◌++◌,
  Option, none, some, arith, if◌then◌else◌, Bool-cases, inl, inr, ◌∙◌, is_some,
}
use knovaryn.Jobs.State.{running}
use knovaryn.Jobs.Store.{
  Job, second, update_where, eligible, lease_to, claim_eligible, renew_lease, take_row, renew_row,
  renewable, save, get, extend, create, Request, submit, write, claim, renew, execute, execute_all,
  save_row,
}

abbrev pub stamp : Option Job → Option ℕ
stamp none = none
stamp (some r) = r.cancellation_requested_at

get-update_where :
    (job_id key : String) (f : Job → Job) (rows : List Job)
    → ((s : Job) → (f s).id ≡ s.id)
    → get key (update_where job_id f rows) ≡ (elim (get key rows) [
      | none ↦ none
      | some r ↦ some (if str_eq r.id job_id then f r else r)
    ])
unfolding get update_where
get-update_where job_id key f [] k = refl
get-update_where job_id key f (r ∷ rows) k =
    ground (arith, get-update_where job_id key f rows k, k r, eq_iff r.id job_id, eq_iff r.id key)

get-append :
    (job : Job) (key : String) (rows : List Job) (r : Job)
    → get key rows ≡ some r
    → get key (rows ++ job ∷ []) ≡ some r
unfolding get
get-append job key [] r h = cc
get-append job key (x ∷ xs) r h = ground (arith, h, get-append job key xs r)

get-create :
    (job : Job) (key : String) (rows : List Job) (r : Job)
    → get key rows ≡ some r
    → get key (create job rows) ≡ some r
unfolding create
get-create job key rows r h = elim (Bool-cases (is_some (get job.id rows))) [
  | inl e ↦ rw e h
  | inr e ↦ rw e (get-append job key rows r h)
]

module _ (key : String) (t : ℕ) where
  -- The job's row carries the cancel stamp `t`.
  abbrev pub IsStamped : List Job → Type 0
  IsStamped rows = (r : Job) × (get key rows ≡ some r) × (r.cancellation_requested_at ≡ some t)

  update-IsStamped :
      (job_id : String) (f : Job → Job) (rows : List Job)
      → ((s : Job) → (f s).id ≡ s.id)
      → ((s : Job)
          → s.cancellation_requested_at ≡ some t
          → (f s).cancellation_requested_at ≡ some t)
      → IsStamped rows
      → IsStamped (update_where job_id f rows)
  update-IsStamped job_id f rows keeps_id keeps (r, e, c) = (
    (if str_eq r.id job_id then f r else r),
    get-update_where job_id key f rows keeps_id ∙ rw e refl,
    ground (arith, c, keeps r c),
  )

  claim-IsStamped :
      (now : ℕ) (w : String) (l : ℕ) (rows : List Job) (o : Option Job)
      → IsStamped rows
      → IsStamped (take_row now w l rows o).1
  unfolding take_row
  claim-IsStamped now w l rows none h = h
  claim-IsStamped now w l rows (some x) h =
      update-IsStamped x.id (lease_to w now l) rows (λ s. refl) (λ s c. c) h

  renew-IsStamped :
      (now : ℕ) (id w : String) (l : ℕ) (rows : List Job) (o : Option Job)
      → IsStamped rows
      → IsStamped (renew_row now id w l rows o).1
  unfolding renew_row
  renew-IsStamped now id w l rows none h = h
  renew-IsStamped now id w l rows (some x) h = elim (Bool-cases (renewable w x)) [
    | inl e ↦ rw e (update-IsStamped id (extend now l) rows (λ s. refl) (λ s c. c) h)
    | inr e ↦ rw e h
  ]

  execute-IsStamped : (q : Request) (rows : List Job) → IsStamped rows → IsStamped (execute q rows)
  unfolding execute
  execute-IsStamped (submit job) rows (r, e, c) = (r, get-create job key rows r e, c)
  execute-IsStamped (write job) rows h =
      unfold save in
      update-IsStamped job.id (save_row job) rows (λ s. refl) (λ s c. ground (arith, c)) h
  execute-IsStamped (claim now w l locked) rows h =
      unfold claim_eligible in claim-IsStamped now w l rows _ h
  execute-IsStamped (renew now id w l) rows h =
      unfold renew_lease in renew-IsStamped now id w l rows _ h

  -- Once a job's row carries a cancel stamp it carries the same stamp after any requests, writes of
  -- stale copies of the job without the stamp or with another one included.
  pub execute_all-IsStamped :
      (qs : List Request) (rows : List Job) → IsStamped rows → IsStamped (execute_all qs rows)
  unfolding execute_all
  execute_all-IsStamped [] rows h = h
  execute_all-IsStamped (q ∷ qs) rows h =
      execute_all-IsStamped qs (execute q rows) (execute-IsStamped q rows h)

-- What a renewal that succeeded has done.
renewed :
    (now l : ℕ) (job_id worker : String) (rows : List Job)
    → (renew_lease now job_id worker l rows).0 ≡ true
    → (x : Job) × (get job_id rows ≡ some x)
      × (renewable worker x ≡ true)
      × ((renew_lease now job_id worker l rows).1 ≡ update_where job_id (extend now l) rows)
unfolding renew_lease
renewed now l job_id worker rows = go (get job_id rows)
  where
    go :
        (o : Option Job)
        → (renew_row now job_id worker l rows o).0 ≡ true
        → (x : Job) × (o ≡ some x)
          × (renewable worker x ≡ true)
          × ((renew_row now job_id worker l rows o).1 ≡ update_where job_id (extend now l) rows)
    go none e = absurd (false≢true (unfold renew_row in e))
    go (some x) e = elim (Bool-cases (renewable worker x)) [
      | inl t ↦ (x, refl, t, unfold renew_row in rw t)
      | inr t ↦ absurd (false≢true (unfold renew_row in rw t at e))
    ]

get-update_self :
    (job_id : String) (f : Job → Job) (rows : List Job) (x : Job)
    → ((s : Job) → (f s).id ≡ s.id)
    → get job_id rows ≡ some x
    → get job_id (update_where job_id f rows) ≡ some (f x)
get-update_self job_id f rows x k e =
    get-update_where job_id job_id f rows k
    ∙ rw (e, (eq_iff x.id job_id).1 (get-mem job_id rows x e).1) refl

-- A renewal that succeeds and then a write of a copy of the running job that has an end of the lease
-- which is past: between the two nobody may claim the job before the new end, and after the write
-- anybody may.
pub save-undoes_renewal :
    (now now' l : ℕ) (worker : String) (rows : List Job) (job : Job) (old : ℕ)
    → (renew_lease now job.id worker l rows).0 ≡ true
    → job.state ≡ running
    → job.lease_expires_at ≡ some old
    → old < now'
    → now' ≤ now + l * second
    → (r : Job) × (s : Job) × (get job.id (renew_lease now job.id worker l rows).1 ≡ some r)
      × (eligible now' r ≡ false)
      × (get job.id (save job (renew_lease now job.id worker l rows).1) ≡ some s)
      × (eligible now' s ≡ true)
save-undoes_renewal now now' l worker rows job old e st o late early =
    let x = renewed now l job.id worker rows e in
    let g = get-update_self job.id (extend now l) rows x.0 (λ s. refl) x.1 in
    (
      extend now l x.0,
      save_row job (extend now l x.0),
      rw x.3 g,
      unfold eligible in ground (arith, x.2),
      rw x.3 (unfold save in get-update_self job.id (save_row job) _ _ (λ s. refl) g),
      unfold eligible in ground (arith, st, o),
    )
