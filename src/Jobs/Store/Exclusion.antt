-- ===== src/Jobs/Store/Exclusion.antt =====
-- The holder of a leased job under the requests of others.
use mathlib.Core.List.{Memᴰ}
use mathlib.Core.List.Memᴰ
use native.Mathlib.Nat.{le_refl}
use knovaryn.Base.{
  ℕ, ◌+◌, ◌*◌, ◌≤◌, ◌≡◌, ◌≢◌, refl, true, String, eq_iff, List, [], ◌∷◌, Option, none, some, filter,
  All, arith, Bool-cases, inl, inr, sym, ap, ◌∙◌, is_some,
}
use knovaryn.Jobs.Store.{
  Job, second, update_where, claimable, lease_to, claim_eligible, renew_lease, take_row, save, get,
  extend, renewable, renew_row, create, Request, submit, write, claim, renew, execute, execute_all,
  save_row, oldest,
}
use knovaryn.Jobs.Store.Lease.{claim-takes_oldest, Claimed}
use knovaryn.Jobs.Store.Held.{IsHeldRow, IsHeld, update_where-mem, get-mem, held-not-claimable}

module _ (job_id worker : String) (until : ℕ) where
  -- A request of somebody else: it claims while the lease runs, renews as another worker, or
  -- writes another job.
  abbrev pub Foreign : Request → Type 0
  Foreign (submit job) = job.id ≢ job_id
  Foreign (write job) = job.id ≢ job_id
  Foreign (claim now w l locked) = now ≤ until
  Foreign (renew now id w l) = w ≢ worker

  -- A claim while the lease runs does not return the job.
  claim-ne :
      (now : ℕ) (w : String) (l : ℕ) (locked : List String) (rows : List Job) (k : Job)
      → now ≤ until
      → IsHeld job_id worker until rows
      → (claim_eligible now w l locked rows).0 ≡ some k
      → k.id ≢ job_id
  claim-ne now w l locked rows k le h e same =
      let c : Claimed now w l locked rows (some k) =
        rw e at (claim-takes_oldest now w l locked rows) in
      let held = h c.0 c.1 (ap (λ j. j.id) (sym c.3) ∙ same) in
      cc (c.2, held-not-claimable worker until now locked c.0 le held)

  update_other :
      (id : String) (f : Job → Job) (rows : List Job)
      → id ≢ job_id
      → ((s : Job) → (f s).id ≡ s.id)
      → IsHeld job_id worker until rows
      → IsHeld job_id worker until (update_where id f rows)
  update_other id f rows ne keeps h r m same = elim (update_where-mem id f rows r m) [
    | inl w ↦ absurd (ne (cc (same, w.2, w.3, keeps w.0)))
    | inr w ↦ h r w.0 same
  ]

  create-IsHeld :
      (job : Job) (rows : List Job)
      → job.id ≢ job_id
      → IsHeld job_id worker until rows
      → IsHeld job_id worker until (create job rows)
  unfolding create
  create-IsHeld job rows ne h = elim (Bool-cases (is_some (get job.id rows))) [
    | inl t ↦ rw t h
    | inr t ↦ rw t (λ r m same. elim (Memᴰ.append_cases rows m) [
      | inl n ↦ h r n same
      | inr n ↦ absurd (ne (ap (λ j. j.id) (sym (Memᴰ.eq_of_singleton n)) ∙ same))
    ])
  ]

  claim-IsHeld :
      (now : ℕ) (w : String) (l : ℕ) (locked : List String) (rows : List Job)
      → now ≤ until
      → IsHeld job_id worker until rows
      → IsHeld job_id worker until (claim_eligible now w l locked rows).1
  unfolding claim_eligible
  claim-IsHeld now w l locked rows le h =
      go (oldest (filter (claimable now locked) rows)) (claim-ne now w l locked rows)
    where
      go :
          (o : Option Job)
          → ((k : Job)
              → now ≤ until
              → IsHeld job_id worker until rows
              → (take_row now w l rows o).0 ≡ some k
              → k.id ≢ job_id)
          → IsHeld job_id worker until (take_row now w l rows o).1
      go none ne = unfold take_row in h
      go (some x) ne =
          let other : x.id ≢ job_id = ne (lease_to w now l x) le h (unfold take_row in refl) in
          unfold take_row in update_other x.id (lease_to w now l) rows other (λ s. refl) h

  held-renewer :
      (w : String) (r : Job) → IsHeldRow worker until r → renewable w r ≡ true → w ≡ worker
  held-renewer w r held t = ground (arith, held.owner_held, eq_iff worker w)

  renew-IsHeld :
      (now : ℕ) (id w : String) (l : ℕ) (rows : List Job)
      → w ≢ worker
      → IsHeld job_id worker until rows
      → IsHeld job_id worker until (renew_lease now id w l rows).1
  unfolding renew_lease
  renew-IsHeld now id w l rows ne h = go (get id rows) (get-mem id rows)
    where
      go :
          (o : Option Job)
          → ((r : Job) → o ≡ some r → Memᴰ r rows × (r.id ≡ id))
          → IsHeld job_id worker until (renew_row now id w l rows o).1
      go none g = unfold renew_row in h
      go (some r) g = elim (Bool-cases (renewable w r)) [
        | inl t ↦
            let m = g r refl in
            let other : id ≢ job_id = λ q. ne (held-renewer w r (h r m.0 (m.1 ∙ q)) t) in
            unfold renew_row in rw t (update_other id (extend now l) rows other (λ s. refl) h)
        | inr t ↦ unfold renew_row in rw t h
      ]

  Foreign-IsHeld :
      (q : Request) (rows : List Job)
      → Foreign q
      → IsHeld job_id worker until rows
      → IsHeld job_id worker until (execute q rows)
  unfolding execute
  Foreign-IsHeld (submit job) rows f h = create-IsHeld job rows f h
  Foreign-IsHeld (write job) rows f h =
      unfold save in update_other job.id (save_row job) rows f (λ s. refl) h
  Foreign-IsHeld (claim now w l locked) rows f h = claim-IsHeld now w l locked rows f h
  Foreign-IsHeld (renew now id w l) rows f h = renew-IsHeld now id w l rows f h

  Foreign-All-IsHeld :
      (qs : List Request) (rows : List Job)
      → All Foreign qs
      → IsHeld job_id worker until rows
      → IsHeld job_id worker until (execute_all qs rows)
  unfolding execute_all
  Foreign-All-IsHeld [] rows f h = h
  Foreign-All-IsHeld (q ∷ qs) rows f h =
      Foreign-All-IsHeld qs (execute q rows) f.1 (Foreign-IsHeld q rows f.0 h)

claimed-IsHeld :
    (now : ℕ) (worker : String) (l : ℕ) (locked : List String) (rows : List Job) (j : Job)
    → (claim_eligible now worker l locked rows).0 ≡ some j
    → IsHeld j.id worker (now + l * second) (claim_eligible now worker l locked rows).1
unfolding claim_eligible
claimed-IsHeld now worker l locked rows j = go (oldest (filter (claimable now locked) rows))
  where
    none_claims : (take_row now worker l rows none).0 ≡ some j → ⊥
    none_claims e = unfold take_row in cc e

    go :
        (o : Option Job)
        → (take_row now worker l rows o).0 ≡ some j
        → IsHeld j.id worker (now + l * second) (take_row now worker l rows o).1
    go none e r m same = absurd (none_claims e)
    go (some x) e r m same =
        let q : lease_to worker now l x ≡ j = unfold take_row in cc e in
        elim (update_where-mem x.id (lease_to worker now l) rows r (unfold take_row in m)) [
          | inl w ↦ rw w.3 (record {
            state_held = refl;
            owner_held = refl;
            expires = now + l * second;
            expires_at = refl;
            lasts = le_refl _;
          })
          | inr w ↦ absurd (w.1 (same ∙ ap (λ y. y.id) (sym q)))
        ]

-- Once a worker has claimed a job, no claim before the end of the lease returns it again, to
-- anybody, after any requests of others: claims in that time, renewals by other workers, and
-- submissions and writes of other jobs.
pub claim-excludes :
    (now : ℕ) (worker : String) (l : ℕ) (locked : List String) (rows : List Job) (j : Job)
    (qs : List Request) (now' : ℕ) (worker' : String) (l' : ℕ) (locked' : List String) (k : Job)
    → (claim_eligible now worker l locked rows).0 ≡ some j
    → All (Foreign j.id worker (now + l * second)) qs
    → now' ≤ now + l * second
    → (claim_eligible now' worker' l' locked'
        (execute_all qs (claim_eligible now worker l locked rows).1)).0
      ≡ some k
    → k.id ≢ j.id
claim-excludes now worker l locked rows j qs now' worker' l' locked' k e f le e' =
    claim-ne j.id worker (now + l * second) now' worker' l' locked' _ k le
      (Foreign-All-IsHeld j.id worker (now + l * second) qs _ f
        (claimed-IsHeld now worker l locked rows j e))
      e'
