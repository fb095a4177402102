-- ===== src/Jobs/Store/Lease.antt =====
-- The choice of the job that a claim leases.
use mathlib.Core.List.{Memᴰ}
use mathlib.Core.List.Memᴰ
use native.Mathlib.Nat.{le_refl, le_trans}
use knovaryn.Base.{
  ℕ, ◌≤◌, ◌≡◌, refl, true, false, String, List, [], ◌∷◌, Option, none, some, filter, arith, leb,
  Bool-cases, inl, inr, ◌⊎◌, Memᴰ-filter, filter-Memᴰ, leb→le,
}
use knovaryn.Jobs.Store.{Job, claimable, oldest, older_of, take_row, lease_to, claim_eligible}

-- A row that is there and that no row precedes; none if there is no row.
abbrev IsOldest : Option Job → List Job → Type 0
IsOldest none rows = rows ≡ []
IsOldest (some r) rows = Memᴰ r rows × ((s : Job) → Memᴰ s rows → r.created_at ≤ s.created_at)

older_of_cases :
    (r s : Job)
    → ((older_of r (some s) ≡ r) × (r.created_at ≤ s.created_at))
      ⊎ ((older_of r (some s) ≡ s) × (s.created_at ≤ r.created_at))
unfolding older_of
older_of_cases r s = elim (Bool-cases (leb r.created_at s.created_at)) [
  | inl e ↦ inl (rw e, leb→le _ _ e)
  | inr e ↦ inr (rw e, ground (arith, e))
]

older_of-IsOldest :
    (r : Job) (o : Option Job) (rows : List Job)
    → IsOldest o rows
    → IsOldest (some (older_of r o)) (r ∷ rows)
older_of-IsOldest r none rows h = rw h (
    unfold older_of in
    (
      Memᴰ.head refl,
      λ s m. elim (Memᴰ.cases_cons m) [
        | inl e ↦ rw e (le_refl _)
        | inr n ↦ absurd (Memᴰ.not-nil n)
      ],
    ))
older_of-IsOldest r (some s) rows h = elim (older_of_cases r s) [
  | inl c ↦ rw c.0 (
    Memᴰ.head refl,
    λ t m. elim (Memᴰ.cases_cons m) [ inl e ↦ rw e (le_refl _) | inr n ↦ le_trans c.1 (h.1 t n) ],
  )
  | inr c ↦
      rw c.0 (Memᴰ.tail h.0, λ t m. elim (Memᴰ.cases_cons m) [ inl e ↦ rw e c.1 | inr n ↦ h.1 t n ])
]

oldest-IsOldest : (rows : List Job) → IsOldest (oldest rows) rows
unfolding oldest
oldest-IsOldest [] = refl
oldest-IsOldest (r ∷ rows) = older_of-IsOldest r (oldest rows) rows (oldest-IsOldest rows)

-- The outcome of a claim, for the caller.
abbrev pub Claimed : ℕ → String → ℕ → List String → List Job → Option Job → Type 0
Claimed now worker lease_seconds locked rows none =
    (s : Job) → Memᴰ s rows → claimable now locked s ≡ false
Claimed now worker lease_seconds locked rows (some j) =
    (r : Job) × Memᴰ r rows
    × (claimable now locked r ≡ true)
    × (j ≡ lease_to worker now lease_seconds r)
    × ((s : Job) → Memᴰ s rows → claimable now locked s ≡ true → r.created_at ≤ s.created_at)

module _ (now : ℕ) (worker : String) (lease_seconds : ℕ) (locked : List String) where
  not_claimable :
      (rows : List Job) (s : Job)
      → filter (claimable now locked) rows ≡ []
      → Memᴰ s rows
      → claimable now locked s ≡ false
  not_claimable rows s e m = elim (Bool-cases (claimable now locked s)) [
    | inl c ↦ absurd (Memᴰ.not-nil (rw e at (filter-Memᴰ (claimable now locked) rows m c)))
    | inr c ↦ c
  ]

  Claimed-of :
      (rows : List Job) (o : Option Job)
      → IsOldest o (filter (claimable now locked) rows)
      → Claimed now worker lease_seconds locked rows (take_row now worker lease_seconds rows o).0
  unfolding take_row
  Claimed-of rows none h = λ s m. not_claimable rows s h m
  Claimed-of rows (some r) h =
      let m = Memᴰ-filter (claimable now locked) rows h.0 in
      (r, m.0, m.1, refl, λ s n c. h.1 s (filter-Memᴰ (claimable now locked) rows n c))

  -- A claim takes the oldest row that is eligible and not locked, and leases it to the worker; it
  -- returns nothing only if there is no such row.
  pub claim-takes_oldest :
      (rows : List Job)
      → Claimed now worker lease_seconds locked rows
          (claim_eligible now worker lease_seconds locked rows).0
  unfolding claim_eligible
  claim-takes_oldest rows = Claimed-of rows _ (oldest-IsOldest _)
