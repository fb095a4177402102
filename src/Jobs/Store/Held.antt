-- ===== src/Jobs/Store/Held.antt =====
-- Rows that a worker holds, and how lookups and updates of the table see them.
use mathlib.Core.List.{Memᴰ}
use mathlib.Core.List.Memᴰ
use knovaryn.Base.{
  ℕ, ◌≤◌, ◌≡◌, ◌≢◌, refl, true, false, String, str_eq, eq_iff, List, [], ◌∷◌, some, arith,
  Bool-cases, inl, inr, ◌⊎◌, sym, ap, ◌∙◌,
}
use knovaryn.Jobs.State.{leased, running, mem_state}
use knovaryn.Jobs.Store.{Job, update_where, eligible, claimable, get}

-- The worker holds the job at least up to a time.
pub record IsHeldRow (worker : String) (until : ℕ) (r : Job) : Type 0 where
  pub state_held : mem_state r.state (leased ∷ running ∷ []) ≡ true
  pub owner_held : r.lease_owner ≡ some worker
  pub expires : ℕ
  pub expires_at : r.lease_expires_at ≡ some expires
  pub lasts : until ≤ expires

abbrev pub IsHeld : String → String → ℕ → List Job → Type 0
IsHeld job_id worker until rows = (r : Job) → Memᴰ r rows → r.id ≡ job_id → IsHeldRow worker until r

-- A row after an update is an updated row of that id, or an old row of another id.
pub update_where-mem :
    (job_id : String) (f : Job → Job) (rows : List Job) (r : Job)
    → Memᴰ r (update_where job_id f rows)
    → ((s : Job) × Memᴰ s rows × (s.id ≡ job_id) × (r ≡ f s)) ⊎ (Memᴰ r rows × (r.id ≢ job_id))
unfolding update_where
update_where-mem job_id f [] r m = absurd (Memᴰ.not-nil m)
update_where-mem job_id f (s ∷ rows) r m = elim (Memᴰ.cases_cons m) [
  | inl e ↦ elim (Bool-cases (str_eq s.id job_id)) [
    | inl t ↦ inl (s, Memᴰ.head refl, (eq_iff s.id job_id).0 t, rw t at e)
    | inr t ↦
        let q : r ≡ s = rw t at e in
        inr (Memᴰ.head q, λ x. cc (t, (eq_iff s.id job_id).1 (ap (λ j. j.id) (sym q) ∙ x)))
  ]
  | inr n ↦ elim (update_where-mem job_id f rows r n) [
    | inl w ↦ inl (w.0, Memᴰ.tail w.1, w.2, w.3)
    | inr w ↦ inr (Memᴰ.tail w.0, w.1)
  ]
]

pub get-mem :
    (job_id : String) (rows : List Job) (r : Job)
    → get job_id rows ≡ some r
    → Memᴰ r rows × (r.id ≡ job_id)
unfolding get
get-mem job_id [] r e = cc
get-mem job_id (s ∷ rows) r e = elim (Bool-cases (str_eq s.id job_id)) [
  | inl t ↦
      let q : s ≡ r = cc (rw t at e) in
      (Memᴰ.head (sym q), ap (λ j. j.id) (sym q) ∙ (eq_iff s.id job_id).0 t)
  | inr t ↦ let w = get-mem job_id rows r (rw t at e) in (Memᴰ.tail w.0, w.1)
]

pub held-not-claimable :
    (worker : String) (until now : ℕ) (locked : List String) (r : Job)
    → now ≤ until
    → IsHeldRow worker until r
    → claimable now locked r ≡ false
unfolding claimable eligible
held-not-claimable worker until now locked r le h =
    ground (arith, h.state_held, h.expires_at, h.lasts)
