-- ===== src/Jobs/Gateway/Known.antt =====
-- What the ledger of a gateway knows of one fingerprint, and how often that was paid for.
use knovaryn.Base.{
  ℕ, suc, ◌≤◌, ◌≡◌, refl, sym, ap, ◌∙◌, ◌⊎◌, inl, inr, arith, true, false, ◌&&◌, String, str_eq,
  eq_iff, eq_refl, List, [], ◌∷◌, ◌++◌, none, some, count_if, Bool-cases,
}
use knovaryn.Dict.{Dict, get, put, get-put}
use knovaryn.Jobs.Gateway.{Row, World, find_row, usable}

abbrev pub times : String → List String → ℕ
times fp xs = count_if (λ x. str_eq x fp) xs

module _ {P : Type 0} where
  find_row-append :
      (job fp : String) (rs : List (Row P)) (r : Row P)
      → find_row job fp rs ≡ none
      → find_row job fp (rs ++ r ∷ []) ≡ find_row job fp (r ∷ [])
  unfolding find_row
  find_row-append job fp [] r e = refl
  find_row-append job fp (x ∷ rs) r e =
      elim (Bool-cases (str_eq (x.job_id) job && str_eq (x.fingerprint) fp)) [
        | inl c ↦ absurd (let k : some x ≡ none = (rw c at e) in cc)
        | inr c ↦ rw c (find_row-append job fp rs r (rw c at e))
      ]

  find_row-found :
      (job fp : String) (rs : List (Row P)) (r x : Row P)
      → find_row job fp rs ≡ some x
      → find_row job fp (rs ++ r ∷ []) ≡ some x
  unfolding find_row
  find_row-found job fp [] r x e = absurd cc
  find_row-found job fp (y ∷ rs) r x e =
      elim (Bool-cases (str_eq (y.job_id) job && str_eq (y.fingerprint) fp)) [
        | inl c ↦ rw c (rw c at e)
        | inr c ↦ rw c (find_row-found job fp rs r x (rw c at e))
      ]

  unfoldable pub row_of : String → String → P → Row P
  row_of job f p = record { job_id = job; fingerprint = f; status = "ok"; result_payload = some p }

  -- A fingerprint is known to the ledger and paid for once more than lost at most, or it is unknown.
  unfoldable pub IsPaidOnce :
      String → String → List (Row P) → Dict P → List String → List String → Type 0
  IsPaidOnce job fp ledger mem paid lost =
      ((r : Row P) × (p : P) × (find_row job fp ledger ≡ some r)
        × (usable (some r) ≡ some p)
        × (times fp paid ≤ suc (times fp lost)))
      ⊎ ((find_row job fp ledger ≡ none) × (get mem fp ≡ none) × (times fp paid ≤ times fp lost))

  pub recorded-IsPaidOnce :
      (job fp f : String) (p : P) (ledger : List (Row P)) (mem : Dict P) (paid lost : List String)
      → (f ≡ fp → find_row job fp ledger ≡ none)
      → IsPaidOnce job fp ledger mem paid lost
      → IsPaidOnce job fp (ledger ++ row_of job f p ∷ []) (put mem f p) (f ∷ paid) lost
  unfolding IsPaidOnce find_row usable row_of
  recorded-IsPaidOnce job fp f p ledger mem paid lost new h = elim (Bool-cases (str_eq f fp)) [
    | inl e ↦ same e (new ((eq_iff f fp).0 e)) h
    | inr e ↦ other e h
  ]
    where
      same :
          str_eq f fp ≡ true
          → find_row job fp ledger ≡ none
          → IsPaidOnce job fp ledger mem paid lost
          → IsPaidOnce job fp (ledger ++ row_of job f p ∷ []) (put mem f p) (f ∷ paid) lost
      same e n (inl (r, k, q, u, c)) = absurd (let d : some r ≡ none = sym q ∙ n in cc)
      same e n (inr (q, m, c)) = inl (
        row_of job f p,
        p,
        find_row-append job fp ledger (row_of job f p) n ∙ rw (e, eq_refl job) refl,
        refl,
        rw e (omega (arith, c)),
      )

      other :
          str_eq f fp ≡ false
          → IsPaidOnce job fp ledger mem paid lost
          → IsPaidOnce job fp (ledger ++ row_of job f p ∷ []) (put mem f p) (f ∷ paid) lost
      other e (inl (r, k, q, u, c)) =
          inl (r, k, find_row-found job fp ledger (row_of job f p) r q, u, rw e c)
      other e (inr (q, m, c)) = inr (
        find_row-append job fp ledger (row_of job f p) q ∙ rw (e, eq_refl job) refl,
        get-put mem f fp p ∙ rw e m,
        rw e c,
      )

  pub lost-IsPaidOnce :
      (job fp f : String) (ledger : List (Row P)) (mem : Dict P) (paid lost : List String)
      → IsPaidOnce job fp ledger mem paid lost
      → IsPaidOnce job fp ledger mem (f ∷ paid) (f ∷ lost)
  unfolding IsPaidOnce
  lost-IsPaidOnce job fp f ledger mem paid lost (inl (r, k, q, u, c)) =
      inl (r, k, q, u, ground (arith, c))
  lost-IsPaidOnce job fp f ledger mem paid lost (inr (q, m, c)) = inr (q, m, ground (arith, c))

  -- What the ledger answers goes into the cache.
  pub cached-IsPaidOnce :
      (job fp f : String) (p : P) (ledger : List (Row P)) (mem : Dict P) (paid lost : List String)
      → usable (find_row job f ledger) ≡ some p
      → IsPaidOnce job fp ledger mem paid lost
      → IsPaidOnce job fp ledger (put mem f p) paid lost
  unfolding IsPaidOnce usable
  cached-IsPaidOnce job fp f p ledger mem paid lost a (inl k) = inl k
  cached-IsPaidOnce job fp f p ledger mem paid lost a (inr (q, m, c)) =
      elim (Bool-cases (str_eq f fp)) [
        | inl e ↦ absurd (
            let d : none ≡ some p =
              sym (ap usable (ap (λ x. find_row job x ledger) ((eq_iff f fp).0 e) ∙ q)) ∙ a in
            cc)
        | inr e ↦ inr (q, get-put mem f fp p ∙ rw e m, c)
      ]

  pub restarted-IsPaidOnce :
      (job fp : String) (ledger : List (Row P)) (mem : Dict P) (paid lost : List String)
      → IsPaidOnce job fp ledger mem paid lost
      → IsPaidOnce job fp ledger [] paid lost
  unfolding IsPaidOnce get
  restarted-IsPaidOnce job fp ledger mem paid lost (inl k) = inl k
  restarted-IsPaidOnce job fp ledger mem paid lost (inr (q, m, c)) = inr (q, refl, c)

  -- A fingerprint that the ledger cannot answer is not in it.
  pub unknown_lem :
      (job fp f : String) (ledger : List (Row P)) (mem : Dict P) (paid lost : List String)
      → usable (find_row job f ledger) ≡ none
      → IsPaidOnce job fp ledger mem paid lost
      → f ≡ fp
      → find_row job fp ledger ≡ none
  unfolding IsPaidOnce usable
  unknown_lem job fp f ledger mem paid lost a (inr (q, m, c)) e = q
  unknown_lem job fp f ledger mem paid lost a (inl (r, p, q, u, c)) e = absurd (
      let d : none ≡ some p =
        sym a ∙ (ap (λ x. usable (find_row job x ledger)) e ∙ (ap usable q ∙ u)) in
      cc)

  abbrev pub IsKept : String → String → World P → Type 0
  IsKept job fp w = IsPaidOnce job fp (w.ledger) (w.mem) (w.paid) (w.lost)
