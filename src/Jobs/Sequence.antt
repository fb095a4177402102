-- ===== src/Jobs/Sequence.antt =====
-- Rows with a sequence number: `coalesce(max(sequence), 0) + 1` and `order_by(sequence)`, which the
-- event log and the checkpoint log of a job share.
use knovaryn.Base.{
  ℕ, suc, ◌+◌, ◌≤◌, ◌<◌, max, ◌≡◌, refl, Bool, List, [], ◌∷◌, ◌++◌, arith, leb, ltb, filter,
  if◌then◌else◌, Bool-cases, inl, inr, any, ◌||◌, ltb→lt, get_last?, take, drop, length, some, zero,
}

module _ {ℓ} {A : Type ℓ} (seq : A → ℕ) where
  unfoldable pub max_seq : List A → ℕ
  max_seq [] = 0
  max_seq (x ∷ xs) = max (seq x) (max_seq xs)

  unfoldable pub next_seq : List A → ℕ
  unfolding max_seq
  next_seq xs = max_seq xs + 1

  unfoldable pub insert_row : A → List A → List A
  insert_row x [] = x ∷ []
  insert_row x (y ∷ ys) =
      let rest = insert_row x ys in if leb (seq x) (seq y) then x ∷ y ∷ ys else y ∷ rest

  unfoldable pub order_by : List A → List A
  unfolding insert_row
  order_by [] = []
  order_by (x ∷ xs) = insert_row x (order_by xs)

  -- The sequence numbers grow strictly from a bound on.
  abbrev pub Ascends : ℕ → List A → Type 0
  Ascends b [] = Unit
  Ascends b (x ∷ xs) = (b < seq x) × Ascends (seq x) xs

  pub Ascends-weaken : (a b : ℕ) (xs : List A) → a ≤ b → Ascends b xs → Ascends a xs
  Ascends-weaken a b [] le h = tt
  Ascends-weaken a b (x ∷ xs) le h = (omega arith, h.1)

  insert-Ascends : (b : ℕ) (x : A) (xs : List A) → Ascends (seq x) xs → insert_row x xs ≡ x ∷ xs
  unfolding insert_row
  insert-Ascends b x [] h = refl
  insert-Ascends b x (y ∷ ys) h = ground arith

  -- A list that ascends is in the order already.
  pub order_by-Ascends : (b : ℕ) (xs : List A) → Ascends b xs → order_by xs ≡ xs
  unfolding order_by
  order_by-Ascends b [] h = refl
  order_by-Ascends b (x ∷ xs) h = rw (order_by-Ascends (seq x) xs h.1) (insert-Ascends b x xs h.1)

  pub filter-Ascends : (p : A → Bool) (b : ℕ) (xs : List A) → Ascends b xs → Ascends b (filter p xs)
  filter-Ascends p b [] h = tt
  filter-Ascends p b (x ∷ xs) h = elim (Bool-cases (p x)) [
    | inl e ↦ rw e (h.0, filter-Ascends p (seq x) xs h.1)
    | inr e ↦ rw e (filter-Ascends p b xs (Ascends-weaken b (seq x) xs (omega arith) h.1))
  ]

  -- A row with the next sequence number goes last.
  pub append-Ascends :
      (b : ℕ) (xs : List A) (x : A)
      → Ascends b xs
      → b < seq x
      → max_seq xs < seq x
      → Ascends b (xs ++ x ∷ [])
  unfolding max_seq
  append-Ascends b [] x h l m = (l, tt)
  append-Ascends b (y ∷ ys) x h l m =
      (h.0, append-Ascends (seq y) ys x h.1 (omega arith) (omega arith))

  -- The rows after a cursor.
  abbrev pub after : ℕ → List A → List A
  after c xs = filter (λ x. ltb c (seq x)) xs

  pub after-all : (b c : ℕ) (xs : List A) → c ≤ b → Ascends b xs → after c xs ≡ xs
  after-all b c [] le h = refl
  after-all b c (x ∷ xs) le h = ground (arith, after-all (seq x) c xs (omega arith) h.1)

  -- The rows after the last row of a page are the rest.
  pub after-last_of_take :
      (b n : ℕ) (xs : List A)
      → Ascends b xs
      → n < length xs
      → (x : A) × (get_last? (take (suc n) xs) ≡ some x)
        × (b < seq x)
        × (after (seq x) xs ≡ drop (suc n) xs)
  after-last_of_take b n [] h l = absurd (omega arith)
  after-last_of_take b zero (x ∷ xs) h l =
      (x, refl, h.0, ground (arith, after-all (seq x) (seq x) xs (omega arith) h.1))
  after-last_of_take b (suc n) (x ∷ []) h l = absurd (omega arith)
  after-last_of_take b (suc n) (x ∷ y ∷ ys) h l =
      let r = after-last_of_take (seq x) n (y ∷ ys) h.1 (omega arith) in
      (r.0, r.1, omega (arith, r.2), ground (arith, r.2, r.3))

  -- A later cursor among the rows after an earlier one.
  pub after-after : (c d : ℕ) (xs : List A) → c ≤ d → after d (after c xs) ≡ after d xs
  after-after c d [] le = refl
  after-after c d (x ∷ xs) le = ground (arith, after-after c d xs le)

  pub after-Ascends : (b c : ℕ) (xs : List A) → Ascends b xs → Ascends c (after c xs)
  after-Ascends b c [] h = tt
  after-Ascends b c (x ∷ xs) h = elim (Bool-cases (ltb c (seq x))) [
    | inl e ↦ rw e (ltb→lt c (seq x) e, rw (after-all (seq x) c xs (ground (arith, e)) h.1) h.1)
    | inr e ↦ rw e (after-Ascends (seq x) c xs h.1)
  ]

  any-insert_row :
      (p : A → Bool) (x : A) (xs : List A) → any p (insert_row x xs) ≡ (p x || any p xs)
  unfolding insert_row
  any-insert_row p x [] = refl
  any-insert_row p x (y ∷ ys) = ground (arith, any-insert_row p x ys)

  pub any-order_by : (p : A → Bool) (xs : List A) → any p (order_by xs) ≡ any p xs
  unfolding order_by
  any-order_by p [] = refl
  any-order_by p (x ∷ xs) = rw (any-insert_row p x (order_by xs), any-order_by p xs) refl
