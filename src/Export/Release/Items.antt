-- ===== src/Export/Release/Items.antt =====
-- Tables whose keys are distinct, and how sorting leaves them.
use knovaryn.Base.{
  ◌≡◌, refl, ap, subst, ◌∙◌, ◌⊎◌, Bool, true, false, ◌||◌, String, str_eq, eq_iff, List, [], ◌∷◌,
  some, is_some, if◌then◌else◌, arith, ℕ, Bool-cases, inl, inr,
}
use knovaryn.Dict.{Dict, get, put, has, get-put}
use knovaryn.Text.{codes, text_lt}
use knovaryn.Export.Release.{insert_item, sorted_items}

pub text_lt_asym : (s t : List ℕ) → text_lt s t ≡ true → text_lt t s ≡ false
unfolding text_lt
text_lt_asym [] [] e = refl
text_lt_asym (c ∷ s) [] e = absurd cc
text_lt_asym [] (d ∷ t) e = refl
text_lt_asym (c ∷ s) (d ∷ t) e = ground (arith, e, text_lt_asym s t)

module _ {ℓ} {V : Type ℓ} where
  abbrev pub IsUnique : Dict V → Type 0
  IsUnique [] = Unit
  IsUnique (e ∷ d) = (has d e.0 ≡ false) × IsUnique d

  pub has-put : (d : Dict V) (k j : String) (v : V) → has (put d k v) j ≡ (str_eq k j || has d j)
  unfolding has
  has-put d k j v = rw (get-put d k j v) (either (str_eq k j))
    where
      either : (b : Bool) → is_some (if b then some v else get d j) ≡ (b || is_some (get d j))
      either true = refl
      either false = refl

  apart :
      (d : Dict V) (j k : String)
      → str_eq j k ≡ false
      → has d j ≡ false
      → (str_eq k j || has d j) ≡ false
  apart d j k e h = ground (arith, e, h, eq_iff j k, eq_iff k j)

  pub put-IsUnique : (d : Dict V) (k : String) (v : V) → IsUnique d → IsUnique (put d k v)
  unfolding put has
  put-IsUnique [] k v u = (refl, tt)
  put-IsUnique ((j, w) ∷ d) k v u = elim (Bool-cases (str_eq j k)) [
    | inl e ↦ rw e (subst (λ i. has d i ≡ false) ((eq_iff j k).0 e) u.0, u.1)
    | inr e ↦ rw e (has-put d k j v ∙ apart d j k e u.0, put-IsUnique d k v u.1)
  ]

  pub has-cons_false :
      (i k : String) (w : V) (d : Dict V)
      → has ((i, w) ∷ d) k ≡ false
      → (str_eq i k ≡ false) × (has d k ≡ false)
  unfolding has get
  has-cons_false i k w d e = elim (Bool-cases (str_eq i k)) [
    | inl p ↦ absurd (let c : true ≡ false = (rw p at e) in cc)
    | inr p ↦ (p, rw p at e)
  ]

  pub insert_cases :
      (k i : String) (v w : V) (d : Dict V)
      → ((text_lt (codes i) (codes k) ≡ true)
          × (insert_item (k, v) ((i, w) ∷ d) ≡ (i, w) ∷ insert_item (k, v) d))
        ⊎ ((text_lt (codes i) (codes k) ≡ false)
            × (insert_item (k, v) ((i, w) ∷ d) ≡ (k, v) ∷ (i, w) ∷ d))
  unfolding insert_item
  insert_cases k i v w d = elim (Bool-cases (text_lt (codes i) (codes k))) [
    | inl e ↦ inl (e, rw e refl)
    | inr e ↦ inr (e, rw e refl)
  ]

  get-insert :
      (k : String) (v : V) (d : Dict V) (j : String)
      → has d k ≡ false
      → get (insert_item (k, v) d) j ≡ (if str_eq k j then some v else get d j)
  unfolding insert_item get has
  get-insert k v [] j h = refl
  get-insert k v ((i, w) ∷ d) j h = elim (insert_cases k i v w d) [
    | inl c ↦ rw c.1 (swapped (get-insert k v d j (later h)))
    | inr c ↦ rw c.1 refl
  ]
    where
      later : has ((i, w) ∷ d) k ≡ false → has d k ≡ false
      later e = (has-cons_false i k w d e).1

      swapped :
          get (insert_item (k, v) d) j ≡ (if str_eq k j then some v else get d j)
          → (if str_eq i j then some w else get (insert_item (k, v) d) j)
            ≡ (if str_eq k j then some v else (if str_eq i j then some w else get d j))
      swapped e =
          let ne = (has-cons_false i k w d h).0 in
          elim (Bool-cases (str_eq i j)) [
            | inl p ↦
                let q : str_eq k j ≡ false =
                  ground (arith, p, ne, eq_iff i j, eq_iff k j, eq_iff i k) in
                rw (p, q) refl
            | inr p ↦ rw p e
          ]

  has-insert :
      (k : String) (v : V) (d : Dict V) (j : String)
      → has d k ≡ false
      → has (insert_item (k, v) d) j ≡ (str_eq k j || has d j)
  unfolding has
  has-insert k v d j h = ap is_some (get-insert k v d j h) ∙ either (str_eq k j)
    where
      either : (b : Bool) → is_some (if b then some v else get d j) ≡ (b || is_some (get d j))
      either true = refl
      either false = refl

  insert-IsUnique :
      (k : String) (v : V) (d : Dict V)
      → has d k ≡ false
      → IsUnique d
      → IsUnique (insert_item (k, v) d)
  unfolding insert_item has
  insert-IsUnique k v [] h u = (refl, tt)
  insert-IsUnique k v ((i, w) ∷ d) h u =
      let c = has-cons_false i k w d h in
      elim (insert_cases k i v w d) [
        | inl p ↦ rw p.1 (
          has-insert k v d i c.1 ∙ ground (arith, u.0, c.0, eq_iff i k, eq_iff k i),
          insert-IsUnique k v d c.1 u.1,
        )
        | inr p ↦ rw p.1 (h, u)
      ]

  pub get-sorted :
      (d : Dict V) (j : String)
      → IsUnique d
      → (get (sorted_items d) j ≡ get d j) × IsUnique (sorted_items d)
  unfolding sorted_items get has
  get-sorted [] j u = (refl, tt)
  get-sorted ((k, v) ∷ d) j u =
      let at : (i : String) → get (sorted_items d) i ≡ get d i = λ i. (get-sorted d i u.1).0 in
      let new : has (sorted_items d) k ≡ false = ap is_some (at k) ∙ u.0 in
      (
        get-insert k v (sorted_items d) j new ∙ ap (λ o. if str_eq k j then some v else o) (at j),
        insert-IsUnique k v (sorted_items d) new (get-sorted d j u.1).1,
      )

  -- In the order of the keys.
  abbrev pub IsSorted : Dict V → Type 0
  IsSorted [] = Unit
  IsSorted (e ∷ []) = Unit
  IsSorted (e ∷ f ∷ d) = (text_lt (codes f.0) (codes e.0) ≡ false) × IsSorted (f ∷ d)
