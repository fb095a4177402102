-- ===== src/Export/Release/Order.antt =====
-- Sorted tables, and what holds of their items.
use knovaryn.Base.{
  ◌≡◌, refl, sym, ap, subst, ◌∙◌, true, false, is_some, String, str_eq, eq_iff, eq_refl, [], ◌∷◌,
  map, none, some, All, Bool-cases, inl, inr,
}
use knovaryn.Dict.{Dict, get, has}
use knovaryn.Text.{codes}
use knovaryn.Export.Release.{insert_item, sorted_items}
use knovaryn.Export.Release.Items.{IsUnique, IsSorted, insert_cases, text_lt_asym}

module _ {ℓ} {V : Type ℓ} where
  insert-IsSorted : (k : String) (v : V) (d : Dict V) → IsSorted d → IsSorted (insert_item (k, v) d)
  unfolding insert_item
  insert-IsSorted k v [] s = tt
  insert-IsSorted k v ((i, w) ∷ []) s = elim (insert_cases k i v w []) [
    | inl c ↦ rw c.1 (text_lt_asym (codes i) (codes k) c.0, tt)
    | inr c ↦ rw c.1 (c.0, tt)
  ]
  insert-IsSorted k v ((i, w) ∷ (j, x) ∷ d) s = elim (insert_cases k i v w ((j, x) ∷ d)) [
    | inl c ↦
        let rest = insert-IsSorted k v ((j, x) ∷ d) s.1 in
        rw c.1 (elim (insert_cases k j v x d) [
          | inl b ↦ rw b.1 (s.0, subst IsSorted b.1 rest)
          | inr b ↦ rw b.1 (text_lt_asym (codes i) (codes k) c.0, subst IsSorted b.1 rest)
        ])
    | inr c ↦ rw c.1 (c.0, s)
  ]

  pub sorted_items-IsSorted : (d : Dict V) → IsSorted (sorted_items d)
  unfolding sorted_items
  sorted_items-IsSorted [] = tt
  sorted_items-IsSorted ((k, v) ∷ d) =
      insert-IsSorted k v (sorted_items d) (sorted_items-IsSorted d)

  -- What holds of what is found holds of all items.
  pub All-get :
      (P : String × V → Type 0) (d : Dict V)
      → IsUnique d
      → ((k : String) (v : V) → get d k ≡ some v → P (k, v))
      → All P d
  unfolding get has
  All-get P [] u f = tt
  All-get P ((k, v) ∷ d) u f =
      (f k v (rw (eq_refl k) refl), All-get P d u.1 (λ i w g. f i w (later i w g)))
    where
      later : (i : String) (w : V) → get d i ≡ some w → get ((k, v) ∷ d) i ≡ some w
      later i w g = elim (Bool-cases (str_eq k i)) [
        | inl e ↦
            let known : has d i ≡ false = subst (λ j. has d j ≡ false) ((eq_iff k i).0 e) u.0 in
            absurd (let c : true ≡ false = sym (ap is_some g) ∙ known in cc)
        | inr e ↦ rw e g
      ]

some_inj {ℓ} : {A : Type ℓ} (x y : A) → some x ≡ some y → x ≡ y
some_inj x y e = cc

module _ {ℓ κ} {V : Type ℓ} {W : Type κ} (h : String × V → W) where
  abbrev pub with_keys : Dict V → Dict W
  with_keys d = map (λ e. (e.0, h e)) d

  pub get-with_keys :
      (d : Dict V) (j : String) (v : V) → get d j ≡ some v → get (with_keys d) j ≡ some (h (j, v))
  unfolding get
  get-with_keys [] j v g = absurd cc
  get-with_keys ((k, w) ∷ d) j v g = elim (Bool-cases (str_eq k j)) [
    | inl e ↦ rw e (
        ap (λ i. some (h (i, w))) ((eq_iff k j).0 e)
        ∙ ap (λ x. some (h (j, x))) (some_inj w v (rw e at g)))
    | inr e ↦ rw e (get-with_keys d j v (rw e at g))
  ]

  pub get-with_keys-none : (d : Dict V) (j : String) → get d j ≡ none → get (with_keys d) j ≡ none
  unfolding get
  get-with_keys-none [] j g = refl
  get-with_keys-none ((k, w) ∷ d) j g = elim (Bool-cases (str_eq k j)) [
    | inl e ↦ absurd (let c : some w ≡ none = (rw e at g) in cc)
    | inr e ↦ rw e (get-with_keys-none d j (rw e at g))
  ]

  pub sorted-with_keys : (d : Dict V) → IsSorted d → sorted_items (with_keys d) ≡ with_keys d
  unfolding sorted_items insert_item
  sorted-with_keys [] s = refl
  sorted-with_keys (e ∷ []) s = refl
  sorted-with_keys (e ∷ f ∷ d) s =
      ap (insert_item (e.0, h e)) (sorted-with_keys (f ∷ d) s.1) ∙ rw s.0 refl

  pub All-with_keys :
      (P : String × W → Type 0) (d : Dict V) → All (λ e. P (e.0, h e)) d → All P (with_keys d)
  All-with_keys P [] a = tt
  All-with_keys P (e ∷ d) a = (a.0, All-with_keys P d a.1)
