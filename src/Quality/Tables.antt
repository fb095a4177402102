-- ===== src/Quality/Tables.antt =====
-- The tables of the dimensions, before and after the ones that are filled in.
use mathlib.Core.List.{Memᴰ}
use knovaryn.Base.{
  is_empty, ℕ, ◌≡◌, ◌⊎◌, inl, inr, refl, sym, ◌∙◌, Bool, true, false, not, ◌&&◌, String, str_eq,
  eq_iff, List, [], ◌∷◌, filter, Option, none, some, All, Bool-cases, if◌then◌else◌,
}
use knovaryn.Dict.{Dict, get, get_or, put, has, get-put, get-put_ne, get-put_self}
use knovaryn.Quality.{
  Verification, verified, failed, unverified, Assessment, by_name, Dims, fill_in, with_alias,
  with_preference, dims_of, is_failed, is_unverified,
}

module _ {ℓ} {V : Type ℓ} where
  pub by_name-found :
      (f : Assessment → V) (d : Dict V) (given : List Assessment) (k : String) (v : V)
      → get (by_name f d given) k ≡ some v
      → (get d k ≡ some v) ⊎ ((a : Assessment) × Memᴰ a given × (a.validator_name ≡ k) × (f a ≡ v))
  unfolding by_name
  by_name-found f d [] k v e = inl e
  by_name-found f d (a ∷ rest) k v e =
      elim (by_name-found f (put d (a.validator_name) (f a)) rest k v e) [
        | inr (b, m, n, s) ↦ inr (b, Memᴰ.tail m, n, s)
        | inl h ↦ elim (Bool-cases (str_eq (a.validator_name) k)) [
          | inl same ↦
              let found : some (f a) ≡ some v =
                sym (get-put d (a.validator_name) k (f a) ∙ rw same refl) ∙ h in
              inr (a, Memᴰ.head refl, (eq_iff (a.validator_name) k).0 same, cc)
          | inr other ↦ inl (sym (get-put_ne d (a.validator_name) k (f a) other) ∙ h)
        ]
      ]

pub filter-empty :
    (p : String → Bool) (xs : List String)
    → is_empty (filter p xs) ≡ true
    → All (λ x. p x ≡ false) xs
filter-empty p [] e = tt
filter-empty p (x ∷ xs) e = elim (Bool-cases (p x)) [
  | inl h ↦ absurd (let c : false ≡ true = (rw h at e) in cc)
  | inr h ↦ (h, filter-empty p xs (rw h at e))
]

pub settled :
    (o : Option Verification) → is_failed o ≡ false → is_unverified o ≡ false → o ≡ some verified
settled none e f = absurd cc
settled (some verified) e f = refl
settled (some failed) e f = absurd cc
settled (some unverified) e f = absurd cc

-- The tables before the alias and the preference are fill_in in.
abbrev pub raw_of : List Assessment → Dims
raw_of given = record {
  dims = by_name (λ a. a.score) [] given;
  verify = by_name (λ a. a.verify_state) [] given;
}

module _ (b : Bool) (n k : String) (x : ℕ) (v : Verification) (d : Dims) where
  fill_in-verify_ne : str_eq n k ≡ false → get (fill_in b n x v d).verify k ≡ get (d.verify) k
  unfolding fill_in
  fill_in-verify_ne other = by b
    where
      by : (b : Bool) → get (fill_in b n x v d).verify k ≡ get (d.verify) k
      by true = get-put_ne (d.verify) n k v other
      by false = refl

  pub fill_in-dims_ne : str_eq n k ≡ false → get (fill_in b n x v d).dims k ≡ get (d.dims) k
  unfolding fill_in
  fill_in-dims_ne other = by b
    where
      by : (b : Bool) → get (fill_in b n x v d).dims k ≡ get (d.dims) k
      by true = get-put_ne (d.dims) n k x other
      by false = refl

fill_in-verify_self :
    (b : Bool) (n : String) (x : ℕ) (v : Verification) (d : Dims)
    → get (fill_in b n x v d).verify n ≡ (if b then some v else get (d.verify) n)
unfolding fill_in
fill_in-verify_self true n x v d = get-put_self (d.verify) n v
fill_in-verify_self false n x v d = refl

pub fill_in-dims_self :
    (b : Bool) (n : String) (x : ℕ) (v : Verification) (d : Dims)
    → get (fill_in b n x v d).dims n ≡ (if b then some x else get (d.dims) n)
unfolding fill_in
fill_in-dims_self true n x v d = get-put_self (d.dims) n x
fill_in-dims_self false n x v d = refl

module _ (is_preference : Bool) (given : List Assessment) where
  -- A dimension that is neither of the two.
  pub verify-plain :
      (k : String)
      → str_eq "instruction_fulfillment" k ≡ false
      → str_eq "preference_signal" k ≡ false
      → get (dims_of is_preference given).verify k ≡ get (raw_of given).verify k
  unfolding dims_of with_alias with_preference
  verify-plain k e f =
      fill_in-verify_ne _ "preference_signal" k 0 unverified (with_alias (raw_of given)) f
      ∙ fill_in-verify_ne _ "instruction_fulfillment" k _ _ (raw_of given) e

  pub dims-plain :
      (k : String)
      → str_eq "instruction_fulfillment" k ≡ false
      → str_eq "preference_signal" k ≡ false
      → get (dims_of is_preference given).dims k ≡ get (raw_of given).dims k
  unfolding dims_of with_alias with_preference
  dims-plain k e f =
      fill_in-dims_ne _ "preference_signal" k 0 unverified (with_alias (raw_of given)) f
      ∙ fill_in-dims_ne _ "instruction_fulfillment" k _ _ (raw_of given) e

  -- Instruction fulfilment is assessed by itself, or by the completeness.
  pub verify-fulfillment :
      get (dims_of is_preference given).verify "instruction_fulfillment" ≡ some verified
      → (get (raw_of given).verify "instruction_fulfillment" ≡ some verified)
        ⊎ (get (raw_of given).verify "completeness" ≡ some verified)
  unfolding dims_of with_alias with_preference
  verify-fulfillment e =
      by
        (not (has (raw_of given).dims "instruction_fulfillment")
          && has (raw_of given).dims "completeness")
        (sym (fill_in-verify_self _ "instruction_fulfillment" _ _ (raw_of given))
          ∙ (sym (
                fill_in-verify_ne _ "preference_signal" "instruction_fulfillment" 0 unverified
                  (with_alias (raw_of given)) refl)
              ∙ e))
    where
      by :
          (b : Bool)
          → (if b
              then some (get_or (raw_of given).verify "completeness" unverified)
              else get (raw_of given).verify "instruction_fulfillment")
            ≡ some verified
          → (get (raw_of given).verify "instruction_fulfillment" ≡ some verified)
            ⊎ (get (raw_of given).verify "completeness" ≡ some verified)
      by false h = inl h
      by true h = inr (from (get (raw_of given).verify "completeness") h)
        where
          from :
              (o : Option Verification)
              → some (elim o [ none ↦ unverified | some w ↦ w ]) ≡ some verified
              → o ≡ some verified
          from none h = absurd cc
          from (some w) h = h
