-- ===== src/Quality/Floors.antt =====
-- What the reasons that are empty say, and where a score that counts comes from.
use mathlib.Core.List.{Memᴰ}
use knovaryn.Base.{
  is_empty, ℕ, ◌≤◌, ◌*◌, ◌≡◌, inl, inr, refl, sym, subst, arith, Bool, true, String, List, [], ◌∷◌,
  ◌++◌, Option, none, some, if◌then◌else◌,
}
use knovaryn.Dict.{Dict, get, get_or, put}
use knovaryn.Review.{accepted}
use knovaryn.Quality.{
  verified, Assessment, AcceptancePolicy, below, policy_reasons, Dims, failed_critical,
  unverified_critical, overall_of, decide_on,
}
use knovaryn.Quality.Tables.{by_name-found, raw_of}

is_empty-append :
    (xs ys : List String) → is_empty (xs ++ ys) ≡ true → (is_empty xs ≡ true) × (is_empty ys ≡ true)
is_empty-append [] ys e = (refl, e)
is_empty-append (x ∷ xs) ys e = absurd cc

below_lem : (n : String) (s m : ℕ) → is_empty (below n s m) ≡ true → m ≤ s
below_lem n s m e = ground arith

pub policy_reasons-empty :
    (policy : AcceptancePolicy) (dims : Dict ℕ) (overall : ℕ) (p : Bool)
    → is_empty (policy_reasons policy dims overall p) ≡ true
    → (policy.minimum_grounding ≤ get_or dims "grounding" 0)
      × (policy.minimum_instruction_fulfillment ≤ get_or dims "instruction_fulfillment" 0)
      × (policy.minimum_overall ≤ overall)
      × (policy.minimum_artifact_resistance ≤ get_or dims "artifact_resistance" 0)
      × (p ≡ true → policy.minimum_preference_signal ≤ get_or dims "preference_signal" 0)
unfolding policy_reasons
policy_reasons-empty policy dims overall p e =
    let g = below "grounding" (get_or dims "grounding" 0) (policy.minimum_grounding) in
    let f =
      below "instruction_fulfillment" (get_or dims "instruction_fulfillment" 0)
        (policy.minimum_instruction_fulfillment) in
    let o = below "overall" overall (policy.minimum_overall) in
    let signal =
      below "preference_signal" (get_or dims "preference_signal" 0)
        (policy.minimum_preference_signal) in
    let r =
      below "artifact_resistance" (get_or dims "artifact_resistance" 0)
        (policy.minimum_artifact_resistance) in
    let (e4, artifact) = is_empty-append (g ++ f ++ o ++ (if p then signal else [])) r e in
    let (e3, preference) = is_empty-append (g ++ f ++ o) (if p then signal else []) e4 in
    let (e2, mean) = is_empty-append (g ++ f) o e3 in
    let (grounding, fulfillment) = is_empty-append g f e2 in
    (
      below_lem "grounding" _ _ grounding,
      below_lem "instruction_fulfillment" _ _ fulfillment,
      below_lem "overall" _ _ mean,
      below_lem "artifact_resistance" _ _ artifact,
      λ h. below_lem "preference_signal" _ _ (rw h at preference),
    )

pub decide_on-accepted :
    (policy : AcceptancePolicy) (p : Bool) (d : Dims)
    → (decide_on policy p d).status ≡ accepted
    → (is_empty (failed_critical d) ≡ true)
      × (is_empty (unverified_critical d) ≡ true)
      × (is_empty (
            policy_reasons policy
              (put (d.dims) "overall" (overall_of (d.dims) * 100))
              (overall_of (d.dims) * 100)
              p)
          ≡ true)
unfolding decide_on
decide_on-accepted policy p d e = ground arith

pub decide_on-score :
    (policy : AcceptancePolicy) (p : Bool) (d : Dims)
    → (decide_on policy p d).score ≡ overall_of (d.dims) * 100
unfolding decide_on
decide_on-score policy p d = ground arith

-- An assessment in the list by that name, of which something holds.
abbrev pub Has : List Assessment → String → (Assessment → Type 0) → Type 0
Has given name P = (a : Assessment) × Memᴰ a given × (a.validator_name ≡ name) × P a

abbrev pub IsVerified : Assessment → Type 0
IsVerified a = a.verify_state ≡ verified

get_or-positive :
    (d : Dict ℕ) (k : String) (least : ℕ)
    → 1 ≤ least
    → least ≤ get_or d k 0
    → (x : ℕ) × (get d k ≡ some x) × (least ≤ x)
unfolding get_or
get_or-positive d k least l h = by (get d k) refl h
  where
    by :
        (o : Option ℕ)
        → get d k ≡ o
        → least ≤ elim o [ none ↦ 0 | some w ↦ w ]
        → (x : ℕ) × (get d k ≡ some x) × (least ≤ x)
    by none e m = absurd (omega (arith, m, l))
    by (some x) e m = (x, e, m)

module _ (given : List Assessment) where
  pub verified-Has :
      (k : String) → get (raw_of given).verify k ≡ some verified → Has given k IsVerified
  unfolding get
  verified-Has k e = elim (by_name-found (λ a. a.verify_state) [] given k verified e) [
    | inl h ↦ absurd cc
    | inr h ↦ h
  ]

  -- A score that is not 0 is that of an assessment.
  pub score-Has :
      (k : String) (least : ℕ)
      → 1 ≤ least
      → least ≤ get_or (raw_of given).dims k 0
      → Has given k (λ a. least ≤ a.score)
  score-Has k least l h =
      let (x, e, m) = get_or-positive (raw_of given).dims k least l h in
      elim (by_name-found (λ a. a.score) [] given k x e) [
        | inl none_yet ↦ absurd (unfold get in cc)
        | inr (a, mem, n, s) ↦ (a, mem, n, subst (λ y. least ≤ y) (sym s) m)
      ]
