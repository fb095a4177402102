-- ===== src/Quality/Failures.antt =====
-- What the clean outcomes of single validators say of an example.
use native.Mathlib.Nat.{mul-le-mul_left}
use native.Mathlib.Omega.{div_any}
use knovaryn.Base.{
  is_empty, ℕ, ◌-◌, ◌*◌, ◌/◌, leb, ◌≤◌, ◌≡◌, inl, inr, refl, sym, ◌∙◌, arith, Bool, true, false,
  not, String, List, [], ◌∷◌, ◌++◌, filter, any, All-map, ◌&&◌, length, map, some, All, Bool-cases,
  if◌then◌else◌,
}
use knovaryn.Dict.{Dict, has}
use knovaryn.Chunk.Units.{sorted_set, insert_new}
use knovaryn.Quality.{verified, verify_state_of}
use knovaryn.Quality.Claims.{ClaimVerdict, ClaimAssessment, contradicted, entailed, insufficient}
use knovaryn.Quality.Validators.{
  Sample, is_preference, is_assistant, fails, bad_first_role, blank_contents, is_blank,
  message_failures, evidence_failures, contradictions, grounding_score,
}

pub verified_least :
    (score floor : ℕ) → some (verify_state_of score floor) ≡ some verified → floor ≤ score
unfolding verify_state_of
verified_least score floor e = ground arith

-- A score of 0.9 leaves one token of twenty without support at most.
pub grounding_score-least :
    (found all : ℕ) → 900000 ≤ grounding_score found all → 20 * (all - found) ≤ all
unfolding grounding_score
grounding_score-least found all h = elim (Bool-cases (leb all (2 * (all - found)))) [
  | inl e ↦ absurd (let z : 900000 ≤ 0 = (rw e at h) in omega (arith, z))
  | inr e ↦
      let z : 900000 ≤ (all - 2 * (all - found)) * 1000000 / all = (rw e at h) in
      let m = mul-le-mul_left all z in
      let d = div_any ((all - 2 * (all - found)) * 1000000) all in ground (arith, m, d)
]

insert_new-nonempty :
    (lt : String → String → Bool) (x : String) (xs : List String)
    → is_empty (insert_new lt x xs) ≡ false
unfolding insert_new
insert_new-nonempty lt x [] = refl
insert_new-nonempty lt x (y ∷ xs) = ground arith

pub sorted_set-empty :
    (lt : String → String → Bool) (xs : List String) → is_empty (sorted_set lt xs) ≡ true → xs ≡ []
unfolding sorted_set
sorted_set-empty lt [] e = refl
sorted_set-empty lt (x ∷ xs) e =
    absurd (let z : true ≡ false = sym e ∙ insert_new-nonempty lt x (sorted_set lt xs) in cc)

-- A contradiction, if there is one, has no code.
abbrev pub IsUncoded : ClaimAssessment → Type 0
IsUncoded c = c.verdict ≡ contradicted → c.reason_codes ≡ []

append-nil : (xs ys : List String) → xs ++ ys ≡ [] → (xs ≡ []) × (ys ≡ [])
append-nil [] ys e = (refl, e)
append-nil (x ∷ xs) ys e = absurd cc

pub contradictions-none : (cs : List ClaimAssessment) → contradictions cs ≡ [] → All IsUncoded cs
unfolding contradictions
contradictions-none [] e = tt
contradictions-none (c ∷ cs) e = by (contradictions-none cs) (c.verdict) refl e
  where
    by :
        (contradictions cs ≡ [] → All IsUncoded cs)
        → (v : ClaimVerdict) → c.verdict ≡ v
        → elim v [ contradicted ↦ c.reason_codes ++ contradictions cs | _ ↦ contradictions cs ] ≡ []
        → IsUncoded c × All IsUncoded cs
    by rest contradicted q h =
        let (a, b) = append-nil (c.reason_codes) (contradictions cs) h in (λ z. a, rest b)
    by rest entailed q h = (λ z. absurd (let w = sym z ∙ q in cc), rest h)
    by rest insufficient q h = (λ z. absurd (let w = sym z ∙ q in cc), rest h)
    by rest ClaimVerdict.unverified q h = (λ z. absurd (let w = sym z ∙ q in cc), rest h)

pub append-empty :
    (xs ys : List String) → is_empty (xs ++ ys) ≡ true → (is_empty xs ≡ true) × (is_empty ys ≡ true)
append-empty [] ys e = (refl, e)
append-empty (x ∷ xs) ys e = absurd cc

map-filter-empty {ℓ} :
    {A : Type ℓ} (f : A → String) (p : A → Bool) (xs : List A)
    → is_empty (map f (filter p xs)) ≡ true
    → All (λ x. p x ≡ false) xs
map-filter-empty f p [] e = tt
map-filter-empty f p (x ∷ xs) e = elim (Bool-cases (p x)) [
  | inl h ↦ absurd (let z : false ≡ true = (rw h at e) in cc)
  | inr h ↦ (h, map-filter-empty f p xs (rw h at e))
]

-- Some span is cited, and all resolve.
abbrev pub IsResolved : Dict (List ℕ) → List String → Type 0
IsResolved sources ids = (is_empty ids ≡ false) × All (λ s. has sources s ≡ true) ids

pub evidence_failures-none :
    (sources : Dict (List ℕ)) (ids : List String)
    → is_empty (evidence_failures sources ids) ≡ true
    → IsResolved sources ids
unfolding evidence_failures
evidence_failures-none sources ids e =
    let (a, b) =
      append-empty (fails (is_empty ids) "no_evidence")
        (map (λ s. "unresolved_evidence") (filter (λ s. not (has sources s)) ids)) e in
    (
      ground (arith, a),
      All-map _ _ ids (λ s h. (let z : not (has sources s) ≡ false = h in ground (arith, z)))
          (map-filter-empty (λ s. "unresolved_evidence") (λ s. not (has sources s)) ids b),
    )

-- The chain of an example that is no pair has an answer, and nothing in it is blank.
abbrev pub IsAnswered : Sample → Type 0
IsAnswered e =
    (any is_assistant (e.chosen_messages) ≡ true)
    × All (λ m. is_blank (m.content) ≡ false) (e.prompt_messages ++ e.chosen_messages)

pub message_failures-none :
    (e : Sample)
    → is_preference (e.topology) ≡ false
    → is_empty (message_failures e) ≡ true
    → IsAnswered e
unfolding message_failures
message_failures-none e p h =
    let a = fails (is_empty (e.prompt_messages) && is_empty (e.chosen_messages)) "no_messages" in
    let b = fails (bad_first_role (e.prompt_messages)) "bad_first_role" in
    let c = fails (not (any is_assistant (e.chosen_messages))) "missing_assistant" in
    let d = blank_contents (e.prompt_messages ++ e.chosen_messages) in
    let h0 : is_empty (a ++ b ++ c ++ d) ≡ true = (rw p at h) in
    let (h1, blank) = append-empty (a ++ b ++ c) d h0 in
    let (h2, answered) = append-empty (a ++ b) c h1 in
    (
      ground (arith, answered),
      map-filter-empty (λ m. "empty_content") (λ m. is_blank (m.content))
          (e.prompt_messages ++ e.chosen_messages) blank,
    )

pub if-least :
    (b : Bool) (codes : List String) (x : ℕ × List String)
    → 900000 ≤ (if b then (0, codes) else x).0
    → (b ≡ false) × (900000 ≤ x.0)
if-least true codes x h = absurd (omega (arith, h))
if-least false codes x h = (refl, h)

pub one : (b : Bool) → 900000 ≤ (if b then 1000000 else 0) → b ≡ true
one true h = refl
one false h = absurd (omega (arith, h))

pub nonempty {ℓ} : {A : Type ℓ} (xs : List A) → is_empty xs ≡ false → 1 ≤ length xs
nonempty [] e = absurd cc
nonempty (x ∷ xs) e = omega arith
