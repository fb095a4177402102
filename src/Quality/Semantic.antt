-- ===== src/Quality/Semantic.antt =====
-- knovaryn/pipeline/quality/semantic.py: the deterministic verifier of claims, the judge, and the composite.
--
-- `checks` are the rules of claims.py at the evidence. `judge` stands for ModelGateway.judge with the
-- reading of its answer as JSON: none where that raises or is no array.
pub mod Said
pub mod Founded
use knovaryn.Base.{
  ℕ, min, suc, zero, ◌==◌, Bool, true, false, not, ◌&&◌, ◌||◌, String, str_eq, contains, List, [],
  ◌∷◌, ◌++◌, map, filter, any, length, take, is_empty, get_elem?, Option, none, some, if◌then◌else◌,
}
use Prim.Native.String.{◌++◌ as str_append}
use knovaryn.Quality.Claims.{
  ClaimVerdict, entailed, contradicted, insufficient, unverified, AtomicClaim, ClaimAssessment,
}

-- What the rules find of a claim: the entities that the evidence does not have, the subjects and the
-- direction of the causal relations, and the codes of the mismatches.
pub record Checks : Type 0 where
  pub unsupported_entities : AtomicClaim → List String
  pub causal_direction : AtomicClaim → String × String × Option String
  pub role_reversal : AtomicClaim → Bool
  pub negation_reversal : AtomicClaim → Bool
  pub number_mismatch : AtomicClaim → List String
  pub unit_mismatch : AtomicClaim → List String

-- `verdict`, `confidence` and `reason_codes` of the loop over the claims.
pub record Finding : Type 0 where
  pub verdict : ClaimVerdict
  pub confidence : ℕ
  pub reason_codes : List String

abbrev pub no_finding : Finding
no_finding = record { verdict = unverified; confidence = 0; reason_codes = [] }

-- A rule that has fired with these codes, and what becomes of the confidence.
unfoldable pub demote : List String → (ℕ → ℕ) → Finding → Finding
demote [] confidence f = f
demote (code ∷ codes) confidence f = record {
  verdict = contradicted;
  confidence = confidence (f.confidence);
  reason_codes = f.reason_codes ++ code ∷ codes;
}

unfoldable pub apply_rules : List (List String × (ℕ → ℕ)) → Finding → Finding
unfolding demote
apply_rules [] f = f
apply_rules ((codes, confidence) ∷ rules) f = apply_rules rules (demote codes confidence f)

abbrev pub code_if : Bool → String → List String
code_if test code = if test then code ∷ [] else []

abbrev pub reversed : String × String × Option String → Bool
reversed (claim, evidence, none) = false
reversed (claim, evidence, some direction) =
    not (str_eq direction "") && not (str_eq claim evidence)

abbrev pub is_causal : AtomicClaim → Bool
is_causal c = str_eq (c.claim_type) "causal"

module _ (checks : Checks) where
  -- The rules in their order; the first sets the confidence to a half, the others to 0 at most.
  unfoldable pub rules : AtomicClaim → List (List String × (ℕ → ℕ))
  rules c =
      (map (str_append "unsupported_entity:") (checks.unsupported_entities c), λ n. 500000)
      ∷ (
        code_if (is_causal c && reversed (checks.causal_direction c)) "causal_direction_reversal",
        λ n. min n 0,
      )
      ∷ (code_if (checks.role_reversal c) "subject_object_reversal", λ n. min n 0)
      ∷ (code_if (checks.negation_reversal c) "negation_reversal", λ n. min n 0)
      ∷ (checks.number_mismatch c, λ n. min n 0)
      ∷ (checks.unit_mismatch c, λ n. min n 0)
      ∷ []

  unfoldable pub finding : AtomicClaim → Finding
  unfolding rules apply_rules
  finding c = apply_rules (rules c) no_finding

  unfoldable pub assess_claim : List String → AtomicClaim → ClaimAssessment
  unfolding finding
  assess_claim cited c = record {
    claim = c;
    verdict = (finding c).verdict;
    confidence = (finding c).confidence;
    supporting_span_ids = cited;
    reason_codes = (finding c).reason_codes;
    verifier_name = "deterministic";
  }

  -- DeterministicSemanticVerifier.assess_claims
  unfoldable pub assess_claims : List String → List AtomicClaim → List ClaimAssessment
  unfolding assess_claim
  assess_claims cited claims = map (assess_claim cited) claims

-- One element of the judge's array. `claim_id` is none where it is no number or a negative one,
-- `confidence` is none where it is no number and 0 where it is negative, `endless` says that its
-- claim_id is an infinity, for which int raises OverflowError, and `malformed` that its spans or codes cannot be read.
pub record Item : Type 0 where
  pub claim_id : Option ℕ
  pub verdict : String
  pub confidence : Option ℕ
  pub evidence_span_ids : List String
  pub reason_codes : List String
  pub malformed : Bool
  pub endless : Bool

abbrev pub verdict_of : String → ClaimVerdict
verdict_of v =
    if str_eq v "entailed"
    then entailed
    else if str_eq v "contradicted"
    then contradicted
    else if str_eq v "insufficient_evidence"
    then insufficient
    else unverified

abbrev pub clamped : Option ℕ → ℕ
clamped none = 0
clamped (some n) = min 1000000 n

abbrev pub is_entailed : ClaimVerdict → Bool
is_entailed entailed = true
is_entailed contradicted = false
is_entailed insufficient = false
is_entailed unverified = false

abbrev pub is_contradicted : ClaimVerdict → Bool
is_contradicted contradicted = true
is_contradicted entailed = false
is_contradicted insufficient = false
is_contradicted unverified = false

module _ (identity : String) where
  -- What is said of a claim that has no verdict of the judge.
  unfoldable pub unjudged : String → AtomicClaim → ClaimAssessment
  unjudged code c = record {
    claim = c;
    verdict = unverified;
    confidence = 0;
    supporting_span_ids = [];
    reason_codes = code ∷ [];
    verifier_name = identity;
  }

  unfoldable pub judged : List String → Item → AtomicClaim → ClaimAssessment
  judged cited item c = record {
    claim = c;
    verdict = verdict_of (item.verdict);
    confidence = clamped (item.confidence);
    supporting_span_ids =
        if is_entailed (verdict_of (item.verdict))
        then filter (contains cited) (item.evidence_span_ids)
        else [];
    reason_codes = take 6 (item.reason_codes);
    verifier_name = identity;
  }

  abbrev pub numbered_claim : ℕ → Option AtomicClaim → Option (ℕ × AtomicClaim)
  numbered_claim i none = none
  numbered_claim i (some c) = some (i, c)

  -- by_index.get(idx), unless the index has been seen.
  abbrev pub claim_at : List AtomicClaim → List ℕ → Option ℕ → Option (ℕ × AtomicClaim)
  claim_at claims seen none = none
  claim_at claims seen (some i) =
      if any (λ j. i == j) seen then none else numbered_claim i (get_elem? claims i)

  unfoldable pub missing : List ℕ → ℕ → List AtomicClaim → List ClaimAssessment
  unfolding unjudged
  missing seen i [] = []
  missing seen i (c ∷ cs) =
      let rest = missing seen (suc i) cs in
      if any (λ j. i == j) seen then rest else unjudged "judge_no_verdict" c ∷ rest

  -- The loop over the array; none where an element raises.
  unfoldable pub read_items :
      List String → List AtomicClaim → List ℕ → List Item → Option (List ClaimAssessment)
  unfolding judged missing
  read_items cited claims seen [] = some (missing seen 0 claims)
  read_items cited claims seen (item ∷ items) =
      let skipped = read_items cited claims seen items in
      let found : Option (List ClaimAssessment) = elim (claim_at claims seen (item.claim_id)) [
        | none ↦ skipped
        | some (i, c) ↦
            let rest = read_items cited claims (i ∷ seen) items in
            if item.malformed
            then none
            else elim rest [ none ↦ none | some found ↦ some (judged cited item c ∷ found) ]
      ] in
      if item.endless then none else found

  -- ModelSemanticVerifier.assess_claims, with the answer of the judge
  unfoldable pub assess_judged :
      List String → List AtomicClaim → Option (List Item) → List ClaimAssessment
  unfolding read_items unjudged
  assess_judged cited claims none = map (unjudged "model_verifier_failed") claims
  assess_judged cited claims (some items) = elim (read_items cited claims [] items) [
    | none ↦ map (unjudged "model_verifier_failed") claims
    | some found ↦ found
  ]

-- next(m for m in model_results if m.claim.text == text)
unfoldable pub matching : String → List ClaimAssessment → Option ClaimAssessment
matching t [] = none
matching t (m ∷ ms) = if str_eq (m.claim.text) t then some m else matching t ms

unfoldable pub merge_one : List ClaimAssessment → ClaimAssessment → ClaimAssessment
unfolding matching
merge_one judgements d =
    if is_contradicted (d.verdict)
    then d
    else elim (matching (d.claim.text) judgements) [ none ↦ d | some m ↦ m ]

-- What the composite is built from: `judge` is none without a model verifier.
pub record Composite : Type 0 where
  pub offline_mode : Bool
  pub checks : Checks
  pub judge : Option (List AtomicClaim → Option (List Item))
  pub identity : String

abbrev pub contradicted_texts : List ClaimAssessment → List String
contradicted_texts ds = map (λ d. d.claim.text) (filter (λ d. is_contradicted (d.verdict)) ds)

abbrev pub open_claims : List ClaimAssessment → List AtomicClaim → List AtomicClaim
open_claims ds claims = filter (λ c. not (contains (contradicted_texts ds) (c.text))) claims

unfoldable pub judgements :
    String
    → (List AtomicClaim → Option (List Item))
    → List String
    → List AtomicClaim
    → List ClaimAssessment
unfolding assess_judged
judgements identity judge cited claims =
    if is_empty claims then [] else assess_judged identity cited claims (judge claims)

-- CompositeSemanticVerifier.assess_claims
unfoldable pub assess_composite : Composite → List String → List AtomicClaim → List ClaimAssessment
unfolding assess_claims judgements merge_one
assess_composite k cited claims =
    let ds = assess_claims (k.checks) cited claims in
    elim (k.judge) [
      | none ↦ ds
      | some judge ↦
          if k.offline_mode
          then ds
          else map (merge_one (judgements (k.identity) judge cited (open_claims ds claims))) ds
    ]
