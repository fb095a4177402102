-- ===== src/Quality/Accepted.antt =====
-- What is so of an example that the default validators accept.
use knovaryn.Base.{
  is_empty, ℕ, ◌-◌, ◌*◌, ltb, ◌≤◌, ◌≡◌, ◌≢◌, refl, sym, ap, subst, ◌∙◌, arith, Bool, true, false,
  String, List, [], ◌∷◌, ◌++◌, length, none, some, All, if◌then◌else◌,
}
use knovaryn.Dict.{Dict, get, get_or, put, has, get-put_ne}
use knovaryn.Chunk.Units.{sorted_set}
use knovaryn.Export.Gate.{preference}
use knovaryn.Review.{accepted}
use knovaryn.Quality.{
  Assessment, assessed, verify_state_of, by_name, dims_of, with_preference, with_alias, fill_in,
  overall_of, default_policy, assemble_decision,
}
use knovaryn.Quality.Claims.{ClaimAssessment}
use knovaryn.Quality.Tables.{raw_of, verify-plain, dims-plain}
use knovaryn.Quality.Floors.{decide_on-accepted, policy_reasons-empty}
use knovaryn.Quality.Decision.{critical-verified}
use knovaryn.Quality.Validators.{
  Sample, is_preference, is_blank, message_failures, schema_failures, assess_schema, evidence_text,
  assistant_text, contradictions, text_before, grounding_score, content_tokens, found_in, lexical,
  fractional_overlap, grounding_result, assess_grounding, semantic_result, assess_semantic,
  default_validators, artifact_assessment, validate, assess_completeness, assess_format,
  assess_refusal, assess_answerability,
}
use knovaryn.Quality.Failures.{
  verified_least, grounding_score-least, sorted_set-empty, IsUncoded, contradictions-none,
  append-empty, IsResolved, evidence_failures-none, IsAnswered, message_failures-none, if-least,
  one, nonempty,
}

module _ (fold : List ℕ → List ℕ) (is_alnum : ℕ → Bool)
    (verify_claims : List ℕ → List ℕ → List ClaimAssessment) (diagnose : Sample → ℕ × List String)
    (sources : Dict (List ℕ)) (e : Sample) where
  abbrev given : List Assessment
  given =
      default_validators fold is_alnum verify_claims diagnose sources e
      ++ artifact_assessment fold is_alnum verify_claims diagnose e ∷ []

  at_grounding :
      get (raw_of given).verify "grounding"
      ≡ some (verify_state_of (grounding_result fold is_alnum sources e).0 900000)
  unfolding by_name put get default_validators assess_grounding assess_completeness assess_format
      assess_refusal assess_schema assess_answerability assess_semantic artifact_assessment assessed
  at_grounding = refl

  at_schema :
      get (raw_of given).verify "schema"
      ≡ some (verify_state_of (if is_empty (schema_failures sources e) then 1000000 else 0) 900000)
  unfolding by_name put get default_validators assess_grounding assess_completeness assess_format
      assess_refusal assess_schema assess_answerability assess_semantic artifact_assessment assessed
  at_schema = refl

  at_semantic :
      get (raw_of given).verify "semantic_consistency"
      ≡ some (
          verify_state_of (semantic_result fold is_alnum verify_claims diagnose sources e).0 900000)
  unfolding by_name put get default_validators assess_grounding assess_completeness assess_format
      assess_refusal assess_schema assess_answerability assess_semantic artifact_assessment assessed
  at_semantic = refl

  -- Most of the content tokens of the answer stand in the cited evidence.
  abbrev IsGrounded : Type 0
  IsGrounded =
      let evidence = evidence_text sources e in
      let tokens = length (content_tokens fold is_alnum (assistant_text e)) in
      (is_blank evidence ≡ false)
      × (1 ≤ tokens)
      × (20 * (tokens - found_in fold is_alnum (assistant_text e) evidence) ≤ tokens)

  grounding_result-least : 900000 ≤ (grounding_result fold is_alnum sources e).0 → IsGrounded
  unfolding grounding_result fractional_overlap
  grounding_result-least h =
      let evidence = evidence_text sources e in
      let tokens = content_tokens fold is_alnum (assistant_text e) in
      let score =
        grounding_score (found_in fold is_alnum (assistant_text e) evidence) (length tokens) in
      let (there, h1) =
        if-least (is_blank evidence) _
          (fractional_overlap fold is_alnum (assistant_text e) evidence) h in
      let (some_token, h2) =
        if-least (is_empty tokens) _
          (if is_empty (lexical fold is_alnum evidence)
            then (0, "no_evidence" ∷ [])
            else (score, if ltb score 600000 then "low_grounding" ∷ [] else []))
          h1 in
      let (lex, h3) =
        if-least (is_empty (lexical fold is_alnum evidence)) _
          (score, if ltb score 600000 then "low_grounding" ∷ [] else []) h2 in
      (there, nonempty tokens some_token, grounding_score-least _ (length tokens) h3)

  semantic_result-least :
      900000 ≤ (semantic_result fold is_alnum verify_claims diagnose sources e).0
      → All IsUncoded (verify_claims (assistant_text e) (evidence_text sources e))
  unfolding semantic_result
  semantic_result-least h =
      let answer = assistant_text e in
      let evidence = evidence_text sources e in
      let found = contradictions (verify_claims answer evidence) in
      let reasons = sorted_set text_before found in
      let last : ℕ × List String = (if is_empty reasons then 1000000 else 0, reasons) in
      let (there, h1) =
        if-least (is_blank evidence) ("no_cited_evidence" ∷ [])
          (if is_blank answer then (0, "empty_answer" ∷ []) else last) h in
      let (answered, h2) = if-least (is_blank answer) ("empty_answer" ∷ []) last h1 in
      contradictions-none (verify_claims answer evidence)
        (sorted_set-empty text_before found (one (is_empty reasons) h2))

  no_signal :
      (overall : ℕ)
      → get_or (put (dims_of true given).dims "overall" overall) "preference_signal" 0 ≡ 0
  unfolding dims_of with_preference with_alias fill_in has get_or by_name put get default_validators
      assess_grounding assess_completeness assess_format assess_refusal assess_schema
      assess_answerability assess_semantic artifact_assessment assessed
  no_signal overall = refl

  artifact_score :
      (p : Bool) (overall : ℕ)
      → get_or (put (dims_of p given).dims "overall" overall) "artifact_resistance" 0
        ≡ (diagnose e).0
  unfolding get_or by_name put get default_validators assess_grounding assess_completeness
      assess_format assess_refusal assess_schema assess_answerability assess_semantic
      artifact_assessment assessed
  artifact_score p overall =
      ap (λ o. elim o [ none ↦ 0 | some w ↦ w ])
        (get-put_ne (dims_of p given).dims "overall" "artifact_resistance" overall refl
          ∙ dims-plain p given "artifact_resistance" refl refl
          ∙ at_artifact)
    where
      at_artifact : get (raw_of given).dims "artifact_resistance" ≡ some (diagnose e).0
      at_artifact = refl

  pub record IsAcceptable : Type 0 where
    pub no_pair : e.topology ≢ preference
    pub cites_resolve : IsResolved sources (e.source_span_ids)
    pub answered : IsAnswered e
    pub grounded : IsGrounded
    pub uncoded : All IsUncoded (verify_claims (assistant_text e) (evidence_text sources e))
    pub resistant : 750000 ≤ (diagnose e).0

  -- An example that the default validators and the default policy accept is no preference pair, cites spans
  -- that all resolve, has an answer and no blank message, has 19 of 20 content tokens of its answer in the
  -- cited evidence, has no claim that is contradicted with a reason code, and has an artifact resistance of
  -- 0.75 at least.
  pub validate-IsAcceptable :
      (validate fold is_alnum verify_claims diagnose sources e).status ≡ accepted → IsAcceptable
  unfolding validate assemble_decision
  validate-IsAcceptable h =
      let p = is_preference (e.topology) in
      let d = dims_of p given in
      let (no_failed, no_unverified, no_reason) = decide_on-accepted default_policy p d h in
      let (g, (s, (a, (f, (c, t))))) = critical-verified p given no_failed no_unverified in
      let overall = overall_of (d.dims) * 100 in
      let (ground_score, fulfilled, mean, artifact, signal) =
        policy_reasons-empty default_policy (put (d.dims) "overall" overall) overall p no_reason in
      let plain = verify-plain p given in
      let schema_clean = one (is_empty (schema_failures sources e)) (
        verified_least (if is_empty (schema_failures sources e) then 1000000 else 0) 900000
          (sym at_schema ∙ (sym (plain "schema" refl refl) ∙ s))) in
      let (messages, evidence) =
        append-empty (message_failures e) _ (unfold schema_failures in schema_clean) in
      let other = no_preference p overall signal in
      record {
        no_pair = λ q. absurd (let z : true ≡ false = sym (ap is_preference q) ∙ other in cc);
        cites_resolve = evidence_failures-none sources (e.source_span_ids) evidence;
        answered = message_failures-none e other messages;
        grounded =
            grounding_result-least (
              verified_least _ 900000 (sym at_grounding ∙ (sym (plain "grounding" refl refl) ∙ g)));
        uncoded = semantic_result-least (
            verified_least _ 900000
              (sym at_semantic ∙ (sym (plain "semantic_consistency" refl refl) ∙ c)));
        resistant = subst (λ n. 750000 ≤ n) (artifact_score p overall) artifact;
      }
    where
      no_preference :
          (p : Bool) (overall : ℕ)
          → (p ≡ true
              → 700000
                ≤ get_or (put (dims_of p given).dims "overall" overall) "preference_signal" 0)
          → p ≡ false
      no_preference false overall k = refl
      no_preference true overall k =
          absurd (let z = subst (λ n. 700000 ≤ n) (no_signal overall) (k refl) in omega (arith, z))
