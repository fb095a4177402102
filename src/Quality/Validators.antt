-- ===== src/Quality/Validators.antt =====
-- knovaryn/pipeline/quality/validators.py: the default validators of an example, over its messages and the
-- spans that it cites, and the decision on it (QualityService of knovaryn/application/service.py).
--
-- `fold` stands for the NFC form and casefold of Python, `is_alnum` for str.isalnum, `verify_claims` for the
-- verifier on the claims of an answer, and `diagnose` for the artifact heuristics.
use knovaryn.Base.{
  is_empty, ℕ, ◌-◌, ◌*◌, ◌/◌, max, leb, ltb, Bool, true, false, not, ◌&&◌, String, str_eq, contains,
  List, [], ◌∷◌, ◌++◌, map, filter, any, all, length, none, some, if◌then◌else◌,
}
use knovaryn.Dict.{Dict, get, has}
use knovaryn.Text.{codes, lower, strip, text_eq, text_lt, infix_of, word_count, words, join}
use knovaryn.Export.Gate.{Topology, preference, sft, kto, evaluation}
use knovaryn.Chunk.Units.{sorted_set}
use knovaryn.Review.{accepted, review}
use knovaryn.Quality.{unverified, Assessment, assessed, default_policy, assemble_decision, Overall}
use knovaryn.Quality.Claims.{contradicted, ClaimAssessment}

pub record Message : Type 0 where
  pub role : String
  pub content : List ℕ

-- The fields of a TrainingExample that the validators read.
pub record Sample : Type 0 where
  pub topology : Topology
  pub prompt_messages : List Message
  pub chosen_messages : List Message
  pub rejected_messages : List Message
  pub source_span_ids : List String

abbrev pub is_preference : Topology → Bool
is_preference preference = true
is_preference sft = false
is_preference kto = false
is_preference evaluation = false

abbrev pub is_assistant : Message → Bool
is_assistant m = str_eq (m.role) "assistant"

unfoldable pub first_assistant : List Message → List ℕ
first_assistant [] = []
first_assistant (m ∷ ms) = if is_assistant m then m.content else first_assistant ms

unfoldable pub assistant_text : Sample → List ℕ
unfolding first_assistant
assistant_text e =
    first_assistant (if is_empty (e.chosen_messages) then e.prompt_messages else e.chosen_messages)

unfoldable pub prompt_text : Sample → List ℕ
prompt_text e = join (b' ' ∷ []) (
    map (λ m. m.content)
      (filter (λ m. contains ("user" ∷ "system" ∷ []) (m.role))
        (e.prompt_messages ++ e.chosen_messages ++ e.rejected_messages)))

-- The texts of the cited spans that resolve.
unfoldable pub cited_texts : Dict (List ℕ) → List String → List (List ℕ)
unfolding get
cited_texts sources [] = []
cited_texts sources (s ∷ ss) = elim (get sources s) [
  | none ↦ cited_texts sources ss
  | some t ↦ t ∷ cited_texts sources ss
]

unfoldable pub evidence_text : Dict (List ℕ) → Sample → List ℕ
unfolding cited_texts
evidence_text sources e = join (b' ' ∷ []) (cited_texts sources (e.source_span_ids))

abbrev pub is_blank : List ℕ → Bool
is_blank t = is_empty (strip t)

abbrev refusal_words : List (List ℕ)
refusal_words =
    map codes ("cannot answer" ∷ "not available" ∷ "cannot determine" ∷ "unable to" ∷ [])

unfoldable pub is_refusal : List ℕ → Bool
is_refusal answer = any (λ w. infix_of w (lower answer)) refusal_words

unfoldable pub completeness_result : Sample → ℕ × List String
completeness_result e =
    let answer = assistant_text e in
    let a = max (word_count answer) 1 in
    let p = max (word_count (prompt_text e)) 1 in
    if not (is_empty answer) && leb p (20 * a) && leb a (8 * p)
    then (1000000, [])
    else if is_empty answer
    then (0, "empty_answer" ∷ [])
    else (600000, "length_out_of_band" ∷ [])

unfoldable pub assess_completeness : Sample → Assessment
unfolding assessed completeness_result
assess_completeness e = assessed "completeness" 800000 (completeness_result e)

unfoldable pub format_result : Sample → ℕ × List String
format_result e =
    let answer = assistant_text e in
    if is_blank answer
    then (0, "empty_assistant" ∷ [])
    else if ltb 4000 (length answer)
    then (700000, "overlong" ∷ [])
    else (1000000, [])

unfoldable pub assess_format : Sample → Assessment
unfolding assessed format_result
assess_format e = assessed "format" 800000 (format_result e)

unfoldable pub refusal_result : Dict (List ℕ) → Sample → ℕ × List String
refusal_result sources e =
    let refuses = is_refusal (assistant_text e) in
    if refuses && not (is_blank (evidence_text sources e))
    then (300000, "false_refusal" ∷ [])
    else if refuses
    then (1000000, "legitimate_refusal" ∷ [])
    else (1000000, [])

unfoldable pub assess_refusal : Dict (List ℕ) → Sample → Assessment
unfolding assessed refusal_result
assess_refusal sources e = assessed "refusal" 800000 (refusal_result sources e)

abbrev pub fails : Bool → String → List String
fails test code = if test then code ∷ [] else []

abbrev pub blank_contents : List Message → List String
blank_contents ms = map (λ m. "empty_content") (filter (λ m. is_blank (m.content)) ms)

abbrev pub bad_first_role : List Message → Bool
bad_first_role [] = false
bad_first_role (m ∷ ms) = not (contains ("system" ∷ "user" ∷ []) (m.role))

-- The codes of the failures of the message chains.
unfoldable pub message_failures : Sample → List String
message_failures e =
    if is_preference (e.topology)
    then blank_contents (e.prompt_messages ++ e.chosen_messages ++ e.rejected_messages)
      ++ fails (not (any is_assistant (e.chosen_messages))) "chosen_missing_assistant"
      ++ fails (not (any is_assistant (e.rejected_messages))) "rejected_missing_assistant"
    else fails (is_empty (e.prompt_messages) && is_empty (e.chosen_messages)) "no_messages"
      ++ fails (bad_first_role (e.prompt_messages)) "bad_first_role"
      ++ fails (not (any is_assistant (e.chosen_messages))) "missing_assistant"
      ++ blank_contents (e.prompt_messages ++ e.chosen_messages)

unfoldable pub evidence_failures : Dict (List ℕ) → List String → List String
unfolding has
evidence_failures sources ids =
    fails (is_empty ids) "no_evidence"
    ++ map (λ s. "unresolved_evidence") (filter (λ s. not (has sources s)) ids)

unfoldable pub schema_failures : Dict (List ℕ) → Sample → List String
unfolding message_failures evidence_failures
schema_failures sources e = message_failures e ++ evidence_failures sources (e.source_span_ids)

unfoldable pub assess_schema : Dict (List ℕ) → Sample → Assessment
unfolding schema_failures assessed
assess_schema sources e =
    let failures = schema_failures sources e in
    assessed "schema" 900000 (
      if is_empty failures then 1000000 else 0,
      if is_empty failures then "schema_ok" ∷ [] else failures,
    )

abbrev pub text_before : String → String → Bool
text_before s t = text_lt (codes s) (codes t)

unfoldable pub contradictions : List ClaimAssessment → List String
contradictions [] = []
contradictions (c ∷ cs) =
    let rest = contradictions cs in
    elim (c.verdict) [ contradicted ↦ c.reason_codes ++ rest | _ ↦ rest ]

abbrev stopwords : List (List ℕ)
stopwords = map codes (
    "a" ∷ "an" ∷ "the" ∷ "and" ∷ "or" ∷ "but" ∷ "of" ∷ "to" ∷ "in" ∷ "on" ∷ "for" ∷ "with" ∷ "is"
    ∷ "are" ∷ "was" ∷ "were" ∷ "be" ∷ "been" ∷ "by" ∷ "as" ∷ "at" ∷ "from" ∷ "it" ∷ "this" ∷ "that"
    ∷ "according" ∷ "provided" ∷ "material" ∷ "based" ∷ "following" ∷ "key" ∷ "about" ∷ "you"
    ∷ "your" ∷ "would" ∷ "should" ∷ "could" ∷ "will" ∷ "can" ∷ "not" ∷ "no" ∷ "any" ∷ "please"
    ∷ "answer" ∷ "question" ∷ "source" ∷ [])

abbrev pub member : List ℕ → List (List ℕ) → Bool
member t ts = any (text_eq t) ts

-- Each text once.
unfoldable pub distinct : List (List ℕ) → List (List ℕ)
distinct [] = []
distinct (t ∷ ts) = let rest = distinct ts in if member t rest then rest else t ∷ rest

-- A score from the tokens of an answer, and how many of them the evidence has: 1 - 2 * (1 - found / all).
unfoldable pub grounding_score : ℕ → ℕ → ℕ
grounding_score found all =
    if leb all (2 * (all - found)) then 0 else (all - 2 * (all - found)) * 1000000 / all

module _ (fold : List ℕ → List ℕ) (is_alnum : ℕ → Bool) where
  unfoldable pub lexical : List ℕ → List (List ℕ)
  unfolding distinct words
  lexical t = distinct (filter (λ w. not (is_empty w)) (map (filter is_alnum) (words (fold t))))

  unfoldable pub content_tokens : List ℕ → List (List ℕ)
  unfolding lexical
  content_tokens t = filter (λ w. not (member w stopwords)) (lexical t)

  -- How many of the content tokens of a text stand in the evidence.
  unfoldable pub found_in : List ℕ → List ℕ → ℕ
  unfolding content_tokens
  found_in t evidence = length (filter (λ w. member w (lexical evidence)) (content_tokens t))

  unfoldable pub fractional_overlap : List ℕ → List ℕ → ℕ × List String
  unfolding grounding_score found_in
  fractional_overlap answer evidence =
      if is_empty (content_tokens answer)
      then (0, "empty_answer" ∷ [])
      else if is_empty (lexical evidence)
      then (0, "no_evidence" ∷ [])
      else let score =
          grounding_score (found_in answer evidence) (length (content_tokens answer)) in
        (score, if ltb score 600000 then "low_grounding" ∷ [] else [])

  unfoldable pub grounding_result : Dict (List ℕ) → Sample → ℕ × List String
  unfolding fractional_overlap
  grounding_result sources e =
      if is_blank (evidence_text sources e)
      then (0, "no_cited_evidence" ∷ [])
      else fractional_overlap (assistant_text e) (evidence_text sources e)

  unfoldable pub assess_grounding : Dict (List ℕ) → Sample → Assessment
  unfolding assessed grounding_result
  assess_grounding sources e = assessed "grounding" 900000 (grounding_result sources e)

  -- Whether the evidence has a fifth of the content tokens of the prompt: _raw_overlap against 0.2
  unfoldable pub is_answerable : List ℕ → List ℕ → Bool
  unfolding found_in
  is_answerable prompt evidence =
      not (is_empty (content_tokens prompt))
      && not (is_empty (lexical evidence))
      && leb (length (content_tokens prompt)) (5 * found_in prompt evidence)

  unfoldable pub answerability_result : Dict (List ℕ) → Sample → ℕ × List String
  unfolding is_answerable
  answerability_result sources e =
      let evidence = evidence_text sources e in
      if is_blank evidence
      then (0, "no_evidence_for_answer" ∷ [])
      else if is_refusal (assistant_text e)
      then (if is_answerable (prompt_text e) evidence
          then (300000, "false_refusal" ∷ [])
          else (1000000, "legitimate_refusal" ∷ []))
      else (1000000, "answerable" ∷ [])

  unfoldable pub assess_answerability : Dict (List ℕ) → Sample → Assessment
  unfolding assessed answerability_result
  assess_answerability sources e = assessed "answerability" 800000 (answerability_result sources e)

  module _ (verify_claims : List ℕ → List ℕ → List ClaimAssessment)
      (diagnose : Sample → ℕ × List String) where
    unfoldable pub semantic_result : Dict (List ℕ) → Sample → ℕ × List String
    unfolding contradictions
    semantic_result sources e =
        let answer = assistant_text e in
        let evidence = evidence_text sources e in
        let reasons = sorted_set text_before (contradictions (verify_claims answer evidence)) in
        if is_blank evidence
        then (0, "no_cited_evidence" ∷ [])
        else if is_blank answer
        then (0, "empty_answer" ∷ [])
        else (if is_empty reasons then 1000000 else 0, reasons)

    unfoldable pub assess_semantic : Dict (List ℕ) → Sample → Assessment
    unfolding assessed semantic_result
    assess_semantic sources e = assessed "semantic_consistency" 900000 (semantic_result sources e)

    unfoldable pub default_validators : Dict (List ℕ) → Sample → List Assessment
    unfolding assess_grounding assess_completeness assess_format assess_refusal assess_schema
        assess_answerability assess_semantic
    default_validators sources e =
        assess_grounding sources e
        ∷ assess_completeness e
        ∷ assess_format e
        ∷ assess_refusal sources e
        ∷ assess_schema sources e
        ∷ assess_answerability sources e
        ∷ assess_semantic sources e
        ∷ []

    -- _artifact_assessment, which sets no state of verification
    unfoldable pub artifact_assessment : Sample → Assessment
    artifact_assessment e = record {
      validator_name = "artifact_resistance";
      status = if leb 750000 (diagnose e).0 then accepted else review;
      verify_state = unverified;
      score = (diagnose e).0;
      reason_codes = (diagnose e).1;
    }

    unfoldable pub validate : Dict (List ℕ) → Sample → Overall
    unfolding default_validators artifact_assessment
    validate sources e =
        assemble_decision default_policy (is_preference (e.topology))
          (default_validators sources e ++ artifact_assessment e ∷ [])
