-- ===== src/Quality/Tests.antt =====
-- One example through the default validators, and one claim through the composite verifier.
use knovaryn.Base.{ℕ, leb, ◌&&◌, ◌≡◌, refl, Bool, false, String, List, [], ◌∷◌, none, some}
use knovaryn.Dict.{Dict, get, put, has, get_or}
use knovaryn.Text.{
  codes, lower, lower_code, strip, strip_left, text_eq, text_lt, starts, infix_of, word_count,
  words, join,
}
use knovaryn.Export.Gate.{Topology, sft}
use knovaryn.Review.{accepted}
use knovaryn.Planner.TopUp.{round_half_even}
use knovaryn.Chunk.Units.{insert_new, sorted_set}
use knovaryn.Quality.{
  status_of, verify_state_of, assessed, default_policy, policy_reasons, by_name, fill_in,
  with_alias, with_preference, dims_of, failed_critical, unverified_critical, overall_of, decide_on,
  assemble_decision, Assessment,
}
use knovaryn.Quality.Claims.{AtomicClaim, ClaimAssessment, entailed, contradicted, unverified}
use knovaryn.Quality.Decision.{IsCertified, assemble_decision-IsCertified}
use knovaryn.Quality.Validators.{
  Sample, first_assistant, assistant_text, prompt_text, cited_texts, evidence_text, is_refusal,
  completeness_result, assess_completeness, format_result, assess_format, refusal_result,
  assess_refusal, message_failures, evidence_failures, schema_failures, assess_schema,
  contradictions, distinct, grounding_score, lexical, content_tokens, found_in, fractional_overlap,
  grounding_result, assess_grounding, is_answerable, answerability_result, assess_answerability,
  semantic_result, assess_semantic, default_validators, artifact_assessment, validate,
}
use knovaryn.Quality.Accepted.{IsAcceptable, validate-IsAcceptable}
use knovaryn.Quality.Semantic.{
  Checks, Composite, demote, apply_rules, rules, finding, assess_claim, assess_claims, unjudged,
  judged, missing, read_items, assess_judged, matching, merge_one, judgements, assess_composite,
}
use knovaryn.Quality.Semantic.Founded.{Each, IsFounded, assess_composite-IsFounded}

abbrev assessments : List Assessment
assessments =
    assessed "grounding" 900000 (950000, [])
    ∷ assessed "completeness" 800000 (1000000, [])
    ∷ assessed "schema" 900000 (1000000, [])
    ∷ assessed "answerability" 800000 (1000000, [])
    ∷ assessed "semantic_consistency" 900000 (1000000, [])
    ∷ assessed "artifact_resistance" 750000 (800000, [])
    ∷ []

is_accepted : (assemble_decision default_policy false assessments).status ≡ accepted
unfolding assemble_decision decide_on dims_of with_preference with_alias fill_in by_name put get
    get_or has assessed verify_state_of status_of failed_critical unverified_critical overall_of
    round_half_even policy_reasons
is_accepted = refl

assemble_decision-IsCertified_example : IsCertified false assessments
assemble_decision-IsCertified_example = assemble_decision-IsCertified false assessments is_accepted

abbrev sample : Topology → Sample
sample t = record {
  topology = t;
  prompt_messages = record { role = "user"; content = codes "Why?" } ∷ [];
  chosen_messages = record { role = "assistant"; content = codes "Tides rise" } ∷ [];
  rejected_messages = record { role = "assistant"; content = codes "No" } ∷ [];
  source_span_ids = "s" ∷ [];
}

abbrev sources : Dict (List ℕ)
sources = ("s", codes "tides rise daily") ∷ []

abbrev is_letter : ℕ → Bool
is_letter c = leb 97 c && leb c 122

-- A judge that contradicts, and gives no code.
abbrev uncoded : List ℕ → List ℕ → List ClaimAssessment
uncoded answer evidence =
    record {
      claim = record { text = "Tides rise"; claim_type = "proposition" };
      verdict = contradicted;
      confidence = 900000;
      supporting_span_ids = [];
      reason_codes = [];
      verifier_name = "j";
    }
    ∷ []

abbrev diagnose : Sample → ℕ × List String
diagnose e = (1000000, [])

abbrev checks : Checks
checks = record {
  unsupported_entities = λ c. [];
  causal_direction = λ c. ("", "", none);
  role_reversal = λ c. false;
  negation_reversal = λ c. false;
  number_mismatch = λ c. [];
  unit_mismatch = λ c. [];
}

abbrev composite : Composite
composite = record {
  offline_mode = false;
  checks = checks;
  judge = some (λ claims. some (
      record {
        claim_id = some 0;
        verdict = "entailed";
        confidence = some 2000000;
        evidence_span_ids = "s" ∷ "t" ∷ [];
        reason_codes = [];
        malformed = false;
        endless = false;
      }
      ∷ []));
  identity = "j";
}

abbrev claims : List AtomicClaim
claims =
    record { text = "Tides rise"; claim_type = "proposition" }
    ∷ record { text = "Tides fall"; claim_type = "proposition" }
    ∷ []

-- The invented span is dropped, and the claim that the judge has skipped is unverified.
judged_claims :
    assess_composite composite ("s" ∷ []) claims
    ≡ record {
      claim = record { text = "Tides rise"; claim_type = "proposition" };
      verdict = entailed;
      confidence = 1000000;
      supporting_span_ids = "s" ∷ [];
      reason_codes = [];
      verifier_name = "j";
    }
      ∷ record {
        claim = record { text = "Tides fall"; claim_type = "proposition" };
        verdict = unverified;
        confidence = 0;
        supporting_span_ids = [];
        reason_codes = "judge_no_verdict" ∷ [];
        verifier_name = "j";
      }
      ∷ []
unfolding assess_composite judgements merge_one matching assess_judged read_items missing judged
    unjudged assess_claims assess_claim finding rules apply_rules demote
judged_claims = refl

assess_composite-IsFounded_example :
    Each
      (IsFounded composite ("s" ∷ []) claims)
      claims
      (assess_composite composite ("s" ∷ []) claims)
assess_composite-IsFounded_example = assess_composite-IsFounded composite ("s" ∷ []) claims

uncoded_accepted :
    (validate lower is_letter uncoded diagnose sources (sample sft)).status ≡ accepted
unfolding validate default_validators artifact_assessment assess_semantic semantic_result
    assess_answerability answerability_result is_answerable assess_grounding grounding_result
    fractional_overlap found_in content_tokens lexical grounding_score distinct contradictions
    assess_schema schema_failures evidence_failures message_failures assess_refusal refusal_result
    assess_format format_result assess_completeness completeness_result is_refusal evidence_text
    cited_texts prompt_text assistant_text first_assistant assemble_decision decide_on dims_of
    with_preference with_alias fill_in by_name put get get_or has assessed verify_state_of status_of
    failed_critical unverified_critical overall_of round_half_even policy_reasons insert_new
    sorted_set lower lower_code strip strip_left text_eq text_lt starts infix_of word_count words
    join
uncoded_accepted = refl

validate-IsAcceptable_example : IsAcceptable lower is_letter uncoded diagnose sources (sample sft)
validate-IsAcceptable_example =
    validate-IsAcceptable lower is_letter uncoded diagnose sources (sample sft) uncoded_accepted
