-- ===== src/Quality.antt =====
-- knovaryn/pipeline/quality: what the parts share, and the fold of the assessments of an example into its
-- decision (assemble_decision of validators.py, AcceptancePolicy of knovaryn/domain/policies.py). Scores
-- are whole millionths, rounded down, against which the thresholds compare exactly; the overall mean is
-- rounded to ten-thousandths.
mod Tests
pub mod Tables
pub mod Floors
pub mod Decision
pub mod Claims
pub mod Validators
pub mod Failures
pub mod Accepted
pub mod Semantic
use Prim.Native.String.{◌++◌ as str_append}
use knovaryn.Base.{
  is_empty, ℕ, ◌+◌, ◌*◌, max, leb, ltb, Bool, true, false, not, ◌&&◌, ◌||◌, String, contains, List,
  [], ◌∷◌, ◌++◌, map, filter, length, sum_by, Option, none, some, if◌then◌else◌,
}
use knovaryn.Dict.{Dict, get, get_or, put, has}
use knovaryn.Review.{QualityStatus, accepted, review, rejected, blocked}
use knovaryn.Planner.TopUp.{round_half_even}

pub data Verification : Type 0 where
  verified failed unverified : Verification

pub record Assessment : Type 0 where
  pub validator_name : String
  pub status : QualityStatus
  pub verify_state : Verification
  pub score : ℕ
  pub reason_codes : List String

unfoldable pub status_of : ℕ → QualityStatus
status_of score =
    if leb 800000 score then accepted else if leb 500000 score then review else rejected

unfoldable pub verify_state_of : ℕ → ℕ → Verification
verify_state_of score floor = if leb floor score then verified else failed

-- The outcome of a validator, with the floor that it verifies against.
unfoldable pub assessed : String → ℕ → ℕ × List String → Assessment
unfolding status_of verify_state_of
assessed name floor (score, reasons) = record {
  validator_name = name;
  status = status_of score;
  verify_state = verify_state_of score floor;
  score = score;
  reason_codes = reasons;
}

-- The floors of the acceptance policy.
pub record AcceptancePolicy : Type 0 where
  pub minimum_overall : ℕ
  pub minimum_grounding : ℕ
  pub minimum_instruction_fulfillment : ℕ
  pub minimum_preference_signal : ℕ
  pub minimum_artifact_resistance : ℕ

abbrev pub default_policy : AcceptancePolicy
default_policy = record {
  minimum_overall = 820000;
  minimum_grounding = 900000;
  minimum_instruction_fulfillment = 800000;
  minimum_preference_signal = 700000;
  minimum_artifact_resistance = 750000;
}

abbrev pub below : String → ℕ → ℕ → List String
below name score minimum = if ltb score minimum then str_append name "<" ∷ [] else []

-- The reasons of AcceptancePolicy.assess, without the number that follows the sign; it passes with none.
unfoldable pub policy_reasons : AcceptancePolicy → Dict ℕ → ℕ → Bool → List String
policy_reasons policy dims overall is_preference =
    below "grounding" (get_or dims "grounding" 0) (policy.minimum_grounding)
    ++ below "instruction_fulfillment" (get_or dims "instruction_fulfillment" 0)
        (policy.minimum_instruction_fulfillment)
    ++ below "overall" overall (policy.minimum_overall)
    ++ (if is_preference
        then below "preference_signal" (get_or dims "preference_signal" 0)
            (policy.minimum_preference_signal)
        else [])
    ++ below "artifact_resistance" (get_or dims "artifact_resistance" 0)
        (policy.minimum_artifact_resistance)

-- {a.validator_name: f(a) for a in assessments}
unfoldable pub by_name {ℓ} : {V : Type ℓ} → (Assessment → V) → Dict V → List Assessment → Dict V
unfolding put
by_name f d [] = d
by_name f d (a ∷ rest) = by_name f (put d (a.validator_name) (f a)) rest

pub record Dims : Type 0 where
  pub dims : Dict ℕ
  pub verify : Dict Verification

-- A dimension that is fill_in in, if the test says so.
unfoldable pub fill_in : Bool → String → ℕ → Verification → Dims → Dims
unfolding put
fill_in true name score state d = record {
  dims = put (d.dims) name score;
  verify = put (d.verify) name state;
}
fill_in false name score state d = d

unfoldable pub with_alias : Dims → Dims
unfolding fill_in get_or has
with_alias d =
    fill_in (not (has (d.dims) "instruction_fulfillment") && has (d.dims) "completeness")
      "instruction_fulfillment" (get_or (d.dims) "completeness" 0)
      (get_or (d.verify) "completeness" unverified) d

unfoldable pub with_preference : Bool → Dims → Dims
unfolding fill_in has
with_preference is_preference d =
    fill_in (is_preference && not (has (d.dims) "preference_signal")) "preference_signal" 0
      unverified d

unfoldable pub dims_of : Bool → List Assessment → Dims
unfolding by_name with_alias with_preference
dims_of is_preference assessments = with_preference is_preference (
    with_alias (record {
      dims = by_name (λ a. a.score) [] assessments;
      verify = by_name (λ a. a.verify_state) [] assessments;
    }))

abbrev pub critical : List String
critical =
    "grounding" ∷ "schema" ∷ "answerability" ∷ "instruction_fulfillment" ∷ "semantic_consistency"
    ∷ []

abbrev pub is_failed : Option Verification → Bool
is_failed (some failed) = true
is_failed _ = false

abbrev pub is_unverified : Option Verification → Bool
is_unverified none = true
is_unverified (some unverified) = true
is_unverified _ = false

unfoldable pub failed_critical : Dims → List String
unfolding get
failed_critical d = filter (λ k. is_failed (get (d.verify) k)) critical

unfoldable pub unverified_critical : Dims → List String
unfolding get
unverified_critical d = filter (λ k. is_unverified (get (d.verify) k)) critical

-- In ten-thousandths.
unfoldable pub overall_of : Dict ℕ → ℕ
unfolding round_half_even
overall_of dims = round_half_even (sum_by (λ e. e.1) dims) (max (length dims) 1 * 100)

-- Of the overall assessment, what its evidence says and its status and score.
pub record Overall : Type 0 where
  pub status : QualityStatus
  pub score : ℕ
  pub evidence_reasons : List String
  pub certifiable : Bool

abbrev tagged : String → List String → List String
tagged tag names = map (str_append tag) names

unfoldable pub decide_on : AcceptancePolicy → Bool → Dims → Overall
unfolding policy_reasons failed_critical unverified_critical overall_of
decide_on policy is_preference d =
    let reasons =
      policy_reasons policy (put (d.dims) "overall" (overall_of (d.dims) * 100))
        (overall_of (d.dims) * 100) is_preference in
    let decision : QualityStatus → List String → Overall = λ s more. record {
      status = s;
      score = overall_of (d.dims) * 100;
      evidence_reasons = reasons ++ more;
      certifiable = is_empty (failed_critical d) && is_empty (unverified_critical d);
    } in
    if not (is_empty (failed_critical d))
    then decision rejected (tagged "critical_failed:" (failed_critical d))
    else if not (is_empty (unverified_critical d))
    then decision review (tagged "critical_unverified:" (unverified_critical d))
    else if is_empty reasons
    then decision accepted []
    else decision review []

unfoldable pub assemble_decision : AcceptancePolicy → Bool → List Assessment → Overall
unfolding dims_of decide_on
assemble_decision policy is_preference assessments =
    decide_on policy is_preference (dims_of is_preference assessments)
