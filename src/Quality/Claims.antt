-- ===== src/Quality/Claims.antt =====
-- knovaryn/pipeline/quality/claims.py: the claims of an answer and what is found of them. Of a claim the
-- fields that a verifier reads are kept. A confidence is in whole millionths.
use knovaryn.Base.{ℕ, String, List}

pub data ClaimVerdict : Type 0 where
  entailed contradicted insufficient unverified : ClaimVerdict

pub record AtomicClaim : Type 0 where
  pub text : String
  pub claim_type : String

pub record ClaimAssessment : Type 0 where
  pub claim : AtomicClaim
  pub verdict : ClaimVerdict
  pub confidence : ℕ
  pub supporting_span_ids : List String
  pub reason_codes : List String
  pub verifier_name : String
