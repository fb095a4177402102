-- ===== src/License.antt =====
-- knovaryn/pipeline/license.py, with the license policy of
-- knovaryn/infrastructure/validation/scanners.py and the classification of
-- knovaryn/infrastructure/privacy/report.py: what may be published.
--
-- The scan of a text for personal data, by regular expressions, is a parameter.
mod Tests
pub mod Publication
pub mod Policy
use knovaryn.Base.{
  ℕ, zero, suc, Bool, true, false, ◌&&◌, ◌||◌, not, String, str_eq, leb, ltb, ◌==◌, List, [], ◌∷◌,
  Option, none, some, any, all, filter, map, count_if, length, if◌then◌else◌,
}
use knovaryn.Text.{codes, lower, strip, text_eq, infix_of, ends}

pub data LicenseStatus : Type 0 where
  allowed : LicenseStatus
  review : LicenseStatus
  blocked : LicenseStatus
  unknown : LicenseStatus

pub data PrivacyLevel : Type 0 where
  clean : PrivacyLevel
  low : PrivacyLevel
  moderate : PrivacyLevel
  high : PrivacyLevel

-- A finding of the scan, by its kind and its confidence.
pub record PiiFinding : Type 0 where
  pub kind : String
  pub confidence : String

-- classify_text of the privacy report
unfoldable pub classify_findings : List PiiFinding → PrivacyLevel
classify_findings findings =
    let high_count = count_if (λ f. str_eq f.confidence "high") findings in
    if leb 2 high_count
      || (any (λ f. str_eq f.kind "ssn") findings
          || any (λ f. str_eq f.kind "credit_card") findings)
    then high
    else if high_count == 1
    then moderate
    else if ltb 0 (length findings)
    then low
    else clean

abbrev pub allowed_tokens : List (List ℕ)
allowed_tokens = map codes (
    "cc0" ∷ "cc-by" ∷ "cc-by-sa" ∷ "cc-by-4.0" ∷ "cc-by-sa-4.0" ∷ "cc0-1.0" ∷ "mit" ∷ "apache-2.0"
    ∷ "bsd-3-clause" ∷ "bsd-2-clause" ∷ "unlicense" ∷ "public domain" ∷ "open government" ∷ "odc-by"
    ∷ "odc-odbl" ∷ [])

abbrev pub review_names : List (List ℕ)
review_names = map codes (
    "cc-by-nc" ∷ "cc-by-nc-sa" ∷ "cc-by-nc-nd" ∷ "gfdl" ∷ "lgpl" ∷ "gpl-3.0" ∷ "gpl-2.0" ∷ "ms-pl"
    ∷ "proprietary" ∷ "custom" ∷ "unknown" ∷ [])

abbrev pub blocked_names : List (List ℕ)
blocked_names = map codes ("cc-by-nd" ∷ "cc-by-nc-nd" ∷ "all rights reserved" ∷ "copyright" ∷ [])

abbrev pub among : List (List ℕ) → List ℕ → Bool
among names key = any (λ n. text_eq n key) names

-- The tests of LicensePolicy.classify, in their order, on the stripped and lowered text.
unfoldable pub classify_key : LicenseStatus → List ℕ → LicenseStatus
classify_key default key =
    if among blocked_names key
    then blocked
    else if among allowed_tokens key
    then allowed
    else if any (λ token. ends token key || infix_of token key) allowed_tokens
    then allowed
    else if among review_names key
    then review
    else default

unfoldable pub classify_declared : LicenseStatus → List ℕ → LicenseStatus
unfolding classify_key
classify_declared default [] = default
classify_declared default (c ∷ s) = classify_key default (lower (strip (c ∷ s)))

-- LicensePolicy.classify
unfoldable pub classify : LicenseStatus → Option (List ℕ) → LicenseStatus
unfolding classify_declared
classify default none = default
classify default (some declared) = classify_declared default declared

unfoldable pub license_status : Option (List ℕ) → LicenseStatus
license_status declared = classify review declared

pub record SourceLicenseRecord : Type 0 where
  pub source_id : String
  pub original_name : String
  pub declared_license : Option (List ℕ)
  pub license_status : LicenseStatus
  pub redistribution : String
  pub privacy : PrivacyLevel

abbrev pub is_redistributable : LicenseStatus → Bool
is_redistributable allowed = true
is_redistributable _ = false

abbrev pub is_high : PrivacyLevel → Bool
is_high high = true
is_high _ = false

abbrev pub is_blocked : LicenseStatus → Bool
is_blocked blocked = true
is_blocked _ = false

abbrev pub is_review : LicenseStatus → Bool
is_review review = true
is_review _ = false

-- SourceLicenseRecord.inspect
unfoldable pub inspect :
    (List ℕ → List PiiFinding) → String → String → List ℕ → Option (List ℕ) → SourceLicenseRecord
inspect scan_pii source_id original_name text declared = record {
  source_id = source_id;
  original_name = original_name;
  declared_license = declared;
  license_status = license_status declared;
  redistribution =
      if is_redistributable (license_status declared)
      then "approved-for-redistribution"
      else "undecided";
  privacy = classify_findings (scan_pii text);
}

unfoldable pub is_approved_for_public_release : SourceLicenseRecord → Bool
is_approved_for_public_release r = is_redistributable r.license_status && not (is_high r.privacy)

unfoldable pub unresolved_blocked_sources : List SourceLicenseRecord → List String
unfolding is_approved_for_public_release
unresolved_blocked_sources records =
    map (λ r. r.original_name) (filter (λ r. not (is_approved_for_public_release r)) records)

-- The status of license_summary.
unfoldable pub governing_status : List SourceLicenseRecord → LicenseStatus
governing_status records =
    if any (λ r. is_blocked r.license_status) records
    then blocked
    else if any (λ r. is_review r.license_status) records
    then review
    else allowed

pub data Reason : Type 0 where
  all_approved : Reason
  license_blocked : ℕ → Reason
  pending_review : ℕ → Reason
  not_approved : ℕ → Reason

pub record Gate : Type 0 where
  pub is_allowed : Bool
  pub reason : Reason
  pub unresolved : List String
  pub status : LicenseStatus

abbrev pub is_nil : List String → Bool
is_nil [] = true
is_nil (x ∷ xs) = false

abbrev some_count : ℕ → (ℕ → Reason) → Reason → Reason
some_count zero f r = r
some_count (suc n) f r = f (suc n)

unfoldable pub publication_gate : List SourceLicenseRecord → Gate
unfolding unresolved_blocked_sources governing_status
publication_gate records =
    let unresolved = unresolved_blocked_sources records in
    let status = governing_status records in
    let is_allowed = is_redistributable status && is_nil unresolved in
    record {
      is_allowed = is_allowed;
      reason =
          if is_allowed
          then all_approved
          else some_count (count_if (λ r. is_blocked r.license_status) records) license_blocked (
              some_count (count_if (λ r. is_review r.license_status) records) pending_review
                (not_approved (length unresolved)));
      unresolved = unresolved;
      status = status;
    }
