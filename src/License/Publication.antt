-- ===== src/License/Publication.antt =====
-- What the publication gate lets through.
use knovaryn.Base.{
  ℕ, ◌≤◌, ◌≡◌, ◌≢◌, String, str_eq, Option, count_if, map, refl, true, false, ◌↔◌, List, [], ◌∷◌,
  arith, All, any,
}
use knovaryn.License.{
  LicenseStatus, allowed, PrivacyLevel, high, SourceLicenseRecord, is_redistributable, is_high,
  is_blocked, is_review, is_approved_for_public_release, unresolved_blocked_sources,
  governing_status, is_nil, publication_gate, PiiFinding, classify_findings, inspect,
  license_status,
}

-- The license of the source is allowed, and its text is not of high privacy risk.
abbrev pub IsPublishable : SourceLicenseRecord → Type 0
IsPublishable r = (r.license_status ≡ allowed) × (r.privacy ≢ high)

redistributable_iff : (s : LicenseStatus) → (is_redistributable s ≡ true) ↔ (s ≡ allowed)
redistributable_iff s = ground arith

high_iff : (p : PrivacyLevel) → (is_high p ≡ true) ↔ (p ≡ high)
high_iff p = ground arith

approved_iff :
    (r : SourceLicenseRecord) → (is_approved_for_public_release r ≡ true) ↔ IsPublishable r
unfolding is_approved_for_public_release
approved_iff r = ground (arith, redistributable_iff r.license_status, high_iff r.privacy)

unresolved_iff :
    (records : List SourceLicenseRecord)
    → (is_nil (unresolved_blocked_sources records) ≡ true) ↔ All IsPublishable records
unfolding unresolved_blocked_sources
unresolved_iff [] = ground arith
unresolved_iff (r ∷ records) = ground (arith, approved_iff r, unresolved_iff records)

none_blocked :
    (records : List SourceLicenseRecord)
    → All IsPublishable records
    → (any (λ r. is_blocked r.license_status) records ≡ false)
      × (any (λ r. is_review r.license_status) records ≡ false)
none_blocked [] h = (refl, refl)
none_blocked (r ∷ records) h = ground (arith, h.0.0, none_blocked records h.1)

governing-allowed :
    (records : List SourceLicenseRecord)
    → All IsPublishable records
    → is_redistributable (governing_status records) ≡ true
unfolding governing_status
governing-allowed records h = let n = none_blocked records h in rw (n.0, n.1) refl

-- Publication is allowed exactly if each record has an allowed license and no high privacy risk.
records_iff :
    (records : List SourceLicenseRecord)
    → ((publication_gate records).is_allowed ≡ true) ↔ All IsPublishable records
unfolding publication_gate
records_iff records = ground (arith, unresolved_iff records, governing-allowed records)

-- A source, as inspect takes it.
pub record Submission : Type 0 where
  pub source_id : String
  pub original_name : String
  pub text : List ℕ
  pub declared : Option (List ℕ)

classify_findings_iff :
    (findings : List PiiFinding)
    → (classify_findings findings ≢ high) ↔ (
        (count_if (λ f. str_eq f.confidence "high") findings ≤ 1)
        × (any (λ f. str_eq f.kind "ssn") findings ≡ false)
        × (any (λ f. str_eq f.kind "credit_card") findings ≡ false))
unfolding classify_findings
classify_findings_iff findings = ground arith

module _ (scan_pii : List ℕ → List PiiFinding) where
  abbrev pub inspected : Submission → SourceLicenseRecord
  inspected s = inspect scan_pii (s.source_id) (s.original_name) (s.text) (s.declared)

  -- The declared license is allowed, and the text has one finding of high confidence at most, and no social
  -- security number and no credit card.
  abbrev pub IsReleasable : Submission → Type 0
  IsReleasable s =
      (license_status (s.declared) ≡ allowed)
      × (count_if (λ f. str_eq f.confidence "high") (scan_pii (s.text)) ≤ 1)
      × (any (λ f. str_eq f.kind "ssn") (scan_pii (s.text)) ≡ false)
      × (any (λ f. str_eq f.kind "credit_card") (scan_pii (s.text)) ≡ false)

  inspected_iff : (s : Submission) → IsPublishable (inspected s) ↔ IsReleasable s
  unfolding inspect
  inspected_iff s = ground (arith, classify_findings_iff (scan_pii (s.text)))

  All-inspected_iff :
      (sources : List Submission)
      → All IsPublishable (map inspected sources) ↔ All IsReleasable sources
  All-inspected_iff [] = ground arith
  All-inspected_iff (s ∷ sources) = ground (arith, inspected_iff s, All-inspected_iff sources)

  -- Sources that have been inspected may be published exactly if each has a declared license that is allowed
  -- and a text in which the scan has found one thing of high confidence at most, and no social security number
  -- and no credit card. One finding of high confidence of another kind does not block.
  pub publication_gate_iff :
      (sources : List Submission)
      → ((publication_gate (map inspected sources)).is_allowed ≡ true) ↔ All IsReleasable sources
  publication_gate_iff sources =
      ground (arith, records_iff (map inspected sources), All-inspected_iff sources)
