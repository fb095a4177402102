-- ===== src/License/Tests.antt =====
-- Two sources, of which one has a mail address.
use knovaryn.Base.{ℕ, ◌≡◌, ◌↔◌, refl, true, List, [], ◌∷◌, map, some, All}
use knovaryn.Text.{codes, lower, strip, text_eq}
use knovaryn.License.{
  PiiFinding, classify, publication_gate, inspect, license_status, classify_findings,
}
use knovaryn.License.Publication.{Submission, inspected, IsReleasable, publication_gate_iff}

abbrev scan_pii : List ℕ → List PiiFinding
scan_pii [] = []
scan_pii (c ∷ text) = record { kind = "email"; confidence = "high" } ∷ []

abbrev sources : List Submission
sources =
    record { source_id = "a"; original_name = "a.txt"; text = []; declared = some (codes "MIT") }
    ∷ record {
      source_id = "b";
      original_name = "b.txt";
      text = codes "a@b.org";
      declared = some (codes "CC0");
    }
    ∷ []

-- The finding of high confidence does not block.
published : (publication_gate (map (inspected scan_pii) sources)).is_allowed ≡ true
unfolding publication_gate inspect license_status classify_findings classify text_eq lower strip
published = refl

publication_gate_iff_example :
    ((publication_gate (map (inspected scan_pii) sources)).is_allowed ≡ true)
    ↔ All (IsReleasable scan_pii) sources
publication_gate_iff_example = publication_gate_iff scan_pii sources
