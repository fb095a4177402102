-- ===== src/Export/Tests.antt =====
-- The export gate on one example.
use knovaryn.Base.{◌≡◌, ◌↔◌, String, [], ◌∷◌, none, some, All}
use knovaryn.Export.Gate.{Example, Resolver, sft, Hashed, verify_provenance_before_export}
use knovaryn.Export.Gate.Traceable.{IsTraceable, verify_provenance_iff}

abbrev example : Example
example = record {
  id = "x";
  project_id = "p";
  topology = sft;
  content_hash = "c";
  system_messages = [];
  prompt_messages = "q" ∷ [];
  chosen_messages = "a" ∷ [];
  rejected_messages = [];
  source_document_ids = "d" ∷ [];
  source_span_ids = "s" ∷ [];
  generation_candidate_ids = "g" ∷ [];
}

abbrev resolver : Resolver
resolver = record {
  sources = λ id. some "p";
  candidates = λ id. some "p";
  spans = λ id. some "parsed";
  parsed = λ id. some "d";
}

abbrev cfg_hash : Hashed → String
cfg_hash h = "c"

verify_provenance_iff_example :
    (verify_provenance_before_export cfg_hash resolver (example ∷ []) ≡ none)
    ↔ All (IsTraceable cfg_hash resolver) (example ∷ [])
verify_provenance_iff_example = verify_provenance_iff cfg_hash resolver (example ∷ [])
