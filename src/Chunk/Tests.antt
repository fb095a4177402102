-- ===== src/Chunk/Tests.antt =====
-- A document of five units in chunks.
use knovaryn.Base.{ℕ, ◌≡◌, refl, true, List, [], ◌∷◌, map, some, none, All, String}
use knovaryn.Text.{codes, word_count, join, decimal, strip}
use knovaryn.Chunk.{ChunkCfg, ChunkUnit, approximate_tokens, unit_tokens, group_units}
use knovaryn.Chunk.Units.{Block, Canonical, normalize_blocks, element_ref}
use knovaryn.Chunk.Context.{chunk_document}
use knovaryn.Chunk.Groups.{concat, IsSection}
use knovaryn.Chunk.Bounds.{IsSized}
use knovaryn.Chunk.Covers.{chunk_document-covers}

abbrev cfg : ChunkCfg
cfg = record {
  target_tokens = 4;
  min_tokens = 2;
  max_tokens = 6;
  neighbor_context_tokens = 4;
  keep_tables_together = true;
  keep_lists_together = true;
}

abbrev block : String → String → ℕ → Block
block type content page = record {
  type = type;
  content = codes content;
  heading_path = [];
  location = none;
  prov = record { page_no = some page; bbox = none } ∷ [];
  element_refs = [];
}

abbrev report : Canonical
report = record {
  blocks =
      block "heading" "Report" 1
      ∷ block "paragraph" "one two three" 1
      ∷ block "paragraph" "four five" 2
      ∷ block "table" "a b c d" 3
      ∷ block "heading" "End" 2
      ∷ [];
  main_text = [];
}

newline : codes "\n" ≡ 10 ∷ []
newline = refl

sizes :
    map (λ c. map unit_tokens (c.units)) (chunk_document report cfg)
    ≡ (1 ∷ 3 ∷ []) ∷ (2 ∷ 4 ∷ []) ∷ (1 ∷ []) ∷ []
unfolding chunk_document normalize_blocks group_units unit_tokens approximate_tokens word_count
sizes = refl

context :
    map (λ c. c.context_text) (chunk_document report cfg)
    ≡ [] ∷ codes "[PREVIOUS CONTEXT]\nReport\none two three\n\n[NEXT CONTEXT]\nEnd" ∷ [] ∷ []
unfolding chunk_document normalize_blocks group_units approximate_tokens word_count join strip
context = refl

ref_of_item : element_ref 112 ≡ codes "docling#/main_text/112"
unfolding element_ref decimal
ref_of_item = refl

chunk_document-covers_example :
    let groups : List (List ChunkUnit) = map (λ c. c.units) (chunk_document report cfg) in
    (concat groups ≡ normalize_blocks report) × All IsSection groups × All (IsSized cfg) groups
chunk_document-covers_example = chunk_document-covers cfg report
