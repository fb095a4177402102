-- ===== src/Chunk/Context.antt =====
-- chunk_document of knovaryn/infrastructure/chunking/structure_aware.py: the chunks of a document,
-- with the text of their neighbours.
use knovaryn.Base.{
  is_empty, ℕ, ltb, leb, not, ◌&&◌, String, List, [], ◌∷◌, ◌++◌, map, filter, Option, none, some,
  if◌then◌else◌, get_last?,
}
use knovaryn.Text.{codes, strip, join}
use knovaryn.Chunk.{ChunkCfg, ChunkUnit, Location, approximate_tokens, group_units}
use knovaryn.Chunk.Units.{Canonical, normalize_blocks, sorted_set, text_set}

pub record ChunkResult : Type 0 where
  pub main_text : List ℕ
  pub context_text : List ℕ
  pub heading_path : List String
  pub boundary_reasons : List String
  pub units : List ChunkUnit
  pub location : Location

unfoldable pub group_text : List ChunkUnit → List ℕ
group_text g =
    join (codes "\n") (map (λ u. u.content) (filter (λ u. not (is_empty (strip (u.content)))) g))

unfoldable pub concat_by {ℓ κ} : {A : Type ℓ} {B : Type κ} → (A → List B) → List A → List B
concat_by f [] = []
concat_by f (x ∷ xs) = f x ++ concat_by f xs

unfoldable pub merge_locations : List ChunkUnit → Location
unfolding sorted_set text_set concat_by
merge_locations us = record {
  pages = sorted_set ltb (concat_by (λ u. u.location.pages) us);
  bboxes = concat_by (λ u. u.location.bboxes) us;
  element_refs = text_set (concat_by (λ u. u.location.element_refs) us);
}

unfoldable pub reasons : ChunkCfg → List ChunkUnit → List ℕ → List String
reasons cfg group text =
    (if ltb (cfg.max_tokens) (approximate_tokens text) && not (is_empty group)
      then "hard_max_tokens" ∷ []
      else [])
    ++ (if is_empty (strip text) then "empty" ∷ [] else [])

-- A neighbour's text under its title, where it is within the bound.
unfoldable pub neighbour : ChunkCfg → List ℕ → Option (List ChunkUnit) → List (List ℕ)
unfolding group_text
neighbour cfg title none = []
neighbour cfg title (some g) =
    if not (is_empty (group_text g))
      && leb (approximate_tokens (group_text g)) (cfg.neighbor_context_tokens)
    then (title ++ group_text g) ∷ []
    else []

abbrev last_path : Option ChunkUnit → List String
last_path none = []
last_path (some u) = u.heading_path

abbrev first_of {ℓ} : {A : Type ℓ} → List A → Option A
first_of [] = none
first_of (x ∷ xs) = some x

unfoldable pub chunk :
    ChunkCfg → Option (List ChunkUnit) → List ChunkUnit → Option (List ChunkUnit) → ChunkResult
unfolding group_text merge_locations reasons neighbour
chunk cfg prev group next = record {
  main_text = group_text group;
  context_text = join (codes "\n\n") (
      neighbour cfg (codes "[PREVIOUS CONTEXT]\n") prev
      ++ neighbour cfg (codes "[NEXT CONTEXT]\n") next);
  heading_path = last_path (get_last? group);
  boundary_reasons = reasons cfg group (group_text group);
  units = group;
  location = merge_locations group;
}

unfoldable pub chunks :
    ChunkCfg → Option (List ChunkUnit) → List (List ChunkUnit) → List ChunkResult
unfolding chunk
chunks cfg prev [] = []
chunks cfg prev (g ∷ gs) = chunk cfg prev g (first_of gs) ∷ chunks cfg (some g) gs

unfoldable pub chunk_document : Canonical → ChunkCfg → List ChunkResult
unfolding chunks
chunk_document canonical cfg = chunks cfg none (group_units cfg (normalize_blocks canonical))
