-- ===== src/Chunk/Covers.antt =====
-- The chunks of a document against its units.
use knovaryn.Base.{List, [], ◌∷◌, map, Option, some, none, ◌≡◌, refl, ap, All}
use knovaryn.Chunk.{ChunkCfg, ChunkUnit, group_units}
use knovaryn.Chunk.Units.{Canonical, normalize_blocks}
use knovaryn.Chunk.Context.{chunk, chunks, chunk_document}
use knovaryn.Chunk.Groups.{concat, IsSection, group_units-covers}
use knovaryn.Chunk.Bounds.{IsSized, group_units-IsSized}

chunks-units :
    (cfg : ChunkCfg) (prev : Option (List ChunkUnit)) (gs : List (List ChunkUnit))
    → map (λ c. c.units) (chunks cfg prev gs) ≡ gs
unfolding chunks chunk
chunks-units cfg prev [] = refl
chunks-units cfg prev (g ∷ gs) = ap (λ hs. g ∷ hs) (chunks-units cfg (some g) gs)

-- The chunks of a document hold its units in their order, none lost and none twice; no chunk is
-- empty, a heading is only at the front of a chunk, and a chunk has at most max_tokens, or it is one
-- unit after units that count no tokens.
pub chunk_document-covers :
    (cfg : ChunkCfg) (canonical : Canonical)
    → let groups : List (List ChunkUnit) = map (λ c. c.units) (chunk_document canonical cfg) in
      (concat groups ≡ normalize_blocks canonical) × All IsSection groups × All (IsSized cfg) groups
unfolding chunk_document
chunk_document-covers cfg canonical =
    let units : List ChunkUnit = normalize_blocks canonical in
    let covers = group_units-covers cfg units in
    rw (chunks-units cfg none (group_units cfg units))
      (covers.0, covers.1, group_units-IsSized cfg units)
