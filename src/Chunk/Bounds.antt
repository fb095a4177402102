-- ===== src/Chunk/Bounds.antt =====
-- How large the groups of the chunker are.
use knovaryn.Base.{
  is_empty, ◌+◌, ◌≤◌, List, [], ◌∷◌, ◌++◌, ◌≡◌, ◌⊎◌, inl, inr, refl, ap, if◌then◌else◌, All,
  All-append, arith, sum_by, sum_by-append,
}
use knovaryn.Chunk.{
  ChunkCfg, ChunkUnit, Grouping, flush, push, add_units, group_units, start, unit_tokens,
}
use knovaryn.Chunk.Groups.{group_units-flush}
use knovaryn.Chunk.Rule.{Room, add_units-I}

-- A group within the limit, or one unit after units that count no tokens.
unfoldable pub IsSized : ChunkCfg → List ChunkUnit → Type 0
IsSized cfg g =
    (sum_by unit_tokens g ≤ cfg.max_tokens)
    ⊎ ((us : List ChunkUnit) × (u : ChunkUnit) × (g ≡ us ++ u ∷ []) × (sum_by unit_tokens us ≡ 0))

Holds : ChunkCfg → List ChunkUnit → Grouping → Type 0
unfolding IsSized
Holds cfg p s =
    All (IsSized cfg) (s.groups) × IsSized cfg (s.cur) × (sum_by unit_tokens (s.cur) ≤ s.cur_tokens)

flush-Holds :
    (cfg : ChunkCfg) (p : List ChunkUnit) (s : Grouping) → Holds cfg p s → Holds cfg p (flush s)
unfolding Holds flush IsSized
flush-Holds cfg p s h = (flushed (s.groups) (s.cur) h.0 h.1, inl (omega arith), omega arith)
  where
    flushed :
        (gs : List (List ChunkUnit)) (g : List ChunkUnit)
        → All (IsSized cfg) gs
        → IsSized cfg g
        → All (IsSized cfg) (if is_empty g then gs else gs ++ g ∷ [])
    flushed gs [] a z = a
    flushed gs (u ∷ us) a z = All-append (IsSized cfg) gs ((u ∷ us) ∷ []) a (z, tt)

push-IsSized :
    (cfg : ChunkCfg) (u : ChunkUnit) (us : List ChunkUnit)
    → (sum_by unit_tokens us + unit_tokens u ≤ cfg.max_tokens) ⊎ (sum_by unit_tokens us ≡ 0)
    → IsSized cfg (us ++ u ∷ [])
unfolding IsSized
push-IsSized cfg u us (inl l) = inl (omega (arith, l, sum_by-append unit_tokens us (u ∷ [])))
push-IsSized cfg u us (inr z) = inr (us, u, refl, z)

push-Holds :
    (cfg : ChunkCfg) (p : List ChunkUnit) (u : ChunkUnit) (s : Grouping)
    → Room cfg (u.kind) u s
    → Holds cfg p s
    → Holds cfg (p ++ u ∷ []) (push u s)
unfolding Holds push Room
push-Holds cfg p u s r h = (
  h.0,
  push-IsSized cfg u (s.cur) (room r.1),
  omega (arith, h.2, sum_by-append unit_tokens (s.cur) (u ∷ [])),
)
  where
    room :
        (s.cur_tokens + unit_tokens u ≤ cfg.max_tokens) ⊎ ((s.cur_tokens ≡ 0) ⊎ (s.cur ≡ []))
        → (sum_by unit_tokens (s.cur) + unit_tokens u ≤ cfg.max_tokens)
          ⊎ (sum_by unit_tokens (s.cur) ≡ 0)
    room (inl l) = inl (omega (arith, l, h.2))
    room (inr (inl z)) = inr (omega (arith, z, h.2))
    room (inr (inr e)) = inr (ap (sum_by unit_tokens) e)

loop-Holds :
    (cfg : ChunkCfg) (units : List ChunkUnit) → Holds cfg units (flush (add_units cfg units start))
unfolding Holds IsSized
loop-Holds cfg units =
    add_units-I cfg (Holds cfg) (flush-Holds cfg) (λ p s n b l h. (h.0, h.1, omega (arith, l, h.2)))
      (push-Holds cfg) [] units start (tt, inl (omega arith), omega arith)

-- A group of the chunker has at most max_tokens, or it is one unit after units that count no tokens.
pub group_units-IsSized :
    (cfg : ChunkCfg) (units : List ChunkUnit) → All (IsSized cfg) (group_units cfg units)
unfolding Holds
group_units-IsSized cfg units = rw (group_units-flush cfg units) (loop-Holds cfg units).0
