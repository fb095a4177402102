-- ===== src/Chunk/Groups.antt =====
-- What the groups of the chunker hold: every unit, in order, and a heading only at the front.
use knovaryn.Base.{
  is_empty, not, ◌&&◌, List, [], ◌∷◌, ◌++◌, ◌≡◌, ◌≢◌, refl, sym, ap, ◌∙◌, if◌then◌else◌, All,
  All-append,
}
use knovaryn.Chunk.{
  ChunkCfg, ChunkUnit, heading, Grouping, flush, push, add_units, group_units, start,
}
use knovaryn.Chunk.Rule.{Room, add_units-I}
use mathlib.Core.List.{append_assoc, append-nil}

unfoldable pub concat {ℓ} : {A : Type ℓ} → List (List A) → List A
concat [] = []
concat (g ∷ gs) = g ++ concat gs

concat-append {ℓ} :
    {A : Type ℓ} (gs : List (List A)) (g : List A) → concat (gs ++ g ∷ []) ≡ concat gs ++ g
unfolding concat
concat-append [] g = append-nil g
concat-append (h ∷ gs) g = rw (concat-append gs g, append_assoc h (concat gs) g) refl

-- No heading is in the list.
abbrev pub IsPlain : List ChunkUnit → Type 0
IsPlain us = All (λ u. u.kind ≢ heading) us

-- A group: not empty, and no heading but at its front.
abbrev pub IsSection : List ChunkUnit → Type 0
IsSection [] = ⊥
IsSection (u ∷ us) = IsPlain us

-- The group under way: empty, or a section.
abbrev IsOpen : List ChunkUnit → Type 0
IsOpen [] = Unit
IsOpen (u ∷ us) = IsPlain us

Holds : List ChunkUnit → Grouping → Type 0
unfolding concat
Holds p s = (concat (s.groups) ++ s.cur ≡ p) × All IsSection (s.groups) × IsOpen (s.cur)

flush-Holds : (p : List ChunkUnit) (s : Grouping) → Holds p s → Holds p (flush s)
unfolding Holds flush
flush-Holds p s h = flushed (s.groups) (s.cur) h.0 h.1 h.2
  where
    flushed :
        (gs : List (List ChunkUnit)) (g : List ChunkUnit)
        → concat gs ++ g ≡ p
        → All IsSection gs
        → IsOpen g
        → let after : List (List ChunkUnit) = if is_empty g then gs else gs ++ g ∷ [] in
          (concat after ++ [] ≡ p) × All IsSection after × Unit {0}
    flushed gs [] e a o = (e, a, tt)
    flushed gs (u ∷ us) e a o = (
      append-nil _ ∙ concat-append gs (u ∷ us) ∙ e,
      All-append IsSection gs ((u ∷ us) ∷ []) a (o, tt),
      tt,
    )

push-IsOpen :
    (u : ChunkUnit) (us : List ChunkUnit)
    → (u.kind ≡ heading → us ≡ [])
    → IsOpen us
    → IsOpen (us ++ u ∷ [])
push-IsOpen u [] r o = tt
push-IsOpen u (v ∷ vs) r o =
    All-append (λ w. w.kind ≢ heading) vs (u ∷ []) o ((λ e. let n = r e in cc), tt)

push-Holds :
    (cfg : ChunkCfg) (p : List ChunkUnit) (u : ChunkUnit) (s : Grouping)
    → Room cfg (u.kind) u s
    → Holds p s
    → Holds (p ++ u ∷ []) (push u s)
unfolding Holds push Room
push-Holds cfg p u s r h = (
  sym (append_assoc (concat (s.groups)) (s.cur) (u ∷ [])) ∙ ap (λ q. q ++ u ∷ []) h.0,
  h.1,
  push-IsOpen u (s.cur) r.0 h.2,
)

loop-Holds :
    (cfg : ChunkCfg) (units : List ChunkUnit) → Holds units (flush (add_units cfg units start))
unfolding Holds
loop-Holds cfg units =
    add_units-I cfg Holds flush-Holds (λ p s n b l h. h) (push-Holds cfg) [] units start
      (refl, tt, tt)

-- The last test of the loop changes nothing: there are groups if there are units.
pub group_units-flush :
    (cfg : ChunkCfg) (units : List ChunkUnit)
    → group_units cfg units ≡ (flush (add_units cfg units start)).groups
unfolding group_units flush Holds concat
group_units-flush cfg units =
    last ((flush (add_units cfg units start)).groups) units (loop-Holds cfg units).0
  where
    last :
        (gs : List (List ChunkUnit)) (us : List ChunkUnit)
        → concat gs ++ [] ≡ us
        → (if is_empty gs && not (is_empty us) then us ∷ [] else gs) ≡ gs
    last [] [] e = refl
    last [] (u ∷ us) e = absurd cc
    last (g ∷ gs) us e = refl

-- The groups of the chunker, one after the other, are the units in their order, none lost and none
-- twice; no group is empty, and a heading is only at the front of a group.
pub group_units-covers :
    (cfg : ChunkCfg) (units : List ChunkUnit)
    → (concat (group_units cfg units) ≡ units) × All IsSection (group_units cfg units)
unfolding Holds flush
group_units-covers cfg units =
    let h = loop-Holds cfg units in rw (group_units-flush cfg units) (sym (append-nil _) ∙ h.0, h.1)
