-- ===== src/Chunk/Rule.antt =====
-- The rule for invariants of the grouping loop: what a flush, a raised count and an append keep.
use knovaryn.Base.{
  is_empty, ℕ, ◌+◌, ◌≤◌, max, Bool, true, false, not, ◌&&◌, List, [], ◌∷◌, ◌++◌, ◌≡◌, ◌≢◌, ◌⊎◌, inl,
  inr, refl, subst, ◌==◌, arith, Bool-cases,
}
use knovaryn.Chunk.{
  ChunkCfg, ChunkUnit, UnitKind, heading, list_item, table, caption, text, Grouping, flush,
  flush_if, push, enter_list, make_room, push_within, add_sized, add_other, add_unit, add_heading,
  add_table, add_list_item, add_units, unit_tokens, over,
}
use mathlib.Core.List.{append_assoc, append-nil}

-- When a unit is appended: it is no heading or nothing is before it in its group, and the group has
-- room for it, counts no tokens or is empty.
unfoldable pub Room : ChunkCfg → UnitKind → ChunkUnit → Grouping → Type 0
Room cfg k u s =
    (k ≡ heading → s.cur ≡ [])
    × ((s.cur_tokens + unit_tokens u ≤ cfg.max_tokens) ⊎ ((s.cur_tokens ≡ 0) ⊎ (s.cur ≡ [])))

is_empty_nil : (us : List ChunkUnit) → is_empty us ≡ true → us ≡ []
is_empty_nil [] e = refl
is_empty_nil (u ∷ us) e = absurd cc

module _ {ℓ} (cfg : ChunkCfg) (I : List ChunkUnit → Grouping → Type ℓ)
    (flush-I : (p : List ChunkUnit) (s : Grouping) → I p s → I p (flush s))
    (raise-I : (p : List ChunkUnit) (s : Grouping) (n : ℕ) (b : Bool)
      → s.cur_tokens ≤ n
      → I p s
      → I p (record s { cur_tokens = n; in_list = b }))
    (push-I : (p : List ChunkUnit) (u : ChunkUnit) (s : Grouping)
      → Room cfg (u.kind) u s
      → I p s
      → I (p ++ u ∷ []) (push u s)) where
  flush_if-I : (p : List ChunkUnit) (b : Bool) (s : Grouping) → I p s → I p (flush_if b s)
  unfolding flush_if
  flush_if-I p true s h = flush-I p s h
  flush_if-I p false s h = h

  enter_list-I : (p : List ChunkUnit) (s : Grouping) → I p s → I p (enter_list cfg s)
  unfolding enter_list
  enter_list-I p s h = elim (Bool-cases (s.in_list)) [
    | inl e ↦ simp e h
    | inr e ↦ simp e (raise-I p s (max (s.cur_tokens) (cfg.min_tokens)) true (omega arith) h)
  ]

  -- Room for what is no heading.
  Fits : ChunkUnit → Grouping → Type 0
  unfolding Room
  Fits u s = (s.cur_tokens + unit_tokens u ≤ cfg.max_tokens) ⊎ ((s.cur_tokens ≡ 0) ⊎ (s.cur ≡ []))

  make_room-Fits : (u : ChunkUnit) (s : Grouping) → Fits u (make_room cfg u s)
  unfolding Fits make_room flush
  make_room-Fits u s = elim (Bool-cases (over (cfg.max_tokens) u s)) [
    | inl e ↦ rw e (inr (inl refl))
    | inr e ↦ rw e (inl (ground (arith, e)))
  ]

  make_room-I :
      (p : List ChunkUnit) (u : ChunkUnit) (s : Grouping) → I p s → I p (make_room cfg u s)
  unfolding make_room flush
  make_room-I p u s h = elim (Bool-cases (over (cfg.max_tokens) u s)) [
    | inl e ↦ rw e (raise-I p (flush s) 0 true (omega arith) (flush-I p s h))
    | inr e ↦ rw e h
  ]

  flush_if-Fits : (u : ChunkUnit) (s : Grouping) → Fits u (flush_if (over (cfg.max_tokens) u s) s)
  unfolding Fits flush_if flush
  flush_if-Fits u s = elim (Bool-cases (over (cfg.max_tokens) u s)) [
    | inl e ↦ rw e (inr (inl refl))
    | inr e ↦ rw e (inl (ground (arith, e)))
  ]

  push-fitting :
      (p : List ChunkUnit) (u : ChunkUnit) (s : Grouping)
      → (u.kind ≢ heading)
      → Fits u s
      → I p s
      → I (p ++ u ∷ []) (push u s)
  unfolding Fits Room
  push-fitting p u s ne f h = push-I p u s ((λ e. absurd (ne e)), f) h

  push_within-I :
      (p : List ChunkUnit) (u : ChunkUnit) (s : Grouping)
      → (u.kind ≢ heading)
      → I p s
      → I (p ++ u ∷ []) (push_within cfg u s)
  unfolding push_within
  push_within-I p u s ne h =
      flush_if-I (p ++ u ∷ []) _ _ (push-fitting p u _ ne (flush_if-Fits u s) (flush_if-I p _ s h))

  add_sized-I :
      (p : List ChunkUnit) (u : ChunkUnit) (s : Grouping)
      → (u.kind ≢ heading)
      → I p s
      → I (p ++ u ∷ []) (add_sized cfg u s)
  unfolding add_sized Fits
  add_sized-I p u s ne h =
      elim (Bool-cases (over (cfg.max_tokens) u s && not (is_empty (s.cur)) && s.cur_tokens == 0)) [
        | inl e ↦ rw e (
            flush-I (p ++ u ∷ []) (push u s)
              (push-fitting p u s ne (inr (inl (ground (arith, e)))) h))
        | inr e ↦ rw e (push_within-I p u s ne h)
      ]

  add_other-I :
      (p : List ChunkUnit) (u : ChunkUnit) (s : Grouping)
      → (u.kind ≢ heading)
      → I p s
      → I (p ++ u ∷ []) (add_other cfg u s)
  unfolding add_other
  add_other-I p u s ne h = add_sized-I p u _ ne (flush_if-I p _ s h)

  table-Fits :
      (u : ChunkUnit) (s : Grouping)
      → (not (is_empty (s.cur)) && over (cfg.max_tokens) u s) ≡ false
      → Fits u s
  unfolding Fits
  table-Fits u s e = elim (Bool-cases (is_empty (s.cur))) [
    | inl n ↦ inr (inr (is_empty_nil (s.cur) n))
    | inr c ↦ inl (ground (arith, e, c))
  ]

  add_table-I :
      (p : List ChunkUnit) (u : ChunkUnit) (s : Grouping)
      → (u.kind ≢ heading)
      → I p s
      → I (p ++ u ∷ []) (add_table cfg u s)
  unfolding add_table Fits flush_if flush
  add_table-I p u s ne h = elim (Bool-cases (not (is_empty (s.cur)) && over (cfg.max_tokens) u s)) [
    | inl e ↦ rw e (flush-I _ _ (push-fitting p u (flush s) ne (inr (inl refl)) (flush-I p s h)))
    | inr e ↦ rw e (flush-I (p ++ u ∷ []) (push u s) (push-fitting p u s ne (table-Fits u s e) h))
  ]

  add_list_item-I :
      (p : List ChunkUnit) (u : ChunkUnit) (s : Grouping)
      → (u.kind ≢ heading)
      → I p s
      → I (p ++ u ∷ []) (add_list_item cfg u s)
  unfolding add_list_item
  add_list_item-I p u s ne h =
      let entered : Grouping = enter_list cfg s in
      push-fitting p u (make_room cfg u entered) ne (make_room-Fits u entered)
        (make_room-I p u entered (enter_list-I p s h))

  add_heading-I :
      (p : List ChunkUnit) (u : ChunkUnit) (s : Grouping)
      → I p s
      → I (p ++ u ∷ []) (add_heading u s)
  unfolding add_heading Room flush
  add_heading-I p u s h = push-I p u (flush s) ((λ e. refl), inr (inl refl)) (flush-I p s h)

  add_unit-I :
      (p : List ChunkUnit) (k : UnitKind) (u : ChunkUnit) (s : Grouping)
      → u.kind ≡ k
      → I p s
      → I (p ++ u ∷ []) (add_unit cfg k u s)
  unfolding add_unit
  add_unit-I p heading u s k h = add_heading-I p u s h
  add_unit-I p caption u s k h = add_other-I p u s (λ e. cc) h
  add_unit-I p text u s k h = add_other-I p u s (λ e. cc) h
  add_unit-I p table u s k h = elim (Bool-cases (cfg.keep_tables_together)) [
    | inl e ↦ rw e (add_table-I p u s (λ e. cc) h)
    | inr e ↦ rw e (add_other-I p u s (λ e. cc) h)
  ]
  add_unit-I p list_item u s k h = elim (Bool-cases (cfg.keep_lists_together)) [
    | inl e ↦ rw e (add_list_item-I p u s (λ e. cc) h)
    | inr e ↦ rw e (add_other-I p u s (λ e. cc) h)
  ]

  pub add_units-I :
      (p us : List ChunkUnit) (s : Grouping) → I p s → I (p ++ us) (flush (add_units cfg us s))
  unfolding add_units
  add_units-I p [] s h = rw (append-nil p) (flush-I p s h)
  add_units-I p (u ∷ us) s h =
      subst (λ q. I q (flush (add_units cfg (u ∷ us) s))) (append_assoc p (u ∷ []) us)
        (add_units-I (p ++ u ∷ []) us _ (add_unit-I p (u.kind) u s refl h))
