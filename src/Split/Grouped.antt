-- ===== src/Split/Grouped.antt =====
-- The splits of the groups by the default strategy.
use mathlib.Core.List.{Memᴰ}
use mathlib.Core.List.Memᴰ
use knovaryn.Base.{
  ℕ, ◌≡◌, refl, ap, ◌⊎◌, inl, inr, Bool, true, String, str_eq, eq_iff, List, [], ◌∷◌, ◌++◌, some,
  arith, All, All-map, All-of, if◌then◌else◌, any, any-append, ◌||◌, is_some, Bool-cases, map,
}
use knovaryn.Dict.{get, get_or, put, get-put}
use knovaryn.Split.{
  SourceDocument, SplitAssignment, SplitOptions, Groups, split_of, key_of, add_source, collect,
  collect_groups, set_split, set_splits, set_group, assign_groups, stable_bucket, grouped_random,
  assign_splits, check_split_integrity, or_else, no_splits,
}
use knovaryn.Split.Integrity.{IsSeparated, check_split_integrity_iff}

abbrev in_list : String → List SourceDocument → Bool
in_list id sources = any (λ s. str_eq s.id id) sources

abbrev in_groups : String → Groups → Bool
in_groups id groups = any (λ e. in_list id e.1) groups

-- A group that holds the id is the group of the key.
abbrev OnlyIn : String → String → String × List SourceDocument → Type 0
OnlyIn id key e = in_list id e.1 ≡ true → e.0 ≡ key

put-All :
    (P : String × List SourceDocument → Type 0) (d : Groups) (k : String) (v : List SourceDocument)
    → All P d
    → P (k, v)
    → All P (put d k v)
unfolding put
put-All P [] k v h p = (p, tt)
put-All P ((j, w) ∷ d) k v h p = elim (Bool-cases (str_eq j k)) [
  | inl e ↦ rw e (p, h.1)
  | inr e ↦ rw e (h.0, put-All P d k v h.1 p)
]

get_or_cons :
    (j k : String) (w : List SourceDocument) (d : Groups)
    → get_or ((j, w) ∷ d) k [] ≡ (if str_eq j k then w else get_or d k [])
unfolding get_or get
get_or_cons j k w d = elim (Bool-cases (str_eq j k)) [
  | inl e ↦ rw (e, get_or, get) refl
  | inr e ↦ rw (e, get_or, get) refl
]

get_or-OnlyIn :
    (id key k : String) (d : Groups) → All (OnlyIn id key) d → OnlyIn id key (k, get_or d k [])
get_or-OnlyIn id key k [] h = λ e. absurd (unfold get_or get in cc e)
get_or-OnlyIn id key k ((j, w) ∷ d) h = elim (Bool-cases (str_eq j k)) [
  | inl e ↦ λ m. ground (arith, m, h.0, get_or_cons j k w d, e, eq_iff j k)
  | inr e ↦ λ m. ground (arith, m, get_or-OnlyIn id key k d h.1, get_or_cons j k w d, e)
]

add_source-OnlyIn :
    (id key : String) (src : SourceDocument) (groups : Groups)
    → (str_eq src.id id ≡ true → key_of src ≡ key)
    → All (OnlyIn id key) groups
    → All (OnlyIn id key) (add_source src groups)
unfolding add_source
add_source-OnlyIn id key src groups k h = put-All (OnlyIn id key) groups (key_of src) _ h (λ m.
    ground (
      arith,
      any-append (λ s. str_eq s.id id) (get_or groups (key_of src) []) (src ∷ []),
      m,
      k,
      get_or-OnlyIn id key (key_of src) groups h,
    ))

put-in_groups :
    (id k : String) (src : SourceDocument) (d : Groups)
    → in_groups id (put d k (get_or d k [] ++ src ∷ [])) ≡ (in_groups id d || str_eq src.id id)
unfolding put
put-in_groups id k src [] = unfold get_or get in ground arith
put-in_groups id k src ((j, w) ∷ d) = elim (Bool-cases (str_eq j k)) [
  | inl e ↦
      rw (get_or_cons j k w d, e) (ground (arith, any-append (λ s. str_eq s.id id) w (src ∷ [])))
  | inr e ↦ rw (get_or_cons j k w d, e) (ground (arith, put-in_groups id k src d))
]

collect-OnlyIn :
    (id key : String) (sources : List SourceDocument) (groups : Groups)
    → All (λ s. str_eq s.id id ≡ true → key_of s ≡ key) sources
    → All (OnlyIn id key) groups
    → All (OnlyIn id key) (collect sources groups)
unfolding collect
collect-OnlyIn id key [] groups k h = h
collect-OnlyIn id key (s ∷ sources) groups k h =
    collect-OnlyIn id key sources (add_source s groups) k.1
      (add_source-OnlyIn id key s groups k.0 h)

add_source-in_groups :
    (id : String) (src : SourceDocument) (groups : Groups)
    → in_groups id (add_source src groups) ≡ (in_groups id groups || str_eq src.id id)
unfolding add_source
add_source-in_groups id src groups = put-in_groups id (key_of src) src groups

collect-in_groups :
    (id : String) (sources : List SourceDocument) (groups : Groups)
    → in_groups id (collect sources groups) ≡ (in_groups id groups || in_list id sources)
unfolding collect
collect-in_groups id [] groups = ground arith
collect-in_groups id (s ∷ sources) groups =
    ground
      (arith, collect-in_groups id sources (add_source s groups), add_source-in_groups id s groups)

set_splits-get :
    (split id : String) (sources : List SourceDocument) (a : SplitAssignment)
    → get (set_splits split sources a).by_source_id id
      ≡ (if in_list id sources then some split else get a.by_source_id id)
unfolding set_splits set_split
set_splits-get split id [] a = refl
set_splits-get split id (s ∷ sources) a = ground (
  arith,
  set_splits-get split id sources (set_split split s a),
  get-put a.by_source_id s.id id split,
)

-- When each group has a split, each source ends with the split of its group.
assign_groups-get :
    (g : String → String) (groups : Groups) (a : SplitAssignment)
    → (b : SplitAssignment) × (assign_groups (λ k. some (g k)) groups a ≡ some b)
      × ((id v : String)
          → All (λ e. in_list id e.1 ≡ true → g e.0 ≡ v) groups
          → (get a.by_source_id id ≡ some v) ⊎ (in_groups id groups ≡ true)
          → get b.by_source_id id ≡ some v)
unfolding assign_groups set_group
assign_groups-get g [] a = (a, refl, λ id v h k. ground (arith, k))
assign_groups-get g ((key, sources) ∷ groups) a =
    let rest = assign_groups-get g groups (set_group (g key) key (set_splits (g key) sources a)) in
    (
      rest.0,
      rest.1,
      λ id v h k. rest.2 id v h.1 (ground (arith, set_splits-get (g key) id sources a, k, h.0)),
    )

-- Sources with the same id are of the same group.
abbrev pub HasGroupById : List SourceDocument → Type 0
HasGroupById sources =
    (s t : SourceDocument) → Memᴰ s sources → Memᴰ t sources → s.id ≡ t.id → key_of s ≡ key_of t

Memᴰ-in_list :
    (s : SourceDocument) (sources : List SourceDocument)
    → Memᴰ s sources
    → in_list s.id sources ≡ true
Memᴰ-in_list s [] m = elim m [ ]
Memᴰ-in_list s (t ∷ sources) m = elim (Memᴰ.cases_cons m) [
  | inl q ↦ ground (arith, eq_iff t.id s.id, ap (λ x. x.id) q)
  | inr n ↦ ground (arith, Memᴰ-in_list s sources n)
]

module _ (digest : String → ℕ → ℕ) (o : SplitOptions) where
  abbrev bucket : String → String
  bucket key = stable_bucket digest key o.seed o.train o.validation

  grouped_random-get :
      (sources : List SourceDocument) (shuffled : List String → ℕ → List String)
      → HasGroupById sources
      → (a : SplitAssignment) × (grouped_random digest shuffled o sources ≡ some a)
        × ((s : SourceDocument) → Memᴰ s sources → split_of a s.id ≡ some (bucket (key_of s)))
  unfolding grouped_random split_of collect_groups
  grouped_random-get sources shuffled unique =
      let r = assign_groups-get bucket (collect_groups sources) (no_splits digest shuffled o) in
      (
        r.0,
        r.1,
        λ s m.
            r.2 s.id (bucket (key_of s))
              (All-map (OnlyIn s.id (key_of s)) _ (collect_groups sources)
                (λ e h q. ap bucket (h q))
                (collect-OnlyIn s.id (key_of s) sources []
                  (All-of _ sources (λ t n q. unique t s n m ((eq_iff t.id s.id).0 q))) tt))
              (inr (ground (arith, collect-in_groups s.id sources [], Memᴰ-in_list s sources m))),
      )

-- The groups of the sources with the splits that they have been given.
abbrev pub group_splits : SplitAssignment → List SourceDocument → List (String × String)
group_splits a sources = map (λ s. (key_of s, or_else (split_of a s.id) "")) sources

group_splits-IsSeparated :
    (g : String → String) (a : SplitAssignment) (sources : List SourceDocument)
    → ((s : SourceDocument) → Memᴰ s sources → split_of a s.id ≡ some (g (key_of s)))
    → IsSeparated (group_splits a sources)
group_splits-IsSeparated g a sources h = λ k s t m n.
    let u = Memᴰ.of_map (λ x. (key_of x, or_else (split_of a x.id) "")) sources m in
    let v = Memᴰ.of_map (λ x. (key_of x, or_else (split_of a x.id) "")) sources n in
    cc (
      ap (λ p. p.0) u.2,
      ap (λ p. p.1) u.2,
      ap (λ p. p.0) v.2,
      ap (λ p. p.1) v.2,
      ap (λ x. or_else x "") (h u.0 u.1),
      ap (λ x. or_else x "") (h v.0 v.1),
    )

-- By the default strategy every source gets a split, where sources with the same id are of the same
-- group, and the splits pass the check of their integrity.
pub assign_splits-passes_check :
    (digest : String → ℕ → ℕ) (shuffled : List String → ℕ → List String) (o : SplitOptions)
    (sources : List SourceDocument)
    → o.strategy ≡ "grouped_random"
    → HasGroupById sources
    → (a : SplitAssignment) × (assign_splits digest shuffled o sources ≡ some a)
      × ((s : SourceDocument) → Memᴰ s sources → is_some (split_of a s.id) ≡ true)
      × ((check_split_integrity (group_splits a sources)).ok ≡ true)
unfolding assign_splits
assign_splits-passes_check digest shuffled o sources e unique =
    let r = grouped_random-get digest o sources shuffled unique in
    (
      r.0,
      simp e r.1,
      λ s m. rw (r.2 s m) refl,
      (check_split_integrity_iff (group_splits r.0 sources)).1
          (group_splits-IsSeparated (bucket digest o) r.0 sources r.2),
    )
