-- ===== src/Split/Integrity.antt =====
-- What check_split_integrity decides.
use mathlib.Core.List.{Memᴰ}
use mathlib.Core.List.Memᴰ
use knovaryn.Base.{
  ◌≡◌, refl, ap, ◌∙◌, ◌↔◌, ◌⊎◌, inl, inr, Bool, true, false, String, str_eq, eq_iff, List, [], ◌∷◌,
  ◌++◌, some, arith, All, All-Memᴰ, All-of, if◌then◌else◌, contains, ◌&&◌, not, is_some, Bool-cases,
  Option-cases,
}
use knovaryn.Dict.{Dict, get, set_default, get-put}
use knovaryn.Split.{
  Tally, tally, tally_pair, no_tally, other_split, is_empty, check_split_integrity,
}

-- The split that each group is seen with first.
unfoldable firsts : List (String × String) → Dict String → Dict String
firsts [] d = d
firsts ((group, split) ∷ pairs) d = firsts pairs (set_default d group split)

get-set_default :
    (d : Dict String) (k j v : String)
    → get (set_default d k v) j
      ≡ (if str_eq k j && not (is_some (get d k)) then some v else get d j)
unfolding set_default
get-set_default d k j v = elim (Bool-cases (is_some (get d k))) [
  | inl e ↦ rw (e, set_default) (ground (arith, e))
  | inr e ↦ rw (e, set_default) (ground (arith, e, get-put d k j v))
]

firsts-keeps :
    (pairs : List (String × String)) (d : Dict String) (k v : String)
    → get d k ≡ some v
    → get (firsts pairs d) k ≡ some v
unfolding firsts
firsts-keeps [] d k v h = h
firsts-keeps ((g, s) ∷ pairs) d k v h =
    firsts-keeps pairs (set_default d g s) k v
      (ground (arith, get-set_default d g k s, h, eq_iff g k))

firsts-defined :
    (pairs : List (String × String)) (d : Dict String) (g s : String)
    → Memᴰ (g, s) pairs
    → is_some (get (firsts pairs d) g) ≡ true
unfolding firsts
firsts-defined [] d g s m = elim m [ ]
firsts-defined ((g', s') ∷ pairs) d g s m = elim (Memᴰ.cases_cons m) [
  | inl q ↦ elim (Option-cases (get (set_default d g' s') g)) [
    | inl e ↦ ground (arith, get-set_default d g' g s', e, eq_iff g' g, ap (λ p. p.0) q)
    | inr e ↦ rw (firsts-keeps pairs (set_default d g' s') g e.0 e.1) refl
  ]
  | inr n ↦ firsts-defined pairs (set_default d g' s') g s n
]

set_default-cases :
    (d : Dict String) (k j v s : String)
    → get (set_default d k v) j ≡ some s
    → (get d j ≡ some s) ⊎ ((j ≡ k) × (s ≡ v))
set_default-cases d k j v s h = ground (arith, get-set_default d k j v, h, eq_iff k j)

firsts-from :
    (pairs : List (String × String)) (d : Dict String) (g s : String)
    → get (firsts pairs d) g ≡ some s
    → (get d g ≡ some s) ⊎ Memᴰ (g, s) pairs
unfolding firsts
firsts-from [] d g s h = inl h
firsts-from ((g', s') ∷ pairs) d g s h = elim (firsts-from pairs (set_default d g' s') g s h) [
  | inr m ↦ inr (Memᴰ.tail m)
  | inl e ↦ elim (set_default-cases d g' g s' s e) [
    | inl b ↦ inl b
    | inr q ↦ inr (Memᴰ.head (λ i. (q.0 i, q.1 i)))
  ]
]

firsts_iff :
    (pairs : List (String × String)) (d : Dict String) (g s : String)
    → (get (firsts pairs (set_default d g s)) g ≡ some s) ↔ (other_split (get d g) s ≡ false)
firsts_iff pairs d g s = elim (Option-cases (get (set_default d g s) g)) [
  | inl e ↦ absurd (ground (arith, get-set_default d g g s, e, eq_iff g g))
  | inr e ↦ ground (
    arith,
    firsts-keeps pairs (set_default d g s) g e.0 e.1,
    get-set_default d g g s,
    e.1,
    eq_iff g g,
    eq_iff e.0 s,
  )
]

leaks_iff :
    (b : Bool) (leaked : List String) (g : String)
    → ((if b && not (contains leaked g) then leaked ++ g ∷ [] else leaked) ≡ [])
      ↔ ((leaked ≡ []) × (b ≡ false))
leaks_iff b [] g = ground arith
leaks_iff b (x ∷ leaked) g = ground arith

-- Every pair has the split that its group is seen with first.
abbrev Agrees : List (String × String) → Dict String → Type 0
Agrees pairs d = All (λ p. get d p.0 ≡ some p.1) pairs

tally-nil :
    (pairs : List (String × String)) (t : Tally)
    → ((tally pairs t).leaked ≡ []) ↔ ((t.leaked ≡ []) × Agrees pairs (firsts pairs t.seen))
unfolding tally tally_pair firsts
tally-nil [] t = (λ h. (h, tt), λ h. h.0)
tally-nil ((g, s) ∷ pairs) t =
    let step = tally-nil pairs (tally_pair g s t) in
    let leak = leaks_iff (other_split (get t.seen g) s) t.leaked g in
    let first = firsts_iff pairs t.seen g s in
    (
      λ h. let k = step.0 h in let l = leak.0 k.0 in (l.0, (first.1 l.1, k.1)),
      λ h. step.1 (leak.1 (h.0, first.0 h.1.0), h.1.1),
    )

-- No group has two splits.
abbrev pub IsSeparated : List (String × String) → Type 0
IsSeparated pairs = (g s t : String) → Memᴰ (g, s) pairs → Memᴰ (g, t) pairs → s ≡ t

Agrees-IsSeparated :
    (pairs : List (String × String)) (d : Dict String) → Agrees pairs d → IsSeparated pairs
Agrees-IsSeparated pairs d h = λ g s t m n.
    let a = All-Memᴰ (λ p. get d p.0 ≡ some p.1) pairs h m in
    let b = All-Memᴰ (λ p. get d p.0 ≡ some p.1) pairs h n in cc (a, b)

IsSeparated-Agrees :
    (pairs : List (String × String)) → IsSeparated pairs → Agrees pairs (firsts pairs [])
IsSeparated-Agrees pairs h =
    All-of (λ p. get (firsts pairs []) p.0 ≡ some p.1) pairs
      (λ p m. elim (Option-cases (get (firsts pairs []) p.0)) [
        | inl e ↦ absurd (ground (arith, firsts-defined pairs [] p.0 p.1 m, e))
        | inr e ↦ elim (firsts-from pairs [] p.0 e.0 e.1) [
          | inl n ↦ absurd (unfold get in cc n)
          | inr n ↦ e.1 ∙ ap some (h p.0 e.0 p.1 n m)
        ]
      ])

is_empty_iff : (xs : List String) → (is_empty xs ≡ true) ↔ (xs ≡ [])
is_empty_iff [] = ground arith
is_empty_iff (x ∷ xs) = ground arith

-- The check passes exactly on the pairs of a group and a split in which no group has two splits.
pub check_split_integrity_iff :
    (pairs : List (String × String)) → ((check_split_integrity pairs).ok ≡ true) ↔ IsSeparated pairs
unfolding check_split_integrity
check_split_integrity_iff pairs =
    let e = is_empty_iff (tally pairs no_tally).leaked in
    let n = tally-nil pairs no_tally in
    (
      λ h. Agrees-IsSeparated pairs _ (n.0 (e.0 h)).1,
      λ h. e.1 (n.1 (refl, IsSeparated-Agrees pairs h)),
    )
