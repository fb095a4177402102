-- ===== src/Intake/Paths/Under.antt =====
-- Which paths stand below a root.
use knovaryn.Base.{
  ◌≡◌, ◌↔◌, refl, ap, subst, ◌∙◌, arith, true, List, [], ◌∷◌, ◌++◌, Option, none, some, Bool-cases,
  inl, inr,
}
use mathlib.Core.List.{Memᴰ}
use knovaryn.Text.{text_eq}
use knovaryn.Text.Equal.{text_eq_self, eq_of_text_eq}
use knovaryn.Intake.Paths.{FilePath, relative_to, is_under}

relative_to_iff :
    (root child tail : FilePath) → (relative_to root child ≡ some tail) ↔ (child ≡ root ++ tail)
unfolding relative_to
relative_to_iff [] child tail = (λ e. cc, λ e. cc)
relative_to_iff (r ∷ root) [] tail = (λ e. absurd cc, λ e. absurd cc)
relative_to_iff (r ∷ root) (c ∷ child) tail = (
  λ e. elim (Bool-cases (text_eq r c)) [
    | inl h ↦
        let below = (relative_to_iff root child tail).0 (rw h at e) in
        let same = eq_of_text_eq r c h in cc
    | inr h ↦ absurd (cc (rw h at e))
  ],
  λ e.
      let same : r ≡ c = cc in
      let below : child ≡ root ++ tail = cc in
      let h : text_eq r c ≡ true = subst (λ x. text_eq r x ≡ true) same (text_eq_self r) in
      rw h ((relative_to_iff root child tail).1 below),
)

-- The path is one of the roots or stands below it.
abbrev pub IsUnder : List FilePath → FilePath → Type 0
IsUnder roots p = (root tail : FilePath) × Memᴰ root roots × (p ≡ root ++ tail)

pub is_under-IsUnder :
    (roots : List FilePath) (p : FilePath) → is_under roots p ≡ true → IsUnder roots p
unfolding is_under
is_under-IsUnder [] p h = absurd cc
is_under-IsUnder (r ∷ roots) p h = by (relative_to r p) refl (is_under-IsUnder roots p)
  where
    by :
        (o : Option FilePath)
        → relative_to r p ≡ o
        → (is_under roots p ≡ true → IsUnder roots p)
        → IsUnder (r ∷ roots) p
    by (some tail) e below = (r, tail, Memᴰ.head refl, (relative_to_iff r p tail).0 e)
    by none e below =
        let (root, tail, m, same) = below (rw e at h) in (root, tail, Memᴰ.tail m, same)

pub IsUnder-is_under :
    (roots : List FilePath) (p root tail : FilePath)
    → Memᴰ root roots
    → p ≡ root ++ tail
    → is_under roots p ≡ true
unfolding is_under
IsUnder-is_under [] p root tail m e = elim m [ ]
IsUnder-is_under (r ∷ roots) p root tail (Memᴰ.head q) e =
    rw ((relative_to_iff r p tail).1 (e ∙ ap (λ x. x ++ tail) q)) refl
IsUnder-is_under (r ∷ roots) p root tail (Memᴰ.tail m) e =
    ground (arith, IsUnder-is_under roots p root tail m e)
