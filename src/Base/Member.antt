-- ===== src/Base/Member.antt =====
-- Membership in filtered lists, and what holds of all elements.
use mathlib.Core.List.{Memᴰ}
use mathlib.Core.List.Memᴰ
use mathlib.Core.Path.{◌≡◌, refl, subst, sym, ◌∙◌, ap}
use mathlib.Core.Bool.{Bool, true}
use mathlib.Core.List.{List, [], ◌∷◌}
use mathlib.Core.Logic.{inl, inr}
use knovaryn.Base.Tests.{Bool-cases}
use knovaryn.Base.Lists.{filter, All}

module _ {ℓ} {A : Type ℓ} where
  pub Memᴰ-filter :
      (p : A → Bool) (xs : List A) {a : A} → Memᴰ a (filter p xs) → Memᴰ a xs × (p a ≡ true)
  Memᴰ-filter p [] h = absurd (Memᴰ.not-nil h)
  Memᴰ-filter p (x ∷ xs) {a} h = elim (Bool-cases (p x)) [
    | inl e ↦ elim (Memᴰ.cases_cons (rw e at h)) [
      | inl q ↦ (Memᴰ.head q, ap p q ∙ e)
      | inr m ↦ let r = Memᴰ-filter p xs m in (Memᴰ.tail r.0, r.1)
    ]
    | inr e ↦ let m = Memᴰ-filter p xs (rw e at h) in (Memᴰ.tail m.0, m.1)
  ]

  pub filter-Memᴰ :
      (p : A → Bool) (xs : List A) {a : A} → Memᴰ a xs → p a ≡ true → Memᴰ a (filter p xs)
  filter-Memᴰ p [] m e = elim m [ ]
  filter-Memᴰ p (x ∷ xs) (Memᴰ.head q) e = rw (ap p (sym q) ∙ e) (Memᴰ.head q)
  filter-Memᴰ p (x ∷ xs) (Memᴰ.tail m) e = elim (Bool-cases (p x)) [
    | inl f ↦ rw f (Memᴰ.tail (filter-Memᴰ p xs m e))
    | inr f ↦ rw f (filter-Memᴰ p xs m e)
  ]

module _ {ℓ κ} {A : Type ℓ} (P : A → Type κ) where
  pub All-Memᴰ : (xs : List A) {a : A} → All P xs → Memᴰ a xs → P a
  All-Memᴰ [] h m = elim m [ ]
  All-Memᴰ (x ∷ xs) h (Memᴰ.head q) = subst P (sym q) h.0
  All-Memᴰ (x ∷ xs) h (Memᴰ.tail m) = All-Memᴰ xs h.1 m

  pub All-of : (xs : List A) → ((a : A) → Memᴰ a xs → P a) → All P xs
  All-of [] f = tt
  All-of (x ∷ xs) f = (f x (Memᴰ.head refl), All-of xs (λ a m. f a (Memᴰ.tail m)))
