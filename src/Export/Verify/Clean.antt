-- ===== src/Export/Verify/Clean.antt =====
-- What the checks of the verifier find where nothing is wrong, and the index of the records.
use knovaryn.Base.{
  ℕ, ◌≡◌, refl, ap, subst, ◌∙◌, Bool, true, false, ◌||◌, String, str_eq, eq_iff, eq_refl, List, [],
  ◌∷◌, ◌++◌, map, length, Option, none, some, is_some, if◌then◌else◌, Bool-cases, inl, inr, All,
  ==_iff,
}
use knovaryn.Dict.{Dict, get, put, has, get-put}
use knovaryn.Export.Release.{FileRecord, record_of}
use knovaryn.Export.Release.Items.{IsUnique}
use knovaryn.Export.Verify.{
  absent, require, index_onto, check_listed, digests_at, against, check_entries,
}

none_of_is_some {ℓ} : {A : Type ℓ} (o : Option A) → is_some o ≡ false → o ≡ none
none_of_is_some none h = refl
none_of_is_some (some v) h = absurd cc

pub none_of_has {ℓ} : {V : Type ℓ} (d : Dict V) (j : String) → has d j ≡ false → get d j ≡ none
unfolding has
none_of_has d j e = none_of_is_some (get d j) e

pub some_inj {ℓ} : {A : Type ℓ} (x y : A) → some x ≡ some y → x ≡ y
some_inj x y e = cc

-- The checks find nothing where nothing is wrong.
pub check_entries-clean :
    (digest : List ℕ → String) (index : Dict FileRecord) (es : Dict (List ℕ))
    → All (λ e. against digest e.0 e.1 (get index e.0) ≡ []) es
    → check_entries digest index es ≡ []
unfolding check_entries
check_entries-clean digest index [] h = refl
check_entries-clean digest index ((p, b) ∷ es) h = rw h.0 (check_entries-clean digest index es h.1)

pub check_listed-clean :
    (entries : Dict (List ℕ)) (fs : List FileRecord)
    → All (λ f. has entries (f.logical_path) ≡ true) fs
    → check_listed entries fs ≡ []
unfolding check_listed require
check_listed-clean entries [] h = refl
check_listed-clean entries (f ∷ fs) h =
    rw (h.0, check_listed-clean entries fs h.1) (either (str_eq (f.logical_path) ""))
  where
    either : (b : Bool) → (if b || true then [] else absent (f.logical_path) ∷ []) ++ [] ≡ []
    either true = refl
    either false = refl

pub against-clean :
    (digest : List ℕ → String) (path : String) (bytes : List ℕ) (f : FileRecord)
    → f.sha256 ≡ digest bytes
    → f.size ≡ length bytes
    → against digest path bytes (some f) ≡ []
unfolding against require
against-clean digest path bytes f d l =
    rw (d, l, eq_refl (digest bytes), (==_iff (length bytes) (length bytes)).1 refl) refl

pub digests_at-known :
    {V : Type 0} (ds : Dict String) (h : String × V → String) (s : Dict V)
    → All (λ e. (get ds e.0 ≡ some (h e)) × (str_eq e.0 "" ≡ false)) s
    → digests_at ds (map (λ e. e.0) s) ≡ some (map h s)
unfolding digests_at
digests_at-known ds h [] a = refl
digests_at-known ds h (e ∷ s) a = rw (a.0.1, a.0.0, digests_at-known ds h s a.1) refl

module _ (digest : List ℕ → String) (decode : List ℕ → List ℕ) (reproducible : Bool) where
  unfoldable pub rec : String × List ℕ → FileRecord
  unfolding record_of
  rec e = record_of digest decode reproducible e

  pub index-none :
      (d : Dict FileRecord) (s : Dict (List ℕ)) (p : String)
      → get s p ≡ none
      → get (index_onto d (map rec s)) p ≡ get d p
  unfolding index_onto rec record_of get
  index-none d [] p g = refl
  index-none d ((k, v) ∷ s) p g = elim (Bool-cases (str_eq k p)) [
    | inl e ↦ absurd (let c : some v ≡ none = (rw e at g) in cc)
    | inr e ↦
        index-none (put d k (rec (k, v))) s p (rw e at g) ∙ get-put d k p (rec (k, v)) ∙ rw e refl
  ]

  pub index-some :
      (d : Dict FileRecord) (s : Dict (List ℕ)) (p : String) (v : List ℕ)
      → IsUnique s
      → get s p ≡ some v
      → get (index_onto d (map rec s)) p ≡ some (rec (p, v))
  unfolding index_onto rec record_of get
  index-some d [] p v u g = absurd cc
  index-some d ((k, w) ∷ s) p v u g = elim (Bool-cases (str_eq k p)) [
    | inl e ↦
        let same : k ≡ p = (eq_iff k p).0 e in
        let bytes : w ≡ v = some_inj w v (rw e at g) in
        index-none (put d k (rec (k, w))) s p
          (none_of_has s p (subst (λ j. has s j ≡ false) same u.0))
        ∙ get-put d k p (rec (k, w))
        ∙ rw e (ap (λ j. some (rec (j, w))) same ∙ ap (λ b. some (rec (p, b))) bytes)
    | inr e ↦ index-some (put d k (rec (k, w))) s p v u.1 (rw e at g)
  ]
