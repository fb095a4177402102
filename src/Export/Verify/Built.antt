-- ===== src/Export/Verify/Built.antt =====
-- The files of a release, by name.
use knovaryn.Base.{
  ℕ, ◌≡◌, refl, sym, ap, ◌∙◌, Bool, true, false, ◌||◌, String, str_eq, eq_iff, eq_refl, List, [],
  ◌∷◌, any, ◌==◌, arith, Bool-cases, inl, inr,
}
use knovaryn.Dict.{Dict, get, put, has}
use knovaryn.Text.{codes}
use knovaryn.Export.Release.{ReleaseParts, add_splits, files_of}
use knovaryn.Export.Release.Items.{IsUnique, has-put, put-IsUnique}
use Prim.Native.String.append
use Prim.Native.String.{◌++◌ as join_text}

abbrev pub split_path : String → String
split_path split = join_text "data/" (join_text split ".jsonl")

add_splits-IsUnique : (ss d : Dict (List ℕ)) → IsUnique d → IsUnique (add_splits ss d)
unfolding add_splits
add_splits-IsUnique [] d u = u
add_splits-IsUnique ((s, b) ∷ ss) d u =
    add_splits-IsUnique ss (put d (split_path s) b) (put-IsUnique d (split_path s) b u)

pub files_of-IsUnique : (r : ReleaseParts) → IsUnique (files_of r)
unfolding files_of
files_of-IsUnique r = put-IsUnique _ "source_manifest.json" (r.source_manifest) (
    put-IsUnique _ "privacy_summary.json" (r.privacy_summary) (
      put-IsUnique _ "license_summary.json" (r.license_summary) (
        put-IsUnique _ "quality_report.json" (r.quality_report) (
          put-IsUnique _ "dataset_card.json" (r.dataset_card)
            (put-IsUnique _ "README.md" (r.readme) (add_splits-IsUnique (r.split_files) [] tt))))))

has-add_splits :
    (ss d : Dict (List ℕ)) (j : String)
    → has (add_splits ss d) j ≡ (any (λ s. str_eq (split_path s.0) j) ss || has d j)
unfolding add_splits
has-add_splits [] d j = refl
has-add_splits ((s, b) ∷ ss) d j =
    has-add_splits ss (put d (split_path s) b) j
    ∙ ap (λ o. any (λ e. str_eq (split_path e.0) j) ss || o) (has-put d (split_path s) j b)
    ∙ swap (any (λ e. str_eq (split_path e.0) j) ss) (str_eq (split_path s) j) (has d j)
  where
    swap : (a b c : Bool) → (a || (b || c)) ≡ ((b || a) || c)
    swap a b c = ground arith

or_nothing : (b : Bool) (j : String) → (b || has {V = List ℕ} [] j) ≡ b
unfolding has get
or_nothing true j = refl
or_nothing false j = refl

pub has-files_of :
    (r : ReleaseParts) (j : String)
    → has (files_of r) j ≡ (
        str_eq "source_manifest.json" j
        || (str_eq "privacy_summary.json" j
            || (str_eq "license_summary.json" j
                || (str_eq "quality_report.json" j
                    || (str_eq "dataset_card.json" j
                        || (str_eq "README.md" j
                            || any (λ s. str_eq (split_path s.0) j) (r.split_files)))))))
unfolding files_of
has-files_of r j = onto _ "source_manifest.json" (r.source_manifest) (
    onto _ "privacy_summary.json" (r.privacy_summary) (
      onto _ "license_summary.json" (r.license_summary) (
        onto _ "quality_report.json" (r.quality_report) (
          onto _ "dataset_card.json" (r.dataset_card)
            (onto _ "README.md" (r.readme) (splits (r.split_files)))))))
  where
    onto :
        (d : Dict (List ℕ)) (k : String) (v : List ℕ) {b : Bool}
        → has d j ≡ b
        → has (put d k v) j ≡ (str_eq k j || b)
    onto d k v {b} e = has-put d k j v ∙ ap (λ o. str_eq k j || o) e

    splits :
        (ss : Dict (List ℕ)) → has (add_splits ss []) j ≡ any (λ s. str_eq (split_path s.0) j) ss
    splits ss = has-add_splits ss [] j ∙ or_nothing (any (λ s. str_eq (split_path s.0) j) ss) j

split_present :
    (ss : Dict (List ℕ)) (t : String)
    → has ss t ≡ true
    → any (λ s. str_eq (split_path s.0) (split_path t)) ss ≡ true
unfolding has get
split_present [] t e = absurd cc
split_present ((s, b) ∷ ss) t e = elim (Bool-cases (str_eq s t)) [
  | inl q ↦
      let same : str_eq (split_path s) (split_path t) ≡ true =
        ap (λ x. str_eq (split_path x) (split_path t)) ((eq_iff s t).0 q)
        ∙ eq_refl (split_path t) in
      rw same refl
  | inr q ↦ ground (arith, split_present ss t (rw q at e))
]

-- A path that begins otherwise is no split's.
split_absent :
    (ss : Dict (List ℕ)) (j : String)
    → ((s : String) → str_eq (join_text "data/" s) j ≡ false)
    → any (λ s. str_eq (split_path s.0) j) ss ≡ false
split_absent [] j f = refl
split_absent ((s, b) ∷ ss) j f = rw (f (join_text s ".jsonl")) (split_absent ss j f)

abbrev first_code : List ℕ → ℕ
first_code [] = 0
first_code (c ∷ s) = c

begins_otherwise :
    (j : String)
    → (first_code (codes j) == 100) ≡ false
    → (s : String) → str_eq (join_text "data/" s) j ≡ false
begins_otherwise j n s = elim (Bool-cases (str_eq (join_text "data/" s) j)) [
  | inl e ↦
      let same : first_code (codes (join_text "data/" s)) ≡ first_code (codes j) =
        ap (λ t. first_code (codes t)) ((eq_iff (join_text "data/" s) j).0 e) in
      absurd (
        let c : true ≡ false =
          ap (λ t. first_code (codes t) == 100) (sym (append.cons "d" "ata/" s))
          ∙ ap (λ k. k == 100) same
          ∙ n in
        cc)
  | inr e ↦ e
]

pub has-files_of_train :
    (r : ReleaseParts)
    → has (r.split_files) "train" ≡ true
    → has (files_of r) "data/train.jsonl" ≡ true
has-files_of_train r h = has-files_of r "data/train.jsonl" ∙ split_present (r.split_files) "train" h

pub has-files_of_manifest : (r : ReleaseParts) → has (files_of r) "manifest.json" ≡ false
has-files_of_manifest r =
    has-files_of r "manifest.json"
    ∙ split_absent (r.split_files) "manifest.json" (begins_otherwise "manifest.json" refl)

pub has-files_of_empty : (r : ReleaseParts) → has (files_of r) "" ≡ false
has-files_of_empty r =
    has-files_of r "" ∙ split_absent (r.split_files) "" (begins_otherwise "" refl)
