-- ===== src/Export/Verify/Intact.antt =====
-- What single checks of the verifier show when they find no error.
use knovaryn.Base.{
  ℕ, ◌==◌, ==_iff, Bool, true, false, not, ◌||◌, String, str_eq, eq_iff, List, [], ◌∷◌, ◌++◌,
  filter, all, length, Option, none, some, ◌≡◌, ◌⊎◌, inl, inr, refl, sym, ap, ◌∙◌, All, arith,
  Bool-cases,
}
use knovaryn.Dict.{Dict, get, has}
use knovaryn.Export.Release.{FileRecord, joined_digests}
use knovaryn.Export.Verify.{
  ParsedManifest, Problem, absent, digest_mismatch, size_mismatch, required_files, no_errors,
  require, missing_files, check_required, index_onto, check_listed, digests_at, listed_paths,
  against, check_entries, rooted, root_at, digests_of,
}

pub nil_of_append {ℓ} :
    {A : Type ℓ} (xs ys : List A)
    → no_errors (xs ++ ys) ≡ true
    → (no_errors xs ≡ true) × (no_errors ys ≡ true)
nil_of_append [] ys e = (refl, e)
nil_of_append (x ∷ xs) ys e = absurd cc

pub of_require : (b : Bool) (p : Problem) → no_errors (require b p) ≡ true → b ≡ true
unfolding require
of_require true p e = refl
of_require false p e = absurd cc

some_eq : (b c : List ℕ) → some b ≡ some c → b ≡ c
some_eq b c e = cc

-- What the verifier promises of the entries of an archive and their manifest.
pub record IsIntact (digest : List ℕ → String) (entries : Dict (List ℕ)) (m : ParsedManifest)
    : Type 0 where
  pub required : all (λ f. has entries f) required_files ≡ true
  pub files_match :
      (path : String) (f : FileRecord) (bytes : List ℕ)
      → get (index_onto [] (m.files)) path ≡ some f
      → get entries path ≡ some bytes
      → (f.sha256 ≡ digest bytes) × (f.size ≡ length bytes)
  pub listed : All (λ f. (f.logical_path ≡ "") ⊎ (has entries (f.logical_path) ≡ true)) (m.files)
  pub root :
      (r : String) × (ds : List String) × (m.content_root_sha256 ≡ some r)
      × (digests_at (digests_of digest entries) (listed_paths (m.files)) ≡ some ds)
      × (digest (joined_digests ds) ≡ r)
  pub not_self_referential : m.has_bundle_sha256 ≡ false

all_of_filter :
    (p : String → Bool) (xs : List String)
    → no_errors (filter (λ x. not (p x)) xs) ≡ true
    → all p xs ≡ true
all_of_filter p [] e = refl
all_of_filter p (x ∷ xs) e = ground (arith, e, all_of_filter p xs)

pub of_check_required :
    (entries : Dict (List ℕ))
    → no_errors (check_required entries) ≡ true
    → all (λ f. has entries f) required_files ≡ true
unfolding check_required missing_files
of_check_required entries e = all_of_filter (λ f. has entries f) required_files (of_require _ _ e)

pub of_check_listed :
    (entries : Dict (List ℕ)) (fs : List FileRecord)
    → no_errors (check_listed entries fs) ≡ true
    → All (λ f. (f.logical_path ≡ "") ⊎ (has entries (f.logical_path) ≡ true)) fs
unfolding check_listed
of_check_listed entries [] e = tt
of_check_listed entries (f ∷ fs) e =
    let parts =
      nil_of_append
        (require (str_eq (f.logical_path) "" || has entries (f.logical_path))
          (absent (f.logical_path)))
        (check_listed entries fs) e in
    (here (of_require _ _ parts.0), of_check_listed entries fs parts.1)
  where
    here :
        (str_eq (f.logical_path) "" || has entries (f.logical_path)) ≡ true
        → (f.logical_path ≡ "") ⊎ (has entries (f.logical_path) ≡ true)
    here h = elim (Bool-cases (str_eq (f.logical_path) "")) [
      | inl q ↦ inl ((eq_iff (f.logical_path) "").0 q)
      | inr q ↦ inr (ground (arith, h, q))
    ]

-- The errors of an outcome of the root's check are none.
abbrev pub AreNone : Option (List Problem × Bool) → Type 0
AreNone none = ⊥
AreNone (some (ps, good)) = no_errors ps ≡ true

module _ (digest : List ℕ → String) where
  of_against :
      (path : String) (bytes : List ℕ) (f : FileRecord)
      → no_errors (against digest path bytes (some f)) ≡ true
      → (f.sha256 ≡ digest bytes) × (f.size ≡ length bytes)
  unfolding against
  of_against path bytes f e =
      let parts =
        nil_of_append (require (str_eq (f.sha256) (digest bytes)) (digest_mismatch path))
          (require (f.size == length bytes) (size_mismatch path)) e in
      (
        (eq_iff (f.sha256) (digest bytes)).0 (of_require _ _ parts.0),
        (==_iff (f.size) (length bytes)).0 (of_require _ _ parts.1),
      )

  pub of_check_entries :
      (index : Dict FileRecord) (entries : Dict (List ℕ))
      → no_errors (check_entries digest index entries) ≡ true
      → (path : String) (f : FileRecord) (bytes : List ℕ) → get index path ≡ some f
      → get entries path ≡ some bytes
      → (f.sha256 ≡ digest bytes) × (f.size ≡ length bytes)
  unfolding check_entries get
  of_check_entries index [] e path f bytes gf gb = absurd cc
  of_check_entries index ((name, b) ∷ es) e path f bytes gf gb =
      let parts =
        nil_of_append (against digest name b (get index name)) (check_entries digest index es) e in
      elim (Bool-cases (str_eq name path)) [
        | inl q ↦
            let same : name ≡ path = (eq_iff name path).0 q in
            let this : b ≡ bytes = some_eq b bytes (rw q at gb) in
            of_against path bytes f (
              ap (λ o. no_errors (against digest path bytes o)) (sym gf)
              ∙ ap (λ x. no_errors (against digest path x (get index path))) (sym this)
              ∙ ap (λ n. no_errors (against digest n b (get index n))) (sym same)
              ∙ parts.0)
        | inr q ↦ of_check_entries index es parts.1 path f bytes gf (rw q at gb)
      ]

  pub of_root_at :
      (m : ParsedManifest) (ds : Dict String) (o : Option String)
      → AreNone (root_at digest m ds o)
      → (r : String) × (found : List String) × (o ≡ some r)
        × (digests_at ds (listed_paths (m.files)) ≡ some found)
        × (digest (joined_digests found) ≡ r)
  unfolding root_at rooted
  of_root_at m ds none n = absurd cc
  of_root_at m ds (some r) n = elim (Bool-cases (str_eq r "")) [
    | inl q ↦ absurd (let k : false ≡ true = (rw q at n) in cc)
    | inr q ↦ go (digests_at ds (listed_paths (m.files))) refl (rw q at n)
  ]
    where
      go :
          (o : Option (List String))
          → digests_at ds (listed_paths (m.files)) ≡ o
          → AreNone (rooted digest r o)
          → (r' : String) × (found : List String) × (some r ≡ some r')
            × (digests_at ds (listed_paths (m.files)) ≡ some found)
            × (digest (joined_digests found) ≡ r')
      go none g k = absurd k
      go (some found) g k =
          (r, found, refl, g, (eq_iff (digest (joined_digests found)) r).0 (of_require _ _ k))

-- A verdict that makes the exit code 0.
