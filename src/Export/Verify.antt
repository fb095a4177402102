-- ===== src/Export/Verify.antt =====
-- knovaryn/pipeline/export/verify_release.py: what the verifier of a release reports. Each check gives
-- the errors that it appends to the report, in their order.
--
-- `digest` and `digest_zip` stand for the SHA-256 of bytes and of the archive, `read_zip` for the entries
-- of an archive that are no directories, none where it is no archive, and `loads` for the manifest in
-- JSON, none where it is no JSON; a manifest is an object whose files are records.

mod Tests
pub mod Intact
pub mod Sound
pub mod Built
pub mod Clean
pub mod Entries
pub mod Rooted
pub mod RoundTrip
use knovaryn.Base.{
  ℕ, ◌==◌, Bool, true, false, not, ◌&&◌, ◌||◌, String, str_eq, List, [], ◌∷◌, ◌++◌, map, filter,
  any, all, length, Option, none, some, if◌then◌else◌, is_some,
}
use knovaryn.Dict.{Dict, get, put, has}
use knovaryn.Text.{codes, strip, text_eq}
use knovaryn.Export.Release.{FileRecord, sorted_items, joined_digests, lines_of}

-- What the verifier reads of a manifest: an empty text for a schema or a path that is missing.
pub record ParsedManifest : Type 0 where
  pub schema : String
  pub files : List FileRecord
  pub content_root_sha256 : Option String
  pub has_bundle_sha256 : Bool

pub data Problem : Type 0 where
  detached_mismatch : Problem
  missing_required : List String → Problem
  schema_missing : Problem
  not_json : Problem
  manifest_missing : Problem
  digest_mismatch : String → Problem
  size_mismatch : String → Problem
  absent : String → Problem
  root_mismatch : Problem
  root_missing : Problem
  self_referential : Problem

pub record VerificationReport : Type 0 where
  pub detached_ok : Bool
  pub per_file_ok : Bool
  pub content_root_ok : Bool
  pub schema_ok : Bool
  pub files_present : List String
  pub file_digests : Dict String
  pub errors : List Problem

-- The report, ReleaseIntegrityError, or the KeyError of a listed file that has no digest.
pub data Verdict : Type 0 where
  reported : VerificationReport → Verdict
  integrity_error : Verdict
  key_error : Verdict

abbrev pub required_files : List String
required_files =
    "data/train.jsonl" ∷ "manifest.json" ∷ "README.md" ∷ "dataset_card.json" ∷ "quality_report.json"
    ∷ "license_summary.json" ∷ "privacy_summary.json" ∷ "source_manifest.json" ∷ []

abbrev pub no_errors {ℓ} : {A : Type ℓ} → List A → Bool
no_errors [] = true
no_errors (x ∷ xs) = false

unfoldable pub require : Bool → Problem → List Problem
require b p = if b then [] else p ∷ []

unfoldable pub ok : VerificationReport → Bool
ok r = no_errors (r.errors) && r.detached_ok && r.per_file_ok && r.schema_ok

unfoldable pub missing_files : Dict (List ℕ) → List String
unfolding has
missing_files entries = filter (λ f. not (has entries f)) required_files

unfoldable pub check_required : Dict (List ℕ) → List Problem
unfolding require missing_files
check_required entries =
    require (no_errors (missing_files entries)) (missing_required (missing_files entries))

abbrev pub empty_manifest : ParsedManifest
empty_manifest = record {
  schema = "";
  files = [];
  content_root_sha256 = none;
  has_bundle_sha256 = false;
}

-- The manifest, or an empty one, and what is wrong with it.
abbrev parsed : Option ParsedManifest → ParsedManifest × List Problem
parsed none = (empty_manifest, not_json ∷ [])
parsed (some m) = (m, require (not (str_eq (m.schema) "")) schema_missing)

abbrev pub manifest_at :
    (List ℕ → Option ParsedManifest) → Option (List ℕ) → ParsedManifest × List Problem
manifest_at loads none = (empty_manifest, manifest_missing ∷ [])
manifest_at loads (some bytes) = parsed (loads bytes)

-- {f["logical_path"]: f for f in file_records}
unfoldable pub index_onto : Dict FileRecord → List FileRecord → Dict FileRecord
unfolding put
index_onto d [] = d
index_onto d (f ∷ fs) = index_onto (put d (f.logical_path) f) fs

unfoldable pub check_listed : Dict (List ℕ) → List FileRecord → List Problem
unfolding has require
check_listed entries [] = []
check_listed entries (f ∷ fs) =
    require (str_eq (f.logical_path) "" || has entries (f.logical_path)) (absent (f.logical_path))
    ++ check_listed entries fs

abbrev is_file_problem : Problem → Bool
is_file_problem (digest_mismatch p) = true
is_file_problem (size_mismatch p) = true
is_file_problem (absent p) = true
is_file_problem p = false

unfoldable pub check_self : ParsedManifest → List Problem
unfolding require
check_self m = require (not (m.has_bundle_sha256)) self_referential

-- [digests[p] for p in paths if p], none for a KeyError.
unfoldable pub digests_at : Dict String → List String → Option (List String)
unfolding get
digests_at ds [] = some []
digests_at ds (p ∷ ps) =
    let rest = digests_at ds ps in
    if str_eq p "" then rest else elim (get ds p) [
      | none ↦ none
      | some d ↦ elim rest [ none ↦ none | some more ↦ some (d ∷ more) ]
    ]

unfoldable pub listed_paths : List FileRecord → List String
unfolding sorted_items
listed_paths fs = map (λ e. e.0) (sorted_items (map (λ f. (f.logical_path, f)) fs))

-- The report after the check of the content root and the last one.
unfoldable pub report_with :
    VerificationReport → List Problem → Option (List Problem × Bool) → Verdict
report_with r last none = key_error
report_with r last (some (problems, root_ok)) =
    reported (record r { content_root_ok = root_ok; errors = r.errors ++ problems ++ last })

module _ (digest : List ℕ → String) where
  unfoldable pub against : String → List ℕ → Option FileRecord → List Problem
  unfolding require
  against path bytes none = []
  against path bytes (some f) =
      require (str_eq (f.sha256) (digest bytes)) (digest_mismatch path)
      ++ require (f.size == length bytes) (size_mismatch path)

  unfoldable pub check_entries : Dict FileRecord → Dict (List ℕ) → List Problem
  unfolding get against
  check_entries index [] = []
  check_entries index ((path, bytes) ∷ es) =
      against path bytes (get index path) ++ check_entries index es

  -- The content root is wrong or missing, and whether it is right; none for a KeyError.
  unfoldable pub rooted : String → Option (List String) → Option (List Problem × Bool)
  unfolding require joined_digests
  rooted root none = none
  rooted root (some ds) =
      let same = str_eq (digest (joined_digests ds)) root in some (require same root_mismatch, same)

  unfoldable pub root_at :
      ParsedManifest → Dict String → Option String → Option (List Problem × Bool)
  unfolding digests_at listed_paths rooted
  root_at m ds none = some (root_missing ∷ [], false)
  root_at m ds (some root) =
      if str_eq root ""
      then some (root_missing ∷ [], false)
      else rooted root (digests_at ds (listed_paths (m.files)))

  unfoldable pub check_root : ParsedManifest → Dict String → Option (List Problem × Bool)
  unfolding root_at
  check_root m ds = root_at m ds (m.content_root_sha256)

  unfoldable pub digests_of : Dict (List ℕ) → Dict String
  digests_of entries = map (λ e. (e.0, digest e.1)) entries

  -- The report before the check of the content root, with the errors so far.
  unfoldable pub base_report : Bool → List Problem → Bool → Dict (List ℕ) → VerificationReport
  unfolding digests_of
  base_report detached_ok so_far schema_ok entries = record {
    detached_ok = detached_ok;
    per_file_ok = not (any is_file_problem so_far);
    content_root_ok = false;
    schema_ok = schema_ok;
    files_present = map (λ e. e.0) entries;
    file_digests = digests_of entries;
    errors = so_far;
  }

  -- _verify_archive, on the entries of the archive.
  unfoldable pub verify_entries :
      (List ℕ → Option ParsedManifest) → Bool → List Problem → Dict (List ℕ) → Verdict
  unfolding get check_required index_onto check_entries check_listed check_root check_self
      report_with base_report
  verify_entries loads detached_ok before entries =
      let found = manifest_at loads (get entries "manifest.json") in
      let m = found.0 in
      let so_far =
        before
        ++ check_required entries
        ++ found.1
        ++ check_entries (index_onto [] (m.files)) entries
        ++ check_listed entries (m.files) in
      report_with (base_report detached_ok so_far (no_errors found.1) entries) (check_self m)
        (check_root m (digests_of entries))

unfoldable pub exit_code : Verdict → Option ℕ
unfolding ok
exit_code integrity_error = some 2
exit_code key_error = none
exit_code (reported r) = if ok r then some 0 else some 1

-- The lines of the detached checksum that are not blank, stripped.
unfoldable pub expected_digests : List ℕ → List (List ℕ)
unfolding lines_of
expected_digests s = filter (λ l. not (text_eq l [])) (map strip (lines_of s))

module _ {ℓ} {Zip : Type ℓ} (digest : List ℕ → String) (digest_zip : Zip → String)
    (read_zip : Zip → Option (Dict (List ℕ))) (loads : List ℕ → Option ParsedManifest) where
  unfoldable pub detached_matches : Zip → List ℕ → Bool
  unfolding expected_digests
  detached_matches zip checksum =
      any (λ l. text_eq l (codes (digest_zip zip))) (expected_digests checksum)

  unfoldable pub on_entries : Bool → Option (Dict (List ℕ)) → Verdict
  unfolding require verify_entries
  on_entries detached_ok none = integrity_error
  on_entries detached_ok (some entries) =
      verify_entries digest loads detached_ok (require detached_ok detached_mismatch) entries

  -- The archive and its detached checksum, where they exist.
  unfoldable pub verify_release : Option Zip → Option (List ℕ) → Verdict
  unfolding detached_matches on_entries
  verify_release none checksum = integrity_error
  verify_release (some zip) none = integrity_error
  verify_release (some zip) (some checksum) =
      on_entries (detached_matches zip checksum) (read_zip zip)

  -- The exit code, none for an error that is not caught.
  unfoldable pub run_verify_release : Option Zip → Option (List ℕ) → Option ℕ
  unfolding verify_release exit_code
  run_verify_release zip checksum = exit_code (verify_release zip checksum)
