-- ===== src/Export/Verify/Tests.antt =====
-- A release that is built and verified, with a digest that tells texts by their length and an archive
-- that is the table of its entries.
use knovaryn.Base.{
  ℕ, Bool, true, false, String, List, [], ◌∷◌, length, Option, none, some, if◌then◌else◌, ◌≡◌, refl,
  ltb, str_eq, Bool-cases, inl, inr,
}
use knovaryn.Dict.{Dict, get, put, has}
use knovaryn.Dict.{remove}
use knovaryn.Text.{codes, ends, text_lt, text_eq, strip}
use knovaryn.Export.Release.{
  ReleaseParts, ReleaseManifest, manifest_of, files_of, build_release, lines_of,
}
use knovaryn.Export.Verify.{ParsedManifest, run_verify_release, detached_matches}
use knovaryn.Export.Verify.RoundTrip.{run_verify_release-build_release}
use knovaryn.Export.Verify.Intact.{IsIntact}
use knovaryn.Export.Verify.Sound.{manifest_in, run_verify_release_sound}

abbrev toy_digest : List ℕ → String
toy_digest s = if ltb (length s) 4 then "aa" else "bb"

abbrev parts : Bool → ReleaseParts
parts root = record {
  version = "1";
  project_id = "p";
  session_note = "";
  split_files = ("train", codes "{}\r\n{}\n") ∷ [];
  dataset_card = codes "{}";
  quality_report = codes "{ }";
  license_summary = codes "{}";
  privacy_summary = codes "{}";
  source_manifest = codes "{}";
  readme = codes "read me";
  quality_report_hash = "h";
  include_content_root_hash = root;
  reproducible = true;
}

abbrev dumps : ReleaseManifest → List ℕ
dumps m = codes "manifest"

-- What json.loads gives back of the manifest.
abbrev loads : Bool → List ℕ → Option ParsedManifest
loads root s =
    let m = manifest_of toy_digest (λ t. t) (parts root) in
    some (record {
      schema = m.schema;
      files = m.files;
      content_root_sha256 = m.content_root_sha256;
      has_bundle_sha256 = false;
    })

abbrev built : Bool → Dict (List ℕ)
built root = build_release toy_digest (λ t. t) dumps (λ entries. entries) (parts root)

abbrev exit_of : Bool → Dict (List ℕ) → Option ℕ
exit_of root zip =
    run_verify_release toy_digest (λ z. "cc") (λ z. some z) (loads root) (some zip)
      (some (codes "cc\n"))

verifies : exit_of true (built true) ≡ some 0
unfolding run_verify_release build_release manifest_of files_of get put has strip text_lt text_eq
    lines_of ends
verifies = refl

-- Without a content root no release verifies.
unrooted : exit_of false (built false) ≡ some 1
unfolding run_verify_release build_release manifest_of files_of get put has strip text_lt text_eq
    lines_of ends
unrooted = refl

-- A listed file that is missing ends in a KeyError.
dropped : exit_of true (remove (built true) "dataset_card.json") ≡ none
unfolding run_verify_release build_release manifest_of files_of get put has strip text_lt text_eq
    lines_of ends remove
dropped = refl

-- A file that is not listed passes.
smuggled : exit_of true (("extra.txt", 1 ∷ []) ∷ built true) ≡ some 0
unfolding run_verify_release build_release manifest_of files_of get put has strip text_lt text_eq
    lines_of ends
smuggled = refl

run_verify_release_sound_example :
    (detached_matches toy_digest (λ z. "cc") (λ z. some z) (loads true) (built true) (codes "cc\n")
      ≡ true)
    × (entries : Dict (List ℕ)) × (some (built true) ≡ some entries)
    × IsIntact toy_digest entries (manifest_in toy_digest (loads true) entries)
run_verify_release_sound_example =
    run_verify_release_sound toy_digest (λ z. "cc") (λ z. some z) (loads true) (built true)
      (codes "cc\n") verifies

filled : (b : List ℕ) → str_eq (toy_digest b) "" ≡ false
filled b = elim (Bool-cases (ltb (length b) 4)) [ inl e ↦ rw e refl | inr e ↦ rw e refl ]

run_verify_release-build_release_example :
    run_verify_release toy_digest
      (λ z. "cc")
      (λ z. some z)
      (loads true)
      (some (built true))
      (some (codes "cc\n"))
    ≡ some 0
unfolding has get detached_matches strip text_eq lines_of build_release
run_verify_release-build_release_example =
    run_verify_release-build_release toy_digest (λ t. t) dumps (loads true) (parts true) (λ z. "cc")
      (λ entries. entries) (λ z. some z) (codes "cc\n") refl refl refl filled refl
