-- ===== src/Export/Verify/RoundTrip.antt =====
-- What the verifier says of a release that build_release_bundle has built.
use knovaryn.Base.{
  ℕ, ◌≡◌, refl, ap, ◌∙◌, Bool, true, false, String, str_eq, List, [], ◌++◌, map, Option, none, some,
  if◌then◌else◌,
}
use knovaryn.Dict.{Dict, get, has}
use knovaryn.Export.Release.{
  FileRecord, ReleaseManifest, ReleaseParts, normalized, manifest_of, joined_digests, entries_of,
  build_release,
}
use knovaryn.Export.Verify.{
  ParsedManifest, Verdict, Problem, require, ok, no_errors, check_required, manifest_at, index_onto,
  check_listed, check_self, check_entries, root_at, check_root, report_with, digests_of,
  base_report, verify_entries, detached_matches, on_entries, verify_release, exit_code,
  run_verify_release,
}
use knovaryn.Export.Verify.Clean.{rec}
use knovaryn.Export.Verify.Entries.{
  read_back as built_read_back, manifest as built_manifest, files, sorted_files, bytes_of_manifest,
  all_files, norm, entries as built_entries, index, entry-manifest, check_required-entries,
  entries-match,
}
use knovaryn.Export.Verify.Rooted.{records as built_records, listed-entries, root-of_built}

module _ (digest : List ℕ → String) (decode : List ℕ → List ℕ) (dumps : ReleaseManifest → List ℕ)
    (loads : List ℕ → Option ParsedManifest) (r : ReleaseParts) where
  abbrev entries : Dict (List ℕ)
  entries = built_entries digest decode dumps loads r

  abbrev manifest : ReleaseManifest
  manifest = built_manifest digest decode dumps loads r

  abbrev read_back : ReleaseManifest → ParsedManifest
  read_back = built_read_back digest decode dumps loads r

  abbrev records : List FileRecord
  records = built_records digest decode dumps loads r

  -- The verdict, by what the checks find.
  shape : ParsedManifest × List Problem → List Problem → List Problem → List Problem → Verdict
  shape found cr ce cl =
      report_with
        (base_report digest true ([] ++ cr ++ found.1 ++ ce ++ cl) (no_errors found.1) entries)
        (check_self found.0) (check_root digest found.0 (digests_of digest entries))

  as_shape :
      (f : ParsedManifest × List Problem)
      → manifest_at loads (get entries "manifest.json") ≡ f
      → verify_entries digest loads true [] entries
        ≡ shape f
            (check_required entries)
            (check_entries digest (index_onto [] (f.0.files)) entries)
            (check_listed entries (f.0.files))
  unfolding verify_entries shape
  as_shape f e =
      ap
        (λ g.
          shape g (check_required entries)
            (check_entries digest (index_onto [] (g.0.files)) entries)
            (check_listed entries (g.0.files)))
        e

  found-in_built :
      loads (normalized (r.reproducible) (dumps manifest)) ≡ some (read_back manifest)
      → manifest_at loads (get entries "manifest.json") ≡ (read_back manifest, [])
  unfolding manifest_of bytes_of_manifest require
  found-in_built parses = rw ((entry-manifest digest decode dumps loads r), parses) refl

  built-report :
      has (r.split_files) "train" ≡ true
      → loads (normalized (r.reproducible) (dumps manifest)) ≡ some (read_back manifest)
      → verify_entries digest loads true [] entries
        ≡ report_with (base_report digest true [] true entries) [] (
            root_at digest
              (read_back manifest)
              (digests_of digest entries)
              (manifest.content_root_sha256))
  unfolding shape check_root check_self require manifest_of built_records sorted_files rec index
      files
  built-report t parses =
      as_shape (read_back manifest, []) (found-in_built parses)
      ∙ ap
          (λ cr.
            shape (read_back manifest, []) cr
              (check_entries digest (index digest decode dumps loads r) entries)
              (check_listed entries records))
          (check_required-entries digest decode dumps loads r t)
      ∙ ap (λ ce. shape (read_back manifest, []) [] ce (check_listed entries records))
          (entries-match digest decode dumps loads r)
      ∙ ap (λ cl. shape (read_back manifest, []) [] [] cl)
          (listed-entries digest decode dumps loads r)

  exit-built :
      ((b : List ℕ) → str_eq (digest b) "" ≡ false)
      → exit_code (
          report_with (base_report digest true [] true entries) [] (
            root_at digest
              (read_back manifest)
              (digests_of digest entries)
              (manifest.content_root_sha256)))
        ≡ some (if r.include_content_root_hash then 0 else 1)
  unfolding manifest_of built_records sorted_files files rec report_with base_report exit_code ok
      root_at
  exit-built full = by_root (r.include_content_root_hash)
    where
      root : String
      root = digest (joined_digests (map (λ f. f.sha256) records))

      by_root :
          (b : Bool)
          → exit_code (
              report_with (base_report digest true [] true entries) [] (
                root_at digest
                  (read_back manifest)
                  (digests_of digest entries)
                  (if b then some root else none)))
            ≡ some (if b then 0 else 1)
      by_root true =
          ap (λ o. exit_code (report_with (base_report digest true [] true entries) [] o))
            (root-of_built digest decode dumps loads r full)
      by_root false = refl

  module _ {ℓ} {Zip : Type ℓ} (digest_zip : Zip → String) (write_zip : Dict (List ℕ) → Zip)
      (read_zip : Zip → Option (Dict (List ℕ))) where
    -- A release that is built with a train split verifies, beside a checksum that lists its digest, with
    -- exit code 0, or 1 where it is built without a content root, if the archive and the manifest read
    -- back as they have been written and no digest is empty.
    pub run_verify_release-build_release :
        (checksum : List ℕ)
        → let zip : Zip = build_release digest decode dumps write_zip r in
          let written : Dict (List ℕ) = entries_of digest decode dumps write_zip r in
          has (r.split_files) "train" ≡ true
          → read_zip zip ≡ some written
          → loads (normalized (r.reproducible) (dumps manifest)) ≡ some (read_back manifest)
          → ((b : List ℕ) → str_eq (digest b) "" ≡ false)
          → detached_matches digest digest_zip read_zip loads zip checksum ≡ true
          → run_verify_release digest digest_zip read_zip loads (some zip) (some checksum)
            ≡ some (if r.include_content_root_hash then 0 else 1)
    unfolding run_verify_release verify_release on_entries entries_of built_entries norm all_files
        files
    run_verify_release-build_release checksum t reads parses full lists =
        let zip : Zip = build_release digest decode dumps write_zip r in
        ap (λ b. exit_code (on_entries digest digest_zip read_zip loads b (read_zip zip))) lists
        ∙ ap (λ o. exit_code (on_entries digest digest_zip read_zip loads true o)) reads
        ∙ ap exit_code (built-report t parses)
        ∙ exit-built full
