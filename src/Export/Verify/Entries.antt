-- ===== src/Export/Verify/Entries.antt =====
-- The entries of a release that build_release_bundle has built, as the verifier reads them.
use knovaryn.Base.{
  ℕ, ◌≡◌, refl, sym, ap, subst, ◌∙◌, Bool, true, false, String, str_eq, eq_iff, List, [], map,
  Option, none, some, is_some, if◌then◌else◌, Bool-cases, inl, inr,
}
use knovaryn.Dict.{Dict, get, put, has, get-put}
use knovaryn.Export.Release.{
  FileRecord, ReleaseManifest, ReleaseParts, files_of, normalized, record_of, manifest_of,
  sorted_items,
}
use knovaryn.Export.Release.Items.{IsUnique, put-IsUnique, get-sorted}
use knovaryn.Export.Release.Order.{All-get, with_keys, get-with_keys, All-with_keys}
use knovaryn.Export.Verify.{
  ParsedManifest, require, missing_files, check_required, index_onto, against, check_entries,
}
use knovaryn.Export.Verify.Built.{
  files_of-IsUnique, has-files_of, has-files_of_train, has-files_of_manifest,
}
use knovaryn.Export.Verify.Clean.{
  none_of_has, check_entries-clean, against-clean, rec, index-none, index-some,
}

module _ (digest : List ℕ → String) (decode : List ℕ → List ℕ) (dumps : ReleaseManifest → List ℕ)
    (loads : List ℕ → Option ParsedManifest) (r : ReleaseParts) where
  -- What is left of the manifest when it is read.
  abbrev pub read_back : ReleaseManifest → ParsedManifest
  read_back m = record {
    schema = m.schema;
    files = m.files;
    content_root_sha256 = m.content_root_sha256;
    has_bundle_sha256 = false;
  }

  abbrev pub manifest : ReleaseManifest
  manifest = manifest_of digest decode r

  unfoldable pub files : Dict (List ℕ)
  files = files_of r

  unfoldable pub sorted_files : Dict (List ℕ)
  unfolding files
  sorted_files = sorted_items files

  unfoldable pub bytes_of_manifest : List ℕ
  bytes_of_manifest = dumps manifest

  unfoldable pub all_files : Dict (List ℕ)
  unfolding files bytes_of_manifest
  all_files = put files "manifest.json" bytes_of_manifest

  unfoldable pub norm : String × List ℕ → List ℕ
  norm e = normalized (r.reproducible) e.1

  unfoldable pub entries : Dict (List ℕ)
  unfolding all_files norm
  entries = with_keys norm (sorted_items all_files)

  all_files-IsUnique : IsUnique all_files
  unfolding all_files files
  all_files-IsUnique =
      put-IsUnique (files_of r) "manifest.json" (dumps manifest) (files_of-IsUnique r)

  pub sorted_files-IsUnique : IsUnique sorted_files
  unfolding sorted_files files
  sorted_files-IsUnique = (get-sorted (files_of r) "" (files_of-IsUnique r)).1

  pub get-sorted_files : (p : String) → get sorted_files p ≡ get files p
  unfolding sorted_files files
  get-sorted_files p = (get-sorted (files_of r) p (files_of-IsUnique r)).0

  get-all_files :
      (p : String)
      → get (sorted_items all_files) p
        ≡ (if str_eq "manifest.json" p then some bytes_of_manifest else get files p)
  unfolding all_files files bytes_of_manifest
  get-all_files p =
      (get-sorted all_files p all_files-IsUnique).0
      ∙ get-put (files_of r) "manifest.json" p (dumps manifest)

  -- Each file of the bundle is an entry, with its line endings normalized.
  pub entry-of_file :
      (p : String) (v : List ℕ)
      → get files p ≡ some v
      → get entries p ≡ some (normalized (r.reproducible) v)
  unfolding entries norm files has
  entry-of_file p v g =
      get-with_keys norm (sorted_items all_files) p v
        (get-all_files p ∙ go (str_eq "manifest.json" p) refl)
    where
      no_manifest : is_some (get files "manifest.json") ≡ false
      no_manifest = has-files_of_manifest r

      go :
          (b : Bool)
          → str_eq "manifest.json" p ≡ b
          → (if b then some bytes_of_manifest else get files p) ≡ some v
      go false e = g
      go true e =
          let same : "manifest.json" ≡ p = (eq_iff "manifest.json" p).0 e in
          absurd (
            let c : true ≡ false =
              sym (ap is_some g) ∙ subst (λ q. is_some (get files q) ≡ false) same (no_manifest) in
            cc)

  pub entry-manifest :
      get entries "manifest.json" ≡ some (normalized (r.reproducible) bytes_of_manifest)
  unfolding entries norm
  entry-manifest =
      get-with_keys norm (sorted_items all_files) "manifest.json" bytes_of_manifest
        (get-all_files "manifest.json")

  some_of_has :
      (d : Dict (List ℕ)) (p : String) → has d p ≡ true → (v : List ℕ) × (get d p ≡ some v)
  unfolding has
  some_of_has d p h = go (get d p) refl h
    where
      go :
          (o : Option (List ℕ))
          → get d p ≡ o
          → is_some (get d p) ≡ true
          → (v : List ℕ) × (get d p ≡ some v)
      go none g k = absurd (let c : true ≡ false = sym k ∙ ap is_some g in cc)
      go (some v) g k = (v, g)

  has-entry : (p : String) → has files p ≡ true → has entries p ≡ true
  unfolding has
  has-entry p h = let found = some_of_has files p h in ap is_some (entry-of_file p found.0 found.1)

  unfoldable pub index : Dict FileRecord
  unfolding sorted_files rec
  index = index_onto [] (map (rec digest decode (r.reproducible)) sorted_files)

  pub check_required-entries : has (r.split_files) "train" ≡ true → check_required entries ≡ []
  unfolding check_required missing_files require has files
  check_required-entries t =
      rw
        (
          has-entry "data/train.jsonl" (has-files_of_train r t),
          ap is_some entry-manifest,
          has-entry "README.md" (has-files_of r "README.md"),
          has-entry "dataset_card.json" (has-files_of r "dataset_card.json"),
          has-entry "quality_report.json" (has-files_of r "quality_report.json"),
          has-entry "license_summary.json" (has-files_of r "license_summary.json"),
          has-entry "privacy_summary.json" (has-files_of r "privacy_summary.json"),
          has-entry "source_manifest.json" (has-files_of r "source_manifest.json"),
        )
        refl

  pub entries-match : check_entries digest index entries ≡ []
  unfolding entries norm index sorted_files rec record_of files against get
  entries-match = check_entries-clean digest index entries (
      All-with_keys norm (λ e. against digest e.0 e.1 (get index e.0) ≡ []) (sorted_items all_files)
        (All-get (λ e. against digest e.0 (norm e) (get index e.0) ≡ []) (sorted_items all_files)
          (get-sorted all_files "" all_files-IsUnique).1
          (λ k v g. matched k v (sym (get-all_files k) ∙ g))))
    where
      matched :
          (k : String) (v : List ℕ)
          → (if str_eq "manifest.json" k then some bytes_of_manifest else get files k) ≡ some v
          → against digest k (norm (k, v)) (get index k) ≡ []
      matched k v g = elim (Bool-cases (str_eq "manifest.json" k)) [
        | inl e ↦
            let missing : get (sorted_items (files_of r)) k ≡ none =
              get-sorted_files k
              ∙ none_of_has (files_of r) k (
                  subst (λ j. has (files_of r) j ≡ false) ((eq_iff "manifest.json" k).0 e)
                    (has-files_of_manifest r)) in
            let unlisted : get index k ≡ none =
              index-none digest decode (r.reproducible) [] (sorted_items (files_of r)) k missing in
            ap (against digest k (norm (k, v))) unlisted
        | inr e ↦
            let known : get index k ≡ some (rec digest decode (r.reproducible) (k, v)) =
              index-some digest decode (r.reproducible) [] (sorted_items (files_of r)) k v
                sorted_files-IsUnique (get-sorted_files k ∙ (rw e at g)) in
            ap (against digest k (norm (k, v))) known
            ∙ against-clean digest k (norm (k, v)) (rec digest decode (r.reproducible) (k, v)) refl
                refl
      ]
