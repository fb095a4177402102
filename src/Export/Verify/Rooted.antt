-- ===== src/Export/Verify/Rooted.antt =====
-- The records that the manifest of a built release lists, and the root over them.
use knovaryn.Base.{
  ℕ, ◌≡◌, refl, sym, ap, subst, ◌∙◌, true, false, String, str_eq, eq_iff, eq_refl, List, [], ◌∷◌,
  map, Option, some, is_some, Bool-cases, inl, inr, All,
}
use knovaryn.Dict.{Dict, get, has}
use knovaryn.Export.Release.{
  FileRecord, ReleaseManifest, ReleaseParts, files_of, normalized, record_of, manifest_of,
  sorted_items, joined_digests,
}
use knovaryn.Export.Release.Order.{
  sorted_items-IsSorted, All-get, with_keys, get-with_keys, sorted-with_keys,
}
use knovaryn.Export.Verify.{
  ParsedManifest, require, check_listed, digests_at, listed_paths, rooted, root_at, digests_of,
}
use knovaryn.Export.Verify.Built.{has-files_of_empty}
use knovaryn.Export.Verify.Clean.{check_listed-clean, digests_at-known, rec}
use knovaryn.Export.Verify.Entries.{
  read_back as built_read_back, manifest as built_manifest, files,
  sorted_files as built_sorted_files, norm, entries as built_entries, sorted_files-IsUnique,
  get-sorted_files, entry-of_file,
}

module _ (digest : List ℕ → String) (decode : List ℕ → List ℕ) (dumps : ReleaseManifest → List ℕ)
    (loads : List ℕ → Option ParsedManifest) (r : ReleaseParts) where
  abbrev entries : Dict (List ℕ)
  entries = built_entries digest decode dumps loads r

  abbrev manifest : ReleaseManifest
  manifest = built_manifest digest decode dumps loads r

  abbrev read_back : ReleaseManifest → ParsedManifest
  read_back = built_read_back digest decode dumps loads r

  abbrev sorted_files : Dict (List ℕ)
  sorted_files = built_sorted_files digest decode dumps loads r

  unfoldable pub records : List FileRecord
  unfolding built_sorted_files rec
  records = map (rec digest decode (r.reproducible)) sorted_files

  pub listed-entries : check_listed entries records ≡ []
  unfolding records built_sorted_files rec record_of files has
  listed-entries = check_listed-clean entries records (
      All-records (sorted_items (files_of r)) (
        All-get (λ e. has entries e.0 ≡ true) (sorted_items (files_of r))
          (sorted_files-IsUnique digest decode dumps loads r)
          (λ k v g. ap is_some (
            (entry-of_file digest decode dumps loads r) k v
              (sym (get-sorted_files digest decode dumps loads r k) ∙ g)))))
    where
      All-records :
          (s : Dict (List ℕ))
          → All (λ e. has entries e.0 ≡ true) s
          → All
              (λ f. has entries (f.logical_path) ≡ true)
              (map (rec digest decode (r.reproducible)) s)
      All-records [] a = tt
      All-records (e ∷ s) a = (a.0, All-records s a.1)

  sha_of : String × List ℕ → String
  unfolding rec
  sha_of e = (rec digest decode (r.reproducible) e).sha256

  paths-of_records : listed_paths records ≡ map (λ e. e.0) sorted_files
  unfolding records listed_paths built_sorted_files files rec record_of
  paths-of_records =
      ap (λ s. map (λ e. e.0) (sorted_items s)) (pairs (sorted_items (files_of r)))
      ∙ ap (λ s. map (λ e. e.0) s)
          (sorted-with_keys (rec digest decode (r.reproducible)) (sorted_items (files_of r))
            (sorted_items-IsSorted (files_of r)))
      ∙ keys (sorted_items (files_of r))
    where
      pairs :
          (s : Dict (List ℕ))
          → map (λ f. (f.logical_path, f)) (map (rec digest decode (r.reproducible)) s)
            ≡ with_keys (rec digest decode (r.reproducible)) s
      pairs [] = refl
      pairs (e ∷ s) = ap (λ t. (e.0, rec digest decode (r.reproducible) e) ∷ t) (pairs s)

      keys :
          (s : Dict (List ℕ))
          → map (λ e. e.0) (with_keys (rec digest decode (r.reproducible)) s) ≡ map (λ e. e.0) s
      keys [] = refl
      keys (e ∷ s) = ap (λ t. e.0 ∷ t) (keys s)

  keys_named :
      (k : String) (v : List ℕ)
      → get (files digest decode dumps loads r) k ≡ some v
      → str_eq k "" ≡ false
  unfolding files has
  keys_named k v g = elim (Bool-cases (str_eq k "")) [
    | inl e ↦
        let missing : is_some (get (files_of r) k) ≡ false =
          subst (λ j. has (files_of r) j ≡ false) (sym ((eq_iff k "").0 e))
            (has-files_of_empty r) in
        absurd (let c : true ≡ false = sym (ap is_some g) ∙ missing in cc)
    | inr e ↦ e
  ]

  digests-known :
      digests_at (digests_of digest entries) (listed_paths records) ≡ some (map sha_of sorted_files)
  unfolding digests_of sha_of built_sorted_files files rec record_of norm
  digests-known =
      ap (digests_at (digests_of digest entries)) paths-of_records
      ∙ digests_at-known (digests_of digest entries) sha_of (sorted_items (files_of r)) (
          All-get
            (λ e. (get (digests_of digest entries) e.0 ≡ some (sha_of e)) × (str_eq e.0 "" ≡ false))
            (sorted_items (files_of r)) (sorted_files-IsUnique digest decode dumps loads r)
            (λ k v g. (
              get-with_keys (λ e. digest e.1) entries k (normalized (r.reproducible) v)
                  (entry-of_file digest decode dumps loads r k v
                    (sym (get-sorted_files digest decode dumps loads r k) ∙ g)),
              keys_named k v (sym (get-sorted_files digest decode dumps loads r k) ∙ g),
            )))

  shas-of_records :
      (s : Dict (List ℕ))
      → map (λ f. f.sha256) (map (rec digest decode (r.reproducible)) s) ≡ map sha_of s
  unfolding sha_of
  shas-of_records [] = refl
  shas-of_records (e ∷ s) = ap (λ t. sha_of e ∷ t) (shas-of_records s)

  -- The root that the manifest has is the one that the verifier computes.
  pub root-of_built :
      ((b : List ℕ) → str_eq (digest b) "" ≡ false)
      → root_at digest
          (read_back manifest)
          (digests_of digest entries)
          (some (digest (joined_digests (map (λ f. f.sha256) records))))
        ≡ some ([], true)
  unfolding root_at rooted require records built_sorted_files files rec record_of manifest_of sha_of
  root-of_built full =
      let shas = shas-of_records (sorted_items (files_of r)) in
      rw
        (
          full (joined_digests (map (λ f. f.sha256) records)),
          digests-known,
          shas,
          eq_refl (digest (joined_digests (map sha_of (sorted_items (files_of r))))),
        )
        refl
