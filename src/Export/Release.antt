-- ===== src/Export/Release.antt =====
-- knovaryn/pipeline/export/release.py: the files of a release, their records in the manifest, and the
-- archive. JSON documents are taken as the bytes of their JSON.
--
-- `digest` stands for the SHA-256 in hexadecimal, `dumps` for the JSON of a manifest, and `write_zip` for
-- the archive of named files, in their order, with fixed dates and attributes.
pub mod Items
pub mod Order
use knovaryn.Base.{
  ℕ, ◌==◌, Bool, true, false, not, ◌&&◌, String, List, [], ◌∷◌, ◌++◌, map, filter, length, Option,
  none, some, if◌then◌else◌, leb, ◌||◌,
}
use knovaryn.Dict.{Dict, put}
use knovaryn.Text.{codes, ends, text_lt, strip}
use Prim.Native.String.{◌++◌ as join_text}

pub record FileRecord : Type 0 where
  pub logical_path : String
  pub size : ℕ
  pub sha256 : String
  pub media_type : String

pub record ReleaseManifest : Type 0 where
  pub schema : String
  pub version : String
  pub project_id : String
  pub session_note : String
  pub split_counts : Dict ℕ
  pub quality_report_hash : String
  pub files : List FileRecord
  pub content_root_sha256 : Option String
  pub reproducible : Bool

unfoldable pub media_type_of : String → String
media_type_of path =
    if ends (codes ".jsonl") (codes path)
    then "application/jsonl"
    else if ends (codes ".json") (codes path)
    then "application/json"
    else if ends (codes ".md") (codes path)
    then "text/markdown"
    else "application/octet-stream"

abbrev before_newline : List ℕ → Bool
before_newline [] = false
before_newline (d ∷ s) = d == 10

-- data.replace(b"\r\n", b"\n")
unfoldable pub unix_lines : List ℕ → List ℕ
unix_lines [] = []
unix_lines (c ∷ s) =
    let rest = unix_lines s in if c == 13 && before_newline s then rest else c ∷ rest

unfoldable pub normalized : Bool → List ℕ → List ℕ
unfolding unix_lines
normalized reproducible bytes = if reproducible then unix_lines bytes else bytes

-- sorted(d.items())
unfoldable pub insert_item {ℓ} : {V : Type ℓ} → String × V → Dict V → Dict V
insert_item x [] = x ∷ []
insert_item x (y ∷ ys) =
    let rest = insert_item x ys in if text_lt (codes y.0) (codes x.0) then y ∷ rest else x ∷ y ∷ ys

unfoldable pub sorted_items {ℓ} : {V : Type ℓ} → Dict V → Dict V
unfolding insert_item
sorted_items [] = []
sorted_items (x ∷ xs) = insert_item x (sorted_items xs)

-- The text of a decoded file, by lines: `splitlines` ends a line at each of these.
abbrev is_line_end : ℕ → Bool
is_line_end c =
    (leb 10 c && leb c 13) || (leb 28 c && leb c 30) || c == 133 || c == 8232 || c == 8233

abbrev is_empty : List ℕ → Bool
is_empty [] = true
is_empty (c ∷ s) = false

abbrev put_first : ℕ → List (List ℕ) → List (List ℕ)
put_first c [] = (c ∷ []) ∷ []
put_first c (l ∷ ls) = (c ∷ l) ∷ ls

-- The lines of a text. Between "\r" and "\n" stands an empty line, which no count takes.
unfoldable pub lines_of : List ℕ → List (List ℕ)
lines_of [] = [] ∷ []
lines_of (c ∷ s) = let rest = lines_of s in if is_line_end c then [] ∷ rest else put_first c rest

unfoldable pub line_count : List ℕ → ℕ
unfolding lines_of
line_count s = length (filter (λ l. not (is_empty (strip l))) (lines_of s))

-- What a caller gives.
pub record ReleaseParts : Type 0 where
  pub version : String
  pub project_id : String
  pub session_note : String
  pub split_files : Dict (List ℕ)
  pub dataset_card : List ℕ
  pub quality_report : List ℕ
  pub license_summary : List ℕ
  pub privacy_summary : List ℕ
  pub source_manifest : List ℕ
  pub readme : List ℕ
  pub quality_report_hash : String
  pub include_content_root_hash : Bool
  pub reproducible : Bool

unfoldable pub add_splits : Dict (List ℕ) → Dict (List ℕ) → Dict (List ℕ)
unfolding put
add_splits [] files = files
add_splits ((split, bytes) ∷ splits) files =
    add_splits splits (put files (join_text "data/" (join_text split ".jsonl")) bytes)

-- The files of the bundle, in the order in which they are added.
unfoldable pub files_of : ReleaseParts → Dict (List ℕ)
unfolding add_splits put
files_of r =
    put
      (put
        (put
          (put
            (put (put (add_splits (r.split_files) []) "README.md" (r.readme)) "dataset_card.json"
              (r.dataset_card))
            "quality_report.json" (r.quality_report))
          "license_summary.json" (r.license_summary))
        "privacy_summary.json" (r.privacy_summary))
      "source_manifest.json" (r.source_manifest)

-- "".join(...).encode("ascii"), of hexadecimal digests.
unfoldable pub joined_digests : List String → List ℕ
joined_digests [] = []
joined_digests (d ∷ ds) = codes d ++ joined_digests ds

module _ (digest : List ℕ → String) (decode : List ℕ → List ℕ) where
  unfoldable pub record_of : Bool → String × List ℕ → FileRecord
  unfolding normalized media_type_of
  record_of reproducible (path, bytes) =
      let stored = normalized reproducible bytes in
      record {
        logical_path = path;
        size = length stored;
        sha256 = digest stored;
        media_type = media_type_of path;
      }

  unfoldable pub manifest_of : ReleaseParts → ReleaseManifest
  unfolding record_of joined_digests sorted_items files_of line_count
  manifest_of r =
      let records = map (record_of (r.reproducible)) (sorted_items (files_of r)) in
      record {
        schema = "knovaryn-release/1.1";
        version = r.version;
        project_id = r.project_id;
        session_note = r.session_note;
        split_counts = map (λ f. (f.0, line_count (decode f.1))) (r.split_files);
        quality_report_hash = r.quality_report_hash;
        files = records;
        content_root_sha256 =
            if r.include_content_root_hash
            then some (digest (joined_digests (map (λ f. f.sha256) records)))
            else none;
        reproducible = r.reproducible;
      }

  module _ {ℓ} {Zip : Type ℓ} (dumps : ReleaseManifest → List ℕ)
      (write_zip : Dict (List ℕ) → Zip) where
    -- The entries that are written, in their order.
    unfoldable pub entries_of : ReleaseParts → Dict (List ℕ)
    unfolding sorted_items normalized manifest_of files_of put
    entries_of r =
        map (λ e. (e.0, normalized (r.reproducible) e.1))
          (sorted_items (put (files_of r) "manifest.json" (dumps (manifest_of r))))

    -- build_release_bundle, as far as its archive.
    unfoldable pub build_release : ReleaseParts → Zip
    unfolding entries_of
    build_release r = write_zip (entries_of r)
