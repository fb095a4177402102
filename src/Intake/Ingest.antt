-- ===== src/Intake/Ingest.antt =====
-- knovaryn/infrastructure/intake/intake.py: the intake of the bytes of a file, over the artifact store and the
-- quarantine. The warnings and what is only recorded of a source are left out, and the magic bytes are looked for in
-- the whole file, whose first sixteen bytes hold each of them.
--
-- `digest` stands for the SHA-256, `guess_type` for the table of mimetypes, `scan` for the malware scanner,
-- if there is one, false where it raises, and `open_zip` for the directory of an archive.
pub mod Kept
mod Tests
use knovaryn.Base.{
  ℕ, ltb, ◌==◌, Bool, true, false, not, ◌&&◌, ◌||◌, String, str_eq, List, [], ◌∷◌, ◌++◌, map, any,
  is_empty, length, get_last?, Option, none, some, if◌then◌else◌, is_some,
}
use knovaryn.Dict.{Dict, get, put, has}
use knovaryn.Text.{codes, lower, starts, ends, text_eq}
use knovaryn.Storage.{
  Manifest, Store, Outcome, fetched, not_found, corrupted, unreadable, Details, put_blob,
}
use knovaryn.Intake.Archive.{ZipInfo, Validated, accepted, split_slash, validate_zip_archive}

abbrev pub allowed_suffixes : List (List ℕ)
allowed_suffixes = map codes (
    ".pdf" ∷ ".docx" ∷ ".pptx" ∷ ".xlsx" ∷ ".html" ∷ ".htm" ∷ ".md" ∷ ".markdown" ∷ ".txt" ∷ ".csv"
    ∷ ".tsv" ∷ ".png" ∷ ".jpg" ∷ ".jpeg" ∷ ".gif" ∷ ".xml" ∷ ".json" ∷ ".epub" ∷ ".zip" ∷ ".tar"
    ∷ [])

abbrev pub disallowed_suffixes : List (List ℕ)
disallowed_suffixes = map codes (
    ".exe" ∷ ".dll" ∷ ".so" ∷ ".dylib" ∷ ".sh" ∷ ".bat" ∷ ".ps1" ∷ ".py" ∷ ".js" ∷ ".php" ∷ ".cgi"
    ∷ ".class" ∷ ".jar" ∷ ".wasm" ∷ ".ttf" ∷ ".otf" ∷ ".woff" ∷ [])

-- What the first bytes of a file say of its type.
abbrev magic : List (List ℕ × String)
magic =
    (codes "%PDF-", "application/pdf")
    ∷ (80 ∷ 75 ∷ 3 ∷ 4 ∷ [], "application/zip")
    ∷ (137 ∷ 80 ∷ 78 ∷ 71 ∷ 13 ∷ 10 ∷ 26 ∷ 10 ∷ [], "image/png")
    ∷ (255 ∷ 216 ∷ 255 ∷ [], "image/jpeg")
    ∷ []

unfoldable pub by_magic : List (List ℕ × String) → List ℕ → Option String
by_magic [] head = none
by_magic ((m, type) ∷ rest) head = if starts m head then some type else by_magic rest head

abbrev drop_dots : List ℕ → List ℕ
drop_dots [] = []
drop_dots (c ∷ s) = let rest = drop_dots s in if c == b'.' then rest else c ∷ s

-- The text from its last dot on.
abbrev from_last_dot : List ℕ → List ℕ
from_last_dot [] = []
from_last_dot (c ∷ s) =
    let rest = from_last_dot s in
    if not (is_empty rest) then rest else if c == b'.' then c ∷ s else []

abbrev text_or_empty : Option (List ℕ) → List ℕ
text_or_empty none = []
text_or_empty (some s) = s

-- os.path.splitext(name)[1].lower()
unfoldable pub splitext : List ℕ → List ℕ
splitext name = lower (from_last_dot (drop_dots (text_or_empty (get_last? (split_slash name)))))

unfoldable pub checked_suffix : List ℕ → List ℕ
unfolding splitext
checked_suffix name =
    if ends (codes ".markdown") (lower name) then codes ".markdown" else splitext name

abbrev pub listed_in : List ℕ → List (List ℕ) → Bool
listed_in s ts = any (text_eq s) ts

-- check_allowed_extension, which passes with true
unfoldable pub is_allowed_extension : List ℕ → Bool
is_allowed_extension suffix =
    not (listed_in suffix disallowed_suffixes)
    && (is_empty suffix || listed_in suffix allowed_suffixes)

-- _zip_subtype
unfoldable pub zip_subtype : List ℕ → String
zip_subtype name =
    if ends (codes ".docx") (lower name)
    then "application/vnd.openxmlformats-officedocument.wordprocessingml.document"
    else if ends (codes ".pptx") (lower name)
    then "application/vnd.openxmlformats-officedocument.presentationml.presentation"
    else if ends (codes ".xlsx") (lower name)
    then "application/vnd.openxmlformats-officedocument.spreadsheetml.sheet"
    else if ends (codes ".epub") (lower name)
    then "application/epub+zip"
    else "application/zip"

pub data Rejection : Type 0 where
  exceeds_size empty_file bad_extension malware store_failed unsafe_archive : Rejection

pub record Source : Type 0 where
  pub media_type : String
  pub byte_size : ℕ
  pub sha256 : String
  pub artifact_id : String

pub data Ingested : Type 0 where
  ingested : Source → Ingested
  rejected : Rejection → Ingested

pub record Upload : Type 0 where
  pub name : List ℕ
  pub bytes : List ℕ
  pub max_file_bytes : ℕ
  pub verify_archive : Bool
  pub allow_nested_archives : Bool

-- The files under quarantine by their digest, and the store.
pub record Vault : Type 0 where
  pub quarantine : Dict (List ℕ)
  pub store : Store

module _ (digest : List ℕ → String) (guess_type : List ℕ → Option String)
    (scan : Option (List ℕ → Bool)) (open_zip : List ℕ → Option (List ZipInfo))
    (producer : String) where
  unfoldable pub is_clean : List ℕ → Bool
  is_clean bytes = elim scan [ none ↦ true | some clean ↦ clean bytes ]

  -- The checks before anything is written.
  unfoldable pub preflight : Upload → Option Rejection
  unfolding is_allowed_extension checked_suffix is_clean
  preflight u =
      if ltb (u.max_file_bytes) (length (u.bytes))
      then some exceeds_size
      else if length (u.bytes) == 0
      then some empty_file
      else if not (is_allowed_extension (checked_suffix (u.name)))
      then some bad_extension
      else if not (is_clean (u.bytes))
      then some malware
      else none

  abbrev type_or_octets : Option String → String
  type_or_octets none = "application/octet-stream"
  type_or_octets (some t) = t

  unfoldable pub sniff_media_type : Upload → String
  unfolding by_magic
  sniff_media_type u = elim (by_magic magic (u.bytes)) [
    | some t ↦ t
    | none ↦ type_or_octets (guess_type (u.name))
  ]

  unfoldable pub media_type_of : Upload → String
  unfolding sniff_media_type zip_subtype
  media_type_of u =
      if str_eq (sniff_media_type u) "application/zip"
      then zip_subtype (u.name)
      else sniff_media_type u

  abbrev pub is_verified : Validated → Bool
  is_verified (accepted members) = true
  is_verified _ = false

  -- Whether the archive has to be verified, and is refused.
  unfoldable pub is_unsafe : Upload → Bool
  unfolding media_type_of
  is_unsafe u =
      u.verify_archive
      && str_eq (media_type_of u) "application/zip"
      && not (
          is_verified (
            validate_zip_archive (u.max_file_bytes) (u.allow_nested_archives) (open_zip (u.bytes))))

  unfoldable pub finish_ingest : Upload → Vault → Outcome Manifest → Ingested × Vault
  unfolding is_unsafe
  finish_ingest u v (fetched m) = (
    if is_unsafe u
        then rejected unsafe_archive
        else ingested (record {
          media_type = media_type_of u;
          byte_size = length (u.bytes);
          sha256 = digest (u.bytes);
          artifact_id = m.artifact_id;
        }),
    v,
  )
  finish_ingest u v not_found = (rejected store_failed, v)
  finish_ingest u v corrupted = (rejected store_failed, v)
  finish_ingest u v unreadable = (rejected store_failed, v)

  -- The writes: the quarantine, unless the file is there, and the store.
  unfoldable pub store_upload : ℕ → Upload → Vault → Vault × Outcome Manifest
  unfolding media_type_of
  store_upload now u v =
      let sha = digest (u.bytes) in
      let details : Details = record {
        media_type = media_type_of u;
        producer = producer;
        parents = [];
        privacy = "restricted";
      } in
      let r = put_blob digest (u.bytes) details now (v.store) in
      (
        record {
          quarantine =
              if has (v.quarantine) sha then v.quarantine else put (v.quarantine) sha (u.bytes);
          store = r.0;
        },
        r.1,
      )

  unfoldable pub ingest_bytes : ℕ → Upload → Vault → Ingested × Vault
  unfolding preflight store_upload finish_ingest
  ingest_bytes now u v = elim (preflight u) [
    | some r ↦ (rejected r, v)
    | none ↦ let r = store_upload now u v in finish_ingest u r.0 r.1
  ]
