-- ===== src/Storage.antt =====
-- knovaryn/infrastructure/artifacts/local.py: the content-addressed store on the local disk, as the
-- files under objects/ and manifests/ by their names. `digest` stands for the SHA-256 in hexadecimal.
--
-- A manifest is none where its file is no JSON. The order of the files is the directory's.
pub mod Writes
pub mod Integrity
pub mod Refine
mod Tests
use knovaryn.Base.{
  ℕ, zero, suc, Bool, true, false, not, ◌&&◌, String, str_eq, List, [], ◌∷◌, ◌++◌, Option, none,
  some, if◌then◌else◌, length, is_some,
}
use knovaryn.Dict.{Dict, get, put, has}
use knovaryn.Text.{codes, starts}
use Prim.Native.String.{◌++◌ as join_text}
use knovaryn.Dict.{remove}

pub record Manifest : Type 0 where
  pub artifact_id : String
  pub sha256 : String
  pub media_type : String
  pub byte_size : ℕ
  pub created_at : ℕ
  pub producer : String
  pub parents : List String
  pub privacy : String

pub record Store : Type 0 where
  pub objects : Dict (List ℕ)
  pub manifests : Dict (Option Manifest)
  pub legal_hold : Bool

-- What a read gives: the value, NotFoundError, CorruptedArtifactError, or the error of a manifest that
-- is no JSON.
pub data Outcome {ℓ} (A : Type ℓ) : Type ℓ where
  fetched : A → Outcome A
  not_found : Outcome A
  corrupted : Outcome A
  unreadable : Outcome A

abbrev pub prefix_of : ℕ → String → String
prefix_of zero s = ""
prefix_of (suc n) String.[] = ""
prefix_of (suc n) (String.◌∷◌ c s) = String.◌∷◌ c (prefix_of n s)

abbrev pub is_handle : String → Bool
is_handle h = starts (codes "art_") (codes h)

-- f"art_{sha256[:16]}"
unfoldable pub handle_of : String → String
handle_of sha = join_text "art_" (prefix_of 16 sha)

unfoldable pub find_handle : Dict (Option Manifest) → String → Option String
find_handle [] h = none
find_handle ((name, none) ∷ ms) h = find_handle ms h
find_handle ((name, some m) ∷ ms) h =
    if str_eq (m.artifact_id) h then some (m.sha256) else find_handle ms h

unfoldable pub resolve : Store → String → Option String
unfolding find_handle
resolve s h = if is_handle h then find_handle (s.manifests) h else some h

-- The manifest of a blob that has none.
unfoldable pub orphan : ℕ → String → List ℕ → Manifest
unfolding handle_of
orphan now sha bytes = record {
  artifact_id = handle_of sha;
  sha256 = sha;
  media_type = "application/octet-stream";
  byte_size = length bytes;
  created_at = now;
  producer = "repair(orphan)";
  parents = [];
  privacy = "restricted";
}

abbrev orphan_of : ℕ → String → Option (List ℕ) → Outcome Manifest
orphan_of now sha none = not_found
orphan_of now sha (some bytes) = fetched (orphan now sha bytes)

unfoldable pub meta_at : ℕ → Store → String → Option (Option Manifest) → Outcome Manifest
unfolding orphan get
meta_at now s sha none = orphan_of now sha (get (s.objects) sha)
meta_at now s sha (some none) = unreadable
meta_at now s sha (some (some m)) = fetched m

abbrev meta_of : ℕ → Store → Option String → Outcome Manifest
meta_of now s none = not_found
meta_of now s (some sha) = meta_at now s sha (get (s.manifests) sha)

unfoldable pub get_meta : ℕ → Store → String → Outcome Manifest
unfolding resolve meta_at
get_meta now s h = meta_of now s (resolve s h)

-- NotFoundError and CorruptedArtifactError give False, another error is raised: none.
unfoldable pub exists : ℕ → Store → String → Option Bool
unfolding get_meta
exists now s h = elim (get_meta now s h) [
  | fetched m ↦ some true
  | not_found ↦ some false
  | corrupted ↦ some false
  | unreadable ↦ none
]

-- Drops a blob unless under legal hold; its manifest stays.
unfoldable pub delete_object_if_unreferenced : String → Store → Store × Bool
unfolding remove has
delete_object_if_unreferenced sha s =
    if s.legal_hold
    then (s, false)
    else if has (s.objects) sha
    then (record s { objects = remove (s.objects) sha }, true)
    else (s, false)

unfoldable pub iter_blobs : Dict (List ℕ) → List String
iter_blobs [] = []
iter_blobs ((name, bytes) ∷ d) = name ∷ iter_blobs d

-- What a caller of put gives besides the bytes.
pub record Details : Type 0 where
  pub media_type : String
  pub producer : String
  pub parents : List String
  pub privacy : String

unfoldable pub manifest_of : ℕ → Details → String → List ℕ → Manifest
unfolding handle_of
manifest_of now d sha bytes = record {
  artifact_id = handle_of sha;
  sha256 = sha;
  media_type = d.media_type;
  byte_size = length bytes;
  created_at = now;
  producer = d.producer;
  parents = d.parents;
  privacy = d.privacy;
}

-- b"".join(chunks)
unfoldable pub joined : List (List ℕ) → List ℕ
joined [] = []
joined (c ∷ cs) = c ++ joined cs

module _ (digest : List ℕ → String) where
  unfoldable pub put_blob : List ℕ → Details → ℕ → Store → Store × Outcome Manifest
  unfolding put has get_meta manifest_of
  put_blob bytes d now s =
      let sha = digest bytes in
      let manifest = manifest_of now d sha bytes in
      if has (s.objects) sha then (s, get_meta now s sha) else (
        record s {
          objects = put (s.objects) sha bytes;
          manifests = put (s.manifests) sha (some manifest);
        },
        fetched manifest,
      )

  -- The commit of a writer of put_stream that has been given these pieces.
  unfoldable pub commit_stream : List (List ℕ) → Details → ℕ → Store → Store × Manifest
  unfolding put has joined manifest_of
  commit_stream pieces d now s =
      let bytes = joined pieces in
      let sha = digest bytes in
      let manifest = manifest_of now (record d { privacy = "restricted" }) sha bytes in
      (
        record s {
          objects = if has (s.objects) sha then s.objects else put (s.objects) sha bytes;
          manifests = put (s.manifests) sha (some manifest);
        },
        manifest,
      )

  abbrev checked : String → Option (List ℕ) → Outcome (List ℕ)
  checked sha none = not_found
  checked sha (some bytes) = if str_eq (digest bytes) sha then fetched bytes else corrupted

  abbrev blob_of : Store → Option String → Outcome (List ℕ)
  blob_of s none = not_found
  blob_of s (some sha) = checked sha (get (s.objects) sha)

  unfoldable pub get_blob : Store → String → Outcome (List ℕ)
  unfolding resolve get
  get_blob s h = blob_of s (resolve s h)
