-- ===== src/Intake/Archive.antt =====
-- knovaryn/infrastructure/intake/archive.py: what archives are taken in, and which of their members are
-- read. An archive is given by its directory, none where it is no archive; the ratio of a member's sizes
-- is compared exactly.
mod Tests
pub mod Accepts
use knovaryn.Base.{
  ℕ, ◌+◌, ◌*◌, ltb, ◌==◌, Bool, true, false, not, ◌&&◌, ◌||◌, String, List, [], ◌∷◌, ◌++◌, map,
  filter, any, length, Option, none, some, if◌then◌else◌, get_last?,
}
use knovaryn.Dict.{Dict, put}
use knovaryn.Text.{codes, lower, starts, text_eq}

pub record ZipInfo : Type 0 where
  pub filename : String
  pub file_size : ℕ
  pub compress_size : ℕ
  pub is_dir : Bool

pub record Member : Type 0 where
  pub size : ℕ
  pub compress_size : ℕ
  pub is_dir : Bool

pub data Validated : Type 0 where
  accepted : Dict Member → Validated
  malformed : Validated
  too_many : Validated
  absolute_path : String → Validated
  traversal : String → Validated
  nested : String → Validated
  suspicious : String → Validated
  too_large : Validated

abbrev max_members : ℕ
max_members = 2000

abbrev max_ratio : ℕ
max_ratio = 200

abbrev nested_suffixes : List (List ℕ)
nested_suffixes =
    map codes (".zip" ∷ ".tar" ∷ ".tgz" ∷ ".gz" ∷ ".bz2" ∷ ".xz" ∷ ".7z" ∷ ".rar" ∷ [])

abbrev safe_suffixes : List (List ℕ)
safe_suffixes = map codes (
    ".pdf" ∷ ".docx" ∷ ".pptx" ∷ ".xlsx" ∷ ".html" ∷ ".htm" ∷ ".md" ∷ ".txt" ∷ ".png" ∷ ".jpg"
    ∷ ".jpeg" ∷ ".csv" ∷ ".json" ∷ ".epub" ∷ ".xml" ∷ [])

-- name.replace("\\", "/")
unfoldable pub slashes : List ℕ → List ℕ
slashes s = map (λ c. if c == b'\\' then b'/' else c) s

abbrev put_first : ℕ → List (List ℕ) → List (List ℕ)
put_first c [] = (c ∷ []) ∷ []
put_first c (l ∷ ls) = (c ∷ l) ∷ ls

unfoldable pub split_slash : List ℕ → List (List ℕ)
split_slash [] = [] ∷ []
split_slash (c ∷ s) = let rest = split_slash s in if c == b'/' then [] ∷ rest else put_first c rest

-- The parts of a relative PurePosixPath.
unfoldable pub path_parts : List ℕ → List (List ℕ)
unfolding split_slash
path_parts s = filter (λ p. not (text_eq p [] || text_eq p (codes "."))) (split_slash s)

-- What stands before the last dot, and after it.
unfoldable pub split_dot : List ℕ → Option (List ℕ × List ℕ)
split_dot [] = none
split_dot (c ∷ s) = elim (split_dot s) [
  | some (stem, rest) ↦ some (c ∷ stem, rest)
  | none ↦ if c == b'.' then some ([], s) else none
]

abbrev dotted : Option (List ℕ × List ℕ) → List ℕ
dotted none = []
dotted (some ([], rest)) = []
dotted (some (c ∷ stem, [])) = []
dotted (some (c ∷ stem, d ∷ rest)) = b'.' ∷ d ∷ rest

abbrev suffix_of_name : Option (List ℕ) → List ℕ
unfolding split_dot
suffix_of_name none = []
suffix_of_name (some name) = dotted (split_dot name)

-- PurePosixPath(name).suffix
unfoldable pub suffix_of : List ℕ → List ℕ
unfolding path_parts split_dot
suffix_of s = suffix_of_name (get_last? (path_parts s))

unfoldable pub is_absolute : String → Bool
is_absolute name = starts (codes "/") (codes name) || starts (codes "\\") (codes name)

unfoldable pub climbs : String → Bool
unfolding path_parts slashes
climbs name = any (λ p. text_eq p (codes "..")) (path_parts (slashes (codes name)))

unfoldable pub is_nested : ZipInfo → Bool
unfolding suffix_of
is_nested i =
    not (i.is_dir) && any (λ s. text_eq s (lower (suffix_of (codes (i.filename))))) nested_suffixes

unfoldable pub is_suspicious : ZipInfo → Bool
is_suspicious i =
    ltb 0 (i.file_size)
    && ltb 0 (i.compress_size)
    && ltb (max_ratio * i.compress_size) (i.file_size)

unfoldable pub member_of : ZipInfo → Member
member_of i = record { size = i.file_size; compress_size = i.compress_size; is_dir = i.is_dir }

-- The loop over the members, with the total and the table so far.
unfoldable pub validate_members : ℕ → Bool → List ZipInfo → ℕ → Dict Member → Validated
unfolding is_absolute climbs is_nested is_suspicious member_of put
validate_members limit allow_nested [] total members = accepted members
validate_members limit allow_nested (i ∷ is) total members =
    let rest =
      validate_members limit allow_nested is (total + i.file_size)
        (put members (i.filename) (member_of i)) in
    if is_absolute (i.filename)
    then absolute_path (i.filename)
    else if climbs (i.filename)
    then traversal (i.filename)
    else if not allow_nested && is_nested i
    then nested (i.filename)
    else if is_suspicious i
    then suspicious (i.filename)
    else if ltb limit (total + i.file_size)
    then too_large
    else rest

unfoldable pub validate_zip_archive : ℕ → Bool → Option (List ZipInfo) → Validated
unfolding validate_members
validate_zip_archive limit allow_nested none = malformed
validate_zip_archive limit allow_nested (some infos) =
    if ltb max_members (length infos)
    then too_many
    else validate_members limit allow_nested infos 0 []

unfoldable pub is_supported : ZipInfo → Bool
unfolding suffix_of
is_supported i =
    not (i.is_dir) && any (λ s. text_eq s (lower (suffix_of (codes (i.filename))))) safe_suffixes

-- `read` stands for ZipFile.read, none for a member that is encrypted or corrupt.
unfoldable pub supported_members :
    (ZipInfo → Option (List ℕ)) → List ZipInfo → List (String × List ℕ)
unfolding is_supported
supported_members read [] = []
supported_members read (i ∷ is) =
    let rest = supported_members read is in
    if is_supported i
    then elim (read i) [ none ↦ rest | some bytes ↦ (i.filename, bytes) ∷ rest ]
    else rest

-- None for an archive that is malformed.
unfoldable pub iter_supported_members :
    (ZipInfo → Option (List ℕ)) → Option (List ZipInfo) → Option (List (String × List ℕ))
unfolding supported_members
iter_supported_members read none = none
iter_supported_members read (some infos) = some (supported_members read infos)
