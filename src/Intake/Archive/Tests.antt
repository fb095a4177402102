-- ===== src/Intake/Archive/Tests.antt =====
-- An archive of two members, and names that are refused.
use knovaryn.Base.{ℕ, ◌≤◌, ◌≡◌, ◌↔◌, refl, false, String, List, [], ◌∷◌, some, length, All}
use knovaryn.Text.{starts, text_eq, lower}
use knovaryn.Intake.Archive.{
  ZipInfo, accepted, traversal, nested, suspicious, max_members, validate_zip_archive,
  iter_supported_members,
}
use knovaryn.Intake.Archive.Accepts.{IsSafe, table_onto, total_size, validate_zip_archive_iff}

abbrev file : String → ℕ → ℕ → ZipInfo
file name size packed = record {
  filename = name;
  file_size = size;
  compress_size = packed;
  is_dir = false;
}

abbrev infos : List ZipInfo
infos = file "a/b.txt" 100 50 ∷ file "c.pdf" 300 20 ∷ []

validate_zip_archive_iff_example :
    (validate_zip_archive 500 false (some infos) ≡ accepted (table_onto [] infos)) ↔ (
      (is : List ZipInfo) × (some infos ≡ some is)
      × (length is ≤ max_members)
      × All (IsSafe false) is
      × (total_size is ≤ 500)
      × (table_onto [] is ≡ table_onto [] infos))
validate_zip_archive_iff_example =
    validate_zip_archive_iff 500 false (some infos) (table_onto [] infos)

climbing :
    validate_zip_archive 500 false (some (file "a\\..\\b.txt" 1 1 ∷ [])) ≡ traversal "a\\..\\b.txt"
unfolding validate_zip_archive starts text_eq
climbing = refl

zipped : validate_zip_archive 500 false (some (file "x/inner.ZIP" 1 1 ∷ [])) ≡ nested "x/inner.ZIP"
unfolding validate_zip_archive starts text_eq lower
zipped = refl

bomb : validate_zip_archive 500 false (some (file "a.txt" 401 2 ∷ [])) ≡ suspicious "a.txt"
unfolding validate_zip_archive starts text_eq lower
bomb = refl

supported :
    iter_supported_members (λ i. some []) (some (file "a.TXT" 1 1 ∷ file "b.exe" 1 1 ∷ []))
    ≡ some (("a.TXT", []) ∷ [])
unfolding iter_supported_members text_eq lower
supported = refl
