-- ===== src/Intake/Ingest/Tests.antt =====
-- The intake run on a PDF and on an archive that no zip reader opens, which is stored and then refused.
use knovaryn.Base.{ℕ, ◌≡◌, refl, Bool, true, false, String, List, [], ◌∷◌, Option, none, some}
use knovaryn.Text.{codes, starts, ends, text_eq, lower}
use knovaryn.Storage.{put_blob}
use knovaryn.Intake.Archive.{ZipInfo, split_slash, validate_zip_archive}
use knovaryn.Intake.Ingest.{
  bad_extension, unsafe_archive, ingested, rejected, Upload, Vault, checked_suffix, preflight,
  ingest_bytes,
}

abbrev digest : List ℕ → String
digest bs = "d1"

abbrev types : List ℕ → Option String
types name = none

abbrev scanner : Option (List ℕ → Bool)
scanner = some (λ bs. true)

abbrev zips : List ℕ → Option (List ZipInfo)
zips bs = none

abbrev pdf : Upload
pdf = record {
  name = codes "Report.PDF";
  bytes = codes "%PDF-1.7";
  max_file_bytes = 100;
  verify_archive = true;
  allow_nested_archives = false;
}

abbrev zip : Upload
zip = record pdf { name = codes "data.zip"; bytes = 80 ∷ 75 ∷ 3 ∷ 4 ∷ 9 ∷ [] }

abbrev vault : Vault
vault = record {
  quarantine = [];
  store = record { objects = []; manifests = []; legal_hold = false };
}

taken :
    (ingest_bytes digest types scanner zips "intake" 3 pdf vault).0
    ≡ ingested (record {
      media_type = "application/pdf";
      byte_size = 8;
      sha256 = "d1";
      artifact_id = "art_d1";
    })
unfolding ingest_bytes text_eq ends lower split_slash put_blob starts validate_zip_archive
taken = refl

refused : (ingest_bytes digest types scanner zips "intake" 3 zip vault).0 ≡ rejected unsafe_archive
unfolding ingest_bytes text_eq ends lower split_slash put_blob starts validate_zip_archive
refused = refl

unknown :
    preflight digest types scanner zips "intake" (record pdf { name = codes "a.b/report.dat" })
    ≡ some bad_extension
unfolding preflight text_eq ends lower split_slash
unknown = refl

-- A name without a suffix passes.
bare : checked_suffix (codes "a.b/.profile") ≡ []
unfolding checked_suffix ends lower split_slash
bare = refl
