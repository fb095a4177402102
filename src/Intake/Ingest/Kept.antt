-- ===== src/Intake/Ingest/Kept.antt =====
-- What is so of a file that has been taken in, and of one that is refused.
use knovaryn.Base.{
  ℕ, ◌≤◌, ◌≡◌, ◌⊎◌, Bool, true, false, String, List, is_empty, length, Option, some,
}
use knovaryn.Dict.{has}
use knovaryn.Storage.{fetched, get_blob}
use knovaryn.Intake.Archive.{ZipInfo, validate_zip_archive}
use knovaryn.Intake.Ingest.{
  Source, Upload, Vault, checked_suffix, listed_in, allowed_suffixes, disallowed_suffixes,
  is_verified,
}

module _ (digest : List ℕ → String) (guess_type : List ℕ → Option String)
    (scan : Option (List ℕ → Bool)) (open_zip : List ℕ → Option (List ZipInfo))
    (producer : String) where
  pub record IsFit (u : Upload) : Type 0 where
    pub some_bytes : 1 ≤ length (u.bytes)
    pub within : length (u.bytes) ≤ u.max_file_bytes
    pub not_disallowed : listed_in (checked_suffix (u.name)) disallowed_suffixes ≡ false
    pub allowed :
        (is_empty (checked_suffix (u.name)) ≡ true)
        ⊎ (listed_in (checked_suffix (u.name)) allowed_suffixes ≡ true)
    pub scanned : (clean : List ℕ → Bool) → scan ≡ some clean → clean (u.bytes) ≡ true

  -- The bytes are under quarantine, and the store gives them back by their digest.
  abbrev pub IsStored : Upload → Vault → Type 0
  IsStored u v =
      (has (v.quarantine) (digest (u.bytes)) ≡ true)
      × (get_blob digest (v.store) (digest (u.bytes)) ≡ fetched (u.bytes))

  -- The record of the file is true to it, and if it is an archive that had to be verified, it is accepted.
  pub record IsTrue (u : Upload) (src : Source) : Type 0 where
    pub size : src.byte_size ≡ length (u.bytes)
    pub digested : src.sha256 ≡ digest (u.bytes)
    pub archive :
        u.verify_archive ≡ true
        → src.media_type ≡ "application/zip"
        → is_verified digest guess_type scan open_zip producer
            (validate_zip_archive (u.max_file_bytes) (u.allow_nested_archives) (open_zip (u.bytes)))
          ≡ true
