-- ===== src/Export/Verify/Sound.antt =====
-- What a release that verifies has.
use knovaryn.Base.{
  ℕ, Bool, true, not, String, List, [], ◌++◌, Option, none, some, ◌≡◌, inl, inr, refl, arith,
  Bool-cases,
}
use knovaryn.Dict.{Dict, get}
use knovaryn.Export.Verify.{
  ParsedManifest, Problem, detached_mismatch, self_referential, VerificationReport, Verdict,
  reported, integrity_error, key_error, no_errors, require, ok, check_required, manifest_at,
  index_onto, check_listed, check_self, check_entries, check_root, report_with, digests_of,
  base_report, exit_code, verify_entries, detached_matches, on_entries, verify_release,
  run_verify_release,
}
use knovaryn.Export.Verify.Intact.{
  nil_of_append, of_require, IsIntact, of_check_required, of_check_listed, AreNone,
  of_check_entries, of_root_at,
}

abbrev IsAccepted : Verdict → Type 0
IsAccepted (reported r) = ok r ≡ true
IsAccepted integrity_error = ⊥
IsAccepted key_error = ⊥

of_report :
    (r : VerificationReport) (last : List Problem) (o : Option (List Problem × Bool))
    → IsAccepted (report_with r last o)
    → (r.detached_ok ≡ true) × (no_errors (r.errors) ≡ true) × AreNone o × (no_errors last ≡ true)
unfolding report_with ok
of_report r last none a = absurd a
of_report r last (some (ps, good)) a =
    let all_ok = nil_of_append (r.errors ++ ps) last (ground (arith, a)) in
    let rest = nil_of_append (r.errors) ps all_ok.0 in (ground (arith, a), rest.0, rest.1, all_ok.1)

module _ (digest : List ℕ → String) (loads : List ℕ → Option ParsedManifest) where
  -- The manifest of an archive's entries.
  abbrev pub manifest_in : Dict (List ℕ) → ParsedManifest
  manifest_in entries = (manifest_at loads (get entries "manifest.json")).0

  of_verify_entries :
      (detached : Bool) (before : List Problem) (entries : Dict (List ℕ))
      → IsAccepted (verify_entries digest loads detached before entries)
      → (detached ≡ true) × IsIntact digest entries (manifest_in entries)
  unfolding verify_entries base_report check_root check_self
  of_verify_entries detached before entries a =
      let found : ParsedManifest × List Problem = manifest_at loads (get entries "manifest.json") in
      let m : ParsedManifest = manifest_in entries in
      let entry_errors : List Problem = check_entries digest (index_onto [] (m.files)) entries in
      let so_far : List Problem =
        before
        ++ check_required entries
        ++ found.1
        ++ entry_errors
        ++ check_listed entries (m.files) in
      let all_ok =
        of_report (base_report digest detached so_far (no_errors found.1) entries) (check_self m)
          (check_root digest m (digests_of digest entries)) a in
      let p1 =
        nil_of_append (before ++ check_required entries ++ found.1 ++ entry_errors)
          (check_listed entries (m.files)) all_ok.1 in
      let p2 = nil_of_append (before ++ check_required entries ++ found.1) entry_errors p1.0 in
      let p3 = nil_of_append (before ++ check_required entries) found.1 p2.0 in
      let p4 = nil_of_append before (check_required entries) p3.0 in
      (
        all_ok.0,
        record {
          required = of_check_required entries p4.1;
          files_match = of_check_entries digest (index_onto [] (m.files)) entries p2.1;
          listed = of_check_listed entries (m.files) p1.1;
          root = of_root_at digest m (digests_of digest entries) (m.content_root_sha256) all_ok.2;
          not_self_referential =
              ground (arith, of_require (not (m.has_bundle_sha256)) self_referential all_ok.3);
        },
      )

accepted : (v : Verdict) → exit_code v ≡ some 0 → IsAccepted v
unfolding exit_code
accepted integrity_error e = absurd cc
accepted key_error e = absurd cc
accepted (reported r) e = elim (Bool-cases (ok r)) [
  | inl q ↦ q
  | inr q ↦ absurd (let k : some 1 ≡ some 0 = (rw q at e) in cc)
]

module _ {ℓ} {Zip : Type ℓ} (digest : List ℕ → String) (digest_zip : Zip → String)
    (read_zip : Zip → Option (Dict (List ℕ))) (loads : List ℕ → Option ParsedManifest) where
  -- A release whose verification exits with 0 has the digest that its detached checksum lists, and its
  -- archive can be read: every required file is there, every file that the manifest lists is there with
  -- the size and the digest of its record, the content root is the digest of the listed digests, and the
  -- manifest has no digest of the archive.
  pub run_verify_release_sound :
      (zip : Zip) (checksum : List ℕ)
      → run_verify_release digest digest_zip read_zip loads (some zip) (some checksum) ≡ some 0
      → (detached_matches digest digest_zip read_zip loads zip checksum ≡ true)
        × (entries : Dict (List ℕ)) × (read_zip zip ≡ some entries)
        × IsIntact digest entries (manifest_in digest loads entries)
  unfolding run_verify_release verify_release
  run_verify_release_sound zip checksum e =
      let a =
        accepted (verify_release digest digest_zip read_zip loads (some zip) (some checksum)) e in
      go (read_zip zip) refl a
    where
      matches : Bool
      matches = detached_matches digest digest_zip read_zip loads zip checksum

      go :
          (o : Option (Dict (List ℕ)))
          → read_zip zip ≡ o
          → IsAccepted (on_entries digest digest_zip read_zip loads matches o)
          → (matches ≡ true)
            × (entries : Dict (List ℕ)) × (read_zip zip ≡ some entries)
            × IsIntact digest entries (manifest_in digest loads entries)
      go none g k = absurd k
      go (some entries) g k =
          let h =
            of_verify_entries digest loads matches (require matches detached_mismatch) entries k in
          (h.0, entries, g, h.1)
