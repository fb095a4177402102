-- ===== src/Storage/Integrity.antt =====
-- What the store gives back.
use knovaryn.Base.{
  ℕ, true, false, String, eq_iff, eq_refl, List, Option, none, some, if◌then◌else◌, ◌≡◌, ◌↔◌, refl,
  sym, ap, ◌∙◌, arith, Bool-cases, inl, inr,
}
use knovaryn.Dict.{get, put, has}
use knovaryn.Storage.{
  Store, fetched, not_found, Details, is_handle, resolve, get_blob, put_blob, checked, blob_of,
  Manifest, exists, delete_object_if_unreferenced,
}
use knovaryn.Storage.Writes.{get-delete, delete-manifests, resolve-plain, exists-manifest}

module _ (digest : List ℕ → String) where
  pub put_blob-objects :
      (bytes : List ℕ) (d : Details) (now : ℕ) (s : Store)
      → (put_blob digest bytes d now s).0.objects ≡ (
          if has (s.objects) (digest bytes)
          then s.objects
          else put (s.objects) (digest bytes) bytes)
  unfolding put_blob
  put_blob-objects bytes d now s = elim (Bool-cases (has (s.objects) (digest bytes))) [
    | inl e ↦ rw e refl
    | inr e ↦ rw e refl
  ]

  pub put_blob-legal_hold :
      (bytes : List ℕ) (d : Details) (now : ℕ) (s : Store)
      → (put_blob digest bytes d now s).0.legal_hold ≡ s.legal_hold
  unfolding put_blob
  put_blob-legal_hold bytes d now s = elim (Bool-cases (has (s.objects) (digest bytes))) [
    | inl e ↦ rw e refl
    | inr e ↦ rw e refl
  ]

  checked_iff :
      (sha : String) (found : Option (List ℕ)) (bytes : List ℕ)
      → (checked digest sha found ≡ fetched bytes) ↔ ((found ≡ some bytes) × (digest bytes ≡ sha))
  checked_iff sha none bytes = ground arith
  checked_iff sha (some b) bytes = ground (arith, eq_iff (digest b) sha)

  -- A read gives bytes exactly if the handle resolves to their digest and they are stored under it: it
  -- never gives bytes of another digest, whatever the files hold.
  pub get_blob_iff :
      (s : Store) (h : String) (bytes : List ℕ)
      → (get_blob digest s h ≡ fetched bytes)
        ↔ ((resolve s h ≡ some (digest bytes)) × (get (s.objects) (digest bytes) ≡ some bytes))
  unfolding get_blob
  get_blob_iff s h bytes = of_resolved (resolve s h)
    where
      of_resolved :
          (r : Option String)
          → (blob_of digest s r ≡ fetched bytes)
            ↔ ((r ≡ some (digest bytes)) × (get (s.objects) (digest bytes) ≡ some bytes))
      of_resolved none = ((λ e. absurd cc), λ p. absurd (let q = p.0 in cc))
      of_resolved (some sha) =
          let h = checked_iff sha (get (s.objects) sha) bytes in
          (
            (λ e. let p = h.0 e in (ap some (sym p.1), ap (λ k. get (s.objects) k) p.1 ∙ p.0)),
            λ p.
                let same : digest bytes ≡ sha = ground (arith, p) in
                h.1 (ap (λ k. get (s.objects) k) (sym same) ∙ p.1, same),
          )

  -- The digest is hexadecimal, so it is never taken for a handle.
  abbrev pub IsPlain : Type 0
  IsPlain = (bytes : List ℕ) → is_handle (digest bytes) ≡ false

  pub get_blob-plain :
      (s : Store) (h : String)
      → is_handle h ≡ false
      → get_blob digest s h ≡ checked digest h (get (s.objects) h)
  unfolding get_blob
  get_blob-plain s h e = rw (resolve-plain s h e) refl

  -- No other bytes of the digest are stored.
  abbrev pub IsFree : Store → List ℕ → Type 0
  IsFree s bytes = (b : List ℕ) → get (s.objects) (digest bytes) ≡ some b → b ≡ bytes

  -- A deleted blob is not found; its manifest, where it has one that can be read, stays and makes it
  -- exist as before.
  pub delete_lem :
      (plain : IsPlain) (bytes : List ℕ) (now : ℕ) (s : Store)
      → s.legal_hold ≡ false
      → let after : Store = (delete_object_if_unreferenced (digest bytes) s).0 in
        (get_blob digest after (digest bytes) ≡ not_found)
        × ((m : Manifest)
            → get (s.manifests) (digest bytes) ≡ some (some m)
            → exists now after (digest bytes) ≡ some true)
  delete_lem plain bytes now s e =
      let sha : String = digest bytes in
      let after : Store = (delete_object_if_unreferenced sha s).0 in
      let gone : get (after.objects) sha ≡ none = get-delete sha sha s ∙ rw (e, eq_refl sha) refl in
      (
        get_blob-plain after sha (plain bytes) ∙ ap (checked digest sha) gone,
        λ m g.
            exists-manifest now after sha m (plain bytes)
              (ap (λ t. get t sha) (delete-manifests sha s) ∙ g),
      )
