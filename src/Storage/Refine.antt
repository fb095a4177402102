-- ===== src/Storage/Refine.antt =====
-- The store against its specification: a set of contents, to which a write adds its own and from
-- which a delete takes those of its digest.
use knovaryn.Base.{
  ℕ, Bool, true, false, not, ◌&&◌, ◌||◌, String, str_eq, eq_iff, eq_refl, List, [], ◌∷◌, none, some,
  if◌then◌else◌, ◌≡◌, refl, ap, ◌∙◌, subst, arith, Bool-cases, is_some, inl, inr, All, All-Memᴰ,
}
use mathlib.Core.List.{Memᴰ}
use knovaryn.Dict.{get, put, has}
use knovaryn.Text.Equal.{text_eq_self, eq_of_text_eq}
use knovaryn.Text.{text_eq}
use knovaryn.Storage.{
  Store, fetched, not_found, Details, get_blob, put_blob, joined, commit_stream, checked,
  delete_object_if_unreferenced,
}
use knovaryn.Storage.Writes.{get-write, delete-legal_hold, get-delete}
use knovaryn.Storage.Integrity.{put_blob-objects, put_blob-legal_hold, IsPlain, get_blob-plain}

-- The calls that change the store.
pub data Request : Type 0 where
  stores : List ℕ → Details → ℕ → Request
  streams : List (List ℕ) → Details → ℕ → Request
  deletes : String → Request

-- What a request writes.
unfoldable pub content_of : Request → List (List ℕ)
content_of (stores b d now) = b ∷ []
content_of (streams ps d now) = joined ps ∷ []
content_of (deletes sha) = []

unfoldable pub execute : (List ℕ → String) → Request → Store → Store
execute digest (stores b d now) s = (put_blob digest b d now s).0
execute digest (streams ps d now) s = (commit_stream digest ps d now s).0
execute digest (deletes sha) s = (delete_object_if_unreferenced sha s).0

unfoldable pub execute_all : (List ℕ → String) → List Request → Store → Store
unfolding execute
execute_all digest [] s = s
execute_all digest (r ∷ rs) s = execute_all digest rs (execute digest r s)

-- The specification.
unfoldable pub spec_step : (List ℕ → String) → Bool → Request → (List ℕ → Bool) → List ℕ → Bool
spec_step digest hold (stores b d now) c x = text_eq b x || c x
spec_step digest hold (streams ps d now) c x = text_eq (joined ps) x || c x
spec_step digest hold (deletes sha) c x = c x && (hold || not (str_eq sha (digest x)))

unfoldable pub spec : (List ℕ → String) → Bool → List Request → (List ℕ → Bool) → List ℕ → Bool
unfolding spec_step
spec digest hold [] c = c
spec digest hold (r ∷ rs) c = spec digest hold rs (spec_step digest hold r c)

-- No two of the contents have one digest.
abbrev pub IsCollisionFree : (List ℕ → String) → List (List ℕ) → Type 0
IsCollisionFree digest us = All (λ a. All (λ b. digest a ≡ digest b → a ≡ b) us) us

module _ (digest : List ℕ → String) (plain : IsPlain digest) (us : List (List ℕ))
    (free : IsCollisionFree digest us) where
  -- The store holds, of these contents, those of the set.
  Holds : Store → (List ℕ → Bool) → Type 0
  Holds s c = (u : List ℕ) → Memᴰ u us → get (s.objects) (digest u) ≡ (if c u then some u else none)

  same_content : (a b : List ℕ) → Memᴰ a us → Memᴰ b us → digest a ≡ digest b → a ≡ b
  same_content a b ma mb e =
      All-Memᴰ (λ y. digest a ≡ digest y → a ≡ y) us
        (All-Memᴰ (λ x. All (λ y. digest x ≡ digest y → x ≡ y) us) us free ma) mb e

  write-Holds :
      (s : Store) (c : List ℕ → Bool) (b u : List ℕ)
      → Memᴰ b us
      → Memᴰ u us
      → Holds s c
      → get
          (if has (s.objects) (digest b) then s.objects else put (s.objects) (digest b) b)
          (digest u)
        ≡ (if text_eq b u || c u then some u else none)
  unfolding Holds has
  write-Holds s c b u mb mu h =
      get-write (s.objects) (digest b) (digest u) b ∙ go (text_eq b u) refl
    where
      present :
          (k : Bool)
          → get (s.objects) (digest b) ≡ (if k then some b else none)
          → (if str_eq (digest b) (digest b) && not (is_some (get (s.objects) (digest b)))
              then some b
              else get (s.objects) (digest b))
            ≡ some b
      present true g = rw (g, eq_refl (digest b)) refl
      present false g = rw (g, eq_refl (digest b)) refl

      go :
          (t : Bool)
          → text_eq b u ≡ t
          → (if str_eq (digest b) (digest u) && not (has (s.objects) (digest b))
              then some b
              else get (s.objects) (digest u))
            ≡ (if t || c u then some u else none)
      go true e =
          subst
            (λ w.
              (if str_eq (digest b) (digest w) && not (is_some (get (s.objects) (digest b)))
                then some b
                else get (s.objects) (digest w))
              ≡ some w)
            (eq_of_text_eq b u e) (present (c b) (h b mb))
      go false e =
          let apart : str_eq (digest b) (digest u) ≡ false =
            elim (Bool-cases (str_eq (digest b) (digest u))) [
              | inl q ↦
                  let same =
                    same_content b u mb mu (ground (arith, q, eq_iff (digest b) (digest u))) in
                  absurd (
                    let t : text_eq b u ≡ true =
                      subst (λ w. text_eq b w ≡ true) same (text_eq_self b) in
                    cc)
              | inr q ↦ q
            ] in
          rw apart (h u mu)

  abbrev pub AllIn : List Request → Type 0
  AllIn rs = All (λ r. All (λ b. Memᴰ b us) (content_of r)) rs

  execute-Holds :
      (r : Request) (s : Store) (c : List ℕ → Bool) (hold : Bool)
      → s.legal_hold ≡ hold
      → All (λ b. Memᴰ b us) (content_of r)
      → Holds s c
      → Holds (execute digest r s) (spec_step digest hold r c)
  unfolding Holds execute spec_step content_of commit_stream
  execute-Holds (stores b d now) s c hold e m h u mu =
      ap (λ o. get o (digest u)) (put_blob-objects digest b d now s) ∙ write-Holds s c b u m.0 mu h
  execute-Holds (streams ps d now) s c hold e m h u mu = write-Holds s c (joined ps) u m.0 mu h
  execute-Holds (deletes sha) s c hold e m h u mu =
      get-delete sha (digest u) s ∙ dropped (s.legal_hold) (str_eq sha (digest u)) (c u) e (h u mu)
    where
      dropped :
          (l q k : Bool)
          → l ≡ hold
          → get (s.objects) (digest u) ≡ (if k then some u else none)
          → (if not l && q then none else get (s.objects) (digest u))
            ≡ (if k && (hold || not q) then some u else none)
      dropped l q k e g = ground (arith, e, g)

  execute-hold : (r : Request) (s : Store) → (execute digest r s).legal_hold ≡ s.legal_hold
  unfolding execute commit_stream
  execute-hold (stores b d now) s = put_blob-legal_hold digest b d now s
  execute-hold (streams ps d now) s = refl
  execute-hold (deletes sha) s = delete-legal_hold sha s

  execute_all-Holds :
      (rs : List Request) (s : Store) (c : List ℕ → Bool) (hold : Bool)
      → s.legal_hold ≡ hold
      → AllIn rs
      → Holds s c
      → Holds (execute_all digest rs s) (spec digest hold rs c)
  unfolding execute_all spec
  execute_all-Holds [] s c hold e m h = h
  execute_all-Holds (r ∷ rs) s c hold e m h =
      execute_all-Holds rs (execute digest r s) (spec_step digest hold r c) hold
        (execute-hold r s ∙ e) m.1 (execute-Holds r s c hold e m.0 h)

  -- After any requests to an empty store, a read by the digest of a content gives exactly that content
  -- if it is in the set that the specification computes, and is not found otherwise, where the digests
  -- of the contents at hand are hexadecimal and without collisions.
  pub execute_all-refines :
      (hold : Bool) (rs : List Request) (x : List ℕ)
      → AllIn rs
      → Memᴰ x us
      → get_blob digest
          (execute_all digest rs (record { objects = []; manifests = []; legal_hold = hold }))
          (digest x)
        ≡ (if spec digest hold rs (λ y. false) x then fetched x else not_found)
  unfolding Holds get
  execute_all-refines hold rs x m mx =
      let s : Store =
        execute_all digest rs (record { objects = []; manifests = []; legal_hold = hold }) in
      let h =
        execute_all-Holds rs (record { objects = []; manifests = []; legal_hold = hold })
          (λ y. false) hold refl m (λ u mu. refl) x mx in
      get_blob-plain digest s (digest x) (plain x)
      ∙ ap (checked digest (digest x)) h
      ∙ outcome (spec digest hold rs (λ y. false) x)
    where
      outcome :
          (k : Bool)
          → checked digest (digest x) (if k then some x else none)
            ≡ (if k then fetched x else not_found)
      outcome true = rw (eq_refl (digest x)) refl
      outcome false = refl
