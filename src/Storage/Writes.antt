-- ===== src/Storage/Writes.antt =====
-- What writes and deletions leave of the files.
use knovaryn.Base.{
  ℕ, true, false, not, ◌&&◌, String, str_eq, eq_iff, List, Option, none, some, if◌then◌else◌, ◌≡◌,
  refl, ap, ◌∙◌, arith, Bool-cases, inl, inr,
}
use knovaryn.Dict.{Dict, get, put, has, get-put}
use knovaryn.Dict.{get-remove}
use knovaryn.Storage.{
  Store, fetched, is_handle, resolve, Manifest, exists, get_meta, meta_at, meta_of,
  delete_object_if_unreferenced,
}

-- Writing what is not there yet.
pub get-write :
    (d : Dict (List ℕ)) (k j : String) (bytes : List ℕ)
    → get (if has d k then d else put d k bytes) j
      ≡ (if str_eq k j && not (has d k) then some bytes else get d j)
get-write d k j bytes = elim (Bool-cases (has d k)) [
  | inl e ↦ rw e (ground arith)
  | inr e ↦ rw e (ground (arith, get-put d k j bytes))
]

pub get-delete :
    (sha j : String) (s : Store)
    → get ((delete_object_if_unreferenced sha s).0.objects) j
      ≡ (if not (s.legal_hold) && str_eq sha j then none else get (s.objects) j)
unfolding delete_object_if_unreferenced has
get-delete sha j s = elim (Bool-cases (s.legal_hold)) [
  | inl e ↦ rw e refl
  | inr e ↦ go e (get (s.objects) sha) refl
]
  where
    go :
        s.legal_hold ≡ false
        → (o : Option (List ℕ)) → get (s.objects) sha ≡ o
        → get ((delete_object_if_unreferenced sha s).0.objects) j
          ≡ (if not (s.legal_hold) && str_eq sha j then none else get (s.objects) j)
    go e none g = rw (e, g) (ground (arith, g, eq_iff sha j))
    go e (some b) g = rw (e, g) (get-remove (s.objects) sha j)

pub delete-legal_hold :
    (sha : String) (s : Store) → (delete_object_if_unreferenced sha s).0.legal_hold ≡ s.legal_hold
unfolding delete_object_if_unreferenced
delete-legal_hold sha s = elim (Bool-cases (s.legal_hold)) [
  | inl e ↦ rw e refl
  | inr e ↦ elim (Bool-cases (has (s.objects) sha)) [
    | inl h ↦ rw (e, h) refl
    | inr h ↦ rw (e, h) refl
  ]
]

pub delete-manifests :
    (sha : String) (s : Store) → (delete_object_if_unreferenced sha s).0.manifests ≡ s.manifests
unfolding delete_object_if_unreferenced
delete-manifests sha s = elim (Bool-cases (s.legal_hold)) [
  | inl e ↦ rw e refl
  | inr e ↦ elim (Bool-cases (has (s.objects) sha)) [
    | inl h ↦ rw (e, h) refl
    | inr h ↦ rw (e, h) refl
  ]
]

pub resolve-plain : (s : Store) (h : String) → is_handle h ≡ false → resolve s h ≡ some h
unfolding resolve
resolve-plain s h e = rw e refl

get_meta-manifest :
    (now : ℕ) (s : Store) (h : String) (m : Manifest)
    → is_handle h ≡ false
    → get (s.manifests) h ≡ some (some m)
    → get_meta now s h ≡ fetched m
unfolding get_meta meta_at
get_meta-manifest now s h m e g = ap (meta_of now s) (resolve-plain s h e) ∙ ap (meta_at now s h) g

pub exists-manifest :
    (now : ℕ) (s : Store) (h : String) (m : Manifest)
    → is_handle h ≡ false
    → get (s.manifests) h ≡ some (some m)
    → exists now s h ≡ some true
unfolding exists
exists-manifest now s h m e g = rw (get_meta-manifest now s h m e g, exists) refl
