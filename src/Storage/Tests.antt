-- ===== src/Storage/Tests.antt =====
-- A store that is written, read, spoilt and emptied.
use knovaryn.Base.{
  ℕ, true, false, ◌≡◌, ◌↔◌, refl, String, eq_iff, List, [], ◌∷◌, some, ◌==◌, if◌then◌else◌, inl,
  inr, Bool-cases,
}
use mathlib.Core.List.Memᴰ
use knovaryn.Dict.{get, put, has}
use knovaryn.Text.{text_eq, starts}
use knovaryn.Storage.{
  Store, Details, Manifest, fetched, not_found, corrupted, get_blob, put_blob, joined, exists,
  delete_object_if_unreferenced, resolve, handle_of, find_handle,
}
use knovaryn.Storage.Integrity.{IsPlain, get_blob_iff, delete_lem}
use knovaryn.Storage.Refine.{
  Request, stores, streams, deletes, execute_all, content_of, spec, spec_step, execute_all-refines,
}

abbrev toy_digest : List ℕ → String
toy_digest [] = "00"
toy_digest (n ∷ ns) = if n == 1 then "a1" else "b2"

toy-IsPlain : IsPlain toy_digest
unfolding starts
toy-IsPlain [] = refl
toy-IsPlain (n ∷ ns) = elim (Bool-cases (n == 1)) [ inl e ↦ rw e refl | inr e ↦ rw e refl ]

abbrev details : Details
details = record {
  media_type = "text/plain";
  producer = "test";
  parents = [];
  privacy = "restricted";
}

abbrev empty : Store
empty = record { objects = []; manifests = []; legal_hold = false }

abbrev one : List ℕ
one = 1 ∷ 7 ∷ []

abbrev filled : Store
unfolding put_blob
filled = (put_blob toy_digest one details 5 empty).0

by_handle : get_blob toy_digest filled "art_a1" ≡ fetched one
unfolding put_blob get_blob resolve handle_of has get put starts find_handle
by_handle = refl

spoilt : get_blob toy_digest (record filled { objects = ("a1", 9 ∷ []) ∷ [] }) "a1" ≡ corrupted
unfolding put_blob get_blob resolve has get put starts
spoilt = refl

get_blob_iff_example :
    (get_blob toy_digest filled "a1" ≡ fetched one)
    ↔ ((resolve filled "a1" ≡ some "a1") × (get (filled.objects) "a1" ≡ some one))
get_blob_iff_example = get_blob_iff toy_digest filled "a1" one

delete_lem_example :
    let after : Store = (delete_object_if_unreferenced "a1" filled).0 in
    (get_blob toy_digest after "a1" ≡ not_found)
    × ((m : Manifest)
        → get (filled.manifests) "a1" ≡ some (some m)
        → exists 9 after "a1" ≡ some true)
unfolding put_blob has get
delete_lem_example = delete_lem toy_digest toy-IsPlain one 9 filled refl

abbrev requests : List Request
requests =
    stores one details 1 ∷ streams ([] ∷ []) details 2 ∷ deletes "00" ∷ stores one details 3 ∷ []

execute_all-refines_example :
    get_blob toy_digest
      (execute_all toy_digest requests
        (record { objects = []; manifests = []; legal_hold = false }))
      "a1"
    ≡ (if spec toy_digest false requests (λ y. false) one then fetched one else not_found)
unfolding joined content_of
execute_all-refines_example =
    execute_all-refines toy_digest toy-IsPlain (one ∷ [] ∷ [])
      (
        (λ e. refl, (λ e. absurd (let t : false ≡ true = (eq_iff "a1" "00").1 e in cc), tt)),
        ((λ e. absurd (let t : false ≡ true = (eq_iff "00" "a1").1 e in cc), (λ e. refl, tt)), tt),
      )
      false requests one
      ((Memᴰ.head refl, tt), ((Memᴰ.tail (Memᴰ.head refl), tt), (tt, ((Memᴰ.head refl, tt), tt))))
      (Memᴰ.head refl)

kept : spec toy_digest false requests (λ y. false) one ≡ true
unfolding spec spec_step text_eq joined
kept = refl
