-- ===== src/Chunk/Located.antt =====
-- The pages of a chunk.
use knovaryn.Base.{ℕ, ◌<◌, ltb, ◌==◌, ◌||◌, List, [], ◌∷◌, ◌≡◌, refl, ◌∙◌, arith, any, any-append}
use knovaryn.Chunk.{ChunkUnit}
use knovaryn.Chunk.Units.{insert_new, sorted_set}
use knovaryn.Chunk.Context.{merge_locations, concat_by}
use knovaryn.Jobs.Sequence.{Ascends}

-- Strictly ascending.
abbrev pub IsAscending : List ℕ → Type 0
IsAscending [] = Unit
IsAscending (n ∷ ns) = Ascends (λ m. m) n ns

insert-Ascends :
    (b n : ℕ) (ns : List ℕ)
    → b < n
    → Ascends (λ m. m) b ns
    → Ascends (λ m. m) b (insert_new ltb n ns)
unfolding insert_new
insert-Ascends b n [] l h = (l, tt)
insert-Ascends b n (m ∷ ms) l h = ground (arith, insert-Ascends m n ms)

insert-IsAscending : (n : ℕ) (ns : List ℕ) → IsAscending ns → IsAscending (insert_new ltb n ns)
unfolding insert_new
insert-IsAscending n [] h = tt
insert-IsAscending n (m ∷ ms) h = ground (arith, insert-Ascends m n ms)

sorted_set-IsAscending : (ns : List ℕ) → IsAscending (sorted_set ltb ns)
unfolding sorted_set
sorted_set-IsAscending [] = tt
sorted_set-IsAscending (n ∷ ns) =
    insert-IsAscending n (sorted_set ltb ns) (sorted_set-IsAscending ns)

any-insert_new :
    (p n : ℕ) (ns : List ℕ)
    → any (λ q. q == p) (insert_new ltb n ns) ≡ (n == p || any (λ q. q == p) ns)
unfolding insert_new
any-insert_new p n [] = refl
any-insert_new p n (m ∷ ms) = ground (arith, any-insert_new p n ms)

any-sorted_set :
    (p : ℕ) (ns : List ℕ) → any (λ q. q == p) (sorted_set ltb ns) ≡ any (λ q. q == p) ns
unfolding sorted_set
any-sorted_set p [] = refl
any-sorted_set p (n ∷ ns) = rw (any-insert_new p n (sorted_set ltb ns), any-sorted_set p ns) refl

any-concat_by :
    (p : ℕ) (us : List ChunkUnit)
    → any (λ q. q == p) (concat_by (λ u. u.location.pages) us)
      ≡ any (λ u. any (λ q. q == p) (u.location.pages)) us
unfolding concat_by
any-concat_by p [] = refl
any-concat_by p (u ∷ us) =
    rw
      (
        any-append (λ q. q == p) (u.location.pages) (concat_by (λ v. v.location.pages) us),
        any-concat_by p us,
      )
      refl

-- The pages of a chunk are in strictly ascending order, and a page is among them exactly if it is
-- among those of one of the chunk's units.
pub merge_locations-pages :
    (us : List ChunkUnit)
    → IsAscending ((merge_locations us).pages)
      × ((p : ℕ)
          → any (λ q. q == p) ((merge_locations us).pages)
            ≡ any (λ u. any (λ q. q == p) (u.location.pages)) us)
unfolding merge_locations
merge_locations-pages us =
    let all_pages : List ℕ = concat_by (λ u. u.location.pages) us in
    (sorted_set-IsAscending all_pages, λ p. any-sorted_set p all_pages ∙ any-concat_by p us)
