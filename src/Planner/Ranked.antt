-- ===== src/Planner/Ranked.antt =====
-- What sorting and cutting the ranked cells keeps.
use knovaryn.Base.{
  ℕ, zero, suc, ◌+◌, ◌≤◌, List, [], ◌∷◌, ◌≡◌, inl, inr, refl, sym, ◌∙◌, arith, sum_by, take, length,
  All, Bool-cases,
}
use knovaryn.Planner.Apportion.{Ranked, before, insert_ranked, sort_ranked}

-- Sorting keeps what is summed over the cells.
insert-sum :
    (f : Ranked → ℕ) (x : Ranked) (xs : List Ranked)
    → sum_by f (insert_ranked x xs) ≡ f x + sum_by f xs
unfolding insert_ranked
insert-sum f x [] = refl
insert-sum f x (y ∷ ys) = elim (Bool-cases (before x y)) [
  | inl e ↦ rw e refl
  | inr e ↦ rw e (omega (arith, insert-sum f x ys))
]

pub sort-sum : (f : Ranked → ℕ) (xs : List Ranked) → sum_by f (sort_ranked xs) ≡ sum_by f xs
unfolding sort_ranked
sort-sum f [] = refl
sort-sum f (x ∷ xs) = rw (insert-sum f x (sort_ranked xs), sort-sum f xs) refl

length-sum : (xs : List Ranked) → length xs ≡ sum_by (λ r. 1) xs
length-sum [] = refl
length-sum (x ∷ xs) = omega (arith, length-sum xs)

pub length-sort : (xs : List Ranked) → length (sort_ranked xs) ≡ length xs
length-sort xs = length-sum (sort_ranked xs) ∙ sort-sum (λ r. 1) xs ∙ sym (length-sum xs)

insert-All :
    (P : Ranked → Type 0) (x : Ranked) (xs : List Ranked)
    → P x
    → All P xs
    → All P (insert_ranked x xs)
unfolding insert_ranked
insert-All P x [] p h = (p, tt)
insert-All P x (y ∷ ys) p h = elim (Bool-cases (before x y)) [
  | inl e ↦ rw e (p, h)
  | inr e ↦ rw e (h.0, insert-All P x ys p h.1)
]

pub sort-All : (P : Ranked → Type 0) (xs : List Ranked) → All P xs → All P (sort_ranked xs)
unfolding sort_ranked
sort-All P [] h = tt
sort-All P (x ∷ xs) h = insert-All P x (sort_ranked xs) h.0 (sort-All P xs h.1)

pub take-All : (P : Ranked → Type 0) (n : ℕ) (xs : List Ranked) → All P xs → All P (take n xs)
take-All P zero xs h = tt
take-All P (suc n) [] h = tt
take-All P (suc n) (x ∷ xs) h = (h.0, take-All P n xs h.1)

pub take-sum : (f : Ranked → ℕ) (n : ℕ) (xs : List Ranked) → sum_by f (take n xs) ≤ sum_by f xs
take-sum f zero xs = omega arith
take-sum f (suc n) [] = omega arith
take-sum f (suc n) (x ∷ xs) = omega (arith, take-sum f n xs)
