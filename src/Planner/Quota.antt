-- ===== src/Planner/Quota.antt =====
-- The apportionment gives out the whole total, and to each weight its floor or one more.
use knovaryn.Base.{
  ℕ, zero, suc, ◌+◌, ◌-◌, ◌*◌, ◌%◌, ◌≤◌, ◌<◌, ◌==◌, List, [], ◌∷◌, ◌≡◌, ◌⊎◌, inl, inr, refl, sym,
  ap, ◌∙◌, arith, if◌then◌else◌, sum_by, take, length, length-take, Option, some, none, get_elem?,
  All, Bool-cases,
}
use native.Mathlib.Omega.{div_any}
use native.Mathlib.Nat.{le_of_mul-le-mul_left, mul-sub}
use knovaryn.Planner.Apportion.{
  Ranked, floor_of, sort_ranked, ranked_from, bump, bump_all, floors_of, apportion,
}
use knovaryn.Planner.Ranked.{sort-sum, length-sort, sort-All, take-All, take-sum}

unfoldable pub total_of : List ℕ → ℕ
total_of cs = sum_by (λ c. c) cs

-- What bumping does to a list of counts.
pub length-bump : (i : ℕ) (cs : List ℕ) → length (bump i cs) ≡ length cs
unfolding bump
length-bump i [] = refl
length-bump zero (c ∷ cs) = refl
length-bump (suc i) (c ∷ cs) = omega (arith, length-bump i cs)

bump-sum : (i : ℕ) (cs : List ℕ) → i < length cs → total_of (bump i cs) ≡ suc (total_of cs)
unfolding bump total_of
bump-sum i [] h = absurd (omega arith)
bump-sum zero (c ∷ cs) h = omega arith
bump-sum (suc i) (c ∷ cs) h = omega (arith, bump-sum i cs (omega arith))

bump_all-sum :
    (rs : List Ranked) (cs : List ℕ)
    → All (λ r. r.index < length cs) rs
    → total_of (bump_all rs cs) ≡ total_of cs + length rs
unfolding bump_all
bump_all-sum [] cs h = omega arith
bump_all-sum (r ∷ rs) cs h = omega (
  arith,
  bump_all-sum rs (bump (r.index) cs) (rw (length-bump (r.index) cs) h.1),
  bump-sum (r.index) cs h.0,
)

hits : ℕ → List Ranked → ℕ
hits i rs = sum_by (λ r. if r.index == i then 1 else 0) rs

-- The count at an index, plus a number.
at_plus : List ℕ → ℕ → ℕ → Option ℕ
at_plus [] i n = none
at_plus (c ∷ cs) zero n = some (c + n)
at_plus (c ∷ cs) (suc i) n = at_plus cs i n

at_plus-bump :
    (i j n : ℕ) (cs : List ℕ)
    → at_plus (bump j cs) i n ≡ at_plus cs i ((if j == i then 1 else 0) + n)
unfolding bump at_plus
at_plus-bump i j n [] = refl
at_plus-bump zero zero n (c ∷ cs) = ap some (omega arith)
at_plus-bump (suc i) zero n (c ∷ cs) = ap (at_plus cs i) (ground arith)
at_plus-bump zero (suc j) n (c ∷ cs) = ground arith
at_plus-bump (suc i) (suc j) n (c ∷ cs) = at_plus-bump i j n cs ∙ ap (at_plus cs i) (ground arith)

at_plus-zero : (i : ℕ) (cs : List ℕ) → at_plus cs i 0 ≡ get_elem? cs i
unfolding at_plus
at_plus-zero i [] = refl
at_plus-zero zero (c ∷ cs) = ap some (omega arith)
at_plus-zero (suc i) (c ∷ cs) = at_plus-zero i cs

bump_all-hits :
    (i n : ℕ) (rs : List Ranked) (cs : List ℕ)
    → at_plus (bump_all rs cs) i n ≡ at_plus cs i (hits i rs + n)
unfolding bump_all hits
bump_all-hits i n [] cs = ap (at_plus cs i) (omega arith)
bump_all-hits i n (r ∷ rs) cs =
    bump_all-hits i n rs (bump (r.index) cs)
    ∙ at_plus-bump i (r.index) (hits i rs + n) cs
    ∙ ap (at_plus cs i) (omega arith)

-- Each index is ranked once.
hits-below : (i total sum j : ℕ) (ws : List ℕ) → i < j → hits i (ranked_from total sum j ws) ≡ 0
unfolding hits ranked_from
hits-below i total sum j [] l = refl
hits-below i total sum j (w ∷ ws) l =
    ground (arith, hits-below i total sum (suc j) ws (omega arith))

hits-le : (i total sum j : ℕ) (ws : List ℕ) → hits i (ranked_from total sum j ws) ≤ 1
unfolding hits ranked_from
hits-le i total sum j [] = omega arith
hits-le i total sum j (w ∷ ws) = elim (Bool-cases (j == i)) [
  | inl e ↦ ground (arith, e, hits-below i total sum (suc j) ws)
  | inr e ↦ ground (arith, e, hits-le i total sum (suc j) ws)
]

ranked-index :
    (total sum j n : ℕ) (ws : List ℕ)
    → j + length ws ≤ n
    → All (λ r. r.index < n) (ranked_from total sum j ws)
unfolding ranked_from
ranked-index total sum j n [] l = tt
ranked-index total sum j n (w ∷ ws) l =
    (omega arith, ranked-index total sum (suc j) n ws (omega arith))

length-ranked : (total sum j : ℕ) (ws : List ℕ) → length (ranked_from total sum j ws) ≡ length ws
unfolding ranked_from
length-ranked total sum j [] = refl
length-ranked total sum j (w ∷ ws) = omega (arith, length-ranked total sum (suc j) ws)

remainders : ℕ → ℕ → List ℕ → ℕ
remainders total sum ws = sum_by (λ w. total * w % sum) ws

-- The floors and the remainders make up the total.
floors-remainders :
    (total sum : ℕ) (ws : List ℕ)
    → sum * total_of (floors_of total sum ws) + remainders total sum ws ≡ total * total_of ws
unfolding floors_of remainders total_of floor_of
floors-remainders total sum [] = omega arith
floors-remainders total sum (w ∷ ws) =
    let rest = floors-remainders total sum ws in omega (arith, rest, div_any (total * w) sum)

remainders-lt :
    (total sum : ℕ) (ws : List ℕ) → 0 < sum → remainders total sum ws + length ws ≤ sum * length ws
unfolding remainders
remainders-lt total sum [] l = omega arith
remainders-lt total sum (w ∷ ws) l = let rest = remainders-lt total sum ws l in omega (arith, rest)

-- The units left over are fewer than the weights.
leftover-le :
    (total sum : ℕ) (ws : List ℕ)
    → total_of ws ≡ sum
    → 0 < sum
    → (total_of (floors_of total sum ws) ≤ total)
      × (total - total_of (floors_of total sum ws) ≤ length ws)
leftover-le total sum ws e l =
    let f : ℕ = total_of (floors_of total sum ws) in
    let floors = floors-remainders total sum ws in
    let bound = remainders-lt total sum ws l in
    let split : sum * f + remainders total sum ws ≡ sum * total =
      floors ∙ ap (λ t. total * t) e ∙ omega arith in
    let below : f ≤ total =
      le_of_mul-le-mul_left {m = f} {n = total} {k = sum} (omega (arith, split)) l in
    let rest : sum * (total - f) ≤ sum * length ws =
      let k = mul-sub sum total f in omega (arith, split, bound, k) in
    (below, le_of_mul-le-mul_left {m = total - f} {n = length ws} {k = sum} rest l)

pub length-floors : (total sum : ℕ) (ws : List ℕ) → length (floors_of total sum ws) ≡ length ws
unfolding floors_of
length-floors total sum [] = refl
length-floors total sum (w ∷ ws) = omega (arith, length-floors total sum ws)

-- The counts of the cells add up to the total.
pub apportion-total :
    (total : ℕ) (ws : List ℕ) → 0 < total_of ws → total_of (apportion total ws) ≡ total
unfolding apportion total_of
apportion-total total ws l =
    let sum : ℕ = total_of ws in
    let floors : List ℕ = floors_of total sum ws in
    let left : ℕ = total - total_of floors in
    let ranked : List Ranked = ranked_from total sum 0 ws in
    let order : List Ranked = sort_ranked ranked in
    let bounds = leftover-le total sum ws refl l in
    let known : length order ≡ length ws = length-sort ranked ∙ length-ranked total sum 0 ws in
    let valid : All (λ r. r.index < length floors) (take left order) =
      take-All (λ r. r.index < length floors) left order
        (sort-All (λ r. r.index < length floors) ranked
          (ranked-index total sum 0 (length floors) ws
            (omega (arith, length-floors total sum ws)))) in
    omega
      (arith, bump_all-sum (take left order) floors valid, length-take left order, known, bounds)

floor-at :
    (total sum i n w : ℕ) (ws : List ℕ)
    → get_elem? ws i ≡ some w
    → at_plus (floors_of total sum ws) i n ≡ some (floor_of total sum w + n)
unfolding at_plus floors_of
floor-at total sum i n w [] e = absurd cc
floor-at total sum zero n w (v ∷ ws) e = ap (λ x. some (floor_of total sum x + n)) cc
floor-at total sum (suc i) n w (v ∷ ws) e = floor-at total sum i n w ws e

-- Each cell's count is its exact share rounded down, or one more.
pub apportion-quota :
    (total : ℕ) (ws : List ℕ) (i w c : ℕ)
    → get_elem? ws i ≡ some w
    → get_elem? (apportion total ws) i ≡ some c
    → (c ≡ floor_of total (total_of ws) w) ⊎ (c ≡ suc (floor_of total (total_of ws) w))
unfolding apportion total_of hits
apportion-quota total ws i w c e g =
    let sum : ℕ = total_of ws in
    let floors : List ℕ = floors_of total sum ws in
    let left : ℕ = total - total_of floors in
    let ranked : List Ranked = ranked_from total sum 0 ws in
    let chosen : List Ranked = take left (sort_ranked ranked) in
    let once : hits i chosen ≤ 1 = omega (
      arith,
      take-sum (λ r. if r.index == i then 1 else 0) left (sort_ranked ranked),
      sort-sum (λ r. if r.index == i then 1 else 0) ranked,
      hits-le i total sum 0 ws,
    ) in
    let shares : some c ≡ some (floor_of total sum w + (hits i chosen + 0)) =
      sym g
      ∙ sym (at_plus-zero i (bump_all chosen floors))
      ∙ bump_all-hits i 0 chosen floors
      ∙ floor-at total sum i (hits i chosen + 0) w ws e in
    one_more (floor_of total sum w) (hits i chosen) once shares
  where
    one_more : (f h : ℕ) → h ≤ 1 → some c ≡ some (f + (h + 0)) → (c ≡ f) ⊎ (c ≡ suc f)
    one_more f h l q = grind arith
