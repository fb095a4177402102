-- ===== src/Planner/Apportion.antt =====
-- The largest-remainder apportionment in `plan` of knovaryn/pipeline/planner.py.
use knovaryn.Base.{
  ℕ, zero, suc, ◌-◌, ◌*◌, ◌/◌, ◌%◌, ltb, leb, ◌==◌, Bool, ◌&&◌, ◌||◌, String, List, [], ◌∷◌,
  if◌then◌else◌, sum_by, map, take,
}

pub record Cell : Type 0 where
  pub topology : String
  pub family : String
  pub difficulty : String
  pub weight : ℕ

-- A cell in the sort: its index, the fraction that its floor leaves, in parts of the weights' total,
-- and its weight.
pub record Ranked : Type 0 where
  pub index : ℕ
  pub remainder : ℕ
  pub weight : ℕ

unfoldable pub floor_of : ℕ → ℕ → ℕ → ℕ
floor_of total sum w = total * w / sum

-- The sort key (-(exact - floor), -weight, index).
unfoldable pub before : Ranked → Ranked → Bool
before a b =
    ltb (b.remainder) (a.remainder)
    || (a.remainder == b.remainder
        && (ltb (b.weight) (a.weight) || (a.weight == b.weight && leb (a.index) (b.index))))

unfoldable pub insert_ranked : Ranked → List Ranked → List Ranked
unfolding before
insert_ranked x [] = x ∷ []
insert_ranked x (y ∷ ys) =
    let rest = insert_ranked x ys in if before x y then x ∷ y ∷ ys else y ∷ rest

unfoldable pub sort_ranked : List Ranked → List Ranked
unfolding insert_ranked
sort_ranked [] = []
sort_ranked (x ∷ xs) = insert_ranked x (sort_ranked xs)

unfoldable pub ranked_from : ℕ → ℕ → ℕ → List ℕ → List Ranked
ranked_from total sum i [] = []
ranked_from total sum i (w ∷ ws) =
    record { index = i; remainder = total * w % sum; weight = w } ∷ ranked_from total sum (suc i) ws

-- counts[idx] += 1
unfoldable pub bump : ℕ → List ℕ → List ℕ
bump i [] = []
bump zero (c ∷ cs) = suc c ∷ cs
bump (suc i) (c ∷ cs) = c ∷ bump i cs

unfoldable pub bump_all : List Ranked → List ℕ → List ℕ
unfolding bump
bump_all [] cs = cs
bump_all (r ∷ rs) cs = bump_all rs (bump (r.index) cs)

unfoldable pub floors_of : ℕ → ℕ → List ℕ → List ℕ
unfolding floor_of
floors_of total sum ws = map (floor_of total sum) ws

unfoldable pub apportion : ℕ → List ℕ → List ℕ
unfolding floors_of ranked_from sort_ranked bump_all
apportion total ws =
    let sum = sum_by (λ w. w) ws in
    let floors = floors_of total sum ws in
    let leftover = total - sum_by (λ c. c) floors in
    bump_all (take leftover (sort_ranked (ranked_from total sum 0 ws))) floors
