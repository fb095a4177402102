-- ===== src/Planner/Total.antt =====
-- The number of examples that a plan gives out.
use knovaryn.Base.{
  ℕ, zero, suc, ◌+◌, ◌-◌, ◌≤◌, ◌<◌, take, ltb, List, [], ◌∷◌, ◌≡◌, refl, ◌∙◌, subst, arith, Option,
  map, filter, length, sum_by-append, All, All-append, Bool-cases, inl, inr,
}
use knovaryn.Planner.{
  AssignmentSpec, PlanResult, DatasetPlan, cells_of, base_total, add_spec, add_specs, plan_cells,
  plan,
}
use knovaryn.Planner.Apportion.{
  Cell, Ranked, apportion, bump, bump_all, floors_of, ranked_from, sort_ranked,
}
use knovaryn.Planner.Quota.{total_of, apportion-total, length-bump, length-floors}
use knovaryn.Planner.TopUp.{planned_by}

length-bump_all : (rs : List Ranked) (cs : List ℕ) → length (bump_all rs cs) ≡ length cs
unfolding bump_all
length-bump_all [] cs = refl
length-bump_all (r ∷ rs) cs = length-bump_all rs (bump (r.index) cs) ∙ length-bump (r.index) cs

length-apportion : (total : ℕ) (ws : List ℕ) → length (apportion total ws) ≡ length ws
unfolding apportion total_of
length-apportion total ws =
    let floors : List ℕ = floors_of total (total_of ws) ws in
    length-bump_all
      (take (total - total_of floors) (sort_ranked (ranked_from total (total_of ws) 0 ws))) floors
    ∙ length-floors total (total_of ws) ws

-- Every spec is for one example at least.
abbrev pub IsPositive : AssignmentSpec → Type 0
IsPositive s = 0 < s.per_chunk

Counts : PlanResult → ℕ → Type 0
Counts out n = (planned_by (out.specs) ≡ n) × All IsPositive (out.specs)

add_spec-Counts :
    (c : Cell) (n m : ℕ) (out : PlanResult) → Counts out n → Counts (add_spec c m out) (n + m)
unfolding Counts add_spec
add_spec-Counts c n zero out h = (omega (arith, h.0), h.1)
add_spec-Counts c n (suc m) out h =
    let spec : AssignmentSpec = record {
      topology = c.topology;
      task_family = c.family;
      difficulty = c.difficulty;
      per_chunk = suc m;
    } in
    (
      omega (arith, h.0, sum_by-append (λ s. s.per_chunk) (out.specs) (spec ∷ [])),
      All-append IsPositive (out.specs) (spec ∷ []) h.1 (omega arith, tt),
    )

add_specs-Counts :
    (cs : List Cell) (ms : List ℕ) (n : ℕ) (out : PlanResult)
    → length ms ≡ length cs
    → Counts out n
    → Counts (add_specs cs ms out) (n + total_of ms)
unfolding add_specs total_of
add_specs-Counts [] [] n out e h = subst (Counts out) (omega arith) h
add_specs-Counts [] (m ∷ ms) n out e h = absurd (omega (arith, e))
add_specs-Counts (c ∷ cs) [] n out e h = absurd (omega (arith, e))
add_specs-Counts (c ∷ cs) (m ∷ ms) n out e h =
    subst (Counts (add_specs cs ms (add_spec c m out))) (omega arith) (
      add_specs-Counts cs ms (n + m) (add_spec c m out) (omega (arith, e))
        (add_spec-Counts c n m out h))

weights : List Cell → List ℕ
weights cs = map (λ c. c.weight) cs

weights-total :
    (cs : List Cell)
    → length (filter (λ c. ltb 0 (c.weight)) cs)
      ≤ total_of (weights (filter (λ c. ltb 0 (c.weight)) cs))
unfolding weights total_of
weights-total [] = omega arith
weights-total (c ∷ cs) = elim (Bool-cases (ltb 0 (c.weight))) [
  | inl e ↦ rw e (ground (arith, e, weights-total cs))
  | inr e ↦ rw e (weights-total cs)
]

length-weights : (cs : List Cell) → length (weights cs) ≡ length cs
unfolding weights
length-weights [] = refl
length-weights (c ∷ cs) = omega (arith, length-weights cs)

positive : (p : DatasetPlan) → 0 < length (cells_of p) → 0 < total_of (weights (cells_of p))
unfolding cells_of
positive p l = omega (arith, l, weights-total _)

-- A plan with a cell of positive weight expects exactly the target under the budget's maximum, or one
-- example for each chunk where there is no target; its specs add up to that, and none is for nothing.
pub plan-total :
    (p : DatasetPlan) (chunk_count : ℕ) (target most : Option ℕ)
    → 0 < length (cells_of p)
    → let r : PlanResult = plan p chunk_count target most in
      (r.total_expected_examples ≡ base_total chunk_count target most)
      × (planned_by (r.specs) ≡ r.total_expected_examples)
      × All IsPositive (r.specs)
unfolding plan plan_cells Counts weights
plan-total p chunk_count target most l =
    let total : ℕ = base_total chunk_count target most in
    let cells : List Cell = cells_of p in
    let counts : List ℕ = apportion total (weights cells) in
    let known : length counts ≡ length cells =
      length-apportion total (weights cells) ∙ length-weights cells in
    let h =
      add_specs-Counts cells counts 0
        (record { specs = []; total_expected_examples = 0; distribution_matrix = [] }) known
        (refl, tt) in
    let exact : total_of counts ≡ total = apportion-total total (weights cells) (positive p l) in
    (h.0 ∙ omega (arith, exact), refl, h.1)
