-- ===== src/Planner.antt =====
-- knovaryn/pipeline/planner.py: how many examples of each topology, task family and difficulty a plan
-- generates, and the plan that fills a shortfall. Weights are whole parts of their total, where the
-- code has floats.
pub mod Apportion
pub mod Ranked
pub mod Quota
pub mod TopUp
pub mod Total
mod Tests
use knovaryn.Base.{
  ℕ, zero, suc, ◌+◌, ◌-◌, ◌*◌, ◌/◌, ◌%◌, min, max, ltb, leb, ◌==◌, not, String, List, [], ◌∷◌, ◌++◌,
  Option, none, some, if◌then◌else◌, sum_by, filter, map,
}
use knovaryn.Dict.{Dict, get_or, put}
use knovaryn.Planner.Apportion.{Cell, apportion}
use Prim.Native.String.{◌++◌ as join_text}

pub record AssignmentSpec : Type 0 where
  pub topology : String
  pub task_family : String
  pub difficulty : String
  pub per_chunk : ℕ

pub record PlanResult : Type 0 where
  pub specs : List AssignmentSpec
  pub total_expected_examples : ℕ
  pub distribution_matrix : Dict ℕ

-- What a DatasetPlan says of the composition: none of a table that is empty.
pub record DatasetPlan : Type 0 where
  pub task_family_proportions : Dict ℕ
  pub difficulty_distribution : Dict ℕ
  pub topology_proportions : Dict ℕ

abbrev for_each {ℓ κ} : {A : Type ℓ} {B : Type κ} → List A → (A → List B) → List B
for_each [] f = []
for_each (x ∷ xs) f = f x ++ for_each xs f

abbrev or_else : Dict ℕ → Dict ℕ → Dict ℕ
or_else [] d = d
or_else (x ∷ xs) d = x ∷ xs

abbrev topologies : List String
topologies = "sft" ∷ "preference" ∷ "kto" ∷ "evaluation" ∷ []

unfoldable pub topology_weights : DatasetPlan → Dict ℕ
topology_weights plan =
    let weights =
      or_else (plan.topology_proportions)
        (("sft", 6) ∷ ("preference", 2) ∷ ("kto", 1) ∷ ("evaluation", 1) ∷ []) in
    map (λ t. (t, get_or weights t 0)) topologies

unfoldable pub cells_of : DatasetPlan → List Cell
unfolding topology_weights
cells_of plan =
    filter (λ c. ltb 0 (c.weight))
      (for_each (topology_weights plan) (λ t.
        for_each (or_else (plan.task_family_proportions) (("factual_explanation", 1) ∷ [])) (λ f.
          map
            (λ d. record {
              topology = t.0;
              family = f.0;
              difficulty = d.0;
              weight = t.1 * f.1 * d.1;
            })
            (or_else (plan.difficulty_distribution)
              (("basic", 3) ∷ ("intermediate", 5) ∷ ("advanced", 2) ∷ [])))))

-- The target under the budget's maximum of examples, or the count of chunks where there is none.
unfoldable pub base_total : ℕ → Option ℕ → Option ℕ → ℕ
base_total chunk_count none cap = chunk_count
base_total chunk_count (some target) none = target
base_total chunk_count (some target) (some cap) = min target cap

unfoldable pub add_spec : Cell → ℕ → PlanResult → PlanResult
add_spec c zero out = out
add_spec c (suc n) out = record out {
  specs =
      out.specs
      ++ record {
        topology = c.topology;
        task_family = c.family;
        difficulty = c.difficulty;
        per_chunk = suc n;
      }
        ∷ [];
  distribution_matrix =
      put (out.distribution_matrix)
        (join_text (c.topology)
          (join_text "/" (join_text (c.family) (join_text "/" (c.difficulty)))))
        (suc n);
}

-- The loop over zip(cells, counts).
unfoldable pub add_specs : List Cell → List ℕ → PlanResult → PlanResult
unfolding add_spec
add_specs [] ns out = out
add_specs (c ∷ cs) [] out = out
add_specs (c ∷ cs) (n ∷ ns) out = add_specs cs ns (add_spec c n out)

unfoldable pub plan_cells : ℕ → List Cell → PlanResult
unfolding add_specs apportion
plan_cells total cells =
    let out =
      add_specs cells (apportion total (map (λ c. c.weight) cells))
        (record { specs = []; total_expected_examples = 0; distribution_matrix = [] }) in
    record out { total_expected_examples = sum_by (λ s. s.per_chunk) (out.specs) }

unfoldable pub plan : DatasetPlan → ℕ → Option ℕ → Option ℕ → PlanResult
unfolding plan_cells cells_of base_total
plan p chunk_count target cap = plan_cells (base_total chunk_count target cap) (cells_of p)
