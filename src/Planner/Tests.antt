-- ===== src/Planner/Tests.antt =====
-- Plans for a thin document, and a top-up.
use knovaryn.Base.{ℕ, ◌-◌, ◌≡◌, ◌⊎◌, suc, refl, List, [], ◌∷◌, some, none, map, All, arith}
use knovaryn.Dict.{get_or}
use knovaryn.Planner.{
  DatasetPlan, PlanResult, plan, plan_cells, cells_of, base_total, topology_weights,
}
use knovaryn.Planner.Apportion.{apportion, floor_of}
use knovaryn.Planner.Quota.{apportion-quota, total_of}
use knovaryn.Planner.TopUp.{
  TopUpResult, top_up_plan, wanted_within, planned_by, share_of, IsRounded, top_up_plan-rounds,
}
use knovaryn.Planner.Total.{plan-total, IsPositive}

abbrev default_plan : DatasetPlan
default_plan = record {
  task_family_proportions = [];
  difficulty_distribution = [];
  topology_proportions = [];
}

-- Two chunks get two examples, though every cell's share rounds down.
thin : map (λ s. s.per_chunk) ((plan default_plan 2 none none).specs) ≡ 1 ∷ 1 ∷ []
unfolding plan plan_cells cells_of topology_weights apportion base_total get_or
thin = refl

plan-total_example :
    let r : PlanResult = plan default_plan 7 (some 40) (some 25) in
    (r.total_expected_examples ≡ base_total 7 (some 40) (some 25))
    × (planned_by (r.specs) ≡ r.total_expected_examples)
    × All IsPositive (r.specs)
unfolding cells_of topology_weights get_or
plan-total_example = plan-total default_plan 7 (some 40) (some 25) (ground arith)

abbrev weights : List ℕ
weights = 3 ∷ 5 ∷ 2 ∷ []

apportion-quota_example :
    (4 ≡ floor_of 7 (total_of weights) 5) ⊎ (4 ≡ suc (floor_of 7 (total_of weights) 5))
unfolding apportion
apportion-quota_example = apportion-quota 7 weights 1 5 4 refl refl

abbrev halves : PlanResult
halves = record {
  specs =
      record { topology = "sft"; task_family = "a"; difficulty = "basic"; per_chunk = 2 }
      ∷ record { topology = "sft"; task_family = "b"; difficulty = "basic"; per_chunk = 2 }
      ∷ [];
  total_expected_examples = 4;
  distribution_matrix = [];
}

-- Four planned and a maximum of seven leave room for three, and four more are planned.
over_budget : (top_up_plan halves 8 2 (some 7)).additional ≡ 4
unfolding top_up_plan wanted_within share_of
over_budget = refl

top_up_plan-rounds_example :
    let r : TopUpResult = top_up_plan halves 8 2 (some 7) in
    let wanted : ℕ = (wanted_within (8 - 2) (some 7) 4).0 in
    (r.additional ≡ planned_by (r.specs)) × IsRounded wanted (r.additional) (halves.specs)
top_up_plan-rounds_example = top_up_plan-rounds halves 8 2 (some 7)
