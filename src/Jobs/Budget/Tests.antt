-- ===== src/Jobs/Budget/Tests.antt =====
-- Three guarded calls over a budget of two.
use knovaryn.Base.{◌≡◌, refl, [], ◌∷◌, none, some, arith}
use knovaryn.Jobs.Budget.{BudgetState, Call}
use knovaryn.Jobs.Budget.Discipline.{IsBounded, HasRoom, guarded_calls, guarded_calls-IsBounded}

abbrev budget : BudgetState
budget = record {
  maximum_cost = 100;
  maximum_calls = 2;
  maximum_input_tokens = none;
  maximum_output_tokens = some 50;
  maximum_duration = none;
  maximum_examples = 10;
  per_model_max_cost = ("m", 60) ∷ [];
  per_stage_max_cost = [];
  spent_cost = 0;
  calls_made = 0;
  input_tokens = 0;
  output_tokens = 0;
  examples_produced = 0;
  model_spent_cost = [];
  stage_spent_cost = [];
}

abbrev call : Call
call = record {
  cost_of = 40;
  tokens_in = 5;
  tokens_out = 5;
  count = 1;
  model = some "m";
  stage = none;
}

guarded_calls-IsBounded_example :
    IsBounded 40 (guarded_calls (call ∷ call ∷ call ∷ []) budget).0
    × ((guarded_calls (call ∷ call ∷ call ∷ []) budget).1 ≡ none
        → HasRoom budget (guarded_calls (call ∷ call ∷ call ∷ []) budget).0)
guarded_calls-IsBounded_example =
    guarded_calls-IsBounded 40 (call ∷ call ∷ call ∷ []) budget
      ((omega arith, refl), ((omega arith, refl), ((omega arith, refl), tt)))
      (record { calls_bounded = omega arith; cost_bounded = omega arith })
      (record {
        same_cost = refl;
        same_calls = refl;
        cost_room = omega arith;
        calls_room = omega arith;
      })
