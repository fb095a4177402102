-- ===== src/Jobs/Budget.antt =====
-- knovaryn/pipeline/jobs/budget.py. Costs are whole micro-dollars, the unit to which every cost is
-- rounded before it is accounted.
pub mod Limits
pub mod Discipline
mod Tests
use knovaryn.Base.{
  ℕ, ◌+◌, Bool, true, false, String, List, [], ◌∷◌, Option, none, some, leb, if◌then◌else◌, ◌/◌,
  ◌*◌,
}
use knovaryn.Dict
use knovaryn.Dict.{Dict}

pub record BudgetState : Type 0 where
  pub maximum_cost : ℕ
  pub maximum_calls : ℕ
  pub maximum_input_tokens : Option ℕ
  pub maximum_output_tokens : Option ℕ
  pub maximum_duration : Option ℕ
  pub maximum_examples : ℕ
  pub per_model_max_cost : Dict ℕ
  pub per_stage_max_cost : Dict ℕ
  pub spent_cost : ℕ
  pub calls_made : ℕ
  pub input_tokens : ℕ
  pub output_tokens : ℕ
  pub examples_produced : ℕ
  pub model_spent_cost : Dict ℕ
  pub stage_spent_cost : Dict ℕ

-- What the message of the BudgetExceededError names.
pub data Limit : Type 0 where
  cost calls examples input_limit output_limit duration model_cost stage_cost : Limit

-- `maximum is not None and used >= maximum`
unfoldable pub reached : ℕ → Option ℕ → Bool
reached used none = false
reached used (some maximum) = leb maximum used

-- The test of a sub-budget; an empty table of caps is skipped, and so is a key with no cap.
unfoldable pub sub_reached : Option String → Dict ℕ → Dict ℕ → Bool
unfolding reached
sub_reached none caps spent = false
sub_reached (some key) [] spent = false
sub_reached (some key) (cap ∷ caps) spent =
    reached (Dict.get_or spent key 0) (Dict.get (cap ∷ caps) key)

-- `none` passes; else the limit that the error names.
unfoldable pub check : BudgetState → ℕ → Option String → Option String → Option Limit
check b dt model stage =
    if leb b.maximum_cost b.spent_cost
    then some cost
    else if leb b.maximum_calls b.calls_made
    then some calls
    else if leb b.maximum_examples b.examples_produced
    then some examples
    else if reached b.input_tokens b.maximum_input_tokens
    then some input_limit
    else if reached b.output_tokens b.maximum_output_tokens
    then some output_limit
    else if reached dt b.maximum_duration
    then some duration
    else if sub_reached model b.per_model_max_cost b.model_spent_cost
    then some model_cost
    else if sub_reached stage b.per_stage_max_cost b.stage_spent_cost
    then some stage_cost
    else none

unfoldable pub add_spent : Option String → ℕ → Dict ℕ → Dict ℕ
add_spent none amount spent = spent
add_spent (some key) amount spent = Dict.put spent key (Dict.get_or spent key 0 + amount)

pub record Call : Type 0 where
  pub cost_of : ℕ
  pub tokens_in : ℕ
  pub tokens_out : ℕ
  pub count : ℕ
  pub model : Option String
  pub stage : Option String

unfoldable pub account_call : Call → BudgetState → BudgetState
account_call c b = record b {
  spent_cost = b.spent_cost + c.cost_of;
  calls_made = b.calls_made + c.count;
  input_tokens = b.input_tokens + c.tokens_in;
  output_tokens = b.output_tokens + c.tokens_out;
  model_spent_cost = add_spent c.model c.cost_of b.model_spent_cost;
  stage_spent_cost = add_spent c.stage c.cost_of b.stage_spent_cost;
}

unfoldable pub reconcile : BudgetState → ℕ → Option String → Option String → Option Limit
unfolding check
reconcile b dt model stage = check b dt model stage

unfoldable pub account_examples : ℕ → BudgetState → BudgetState
account_examples n b = record b { examples_produced = b.examples_produced + n }
