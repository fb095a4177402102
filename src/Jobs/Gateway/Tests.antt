-- ===== src/Jobs/Gateway/Tests.antt =====
-- A gateway that is asked twice for one answer, with a restart between.
use knovaryn.Base.{
  ℕ, suc, ◌≤◌, ◌≡◌, ◌≢◌, eq_iff, refl, Bool, true, false, String, List, [], ◌∷◌, Option, none, some,
}
use knovaryn.Dict.{get, put}
use knovaryn.Jobs.Budget.{BudgetState, check, reached, sub_reached, reconcile, account_call}
use knovaryn.Jobs.Gateway.{
  Setup, Prompt, generate, generate_as, ask_cache, ask_ledger, from_ledger, find_row, usable,
  paid_for, ask_judge_cache, judge_as, judge, account, reconciled, keep_result, resolve_model,
  limit_of,
}
use knovaryn.Jobs.Gateway.Known.{times}
use knovaryn.Jobs.Gateway.Paid.{
  Event, asks, judges, restarts, IsLedgered, fresh, run_events, run_events-paid,
}

abbrev setup : Setup
setup = record {
  generator_model = "m";
  verifier_model = "v";
  live = true;
  has_ledger = true;
  job_id = "j";
  stage = "s";
}

abbrev request : Prompt
request = record {
  model = none;
  content = "c";
  lookup_fails = false;
  record_fails = false;
  dies = false;
}

abbrev budget : BudgetState
budget = record {
  maximum_cost = 20;
  maximum_calls = 5;
  maximum_input_tokens = none;
  maximum_output_tokens = none;
  maximum_duration = none;
  maximum_examples = 9;
  per_model_max_cost = [];
  per_stage_max_cost = [];
  spent_cost = 0;
  calls_made = 0;
  input_tokens = 0;
  output_tokens = 0;
  examples_produced = 0;
  model_spent_cost = [];
  stage_spent_cost = [];
}

abbrev verdict : Prompt
verdict = record request { content = "e" }

-- The first judgement is lost with its process, and paid for again.
abbrev events : List Event
events =
    asks request
    ∷ judges "judge" (record verdict { dies = true })
    ∷ restarts (some budget)
    ∷ asks request
    ∷ judges "judge" verdict
    ∷ restarts (some budget)
    ∷ judges "judge" verdict
    ∷ []

abbrev price : String → ℕ × ℕ × ℕ
price p = (5, 1, 1)

abbrev fingerprint : String → String → String
fingerprint c m = c

abbrev answer : Bool → String → String → Option String
answer live model c = some c

judged_again :
    (run_events price fingerprint answer setup events (fresh (some budget))).paid
    ≡ "e" ∷ "e" ∷ "e" ∷ "c" ∷ []
unfolding run_events generate judge judge_as ask_judge_cache generate_as ask_cache ask_ledger
    from_ledger find_row usable paid_for account reconciled keep_result resolve_model limit_of check
    reached sub_reached reconcile account_call get put
judged_again = refl

ledgered : IsLedgered setup request
ledgered = (refl, refl, refl, refl)

others : ◌≢◌ {A = String} "e" "c"
others h = let same : false ≡ true = (eq_iff "e" "c").1 h in absurd cc

run_events-paid_example :
    times "c" (run_events price fingerprint answer setup events (fresh (some budget))).paid
    ≤ suc (times "c" (run_events price fingerprint answer setup events (fresh (some budget))).lost)
run_events-paid_example = run_events-paid price fingerprint answer setup "c" events (some budget) (
  ledgered,
  ((ledgered, others), (refl, (ledgered, ((ledgered, others), (refl, ((ledgered, others), tt)))))),
)
