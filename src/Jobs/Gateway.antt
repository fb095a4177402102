-- ===== src/Jobs/Gateway.antt =====
-- `generate` and `judge` of knovaryn/infrastructure/models/gateway.py: the cache of the calls, the ledger that
-- outlives it (ModelCallRepository of knovaryn/infrastructure/database/repositories.py), the budget, and
-- the provider. The cache has the store that holds nothing, the gateway's default; of a row of the ledger
-- the columns that are read are kept.
--
-- `make_fingerprint` stands for the digest of a request and a model, `complete` for the providers, none
-- where one raises, and `priced` for the cost and the tokens of a result.
pub mod Known
pub mod Paid
mod Tests
use knovaryn.Base.{
  ℕ, ◌+◌, Bool, true, false, not, ◌&&◌, ◌||◌, String, str_eq, List, [], ◌∷◌, ◌++◌, Option, none,
  some, if◌then◌else◌, is_some,
}
use knovaryn.Dict.{Dict, get, put}
use knovaryn.Jobs.Budget.{BudgetState, Limit, Call, check, account_call, reconcile}

-- How a gateway is set up: `live` says whether there is a live provider.
pub record Setup : Type 0 where
  pub generator_model : String
  pub verifier_model : String
  pub live : Bool
  pub has_ledger : Bool
  pub job_id : String
  pub stage : String

-- What a caller asks for, whether the ledger fails, and whether the process ends between the provider's
-- answer and its record.
pub record Prompt : Type 0 where
  pub model : Option String
  pub content : String
  pub lookup_fails : Bool
  pub record_fails : Bool
  pub dies : Bool

pub record Row (P : Type 0) : Type 0 where
  pub job_id : String
  pub fingerprint : String
  pub status : String
  pub result_payload : Option P

-- The state of a gateway. `paid` has the fingerprints of the calls that the provider has answered, and
-- `lost` those of the calls whose answer was dropped.
pub record World (P : Type 0) : Type 0 where
  pub mem : Dict P
  pub ledger : List (Row P)
  pub budget : Option BudgetState
  pub paid : List String
  pub lost : List String

pub data Answer (P : Type 0) : Type 0 where
  served : P → Answer P
  unsupported : Answer P
  over_budget : Limit → Answer P
  provider_failed : Answer P
  died : Answer P

-- Whether the live provider is asked, and for which model; none where it is refused.
abbrev requested_of : Setup → Option String → String
requested_of s none = s.generator_model
requested_of s (some m) = if str_eq m "" then s.generator_model else m

abbrev pub judge_model : Setup → Option String → String
judge_model s none = s.verifier_model
judge_model s (some m) = if str_eq m "" then s.verifier_model else m

unfoldable pub resolve_model : Setup → Option String → Option (Bool × String)
resolve_model s model =
    if str_eq (requested_of s model) "fake" || str_eq (requested_of s model) ""
    then some (false, "fake")
    else if s.live
    then some (true, requested_of s model)
    else none

module _ {P : Type 0} where
  -- The first row of a job with the fingerprint.
  unfoldable pub find_row : String → String → List (Row P) → Option (Row P)
  find_row job fp [] = none
  find_row job fp (r ∷ rs) =
      if str_eq (r.job_id) job && str_eq (r.fingerprint) fp then some r else find_row job fp rs

  unfoldable pub usable : Option (Row P) → Option P
  usable none = none
  usable (some r) = if str_eq (r.status) "ok" then r.result_payload else none

  unfoldable pub from_ledger : Setup → Prompt → String → World P → Option P
  unfolding find_row usable
  from_ledger s q fp w =
      if s.has_ledger && not (str_eq (s.job_id) "") && not (q.lookup_fails)
      then usable (find_row (s.job_id) fp (w.ledger))
      else none

  -- What is recorded of a result.
  unfoldable pub keep_result : Setup → Prompt → String → P → World P → Answer P × World P
  unfolding put
  keep_result s q fp p w = (
    served p,
    record w {
      ledger =
          if s.has_ledger && not (q.record_fails)
          then w.ledger
            ++ record {
              job_id = s.job_id;
              fingerprint = fp;
              status = "ok";
              result_payload = some p;
            }
              ∷ []
          else w.ledger;
      mem = put (w.mem) fp p;
    },
  )

  -- The error of the reconciliation comes before anything is recorded.
  unfoldable pub reconciled :
      Setup → Prompt → String → P → World P → Option Limit → Answer P × World P
  unfolding keep_result
  reconciled s q fp p w (some l) = (over_budget l, record w { lost = fp ∷ w.lost })
  reconciled s q fp p w none = keep_result s q fp p w

  module _ (priced : P → ℕ × ℕ × ℕ) where
    unfoldable pub call_of : Setup → String → P → Call
    call_of s model p = record {
      cost_of = (priced p).0;
      tokens_in = (priced p).1;
      tokens_out = (priced p).2;
      count = 1;
      model = some model;
      stage = some (s.stage);
    }

    unfoldable pub account :
        Setup → Prompt → String → String → P → World P → Option BudgetState → Answer P × World P
    unfolding reconciled call_of account_call reconcile
    account s q model fp p w none = keep_result s q fp p w
    account s q model fp p w (some b) =
        let b' = account_call (call_of s model p) b in
        reconciled s q fp p (record w { budget = some b' })
          (reconcile b' 0 (some model) (some (s.stage)))

    unfoldable pub paid_for :
        Setup → Prompt → String → String → World P → Option P → Answer P × World P
    unfolding account
    paid_for s q model fp w none = (provider_failed, w)
    paid_for s q model fp w (some p) =
        let accounted = account s q model fp p (record w { paid = fp ∷ w.paid }) (w.budget) in
        if q.dies
        then (died, record w { mem = []; paid = fp ∷ w.paid; lost = fp ∷ w.lost })
        else accounted

    unfoldable pub ask_ledger :
        Setup → Prompt → String → String → World P → Option P → Option P → Answer P × World P
    unfolding paid_for put
    ask_ledger s q model fp w (some p) answer = (served p, record w { mem = put (w.mem) fp p })
    ask_ledger s q model fp w none answer = paid_for s q model fp w answer

    unfoldable pub ask_cache :
        Setup → Prompt → String → String → World P → Option P → Option P → Answer P × World P
    unfolding ask_ledger from_ledger
    ask_cache s q model fp w (some p) answer = (served p, w)
    ask_cache s q model fp w none answer = ask_ledger s q model fp w (from_ledger s q fp w) answer

    -- The check before a call, which is given no time; a gateway without a budget passes.
    unfoldable pub limit_of : Option BudgetState → String → String → Option Limit
    unfolding check
    limit_of none model stage = none
    limit_of (some b) model stage = check b 0 (some model) (some stage)

    module _ (make_fingerprint : String → String → String)
        (complete : Bool → String → String → Option P) where
      unfoldable pub generate_as :
          Setup → Prompt → World P → Bool → String → Option Limit → Answer P × World P
      unfolding ask_cache get
      generate_as s q w live model (some l) = (over_budget l, w)
      generate_as s q w live model none =
          let fp = make_fingerprint (q.content) model in
          ask_cache s q model fp w (get (w.mem) fp) (complete live model (q.content))

      abbrev with_model : Setup → Prompt → World P → Option (Bool × String) → Answer P × World P
      unfolding generate_as limit_of
      with_model s q w none = (unsupported, w)
      with_model s q w (some (live, model)) =
          generate_as s q w live model (limit_of (w.budget) model (s.stage))

      unfoldable pub generate : Setup → Prompt → World P → Answer P × World P
      unfolding resolve_model with_model
      generate s q w = with_model s q w (resolve_model s (q.model))

      -- A judge's call looks into the cache, but not into the ledger.
      unfoldable pub ask_judge_cache :
          Setup → Prompt → String → String → World P → Option P → Option P → Answer P × World P
      unfolding paid_for
      ask_judge_cache s q model fp w (some p) answer = (served p, w)
      ask_judge_cache s q model fp w none answer = paid_for s q model fp w answer

      unfoldable pub judge_as :
          Setup → Prompt → World P → String → Option Limit → Answer P × World P
      unfolding ask_judge_cache get
      judge_as s q w model (some l) = (over_budget l, w)
      judge_as s q w model none =
          let fp = make_fingerprint (q.content) model in
          ask_judge_cache s q model fp w (get (w.mem) fp) (complete true model (q.content))

      -- judge, at a stage of its own; the fake provider is refused.
      unfoldable pub judge : String → Setup → Prompt → World P → Answer P × World P
      unfolding judge_as limit_of
      judge stage s q w =
          let model = judge_model s (q.model) in
          if str_eq model "fake" || str_eq model "" || not (s.live)
          then (unsupported, w)
          else judge_as (record s { stage = stage }) q w model (limit_of (w.budget) model stage)
