-- ===== src/Jobs/Gateway/Paid.antt =====
-- How often the gateway of a job pays for one fingerprint, over judgements and over restarts that empty its cache.
use knovaryn.Base.{
  ℕ, suc, ◌≤◌, ◌≡◌, ◌≢◌, not, ◌||◌, ◌∷◌, if◌then◌else◌, refl, sym, inl, inr, arith, Bool, true,
  false, String, str_eq, List, [], ◌∷◌, Option, none, some, All,
}
use knovaryn.Dict.{get}
use knovaryn.Jobs.Budget.{BudgetState, Limit}
use knovaryn.Jobs.Gateway.{
  Setup, Prompt, World, resolve_model, find_row, usable, from_ledger, keep_result, reconciled,
  account, paid_for, ask_ledger, ask_judge_cache, judge_as, judge, judge_model, limit_of, died,
  unsupported, ask_cache, generate_as, with_model, generate,
}
use knovaryn.Jobs.Gateway.Known.{
  times, IsPaidOnce, IsKept, row_of, recorded-IsPaidOnce, lost-IsPaidOnce, cached-IsPaidOnce,
  restarted-IsPaidOnce, unknown_lem,
}

-- The ledger is there and does not fail.
abbrev pub IsLedgered : Setup → Prompt → Type 0
IsLedgered s q =
    (s.has_ledger ≡ true)
    × (str_eq (s.job_id) "" ≡ false)
    × (q.lookup_fails ≡ false)
    × (q.record_fails ≡ false)

module _ {P : Type 0} (s : Setup) (q : Prompt) (fp : String) (ok : IsLedgered s q) where
  keep_result-IsKept :
      (f : String) (p : P) (b : Option BudgetState) (w : World P)
      → (f ≡ fp → find_row (s.job_id) fp (w.ledger) ≡ none)
      → IsKept (s.job_id) fp w
      → IsKept (s.job_id) fp (keep_result s q f p (record w { budget = b; paid = f ∷ w.paid })).1
  unfolding keep_result row_of
  keep_result-IsKept f p b w new h =
      rw (ok.0, ok.3)
        (recorded-IsPaidOnce (s.job_id) fp f p (w.ledger) (w.mem) (w.paid) (w.lost) new h)

  reconciled-IsKept :
      (f : String) (p : P) (b : Option BudgetState) (w : World P) (l : Option Limit)
      → (f ≡ fp → find_row (s.job_id) fp (w.ledger) ≡ none)
      → IsKept (s.job_id) fp w
      → IsKept (s.job_id) fp (reconciled s q f p (record w { budget = b; paid = f ∷ w.paid }) l).1
  unfolding reconciled
  reconciled-IsKept f p b w none new h = keep_result-IsKept f p b w new h
  reconciled-IsKept f p b w (some l) new h =
      lost-IsPaidOnce (s.job_id) fp f (w.ledger) (w.mem) (w.paid) (w.lost) h

  module _ (priced : P → ℕ × ℕ × ℕ) where
    account-IsKept :
        (model f : String) (p : P) (w : World P) (b : Option BudgetState)
        → (f ≡ fp → find_row (s.job_id) fp (w.ledger) ≡ none)
        → IsKept (s.job_id) fp w
        → IsKept (s.job_id) fp (account priced s q model f p (record w { paid = f ∷ w.paid }) b).1
    unfolding account
    account-IsKept model f p w none new h = keep_result-IsKept f p (w.budget) w new h
    account-IsKept model f p w (some b) new h = reconciled-IsKept f p _ w _ new h

    paid_for-IsKept :
        (model f : String) (w : World P) (answer : Option P)
        → (f ≡ fp → find_row (s.job_id) fp (w.ledger) ≡ none)
        → IsKept (s.job_id) fp w
        → IsKept (s.job_id) fp (paid_for priced s q model f w answer).1
    unfolding paid_for
    paid_for-IsKept model f w none new h = h
    paid_for-IsKept model f w (some p) new h = by (q.dies)
      where
        by :
            (b : Bool)
            → IsKept
                (s.job_id)
                fp
                (if b
                  then (died, record w { mem = []; paid = f ∷ w.paid; lost = f ∷ w.lost })
                  else account priced s q model f p (record w { paid = f ∷ w.paid }) (w.budget)).1
        by true =
            restarted-IsPaidOnce (s.job_id) fp (w.ledger) (w.mem) (f ∷ w.paid) (f ∷ w.lost)
              (lost-IsPaidOnce (s.job_id) fp f (w.ledger) (w.mem) (w.paid) (w.lost) h)
        by false = account-IsKept model f p w (w.budget) new h

    from_ledger_lem :
        (f : String) (w : World P) → from_ledger s q f w ≡ usable (find_row (s.job_id) f (w.ledger))
    unfolding from_ledger
    from_ledger_lem f w = rw (ok.0, ok.1, ok.2) refl

    ask_ledger-IsKept :
        (model f : String) (w : World P) (o answer : Option P)
        → usable (find_row (s.job_id) f (w.ledger)) ≡ o
        → IsKept (s.job_id) fp w
        → IsKept (s.job_id) fp (ask_ledger priced s q model f w o answer).1
    unfolding ask_ledger
    ask_ledger-IsKept model f w none answer e h =
        paid_for-IsKept model f w answer
          (unknown_lem (s.job_id) fp f (w.ledger) (w.mem) (w.paid) (w.lost) e h) h
    ask_ledger-IsKept model f w (some p) answer e h =
        cached-IsPaidOnce (s.job_id) fp f p (w.ledger) (w.mem) (w.paid) (w.lost) e h

    ask_cache-IsKept :
        (model f : String) (w : World P) (o answer : Option P)
        → IsKept (s.job_id) fp w
        → IsKept (s.job_id) fp (ask_cache priced s q model f w o answer).1
    unfolding ask_cache
    ask_cache-IsKept model f w (some p) answer h = h
    ask_cache-IsKept model f w none answer h =
        ask_ledger-IsKept model f w (from_ledger s q f w) answer (sym (from_ledger_lem f w)) h

    module _ (make_fingerprint : String → String → String)
        (complete : Bool → String → String → Option P) where
      generate_as-IsKept :
          (w : World P) (live : Bool) (model : String) (l : Option Limit)
          → IsKept (s.job_id) fp w
          → IsKept (s.job_id) fp (generate_as priced make_fingerprint complete s q w live model l).1
      unfolding generate_as
      generate_as-IsKept w live model (some l) h = h
      generate_as-IsKept w live model none h = ask_cache-IsKept model _ w _ _ h

      generate-IsKept :
          (w : World P)
          → IsKept (s.job_id) fp w
          → IsKept (s.job_id) fp (generate priced make_fingerprint complete s q w).1
      unfolding generate
      generate-IsKept w h = by (resolve_model s (q.model))
        where
          by :
              (o : Option (Bool × String))
              → IsKept (s.job_id) fp (with_model priced make_fingerprint complete s q w o).1
          by none = h
          by (some (live, model)) = generate_as-IsKept w live model _ h

-- What a judge is asked is not what the fingerprint is of.
abbrev pub IsOther : (String → String → String) → Setup → Prompt → String → Type 0
IsOther make_fingerprint s q fp = make_fingerprint (q.content) (judge_model s (q.model)) ≢ fp

module _ {P : Type 0} (priced : P → ℕ × ℕ × ℕ) (make_fingerprint : String → String → String)
    (complete : Bool → String → String → Option P) (stage : String) (s : Setup) (q : Prompt)
    (fp : String) (ok : IsLedgered s q) (other : IsOther make_fingerprint s q fp) where
  ask_judge_cache-IsKept :
      (w : World P) (o answer : Option P)
      → let model : String = judge_model s (q.model) in
        IsKept (s.job_id) fp w
        → IsKept
            (s.job_id)
            fp
            (ask_judge_cache priced make_fingerprint complete
              (record s { stage = stage })
              q
              model
              (make_fingerprint (q.content) model)
              w
              o
              answer).1
  unfolding ask_judge_cache
  ask_judge_cache-IsKept w (some p) answer h = h
  ask_judge_cache-IsKept w none answer h =
      paid_for-IsKept (record s { stage = stage }) q fp ok priced (judge_model s (q.model)) _ w
        answer (λ e. absurd (other e)) h

  judge-IsKept :
      (w : World P)
      → IsKept (s.job_id) fp w
      → IsKept (s.job_id) fp (judge priced make_fingerprint complete stage s q w).1
  unfolding judge judge_as
  judge-IsKept w h =
      by
        (str_eq (judge_model s (q.model)) "fake"
          || str_eq (judge_model s (q.model)) ""
          || not (s.live))
        (limit_of priced (w.budget) (judge_model s (q.model)) stage)
    where
      by :
          (b : Bool) (l : Option Limit)
          → IsKept
              (s.job_id)
              fp
              (if b
                then (unsupported, w)
                else judge_as priced make_fingerprint complete
                    (record s { stage = stage })
                    q
                    w
                    (judge_model s (q.model))
                    l).1
      by true l = h
      by false (some l) = h
      by false none = ask_judge_cache-IsKept w _ _ h

-- A job's gateway is asked for a generation or, at a stage, for a judgement, or its process is restarted, with
-- an empty cache and some budget.
pub data Event : Type 0 where
  asks : Prompt → Event
  judges : String → Prompt → Event
  restarts : Option BudgetState → Event

-- The ledger does not fail in the event, and if it is a judgement, the fingerprint is not of what is judged.
abbrev pub AllLedgered : (String → String → String) → Setup → String → Event → Type 0
AllLedgered make_fingerprint s fp (asks q) = IsLedgered s q
AllLedgered make_fingerprint s fp (judges stage q) =
    IsLedgered s q × IsOther make_fingerprint s q fp
AllLedgered make_fingerprint s fp (restarts b) = true ≡ true

abbrev pub fresh : {P : Type 0} → Option BudgetState → World P
fresh b = record { mem = []; ledger = []; budget = b; paid = []; lost = [] }

module _ {P : Type 0} (priced : P → ℕ × ℕ × ℕ) (make_fingerprint : String → String → String)
    (complete : Bool → String → String → Option P) (s : Setup) where
  abbrev pub happen : Event → World P → World P
  happen (asks q) w = (generate priced make_fingerprint complete s q w).1
  happen (judges stage q) w = (judge priced make_fingerprint complete stage s q w).1
  happen (restarts b) w = record w { mem = []; budget = b }

  unfoldable pub run_events : List Event → World P → World P
  run_events [] w = w
  run_events (e ∷ es) w = run_events es (happen e w)

  happen-IsKept :
      (fp : String) (e : Event) (w : World P)
      → AllLedgered make_fingerprint s fp e
      → IsKept (s.job_id) fp w
      → IsKept (s.job_id) fp (happen e w)
  happen-IsKept fp (asks q) w ok h = generate-IsKept s q fp ok priced make_fingerprint complete w h
  happen-IsKept fp (judges stage q) w (ok, other) h =
      judge-IsKept priced make_fingerprint complete stage s q fp ok other w h
  happen-IsKept fp (restarts b) w ok h =
      restarted-IsPaidOnce (s.job_id) fp (w.ledger) (w.mem) (w.paid) (w.lost) h

  run_events-IsKept :
      (fp : String) (es : List Event) (w : World P)
      → All (AllLedgered make_fingerprint s fp) es
      → IsKept (s.job_id) fp w
      → IsKept (s.job_id) fp (run_events es w)
  unfolding run_events
  run_events-IsKept fp [] w ok h = h
  run_events-IsKept fp (e ∷ es) w (ok, oks) h =
      run_events-IsKept fp es (happen e w) oks (happen-IsKept fp e w ok h)

  -- Over any generations, judgements and restarts of a job's gateway, from an empty ledger and an empty cache,
  -- as long as it has a job and a ledger that does not fail, the provider answers at most once more for one
  -- fingerprint of a generation, which no judgement has, than its answer is lost, because the reconciliation of
  -- the budget drops it or because the process ends before it is recorded.
  pub run_events-paid :
      (fp : String) (es : List Event) (b : Option BudgetState)
      → All (AllLedgered make_fingerprint s fp) es
      → times fp (run_events es (fresh b)).paid ≤ suc (times fp (run_events es (fresh b)).lost)
  unfolding IsPaidOnce find_row get
  run_events-paid fp es b ok = by (run_events-IsKept fp es (fresh b) ok start)
    where
      start : IsKept {P = P} (s.job_id) fp (fresh b)
      start = inr (refl, refl, ground arith)

      by :
          IsKept (s.job_id) fp (run_events es (fresh b))
          → times fp (run_events es (fresh b)).paid ≤ suc (times fp (run_events es (fresh b)).lost)
      by (inl (r, p, q, u, c)) = c
      by (inr (q, m, c)) = ground (arith, c)
