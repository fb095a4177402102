-- ===== src/Jobs/Budget/Discipline.antt =====
-- The use of the budget by knovaryn/infrastructure/models/gateway.py: check before a call, account
-- it, and check again at once.
use knovaryn.Base.{
  ℕ, ◌+◌, ◌≤◌, ◌<◌, ◌≡◌, refl, List, [], ◌∷◌, Option, none, some, arith, All, Option-cases, inl,
  inr,
}
use knovaryn.Jobs.Budget.{BudgetState, Limit, Call, check, account_call, reconcile}
use knovaryn.Jobs.Budget.Limits.{IsWithin, check-iff_IsWithin}

-- One provider call. The error after the accounting leaves the call accounted.
unfoldable pub guarded_call : Call → BudgetState → BudgetState × Option Limit
guarded_call c b = elim (check b 0 c.model c.stage) [
  | some l ↦ (b, some l)
  | none ↦ let b' = account_call c b in (b', reconcile b' 0 c.model c.stage)
]

-- The calls of a run, up to the first that a limit stops.
unfoldable pub guarded_calls : List Call → BudgetState → BudgetState × Option Limit
guarded_calls [] b = (b, none)
guarded_calls (c ∷ cs) b =
    let (b', o) = guarded_call c b in elim o [ some l ↦ (b', some l) | none ↦ guarded_calls cs b' ]

-- No call too many, and at most one call's cost over.
pub record IsBounded (most : ℕ) (b : BudgetState) : Type 0 where
  pub calls_bounded : b.calls_made ≤ b.maximum_calls
  pub cost_bounded : b.spent_cost ≤ b.maximum_cost + most

abbrev pub IsSingle : ℕ → Call → Type 0
IsSingle most c = (c.cost_of ≤ most) × (c.count ≡ 1)

-- Both limits are left alone, and still have room.
pub record HasRoom (b b' : BudgetState) : Type 0 where
  pub same_cost : b'.maximum_cost ≡ b.maximum_cost
  pub same_calls : b'.maximum_calls ≡ b.maximum_calls
  pub cost_room : b'.spent_cost < b.maximum_cost
  pub calls_room : b'.calls_made < b.maximum_calls

HasRoom-trans : {a b c : BudgetState} → HasRoom a b → HasRoom b c → HasRoom a c
HasRoom-trans p q = omega arith

HasRoom-self : {a b : BudgetState} → HasRoom a b → HasRoom b b
HasRoom-self p = omega arith

account-IsBounded :
    (most : ℕ) (c : Call) (b : BudgetState)
    → IsSingle most c
    → IsWithin b 0 c.model c.stage
    → IsBounded most (account_call c b)
unfolding account_call
account-IsBounded most c b s w = omega (arith, w.calls_below, w.cost_below)

module _ (most : ℕ) where
  guarded_call-IsBounded :
      (c : Call) (b : BudgetState)
      → IsSingle most c
      → IsBounded most b
      → IsBounded most (guarded_call c b).0
  unfolding guarded_call
  guarded_call-IsBounded c b s h = elim (Option-cases (check b 0 c.model c.stage)) [
    | inl e ↦
        rw (e, guarded_call)
          (account-IsBounded most c b s ((check-iff_IsWithin b 0 c.model c.stage).0 e))
    | inr (l, e) ↦ rw (e, guarded_call) h
  ]

  guarded_call-HasRoom :
      (c : Call) (b : BudgetState) → (guarded_call c b).1 ≡ none → HasRoom b (guarded_call c b).0
  unfolding guarded_call
  guarded_call-HasRoom c b = elim (Option-cases (check b 0 c.model c.stage)) [
    | inl e ↦
        rw (e, guarded_call)
          (λ q. room ((check-iff_IsWithin (account_call c b) 0 c.model c.stage).0 (stop q)))
    | inr (l, e) ↦ rw (e, guarded_call) (λ q. cc q)
  ]
    where
      stop :
          reconcile (account_call c b) 0 c.model c.stage ≡ none
          → check (account_call c b) 0 c.model c.stage ≡ none
      stop q = unfold reconcile in q

      room : IsWithin (account_call c b) 0 c.model c.stage → HasRoom b (account_call c b)
      room w =
          unfold account_call in
          record {
            same_cost = refl;
            same_calls = refl;
            cost_room = w.cost_below;
            calls_room = w.calls_below;
          }

  -- From a budget within its limits and with room, a run of single calls, each at most `most` dear,
  -- never makes more calls than the limit and never spends more than the limit and one call; if no
  -- limit has stopped it, both limits have room.
  pub guarded_calls-IsBounded :
      (cs : List Call) (b : BudgetState)
      → All (IsSingle most) cs
      → IsBounded most b
      → HasRoom b b
      → IsBounded most (guarded_calls cs b).0
        × ((guarded_calls cs b).1 ≡ none → HasRoom b (guarded_calls cs b).0)
  unfolding guarded_calls
  guarded_calls-IsBounded [] b s h r = (h, λ _. r)
  guarded_calls-IsBounded (c ∷ cs) b s h r = elim (Option-cases (guarded_call c b).1) [
    | inl e ↦
        let room = guarded_call-HasRoom c b e in
        let rest =
          guarded_calls-IsBounded cs (guarded_call c b).0 s.1 (guarded_call-IsBounded c b s.0 h)
            (HasRoom-self room) in
        rw (e, guarded_calls) (rest.0, λ q. HasRoom-trans room (rest.1 q))
    | inr (l, e) ↦ rw (e, guarded_calls) (guarded_call-IsBounded c b s.0 h, λ q. cc q)
  ]
