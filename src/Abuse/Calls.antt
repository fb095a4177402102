-- ===== src/Abuse/Calls.antt =====
-- The cap on the provider calls of a generation run.
use knovaryn.Base.{
  ℕ, zero, suc, ◌+◌, ◌-◌, ◌≤◌, ◌<◌, min, ◌≡◌, leb, ==_iff, if◌then◌else◌, arith, Bool-cases, inl,
  inr, leb-false,
}
use knovaryn.Abuse.{enforce_provider_call, begin_generation_run}

-- How many of some calls in a row are made, each of them guarded.
unfoldable pub calls_made : ℕ → ℕ → ℕ → ℕ
unfolding enforce_provider_call
calls_made limit zero calls = 0
calls_made limit (suc n) calls =
    let r = enforce_provider_call limit calls in
    let rest = calls_made limit n r.1 in if r.0 then suc rest else rest

calls_made_room :
    (limit n calls : ℕ)
    → 0 < limit
    → calls ≤ limit
    → calls_made limit n calls ≡ min n (limit - calls)
unfolding calls_made
calls_made_room limit zero calls pos le = omega arith
calls_made_room limit (suc n) calls pos le = elim (Bool-cases (leb limit calls)) [
  | inl e ↦ ground (arith, e, ==_iff limit 0, calls_made_room limit n calls pos le)
  | inr e ↦ ground (
    arith,
    e,
    ==_iff limit 0,
    calls_made_room limit n (calls + 1) pos (omega (arith, leb-false limit calls e)),
  )
]

-- With a cap that is not 0, a generation run makes exactly the calls that it attempts, up to the cap.
pub calls_made-min :
    (limit n : ℕ) → 0 < limit → calls_made limit n begin_generation_run ≡ min n limit
unfolding begin_generation_run
calls_made-min limit n pos = omega (arith, calls_made_room limit n 0 pos (omega arith))
