-- ===== src/Planner/TopUp.antt =====
-- top_up_plan of knovaryn/pipeline/planner.py: the plan that fills a shortfall after validation.
-- Shares are rounded exactly, where the code has floats.
use knovaryn.Base.{
  ℕ, suc, ◌+◌, ◌-◌, ◌*◌, ◌/◌, ◌%◌, ◌≤◌, ◌<◌, ltb, ◌==◌, ==_iff, Bool, true, false, List, [], ◌∷◌,
  ◌≡◌, refl, arith, Option, none, some, if◌then◌else◌, sum_by, length, Bool-cases, inl, inr, ◌⊎◌,
}
use native.Mathlib.Omega.{div_any}
use native.Mathlib.Nat.{le_of_mul-le-mul_left, mod-lt}
use knovaryn.Planner.{AssignmentSpec, PlanResult}

pub record TopUpResult : Type 0 where
  pub shortfall : ℕ
  pub additional : ℕ
  pub capped_by_budget : Bool
  pub specs : List AssignmentSpec

-- round(a / b), to the even number when halfway.
unfoldable pub round_half_even : ℕ → ℕ → ℕ
round_half_even a b =
    if ltb (2 * (a % b)) b
    then a / b
    else if ltb b (2 * (a % b))
    then a / b + 1
    else a / b + a / b % 2

unfoldable pub share_of : ℕ → ℕ → AssignmentSpec → ℕ
unfolding round_half_even
share_of wanted weight s = round_half_even (wanted * s.per_chunk) weight

unfoldable pub allocate : ℕ → ℕ → List AssignmentSpec → List AssignmentSpec
unfolding share_of
allocate wanted weight [] = []
allocate wanted weight (s ∷ ss) =
    let rest = allocate wanted weight ss in
    if share_of wanted weight s == 0
    then rest
    else record s { per_chunk = share_of wanted weight s } ∷ rest

abbrev pub planned_by : List AssignmentSpec → ℕ
planned_by ss = sum_by (λ s. s.per_chunk) ss

-- `sum(...) or 1`
unfoldable pub weight_of : List AssignmentSpec → ℕ
weight_of ss = if planned_by ss == 0 then 1 else planned_by ss

-- What is added, and whether the budget caps it.
unfoldable pub wanted_within : ℕ → Option ℕ → ℕ → ℕ × Bool
wanted_within shortfall none planned = (shortfall, false)
wanted_within shortfall (some cap) planned =
    if ltb (cap - planned) shortfall then (cap - planned, true) else (shortfall, false)

unfoldable pub top_up : ℕ → ℕ × Bool → List AssignmentSpec → TopUpResult
unfolding allocate weight_of
top_up shortfall (wanted, capped) specs =
    let more = allocate wanted (weight_of specs) specs in
    if wanted == 0
    then record { shortfall = shortfall; additional = 0; capped_by_budget = true; specs = [] }
    else record {
      shortfall = shortfall;
      additional = planned_by more;
      capped_by_budget = capped;
      specs = more;
    }

unfoldable pub top_up_plan : PlanResult → ℕ → ℕ → Option ℕ → TopUpResult
unfolding wanted_within top_up
top_up_plan p target validated cap =
    if target - validated == 0
    then record { shortfall = 0; additional = 0; capped_by_budget = false; specs = [] }
    else top_up (target - validated)
        (wanted_within (target - validated) cap (p.total_expected_examples)) (p.specs)

-- Rounding is off by half at most.
pub rounding :
    (a b : ℕ)
    → 0 < b
    → (2 * (b * round_half_even a b) ≤ 2 * a + b) × (2 * a ≤ 2 * (b * round_half_even a b) + b)
unfolding round_half_even
rounding a b l = elim (Bool-cases (ltb (2 * (a % b)) b)) [
  | inl e ↦ rw e (ground (arith, e, div_any a b), ground (arith, e, div_any a b))
  | inr e ↦ rw e (from_half (a / b) (a % b) (ltb b (2 * (a % b))) e refl (div_any a b) (mod-lt a l))
]
  where
    from_half :
        (q r : ℕ) (up : Bool)
        → ltb (2 * r) b ≡ false
        → ltb b (2 * r) ≡ up
        → b * q + r ≡ a
        → r < b
        → let share : ℕ = if up then q + 1 else q + q % 2 in
          (2 * (b * share) ≤ 2 * a + b) × (2 * a ≤ 2 * (b * share) + b)
    from_half q r true e u d m = ground (arith, e, u, d, m)
    from_half q r false e u d m = elim (Bool-cases (q % 2 == 0)) [
      | inl z ↦ let w : q % 2 ≡ 0 = ground (arith, z) in rw w (ground (arith, e, u, d, m))
      | inr z ↦ let w : q % 2 ≡ 1 = ground (arith, z) in rw w (ground (arith, e, u, d, m))
    ]

allocate-nil : (wanted weight : ℕ) → allocate wanted weight [] ≡ []
unfolding allocate
allocate-nil wanted weight = refl

allocate-cons :
    (wanted weight : ℕ) (s : AssignmentSpec) (ss : List AssignmentSpec)
    → planned_by (allocate wanted weight (s ∷ ss))
      ≡ share_of wanted weight s + planned_by (allocate wanted weight ss)
unfolding allocate
allocate-cons wanted weight s ss = elim (Bool-cases (share_of wanted weight s == 0)) [
  | inl e ↦ rw e (omega (arith, (==_iff (share_of wanted weight s) 0).0 e))
  | inr e ↦ rw e refl
]

-- The shares together are off by half an example for each spec at most.
allocate-bounds :
    (wanted weight : ℕ) (ss : List AssignmentSpec)
    → 0 < weight
    → (2 * (weight * planned_by (allocate wanted weight ss))
        ≤ 2 * (wanted * planned_by ss) + weight * length ss)
      × (2 * (wanted * planned_by ss)
          ≤ 2 * (weight * planned_by (allocate wanted weight ss)) + weight * length ss)
unfolding share_of
allocate-bounds wanted weight [] l = rw (allocate-nil wanted weight) (omega arith, omega arith)
allocate-bounds wanted weight (s ∷ ss) l = rw (allocate-cons wanted weight s ss) (
    add_bounds (share_of wanted weight s) (s.per_chunk) (planned_by (allocate wanted weight ss))
      (planned_by ss) (length ss) (rounding (wanted * s.per_chunk) weight l)
      (allocate-bounds wanted weight ss l))
  where
    add_bounds :
        (share part rest others n : ℕ)
        → (2 * (weight * share) ≤ 2 * (wanted * part) + weight)
          × (2 * (wanted * part) ≤ 2 * (weight * share) + weight)
        → (2 * (weight * rest) ≤ 2 * (wanted * others) + weight * n)
          × (2 * (wanted * others) ≤ 2 * (weight * rest) + weight * n)
        → (2 * (weight * (share + rest)) ≤ 2 * (wanted * (part + others)) + weight * suc n)
          × (2 * (wanted * (part + others)) ≤ 2 * (weight * (share + rest)) + weight * suc n)
    add_bounds share part rest others n h k = (omega (arith, h, k), omega (arith, h, k))

-- The weight cancels.
share-bounds :
    (wanted : ℕ) (ss : List AssignmentSpec)
    → 0 < planned_by ss
    → let more : ℕ = planned_by (allocate wanted (weight_of ss) ss) in
      (2 * more ≤ 2 * wanted + length ss) × (2 * wanted ≤ 2 * more + length ss)
unfolding weight_of
share-bounds wanted ss l =
    let same : weight_of ss ≡ planned_by ss = ground (arith, l) in
    rw same (
      cancel (planned_by (allocate wanted (planned_by ss) ss)) (planned_by ss) l
        (allocate-bounds wanted (planned_by ss) ss l))
  where
    cancel :
        (more weight : ℕ)
        → 0 < weight
        → (2 * (weight * more) ≤ 2 * (wanted * weight) + weight * length ss)
          × (2 * (wanted * weight) ≤ 2 * (weight * more) + weight * length ss)
        → (2 * more ≤ 2 * wanted + length ss) × (2 * wanted ≤ 2 * more + length ss)
    cancel more weight l h = (
      le_of_mul-le-mul_left {m = 2 * more} {n = 2 * wanted + length ss} {k = weight}
          (omega (arith, h.0)) l,
      le_of_mul-le-mul_left {m = 2 * wanted} {n = 2 * more + length ss} {k = weight}
          (omega (arith, h.1)) l,
    )

-- Without a weight no spec gets a share.
share_of-zero : (wanted : ℕ) (s : AssignmentSpec) → s.per_chunk ≡ 0 → share_of wanted 1 s ≡ 0
unfolding share_of round_half_even
share_of-zero wanted s e = let nothing : wanted * 0 ≡ 0 = omega arith in rw (e, nothing) refl

allocate-zero :
    (wanted : ℕ) (ss : List AssignmentSpec)
    → planned_by ss ≡ 0
    → planned_by (allocate wanted 1 ss) ≡ 0
allocate-zero wanted [] e = rw (allocate-nil wanted 1) refl
allocate-zero wanted (s ∷ ss) e =
    let none_here = share_of-zero wanted s (omega (arith, e)) in
    let none_after = allocate-zero wanted ss (omega (arith, e)) in
    rw (allocate-cons wanted 1 s ss) (omega (arith, none_here, none_after))

-- The specs of the plan weigh something, and what is added differs from what is wanted by half an example
-- for each of them at most; or they weigh nothing, and nothing is added.
abbrev pub IsRounded : ℕ → ℕ → List AssignmentSpec → Type 0
IsRounded wanted additional ss =
    ((0 < planned_by ss)
      × (2 * additional ≤ 2 * wanted + length ss)
      × (2 * wanted ≤ 2 * additional + length ss))
    ⊎ ((planned_by ss ≡ 0) × (additional ≡ 0))

weighs : (ss : List AssignmentSpec) → (0 < planned_by ss) ⊎ (planned_by ss ≡ 0)
weighs ss = ground arith

nothing-IsRounded : (wanted : ℕ) (ss : List AssignmentSpec) → wanted ≡ 0 → IsRounded wanted 0 ss
nothing-IsRounded wanted ss e = elim (weighs ss) [
  | inl l ↦ inl (l, omega arith, omega (arith, e))
  | inr n ↦ inr (n, refl)
]

allocate-IsRounded :
    (wanted : ℕ) (ss : List AssignmentSpec)
    → IsRounded wanted (planned_by (allocate wanted (weight_of ss) ss)) ss
unfolding weight_of
allocate-IsRounded wanted ss = elim (weighs ss) [
  | inl l ↦ let h = share-bounds wanted ss l in inl (l, h.0, h.1)
  | inr e ↦ inr (e, rw e (allocate-zero wanted ss e))
]

top_up-IsRounded :
    (shortfall : ℕ) (w : ℕ × Bool) (ss : List AssignmentSpec)
    → let r : TopUpResult = top_up shortfall w ss in
      (r.additional ≡ planned_by (r.specs)) × IsRounded w.0 (r.additional) ss
unfolding top_up
top_up-IsRounded shortfall (wanted, capped) ss = elim (Bool-cases (wanted == 0)) [
  | inl e ↦ rw e (refl, nothing-IsRounded wanted ss ((==_iff wanted 0).0 e))
  | inr e ↦ rw e (refl, allocate-IsRounded wanted ss)
]

-- A top-up plans what it says it adds. If the specs of the plan weigh something, that differs from what is
-- wanted, the shortfall or the room under the budget's maximum where that is less, by half an example for
-- each spec at most; if they weigh nothing, as where there are none, nothing is added whatever is wanted.
pub top_up_plan-rounds :
    (p : PlanResult) (target validated : ℕ) (most : Option ℕ)
    → let r : TopUpResult = top_up_plan p target validated most in
      let wanted : ℕ = (wanted_within (target - validated) most (p.total_expected_examples)).0 in
      (r.additional ≡ planned_by (r.specs)) × IsRounded wanted (r.additional) (p.specs)
unfolding top_up_plan wanted_within
top_up_plan-rounds p target validated most = elim (Bool-cases (target - validated == 0)) [
  | inl e ↦ rw e (refl, nothing-IsRounded _ (p.specs) (nothing most e))
  | inr e ↦ rw e (
      top_up-IsRounded (target - validated)
        (wanted_within (target - validated) most (p.total_expected_examples)) (p.specs))
]
  where
    nothing :
        (c : Option ℕ)
        → (target - validated == 0) ≡ true
        → (wanted_within (target - validated) c (p.total_expected_examples)).0 ≡ 0
    nothing none e = ground (arith, e)
    nothing (some n) e = ground (arith, e)
