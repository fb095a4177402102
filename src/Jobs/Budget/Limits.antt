-- ===== src/Jobs/Budget/Limits.antt =====
-- What a passed check certifies.
use knovaryn.Base.{
  ℕ, ◌<◌, ◌≡◌, refl, ◌↔◌, false, String, [], ◌∷◌, Option, none, some, leb, arith, leb-false,
  lt→leb-false,
}
use knovaryn.Dict
use knovaryn.Dict.{Dict}
use knovaryn.Jobs.Budget.{BudgetState, reached, sub_reached, check}

-- A use lies below a limit, where there is one.
abbrev pub Below : ℕ → Option ℕ → Type 0
Below used none = Unit
Below used (some maximum) = used < maximum

-- The cost of a named model or stage lies below its cap, where it has one.
abbrev pub BelowCap : Option String → Dict ℕ → Dict ℕ → Type 0
BelowCap none caps spent = Unit
BelowCap (some key) caps spent = Below (Dict.get_or spent key 0) (Dict.get caps key)

pub record IsWithin (b : BudgetState) (dt : ℕ) (model stage : Option String) : Type 0 where
  pub cost_below : b.spent_cost < b.maximum_cost
  pub calls_below : b.calls_made < b.maximum_calls
  pub examples_below : b.examples_produced < b.maximum_examples
  pub input_below : Below b.input_tokens b.maximum_input_tokens
  pub output_below : Below b.output_tokens b.maximum_output_tokens
  pub duration_below : Below dt b.maximum_duration
  pub model_below : BelowCap model b.per_model_max_cost b.model_spent_cost
  pub stage_below : BelowCap stage b.per_stage_max_cost b.stage_spent_cost

reached-Below : (used : ℕ) (o : Option ℕ) → (reached used o ≡ false) ↔ Below used o
unfolding reached
reached-Below used none = (λ _. tt, λ _. refl)
reached-Below used (some m) = (λ h. ground (arith, h), λ h. ground (arith, h))

sub_reached-BelowCap :
    (key : Option String) (caps spent : Dict ℕ)
    → (sub_reached key caps spent ≡ false) ↔ BelowCap key caps spent
unfolding sub_reached
sub_reached-BelowCap none caps spent = (λ _. tt, λ _. refl)
sub_reached-BelowCap (some k) [] spent = unfold Dict.get in (λ _. tt, λ _. refl)
sub_reached-BelowCap (some k) (cap ∷ caps) spent =
    reached-Below (Dict.get_or spent k 0) (Dict.get (cap ∷ caps) k)

module _ (b : BudgetState) (dt : ℕ) (model stage : Option String) where
  abbrev AllFalse : Type 0
  AllFalse =
      (leb b.maximum_cost b.spent_cost ≡ false)
      × (leb b.maximum_calls b.calls_made ≡ false)
      × (leb b.maximum_examples b.examples_produced ≡ false)
      × (reached b.input_tokens b.maximum_input_tokens ≡ false)
      × (reached b.output_tokens b.maximum_output_tokens ≡ false)
      × (reached dt b.maximum_duration ≡ false)
      × (sub_reached model b.per_model_max_cost b.model_spent_cost ≡ false)
      × (sub_reached stage b.per_stage_max_cost b.stage_spent_cost ≡ false)

  passes : check b dt model stage ≡ none → AllFalse
  unfolding check
  passes h = ground (arith, h)

  -- A check passes exactly if every counter lies strictly below its limit, and the costs of the
  -- model and the stage that are named below their caps; limits and caps that are not set do not
  -- count.
  pub check-iff_IsWithin : (check b dt model stage ≡ none) ↔ IsWithin b dt model stage
  check-iff_IsWithin = (
    λ h.
        let f = passes h in
        record {
          cost_below = omega (arith, f.0, leb-false);
          calls_below = omega (arith, f.1, leb-false);
          examples_below = omega (arith, f.2, leb-false);
          input_below = (reached-Below _ _).0 f.3;
          output_below = (reached-Below _ _).0 f.4;
          duration_below = (reached-Below _ _).0 f.5;
          model_below = (sub_reached-BelowCap model _ _).0 f.6;
          stage_below = (sub_reached-BelowCap stage _ _).0 f.7;
        },
    λ w.
        unfold check in
        rw
          (
            lt→leb-false _ _ w.cost_below,
            lt→leb-false _ _ w.calls_below,
            lt→leb-false _ _ w.examples_below,
            (reached-Below _ _).1 w.input_below,
            (reached-Below _ _).1 w.output_below,
            (reached-Below _ _).1 w.duration_below,
            (sub_reached-BelowCap model _ _).1 w.model_below,
            (sub_reached-BelowCap stage _ _).1 w.stage_below,
          )
          refl,
  )
