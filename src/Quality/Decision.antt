-- ===== src/Quality/Decision.antt =====
-- What an accepted example has been assessed for.
use knovaryn.Base.{
  is_empty, ℕ, ◌≤◌, ◌*◌, ◌≡◌, ◌⊎◌, inl, inr, refl, sym, subst, ◌∙◌, arith, Bool, true, false, not,
  ◌&&◌, String, str_eq, List, none, some, All, if◌then◌else◌, max, length, sum_by, ◌+◌,
}
use knovaryn.Dict.{Dict, get, get_or, put, has, get-put_ne}
use knovaryn.Review.{accepted}
use native.Mathlib.Nat.{mul-le-mul_left}
use knovaryn.Planner.TopUp.{round_half_even, rounding}
use knovaryn.Quality.{
  verified, unverified, Assessment, default_policy, with_alias, with_preference, dims_of, critical,
  is_failed, is_unverified, failed_critical, unverified_critical, overall_of, assemble_decision,
}
use knovaryn.Quality.Tables.{
  filter-empty, settled, raw_of, fill_in-dims_ne, fill_in-dims_self, verify-plain, dims-plain,
  verify-fulfillment,
}
use knovaryn.Quality.Floors.{
  policy_reasons-empty, decide_on-accepted, decide_on-score, Has, IsVerified, verified-Has,
  score-Has,
}

-- What has been assessed of an example that is accepted.
pub record IsCertified (is_preference : Bool) (given : List Assessment) : Type 0 where
  pub grounding : Has given "grounding" IsVerified
  pub grounded : Has given "grounding" (λ a. 900000 ≤ a.score)
  pub schema : Has given "schema" IsVerified
  pub answerability : Has given "answerability" IsVerified
  pub semantic_consistency : Has given "semantic_consistency" IsVerified
  pub fulfilled :
      Has given "instruction_fulfillment" (λ a. 800000 ≤ a.score)
      ⊎ Has given "completeness" (λ a. 800000 ≤ a.score)
  pub fulfillment :
      Has given "instruction_fulfillment" IsVerified ⊎ Has given "completeness" IsVerified
  pub artifact_resistance : Has given "artifact_resistance" (λ a. 750000 ≤ a.score)
  pub preference_signal :
      is_preference ≡ true → Has given "preference_signal" (λ a. 700000 ≤ a.score)
  pub overall : 820000 ≤ (assemble_decision default_policy is_preference given).score
  pub mean :
      let scores = (dims_of is_preference given).dims in
      16399 * (max (length scores) 1 * 100) ≤ 2 * sum_by (λ e. e.1) scores

-- The mean of the scores is rounded to ten-thousandths.
overall_of-mean :
    (scores : Dict ℕ)
    → 820000 ≤ overall_of scores * 100
    → 16399 * (max (length scores) 1 * 100) ≤ 2 * sum_by (λ e. e.1) scores
unfolding overall_of
overall_of-mean scores h =
    by (sum_by (λ e. e.1) scores) (max (length scores) 1 * 100)
      (round_half_even (sum_by (λ e. e.1) scores) (max (length scores) 1 * 100))
      (rounding (sum_by (λ e. e.1) scores) (max (length scores) 1 * 100) (omega arith)).0
      (omega (arith, h))
  where
    by :
        (total weight mean : ℕ)
        → 2 * (weight * mean) ≤ 2 * total + weight
        → 8200 ≤ mean
        → 16399 * weight ≤ 2 * total
    by total weight mean near high =
        let more : weight * 8200 ≤ weight * mean = mul-le-mul_left weight high in
        omega (arith, near, more)

module _ (p : Bool) (given : List Assessment) where
  pub critical-verified :
      is_empty (failed_critical (dims_of p given)) ≡ true
      → is_empty (unverified_critical (dims_of p given)) ≡ true
      → All (λ k. get (dims_of p given).verify k ≡ some verified) critical
  unfolding failed_critical unverified_critical
  critical-verified e f =
      let v = (dims_of p given).verify in
      let (g0, (g1, (g2, (g3, (g4, g5))))) = filter-empty (λ k. is_failed (get v k)) critical e in
      let (h0, (h1, (h2, (h3, (h4, h5))))) =
        filter-empty (λ k. is_unverified (get v k)) critical f in
      (
        settled _ g0 h0,
        (settled _ g1 h1, (settled _ g2 h2, (settled _ g3 h3, (settled _ g4 h4, tt)))),
      )

  score-plain :
      (k : String) (least : ℕ)
      → str_eq "overall" k ≡ false
      → str_eq "instruction_fulfillment" k ≡ false
      → str_eq "preference_signal" k ≡ false
      → 1 ≤ least
      → (overall : ℕ) → least ≤ get_or (put (dims_of p given).dims "overall" overall) k 0
      → Has given k (λ a. least ≤ a.score)
  unfolding get_or
  score-plain k least a b c l overall h = score-Has given k least l (
      subst (λ o. least ≤ elim o [ none ↦ 0 | some w ↦ w ])
        (get-put_ne (dims_of p given).dims "overall" k overall a ∙ dims-plain p given k b c) h)

  pub score-preference :
      (overall : ℕ)
      → p ≡ true
      → 700000 ≤ get_or (put (dims_of p given).dims "overall" overall) "preference_signal" 0
      → Has given "preference_signal" (λ a. 700000 ≤ a.score)
  unfolding get_or dims_of with_preference with_alias
  score-preference overall e h =
      by (p && not (has (with_alias (raw_of given)).dims "preference_signal")) (
        subst (λ o. 700000 ≤ elim o [ none ↦ 0 | some w ↦ w ])
          (get-put_ne (dims_of p given).dims "overall" "preference_signal" overall refl
            ∙ fill_in-dims_self _ "preference_signal" 0 unverified (with_alias (raw_of given)))
          h)
    where
      by :
          (b : Bool)
          → 700000
            ≤ elim (if b
                then some 0
                else get (with_alias (raw_of given)).dims "preference_signal") [
                  | none ↦ 0
                  | some w ↦ w
                ]
          → Has given "preference_signal" (λ a. 700000 ≤ a.score)
      by true m = absurd (omega (arith, m))
      by false m = score-Has given "preference_signal" 700000 (omega arith) (
          subst (λ o. 700000 ≤ elim o [ none ↦ 0 | some w ↦ w ])
            (fill_in-dims_ne _ "instruction_fulfillment" "preference_signal" _ _ (raw_of given)
              refl)
            m)

  pub score-fulfillment :
      (overall : ℕ)
      → 800000 ≤ get_or (put (dims_of p given).dims "overall" overall) "instruction_fulfillment" 0
      → Has given "instruction_fulfillment" (λ a. 800000 ≤ a.score)
        ⊎ Has given "completeness" (λ a. 800000 ≤ a.score)
  unfolding get_or dims_of with_preference with_alias
  score-fulfillment overall h =
      by
        (not (has (raw_of given).dims "instruction_fulfillment")
          && has (raw_of given).dims "completeness")
        (subst (λ o. 800000 ≤ elim o [ none ↦ 0 | some w ↦ w ])
          (get-put_ne (dims_of p given).dims "overall" "instruction_fulfillment" overall refl
            ∙ (fill_in-dims_ne _ "preference_signal" "instruction_fulfillment" 0 unverified
                  (with_alias (raw_of given)) refl
                ∙ fill_in-dims_self _ "instruction_fulfillment" _ _ (raw_of given)))
          h)
    where
      by :
          (b : Bool)
          → 800000
            ≤ elim (if b
                then some (get_or (raw_of given).dims "completeness" 0)
                else get (raw_of given).dims "instruction_fulfillment") [ none ↦ 0 | some w ↦ w ]
          → Has given "instruction_fulfillment" (λ a. 800000 ≤ a.score)
            ⊎ Has given "completeness" (λ a. 800000 ≤ a.score)
      by true m = inr (score-Has given "completeness" 800000 (omega arith) m)
      by false m = inl (score-Has given "instruction_fulfillment" 800000 (omega arith) m)

  -- An example is accepted by the default policy only if its list has verified assessments of the grounding,
  -- the schema, the answerability and the semantic consistency, and of the fulfilment or the completeness, a
  -- grounding of 0.9 at least, a fulfilment or a completeness of 0.8 at least, an artifact resistance of 0.75
  -- at least, and, if it is a preference pair, a preference signal of 0.7 at least, and if its overall score
  -- is 0.82 at least, and so the mean of the table of its scores at least 0.81995.
  pub assemble_decision-IsCertified :
      (assemble_decision default_policy p given).status ≡ accepted → IsCertified p given
  unfolding assemble_decision
  assemble_decision-IsCertified e =
      let d = dims_of p given in
      let (no_failed, no_unverified, no_reason) = decide_on-accepted default_policy p d e in
      let (g, (s, (a, (f, (c, t))))) = critical-verified no_failed no_unverified in
      let overall = overall_of (d.dims) * 100 in
      let (ground_score, fulfilled, mean, artifact, preference) =
        policy_reasons-empty default_policy (put (d.dims) "overall" overall) overall p no_reason in
      record {
        grounding = plain "grounding" refl refl g;
        grounded = score-plain "grounding" 900000 refl refl refl (omega arith) overall ground_score;
        schema = plain "schema" refl refl s;
        answerability = plain "answerability" refl refl a;
        semantic_consistency = plain "semantic_consistency" refl refl c;
        fulfilled = score-fulfillment overall fulfilled;
        overall = subst (λ s. 820000 ≤ s) (sym (decide_on-score default_policy p d)) mean;
        mean = overall_of-mean (d.dims) mean;
        fulfillment = elim (verify-fulfillment p given f) [
          | inl h ↦ inl (verified-Has given "instruction_fulfillment" h)
          | inr h ↦ inr (verified-Has given "completeness" h)
        ];
        artifact_resistance =
            score-plain "artifact_resistance" 750000 refl refl refl (omega arith) overall artifact;
        preference_signal = λ h. score-preference overall h (preference h);
      }
    where
      plain :
          (k : String)
          → str_eq "instruction_fulfillment" k ≡ false
          → str_eq "preference_signal" k ≡ false
          → get (dims_of p given).verify k ≡ some verified
          → Has given k IsVerified
      plain k x y h = verified-Has given k (sym (verify-plain p given k x y) ∙ h)
