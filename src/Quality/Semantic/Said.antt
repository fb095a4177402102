-- ===== src/Quality/Semantic/Said.antt =====
-- What the entailed claims of a judge rest on.
use mathlib.Core.List.{Memᴰ}
use mathlib.Core.List.Memᴰ
use knovaryn.Base.{
  ℕ, suc, ◌==◌, ◌≡◌, ◌⊎◌, inl, inr, refl, sym, ap, subst, ◌∙◌, Bool, true, false, String, str_eq,
  eq_iff, contains, List, [], ◌∷◌, map, any, get_elem?, Option, none, some, All, All-map, All-of,
  Memᴰ-filter, Bool-cases, if◌then◌else◌,
}
use knovaryn.Quality.Claims.{
  ClaimVerdict, entailed, contradicted, insufficient, unverified, AtomicClaim, ClaimAssessment,
}
use knovaryn.Quality.Semantic.{
  Checks, Finding, no_finding, demote, apply_rules, rules, finding, Item, verdict_of, is_entailed,
  unjudged, judged, numbered_claim, claim_at, missing, read_items, assess_judged,
}

verdict_of-entailed : (v : String) → verdict_of v ≡ entailed → v ≡ "entailed"
verdict_of-entailed v e = elim (Bool-cases (str_eq v "entailed")) [
  | inl h ↦ (eq_iff v "entailed").0 h
  | inr h ↦ elim (Bool-cases (str_eq v "contradicted")) [
    | inl h2 ↦ absurd (let z : contradicted ≡ entailed = (rw (h, h2) at e) in cc)
    | inr h2 ↦ elim (Bool-cases (str_eq v "insufficient_evidence")) [
      | inl h3 ↦ absurd (let z : insufficient ≡ entailed = (rw (h, h2, h3) at e) in cc)
      | inr h3 ↦ absurd (let z : unverified ≡ entailed = (rw (h, h2, h3) at e) in cc)
    ]
  ]
]

-- The deterministic rules never call a claim entailed.
abbrev IsDemotion : ClaimVerdict → Type 0
IsDemotion v = (v ≡ unverified) ⊎ (v ≡ contradicted)

demote-IsDemotion :
    (codes : List String) (confidence : ℕ → ℕ) (f : Finding)
    → IsDemotion (f.verdict)
    → IsDemotion (demote codes confidence f).verdict
unfolding demote
demote-IsDemotion [] confidence f h = h
demote-IsDemotion (code ∷ codes) confidence f h = inr refl

apply_rules-IsDemotion :
    (rs : List (List String × (ℕ → ℕ))) (f : Finding)
    → IsDemotion (f.verdict)
    → IsDemotion (apply_rules rs f).verdict
unfolding apply_rules
apply_rules-IsDemotion [] f h = h
apply_rules-IsDemotion ((codes, confidence) ∷ rs) f h =
    apply_rules-IsDemotion rs (demote codes confidence f) (demote-IsDemotion codes confidence f h)

pub finding-IsDemotion : (checks : Checks) (c : AtomicClaim) → IsDemotion (finding checks c).verdict
unfolding finding
finding-IsDemotion checks c = apply_rules-IsDemotion (rules checks c) no_finding (inl refl)

pub not_entailed : (v : ClaimVerdict) → IsDemotion v → v ≡ entailed → contradicted ≡ entailed
not_entailed v (inl h) e = absurd (let z : unverified ≡ entailed = sym h ∙ e in cc)
not_entailed v (inr h) e = sym h ∙ e

module _ (cited : List String) (claims : List AtomicClaim) where
  -- An assessment that follows an element of the judge's answer, which says so of that claim.
  pub record IsSaid (items : List Item) (a : ClaimAssessment) : Type 0 where
    pub item : Item
    pub listed : Memᴰ item items
    pub said : item.verdict ≡ "entailed"
    pub index : ℕ
    pub numbered : item.claim_id ≡ some index
    pub asked : get_elem? claims index ≡ some a.claim
    pub spans : All (λ s. contains cited s ≡ true) (a.supporting_span_ids)

  abbrev Follows : List Item → ClaimAssessment → Type 0
  Follows items a = a.verdict ≡ entailed → IsSaid items a

  IsSaid-cons :
      (x : Item) (items : List Item) (a : ClaimAssessment) → IsSaid items a → IsSaid (x ∷ items) a
  IsSaid-cons x items a s = record {
    item = s.item;
    listed = Memᴰ.tail s.listed;
    said = s.said;
    index = s.index;
    numbered = s.numbered;
    asked = s.asked;
    spans = s.spans;
  }

  module _ (identity : String) where
    unjudged-Follows :
        (items : List Item) (code : String) (c : AtomicClaim)
        → Follows items (unjudged identity code c)
    unfolding unjudged
    unjudged-Follows items code c e = absurd cc

    missing-Follows :
        (items : List Item) (seen : List ℕ) (i : ℕ) (cs : List AtomicClaim)
        → All (Follows items) (missing identity seen i cs)
    unfolding missing
    missing-Follows items seen i [] = tt
    missing-Follows items seen i (c ∷ cs) = elim (Bool-cases (any (λ j. i == j) seen)) [
      | inl e ↦ rw e (missing-Follows items seen (suc i) cs)
      | inr e ↦
          rw e (unjudged-Follows items "judge_no_verdict" c, missing-Follows items seen (suc i) cs)
    ]

    all_unjudged :
        (items : List Item) (code : String) (cs : List AtomicClaim)
        → All (Follows items) (map (unjudged identity code) cs)
    all_unjudged items code [] = tt
    all_unjudged items code (c ∷ cs) = (unjudged-Follows items code c, all_unjudged items code cs)

    judged-Follows :
        (items : List Item) (x : Item) (i : ℕ) (c : AtomicClaim)
        → x.claim_id ≡ some i
        → get_elem? claims i ≡ some c
        → Follows (x ∷ items) (judged identity cited x c)
    unfolding judged
    judged-Follows items x i c n g e = record {
      item = x;
      listed = Memᴰ.head refl;
      said = verdict_of-entailed (x.verdict) e;
      index = i;
      numbered = n;
      asked = g;
      spans =
          (let z : is_entailed (verdict_of (x.verdict)) ≡ true = ap is_entailed e in
            rw z (All-of _ _ (λ s m. (Memᴰ-filter (contains cited) (x.evidence_span_ids) m).1)));
    }

    abbrev AllFollow : List Item → Option (List ClaimAssessment) → Type 0
    AllFollow items none = true ≡ true
    AllFollow items (some found) = All (Follows items) found

    AllFollow-cons :
        (x : Item) (items : List Item) (o : Option (List ClaimAssessment))
        → AllFollow items o
        → AllFollow (x ∷ items) o
    AllFollow-cons x items none h = refl
    AllFollow-cons x items (some found) h =
        All-map (Follows items) (Follows (x ∷ items)) found (λ a f e. IsSaid-cons x items a (f e)) h

    claim_at-some :
        (seen : List ℕ) (id : Option ℕ) (i : ℕ) (c : AtomicClaim)
        → claim_at identity claims seen id ≡ some (i, c)
        → (id ≡ some i) × (get_elem? claims i ≡ some c)
    claim_at-some seen none i c e = absurd cc
    claim_at-some seen (some j) i c e = elim (Bool-cases (any (λ k. j == k) seen)) [
      | inl h ↦ absurd (let z : none ≡ some (i, c) = (rw h at e) in cc)
      | inr h ↦ by (get_elem? claims j) refl (rw h at e)
    ]
      where
        by :
            (o : Option AtomicClaim)
            → get_elem? claims j ≡ o
            → numbered_claim identity j o ≡ some (i, c)
            → (some j ≡ some i) × (get_elem? claims i ≡ some c)
        by none g q = absurd cc
        by (some d) g q =
            let pair : ◌≡◌ {A = ℕ × AtomicClaim} (j, d) (i, c) = cc in
            (
              ap (λ z. some z.0) pair,
              subst (λ k. get_elem? claims k ≡ some c) (ap (λ z. z.0) pair)
                  (g ∙ ap (λ z. some z.1) pair),
            )

    add_judged :
        (x : Item) (items : List Item) (i : ℕ) (c : AtomicClaim)
        (rest : Option (List ClaimAssessment))
        → x.claim_id ≡ some i
        → get_elem? claims i ≡ some c
        → AllFollow items rest
        → AllFollow
            (x ∷ items)
            (elim rest [ none ↦ none | some found ↦ some (judged identity cited x c ∷ found) ])
    add_judged x items i c none n g h = refl
    add_judged x items i c (some found) n g h =
        (judged-Follows items x i c n g, AllFollow-cons x items (some found) h)

    read_items-AllFollow :
        (seen : List ℕ) (items : List Item)
        → AllFollow items (read_items identity cited claims seen items)
    unfolding read_items
    read_items-AllFollow seen [] = missing-Follows [] seen 0 claims
    read_items-AllFollow seen (x ∷ items) = if-AllFollow (x.endless) _ (
        by (read_items-AllFollow seen items) (λ i. read_items-AllFollow (i ∷ seen) items)
          (claim_at identity claims seen (x.claim_id)) refl)
      where
        if-AllFollow :
            (b : Bool) (o : Option (List ClaimAssessment))
            → AllFollow (x ∷ items) o
            → AllFollow (x ∷ items) (if b then none else o)
        if-AllFollow true o h = refl
        if-AllFollow false o h = h

        by :
            AllFollow items (read_items identity cited claims seen items)
            → ((i : ℕ) → AllFollow items (read_items identity cited claims (i ∷ seen) items))
            → (o : Option (ℕ × AtomicClaim)) → claim_at identity claims seen (x.claim_id) ≡ o
            → AllFollow (x ∷ items) (elim o [
              | none ↦ read_items identity cited claims seen items
              | some (i, c) ↦
                  if x.malformed
                  then none
                  else elim (read_items identity cited claims (i ∷ seen) items) [
                    | none ↦ none
                    | some found ↦ some (judged identity cited x c ∷ found)
                  ]
            ])
        by skip next none e = AllFollow-cons x items _ skip
        by skip next (some (i, c)) e =
            let (n, g) = claim_at-some seen (x.claim_id) i c e in
            if-AllFollow (x.malformed) _ (add_judged x items i c _ n g (next i))

    -- Nothing is entailed where the judge has failed.
    pub assess_judged-Follows :
        (answer : Option (List Item))
        → All
            (λ a.
              a.verdict ≡ entailed → (items : List Item) × (answer ≡ some items) × IsSaid items a)
            (assess_judged identity cited claims answer)
    unfolding assess_judged
    assess_judged-Follows none =
        All-map (Follows []) _ (map (unjudged identity "model_verifier_failed") claims)
          (λ a f e. absurd (Memᴰ.not-nil (f e).listed))
          (all_unjudged [] "model_verifier_failed" claims)
    assess_judged-Follows (some items) =
        All-map (Follows items) _ _ (λ a f e. (items, refl, f e))
          (by (read_items identity cited claims [] items) (read_items-AllFollow [] items))
      where
        by :
            (o : Option (List ClaimAssessment))
            → AllFollow items o
            → All (Follows items) (elim o [
              | none ↦ map (unjudged identity "model_verifier_failed") claims
              | some found ↦ found
            ])
        by none h = all_unjudged items "model_verifier_failed" claims
        by (some found) h = h
