-- ===== src/Quality/Semantic/Founded.antt =====
-- What an entailed claim of the composite verifier rests on.
use mathlib.Core.List.{Memᴰ}
use knovaryn.Base.{
  ◌≡◌, inl, inr, refl, sym, ap, subst, ◌∙◌, Bool, true, false, String, str_eq, eq_iff, List, [],
  ◌∷◌, map, is_empty, Option, none, some, All, All-Memᴰ, Bool-cases, if◌then◌else◌,
}
use knovaryn.Quality.Claims.{entailed, contradicted, unverified, AtomicClaim, ClaimAssessment}
use knovaryn.Quality.Semantic.{
  finding, assess_claim, assess_claims, Item, is_contradicted, assess_judged, matching, merge_one,
  Composite, open_claims, judgements, assess_composite,
}
use knovaryn.Quality.Semantic.Said.{finding-IsDemotion, not_entailed, IsSaid, assess_judged-Follows}

matching-some :
    (t : String) (ms : List ClaimAssessment) (m : ClaimAssessment)
    → matching t ms ≡ some m
    → Memᴰ m ms × (m.claim.text ≡ t)
unfolding matching
matching-some t [] m e = absurd cc
matching-some t (x ∷ ms) m e = elim (Bool-cases (str_eq (x.claim.text) t)) [
  | inl h ↦
      let z : some x ≡ some m = (rw h at e) in
      let q : x ≡ m = cc in
      (Memᴰ.head (sym q), ap (λ y. y.claim.text) (sym q) ∙ (eq_iff (x.claim.text) t).0 h)
  | inr h ↦ let (mem, same) = matching-some t ms m (rw h at e) in (Memᴰ.tail mem, same)
]

module _ (js : List ClaimAssessment) (d : ClaimAssessment) where
  merge_one-final : is_contradicted (d.verdict) ≡ true → merge_one js d ≡ d
  unfolding merge_one
  merge_one-final e =
      ap (λ b. if b then d else elim (matching (d.claim.text) js) [ none ↦ d | some m ↦ m ]) e

  merge_one-open :
      is_contradicted (d.verdict) ≡ false
      → merge_one js d ≡ elim (matching (d.claim.text) js) [ none ↦ d | some m ↦ m ]
  unfolding merge_one
  merge_one-open e =
      ap (λ b. if b then d else elim (matching (d.claim.text) js) [ none ↦ d | some m ↦ m ]) e

-- Two lists, element by element.
abbrev pub Each :
    (AtomicClaim → ClaimAssessment → Type 0) → List AtomicClaim → List ClaimAssessment → Type 0
Each R [] [] = true ≡ true
Each R (c ∷ cs) (a ∷ rest) = R c a × Each R cs rest
Each R _ _ = true ≡ false

Each-map :
    (R : AtomicClaim → ClaimAssessment → Type 0) (f : AtomicClaim → ClaimAssessment)
    (cs : List AtomicClaim)
    → ((c : AtomicClaim) → R c (f c))
    → Each R cs (map f cs)
Each-map R f [] h = refl
Each-map R f (c ∷ cs) h = (h c, Each-map R f cs h)

map-map :
    (f : ClaimAssessment → ClaimAssessment) (g : AtomicClaim → ClaimAssessment)
    (cs : List AtomicClaim)
    → map (λ c. f (g c)) cs ≡ map f (map g cs)
map-map f g [] = refl
map-map f g (c ∷ cs) = ap (λ t. f (g c) ∷ t) (map-map f g cs)

module _ (k : Composite) (cited : List String) (claims : List AtomicClaim) where
  -- The claims that the rules have not contradicted.
  abbrev pub asked : List AtomicClaim
  asked = open_claims (assess_claims (k.checks) cited claims) claims

  pub record IsEntailed (c : AtomicClaim) (a : ClaimAssessment) : Type 0 where
    pub live : k.offline_mode ≡ false
    pub uncontradicted : (finding (k.checks) c).verdict ≡ unverified
    pub judge : List AtomicClaim → Option (List Item)
    pub configured : k.judge ≡ some judge
    pub items : List Item
    pub answered : judge asked ≡ some items
    pub said : IsSaid cited asked items a

  pub record IsFounded (c : AtomicClaim) (a : ClaimAssessment) : Type 0 where
    pub about : a.claim.text ≡ c.text
    pub final : (finding (k.checks) c).verdict ≡ contradicted → a ≡ assess_claim (k.checks) cited c
    pub founded : a.verdict ≡ entailed → IsEntailed c a

  alone : (c : AtomicClaim) → IsFounded c (assess_claim (k.checks) cited c)
  unfolding assess_claim
  alone c = record {
    about = refl;
    final = λ e. refl;
    founded = λ e. absurd (
        let z = not_entailed (finding (k.checks) c).verdict (finding-IsDemotion (k.checks) c) e in
        cc);
  }

  module _ (j : List AtomicClaim → Option (List Item)) (configured : k.judge ≡ some j)
      (live : k.offline_mode ≡ false) where
    abbrev Backed : ClaimAssessment → Type 0
    Backed a =
        a.verdict ≡ entailed
        → (items : List Item) × (j asked ≡ some items) × IsSaid cited asked items a

    judgements-Backed : All Backed (judgements (k.identity) j cited asked)
    unfolding judgements
    judgements-Backed = by (is_empty asked)
      where
        by :
            (b : Bool)
            → All Backed (if b then [] else assess_judged (k.identity) cited asked (j asked))
        by true = tt
        by false = assess_judged-Follows cited asked (k.identity) (j asked)

    merged-IsFounded :
        (c : AtomicClaim)
        → IsFounded c
            (merge_one (judgements (k.identity) j cited asked) (assess_claim (k.checks) cited c))
    unfolding assess_claim
    merged-IsFounded c = elim (finding-IsDemotion (k.checks) c) [
      | inr e ↦ subst (IsFounded c) (sym (contradicted_stays e)) (alone c)
      | inl e ↦ subst (IsFounded c) (sym (open_matches e)) (found e (matching (c.text) js) refl)
    ]
      where
        js : List ClaimAssessment
        js = judgements (k.identity) j cited asked

        contradicted_stays :
            (finding (k.checks) c).verdict ≡ contradicted
            → merge_one js (assess_claim (k.checks) cited c) ≡ assess_claim (k.checks) cited c
        contradicted_stays e =
            merge_one-final js (assess_claim (k.checks) cited c) (ap is_contradicted e)

        open_matches :
            (finding (k.checks) c).verdict ≡ unverified
            → merge_one js (assess_claim (k.checks) cited c)
              ≡ elim (matching (c.text) js) [ none ↦ assess_claim (k.checks) cited c | some m ↦ m ]
        open_matches e = merge_one-open js (assess_claim (k.checks) cited c) (ap is_contradicted e)

        found :
            (finding (k.checks) c).verdict ≡ unverified
            → (o : Option ClaimAssessment) → matching (c.text) js ≡ o
            → IsFounded c (elim o [ none ↦ assess_claim (k.checks) cited c | some m ↦ m ])
        found e none q = alone c
        found e (some m) q =
            let (mem, same) = matching-some (c.text) js m q in
            record {
              about = same;
              final = λ z. absurd (let w : unverified ≡ contradicted = sym e ∙ z in cc);
              founded = λ z.
                  let (items, answered, said) = All-Memᴰ Backed js judgements-Backed mem z in
                  record {
                    live = live;
                    uncontradicted = e;
                    judge = j;
                    configured = configured;
                    items = items;
                    answered = answered;
                    said = said;
                  };
            }

  -- The composite answers for each claim in its order. A claim that a rule contradicts keeps that finding,
  -- and a claim is entailed only outside the offline mode, if no rule contradicts it, a judge is there, it has
  -- answered on the claims that are not contradicted, an element of its answer says so of a claim with that
  -- text, and the spans it names are cited ones.
  pub assess_composite-IsFounded : Each IsFounded claims (assess_composite k cited claims)
  unfolding assess_composite assess_claims
  assess_composite-IsFounded = by (k.judge) refl (k.offline_mode) refl
    where
      rules_only : Each IsFounded claims (assess_claims (k.checks) cited claims)
      rules_only = Each-map IsFounded (assess_claim (k.checks) cited) claims alone

      by :
          (o : Option (List AtomicClaim → Option (List Item)))
          → k.judge ≡ o
          → (b : Bool) → k.offline_mode ≡ b
          → Each IsFounded claims (elim o [
            | none ↦ assess_claims (k.checks) cited claims
            | some j ↦
                if b
                then assess_claims (k.checks) cited claims
                else map
                    (merge_one (judgements (k.identity) j cited asked))
                    (assess_claims (k.checks) cited claims)
          ])
      by none e b f = rules_only
      by (some j) e true f = rules_only
      by (some j) e false f =
          subst (Each IsFounded claims)
            (map-map (merge_one (judgements (k.identity) j cited asked))
              (assess_claim (k.checks) cited) claims)
            (Each-map IsFounded _ claims (merged-IsFounded j e f))
