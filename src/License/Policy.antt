-- ===== src/License/Policy.antt =====
-- What a declared license is classified as.
use knovaryn.Base.{
  ℕ, ◌≡◌, ◌≢◌, refl, sym, ◌∙◌, Bool, true, false, ◌||◌, ◌↔◌, List, [], ◌∷◌, some, arith, any,
  if◌then◌else◌,
}
use knovaryn.Text.{starts, infix_of, ends, text_eq, lower, strip}
use knovaryn.License.{
  allowed, review, blocked, allowed_tokens, review_names, blocked_names, among, classify_key,
  classify_declared, classify, license_status,
}

text_eq-starts : (s t : List ℕ) → text_eq s t ≡ true → starts s t ≡ true
unfolding text_eq starts
text_eq-starts [] t h = refl
text_eq-starts (c ∷ s) [] h = absurd (cc h)
text_eq-starts (c ∷ s) (d ∷ t) h = ground (arith, h, text_eq-starts s t)

text_eq-infix : (s t : List ℕ) → text_eq s t ≡ true → infix_of s t ≡ true
unfolding infix_of
text_eq-infix s [] h = text_eq-starts s [] h
text_eq-infix s (d ∷ t) h = ground (arith, text_eq-starts s (d ∷ t) h)

ends-infix : (s t : List ℕ) → ends s t ≡ true → infix_of s t ≡ true
unfolding ends infix_of
ends-infix s [] h = text_eq-starts s [] h
ends-infix s (d ∷ t) h = ground (arith, h, text_eq-starts s (d ∷ t), ends-infix s t)

any-tokens :
    (tokens : List (List ℕ)) (key : List ℕ)
    → (among tokens key || any (λ token. ends token key || infix_of token key) tokens)
      ≡ any (λ token. infix_of token key) tokens
any-tokens [] key = refl
any-tokens (s ∷ tokens) key =
    ground (arith, text_eq-infix s key, ends-infix s key, any-tokens tokens key)

choice-allowed :
    (b a t r : Bool)
    → ((if b
          then blocked
          else if a
          then allowed
          else if t
          then allowed
          else if r
          then review
          else review)
        ≡ allowed)
      ↔ ((b ≡ false) × ((a || t) ≡ true))
choice-allowed b a t r = ground arith

classify_key-allowed :
    (key : List ℕ)
    → (classify_key review key ≡ allowed) ↔ (
        (among blocked_names key ≡ false)
        × (any (λ token. infix_of token key) allowed_tokens ≡ true))
unfolding classify_key
classify_key-allowed key =
    let tokens = any-tokens allowed_tokens key in
    let c =
      choice-allowed (among blocked_names key) (among allowed_tokens key)
        (any (λ token. ends token key || infix_of token key) allowed_tokens)
        (among review_names key) in
    (λ h. let k = c.0 h in (k.0, sym tokens ∙ k.1), λ h. c.1 (h.0, tokens ∙ h.1))

-- A declared license that is not empty is allowed exactly if, stripped and in lower case, it is none
-- of the blocked names and contains one of the allowed tokens anywhere.
pub license_status-allowed :
    (declared : List ℕ)
    → declared ≢ []
    → (license_status (some declared) ≡ allowed) ↔ (
        (among blocked_names (lower (strip declared)) ≡ false)
        × (any (λ token. infix_of token (lower (strip declared))) allowed_tokens ≡ true))
unfolding license_status classify classify_declared
license_status-allowed [] h = absurd (h refl)
license_status-allowed (c ∷ s) h = classify_key-allowed (lower (strip (c ∷ s)))
