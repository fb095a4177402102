-- ===== src/Intake/Url/Redirects.antt =====
-- What becomes of redirects, and of the wildcards of an allowlist.
use knovaryn.Base.{
  ℕ, zero, suc, ◌≡◌, ◌⊎◌, inl, inr, refl, sym, ap, subst, ◌∙◌, arith, Bool, true, false, String,
  str_eq, eq_iff, contains, List, [], ◌∷◌, any, Option, none, some, All, if◌then◌else◌, ◌==◌,
}
use knovaryn.Dict.{Dict}
use knovaryn.Text.{codes, starts, ends, text_eq}
use knovaryn.Intake.Url.{
  UrlPolicy, Address, Parsed, Refusal, Response, Fetch, no_location, deliver, Sent, hop_headers,
  truthy, host_of, wildcard_match, is_listed, validate_url, enter, follow, after_response, hops,
  safe_fetch,
}
use knovaryn.Intake.Url.Valid.{IsScheme, validate_parsed_iff}

abbrev pub has_star : List ℕ → Bool
has_star s = any (λ c. c == b'*') s

star-text_eq : (s t : List ℕ) → text_eq s t ≡ true → has_star s ≡ has_star t
unfolding text_eq
star-text_eq [] [] e = refl
star-text_eq (c ∷ s) (d ∷ t) e = ground (arith, star-text_eq s t)
star-text_eq [] (d ∷ t) e = absurd cc
star-text_eq (c ∷ s) [] e = absurd cc

star-ends : (s t : List ℕ) → ends s t ≡ true → has_star s ≡ true → has_star t ≡ true
unfolding ends
star-ends s [] e h = ground (arith, star-text_eq s [] e)
star-ends s (d ∷ t) e h = ground (arith, star-text_eq s (d ∷ t), star-ends s t)

star-starts : (s t : List ℕ) → starts s t ≡ true → has_star s ≡ true → has_star t ≡ true
unfolding starts
star-starts [] t e h = absurd cc
star-starts (c ∷ s) [] e h = absurd cc
star-starts (c ∷ s) (d ∷ t) e h = ground (arith, star-starts s t)

no_wildcard :
    (host : String) (hs : List String)
    → has_star (codes host) ≡ false
    → wildcard_match host hs ≡ false
unfolding wildcard_match
no_wildcard host [] h = refl
no_wildcard host (x ∷ xs) h = ground (
  arith,
  no_wildcard host xs h,
  star-starts (codes "*.") (codes x),
  star-ends (b'.' ∷ codes x) (codes host),
)

-- A host without an asterisk is let through by a list exactly if it stands in it: the wildcards of the list
-- never let any through.
pub is_listed-exact :
    (host : String) (h : String) (hs : List String)
    → has_star (codes host) ≡ false
    → is_listed host (h ∷ hs) ≡ contains (h ∷ hs) host
unfolding is_listed
is_listed-exact host h hs e = ground (arith, no_wildcard host (h ∷ hs) e)

module _ (parse_url : String → Parsed) (canonical : String → String)
    (lookup : ℕ → String → Option (List (Option Address)))
    (send : ℕ → String → Dict String → Option Response) (join : String → String → String)
    (policy : UrlPolicy) (headers : Dict String) where
  -- An address with a scheme of the web and a host is absolute.
  abbrev pub IsAbsolute : String → Type 0
  IsAbsolute url =
      (((parse_url url).scheme ≡ "https") ⊎ ((parse_url url).scheme ≡ "http"))
      × (truthy ((parse_url url).hostname) ≡ true)

  -- An absolute reference replaces the base that it is joined to, as RFC 3986 has it, here in the form that httpx
  -- gives it, which it gives back again.
  abbrev pub IsReplacing : Type 0
  IsReplacing =
      (url base : String)
      → IsAbsolute url
      → (join base (canonical url) ≡ canonical url) × (canonical (canonical url) ≡ canonical url)

  module _ (url : String) (joined : (base : String) → join base (canonical url) ≡ canonical url)
      (stable : canonical (canonical url) ≡ canonical url) where
    abbrev Stays : Fetch × List Sent → Type 0
    Stays r = All (λ q. q.target ≡ canonical url) r.1

    if-Stays : (b : Bool) (x y : Fetch × List Sent) → Stays x → Stays y → Stays (if b then x else y)
    if-Stays true x y f g = f
    if-Stays false x y f g = g

    enter-Stays :
        (u : String) (again : String → Fetch × List Sent) (o : Option Refusal)
        → canonical u ≡ canonical url
        → Stays (again (canonical url))
        → Stays (enter parse_url canonical lookup send join policy headers o u again)
    unfolding enter
    enter-Stays u again none e f = subst (λ x. Stays (again x)) (sym e) f
    enter-Stays u again (some r) e f = tt

    follow-Stays :
        (hop : ℕ) (location : Option String) (again : String → Fetch × List Sent)
        → Stays (again (canonical url))
        → Stays (
            follow parse_url canonical lookup send join policy headers hop
              (canonical url)
              location
              again)
    unfolding follow
    follow-Stays hop none again f = tt
    follow-Stays hop (some next) again f =
        if-Stays (str_eq next "") (no_location, []) _ tt
          (enter-Stays (join next (canonical url)) again _ (ap canonical (joined next) ∙ stable) f)

    after_response-Stays :
        (hop : ℕ) (o : Option Response) (again : String → Fetch × List Sent)
        → Stays (again (canonical url))
        → Stays (
            after_response parse_url canonical lookup send join policy headers hop
              (canonical url)
              o
              again)
    unfolding after_response
    after_response-Stays hop none again f = tt
    after_response-Stays hop (some r) again f =
        if-Stays (r.is_redirect) _ (deliver policy r, []) (follow-Stays hop (r.location) again f) tt

    hops-Stays :
        (left hop : ℕ)
        → Stays (hops parse_url canonical lookup send join policy headers left hop (canonical url))
    unfolding hops
    hops-Stays zero hop = tt
    hops-Stays (suc left) hop = (
      refl,
      after_response-Stays hop (send hop (canonical url) (hop_headers hop headers))
          (hops parse_url canonical lookup send join policy headers left (suc hop))
          (hops-Stays left (suc hop)),
    )

  -- If an address with a scheme of the web and a host, in the form that httpx gives it, replaces any base that it
  -- is joined to and has that form again, no redirect is followed: every request goes to the address that was
  -- asked for, whatever the servers answer.
  pub safe_fetch-stays :
      (url : String)
      → IsReplacing
      → All
          (λ q. q.target ≡ canonical url)
          (safe_fetch parse_url canonical lookup send join policy headers url).1
  unfolding safe_fetch
  safe_fetch-stays url h =
      by (validate_url parse_url canonical lookup send join policy headers 0 url) refl
    where
      scheme-IsAbsolute :
          IsScheme policy ((parse_url url).scheme)
          → ((parse_url url).scheme ≡ "https") ⊎ ((parse_url url).scheme ≡ "http")
      scheme-IsAbsolute (inl e) = inl e
      scheme-IsAbsolute (inr e) = inr e.1

      by :
          (o : Option Refusal)
          → validate_url parse_url canonical lookup send join policy headers 0 url ≡ o
          → All
              (λ q. q.target ≡ canonical url)
              (enter parse_url canonical lookup send join policy headers o url (
                hops parse_url canonical lookup send join policy headers
                  (suc (policy.max_redirects))
                  0)).1
      by (some r) e = unfold enter in tt
      by none e =
          let v =
            (validate_parsed_iff policy (parse_url url)
                (lookup 0 (host_of ((parse_url url).hostname)))).0
              (unfold validate_url in e) in
          let named : truthy ((parse_url url).hostname) ≡ true =
            rw v.hostname (unfold truthy in ground (arith, v.named, eq_iff v.host "")) in
          let absolute : IsAbsolute url = (scheme-IsAbsolute v.scheme, named) in
          unfold enter in
          hops-Stays url (λ base. (h url base absolute).0) ((h url "" absolute).1)
            (suc (policy.max_redirects)) 0
