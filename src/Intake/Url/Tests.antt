-- ===== src/Intake/Url/Tests.antt =====
-- A host that answers with a redirect, under a policy with a list.
use knovaryn.Base.{
  ℕ, ◌≤◌, ◌≡◌, ◌↔◌, refl, Bool, Bool-cases, inl, inr, if◌then◌else◌, true, false, String, List, [],
  ◌∷◌, length, Option, none, some, All,
}
use Prim.Native.String.{◌++◌ as join_text}
use knovaryn.Dict.{Dict, remove}
use knovaryn.Text.{codes, starts, ends, text_eq}
use knovaryn.Intake.Url.{
  UrlPolicy, Address, Parsed, Response, too_many_redirects, blocks_address, resolved, truthy,
  wildcard_match, is_listed, scheme_allowed, check_credentials, check_addresses, validate_parsed,
  validate_url, enter, follow, after_response, hop_headers, deliver, hops, safe_fetch,
}
use knovaryn.Intake.Url.Valid.{IsValid, validate_parsed_iff}
use knovaryn.Intake.Url.Fetched.{IsSafe, IsWithin, safe_fetch-IsSafe}
use knovaryn.Intake.Url.Redirects.{IsAbsolute, safe_fetch-stays}

abbrev policy : UrlPolicy
policy = record {
  enabled = true;
  allow_http = false;
  max_redirects = 1;
  max_bytes = 4;
  allowlist = "a.org" ∷ "*.b.org" ∷ [];
  block_metadata = true;
}

abbrev public_address : Address
public_address = record {
  is_v4 = true;
  value = 134744072;
  is_loopback = false;
  is_link_local = false;
  is_private = false;
  is_multicast = false;
  is_reserved = false;
  is_unspecified = false;
}

abbrev is_web : String → Bool
is_web u = starts (codes "https://a.org/") (codes u)

abbrev parse_url : String → Parsed
parse_url u = record {
  scheme = if is_web u then "https" else "";
  hostname = if is_web u then some "a.org" else none;
  username = none;
  password = none;
}

abbrev same : String → String
same u = u

abbrev lookup : ℕ → String → Option (List (Option Address))
lookup hop host = some (none ∷ some public_address ∷ [])

abbrev moved : Response
moved = record {
  is_redirect = true;
  location = some "https://a.org/2";
  url = "https://a.org/1";
  status_code = 301;
  content = [];
  content_type = "";
}

abbrev send : ℕ → String → Dict String → Option Response
send hop url headers = some moved

-- An absolute reference replaces the base, and any other is put behind it.
abbrev join : String → String → String
join base url = if is_web url then url else join_text base url

abbrev headers : Dict String
headers = ("Authorization", "x") ∷ ("Accept", "y") ∷ []

-- The address that the redirect names is never asked.
looped : safe_fetch parse_url same lookup send join policy headers "https://a.org/1" ≡ (
  too_many_redirects,
  record { hop = 0; target = "https://a.org/1"; headers = headers }
      ∷ record { hop = 1; target = "https://a.org/1"; headers = ("Accept", "y") ∷ [] }
      ∷ [],
)
unfolding safe_fetch hops after_response follow enter validate_url validate_parsed check_addresses
    check_credentials scheme_allowed is_listed wildcard_match truthy resolved blocks_address
    hop_headers deliver remove starts ends text_eq
looped = refl

wildcard : is_listed "x.b.org" (policy.allowlist) ≡ false
unfolding is_listed wildcard_match starts ends text_eq
wildcard = refl

validate_parsed_iff_example :
    (validate_parsed policy (parse_url "https://a.org/1") (lookup 0 "a.org") ≡ none)
    ↔ IsValid policy (parse_url "https://a.org/1") (lookup 0 "a.org")
validate_parsed_iff_example =
    validate_parsed_iff policy (parse_url "https://a.org/1") (lookup 0 "a.org")

safe_fetch-IsSafe_example :
    let r = safe_fetch parse_url same lookup send join policy headers "https://a.org/1" in
    All (IsSafe parse_url same lookup send join policy headers) r.1
    × (length r.1 ≤ 2)
    × IsWithin policy r.0
safe_fetch-IsSafe_example =
    safe_fetch-IsSafe parse_url same lookup send join policy headers "https://a.org/1"

joins :
    (url base : String)
    → IsAbsolute parse_url same lookup send join policy headers url
    → (join base url ≡ url) × (url ≡ url)
unfolding truthy
joins url base (web, named) = elim (Bool-cases (is_web url)) [
  | inl e ↦ (rw e refl, refl)
  | inr e ↦ absurd (let no : false ≡ true = (rw e at named) in cc)
]

safe_fetch-stays_example :
    All
      (λ q. q.target ≡ "https://a.org/1")
      (safe_fetch parse_url same lookup send join policy headers "https://a.org/1").1
safe_fetch-stays_example =
    safe_fetch-stays parse_url same lookup send join policy headers "https://a.org/1" joins
