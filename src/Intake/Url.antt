-- ===== src/Intake/Url.antt =====
-- knovaryn/infrastructure/intake/url.py: what addresses may be fetched, and the loop over redirects.
--
-- `parse_url` stands for urlparse, `canonical` for httpx.URL of what urlunparse gives back, `lookup` for
-- the name service, which may answer differently at each hop (none where it fails, and none for an
-- answer that is no address), `send` for the GET of the client, none where it raises, and `join` for
-- URL.join of httpx: `join base url`.
mod Tests
pub mod Valid
pub mod Fetched
pub mod Redirects
use knovaryn.Base.{
  ℕ, zero, suc, ◌+◌, ◌/◌, ◌^◌, ltb, leb, ◌==◌, Bool, true, false, not, ◌&&◌, ◌||◌, String, str_eq,
  contains, List, [], ◌∷◌, any, length, Option, none, some, if◌then◌else◌, is_some,
}
use knovaryn.Dict.{Dict, remove}
use knovaryn.Text.{codes, starts, ends}

pub record UrlPolicy : Type 0 where
  pub enabled : Bool
  pub allow_http : Bool
  pub max_redirects : ℕ
  pub max_bytes : ℕ
  pub allowlist : List String
  pub block_metadata : Bool

-- An address, as ipaddress describes it.
pub record Address : Type 0 where
  pub is_v4 : Bool
  pub value : ℕ
  pub is_loopback : Bool
  pub is_link_local : Bool
  pub is_private : Bool
  pub is_multicast : Bool
  pub is_reserved : Bool
  pub is_unspecified : Bool

pub record Parsed : Type 0 where
  pub scheme : String
  pub hostname : Option String
  pub username : Option String
  pub password : Option String

pub data Refusal : Type 0 where
  disabled only_https unsupported_scheme no_host not_listed : Refusal
  metadata_host dns_failed private_address credentials : Refusal

-- 100.64.0.0/10 and 169.254.0.0/16
abbrev in_v4_ranges : ℕ → Bool
in_v4_ranges value = value / 2 ^ 22 == 401 || value / 2 ^ 16 == 43518

unfoldable pub blocks_address : Address → Bool
blocks_address a =
    a.is_loopback
    || a.is_link_local
    || a.is_private
    || a.is_multicast
    || a.is_reserved
    || a.is_unspecified
    || (a.is_v4 && in_v4_ranges (a.value))

-- The answers that are addresses.
unfoldable pub resolved : List (Option Address) → List Address
resolved [] = []
resolved (none ∷ infos) = resolved infos
resolved (some a ∷ infos) = a ∷ resolved infos

-- A test that is false for None and for the empty text, as in `if not parsed.hostname`
unfoldable pub truthy : Option String → Bool
truthy none = false
truthy (some s) = not (str_eq s "")

abbrev pub host_of : Option String → String
host_of none = ""
host_of (some s) = s

-- `any(host.endswith("." + h) for h in policy.allowlist if h.startswith("*."))`
unfoldable pub wildcard_match : String → List String → Bool
wildcard_match host allowlist =
    any (λ h. starts (codes "*.") (codes h) && ends (b'.' ∷ codes h) (codes host)) allowlist

unfoldable pub is_listed : String → List String → Bool
unfolding wildcard_match
is_listed host [] = true
is_listed host (h ∷ hs) = contains (h ∷ hs) host || wildcard_match host (h ∷ hs)

abbrev pub metadata_hostnames : List String
metadata_hostnames = "metadata.google.internal" ∷ "169.254.169.254" ∷ []

unfoldable pub scheme_allowed : UrlPolicy → String → Bool
scheme_allowed policy scheme = str_eq scheme "https" || (policy.allow_http && str_eq scheme "http")

unfoldable pub check_credentials : Parsed → Option Refusal
unfolding truthy
check_credentials p = if truthy (p.username) || truthy (p.password) then some credentials else none

unfoldable pub check_addresses : Parsed → Option (List (Option Address)) → Option Refusal
unfolding blocks_address resolved check_credentials
check_addresses p none = some dns_failed
check_addresses p (some infos) =
    if any blocks_address (resolved infos) then some private_address else check_credentials p

-- The guards of _validate_url, with the answer of the name service for the host.
unfoldable pub validate_parsed :
    UrlPolicy → Parsed → Option (List (Option Address)) → Option Refusal
unfolding check_addresses is_listed scheme_allowed truthy
validate_parsed policy p infos =
    if not (policy.enabled)
    then some disabled
    else if not (scheme_allowed policy (p.scheme))
    then some only_https
    else if not (contains ("http" ∷ "https" ∷ []) (p.scheme))
    then some unsupported_scheme
    else if not (truthy (p.hostname))
    then some no_host
    else if not (is_listed (host_of (p.hostname)) (policy.allowlist))
    then some not_listed
    else if policy.block_metadata && contains metadata_hostnames (host_of (p.hostname))
    then some metadata_host
    else check_addresses p infos

pub record Response : Type 0 where
  pub is_redirect : Bool
  pub location : Option String
  pub url : String
  pub status_code : ℕ
  pub content : List ℕ
  pub content_type : String

-- How safe_fetch ends: with the response, or with one of its errors.
pub data Fetch : Type 0 where
  fetched : Response → Fetch
  refused : Refusal → Fetch
  client_failed : Fetch
  no_location : Fetch
  http_error : ℕ → Fetch
  too_large : Fetch
  too_many_redirects : Fetch

-- What is sent to the client.
pub record Sent : Type 0 where
  pub hop : ℕ
  pub target : String
  pub headers : Dict String

unfoldable pub hop_headers : ℕ → Dict String → Dict String
unfolding remove
hop_headers zero headers = headers
hop_headers (suc hop) headers = remove (remove headers "Authorization") "Cookie"

unfoldable pub deliver : UrlPolicy → Response → Fetch
deliver policy r =
    if leb 400 (r.status_code)
    then http_error (r.status_code)
    else if ltb (policy.max_bytes) (length (r.content))
    then too_large
    else fetched r

module _ (parse_url : String → Parsed) (canonical : String → String)
    (lookup : ℕ → String → Option (List (Option Address)))
    (send : ℕ → String → Dict String → Option Response) (join : String → String → String)
    (policy : UrlPolicy) (headers : Dict String) where
  -- _validate_url at some hop; where it passes, the URL is `canonical url`.
  unfoldable pub validate_url : ℕ → String → Option Refusal
  unfolding validate_parsed
  validate_url hop url =
      let p = parse_url url in validate_parsed policy p (lookup hop (host_of (p.hostname)))

  -- The next turn of the loop, if the URL passes.
  unfoldable pub enter : Option Refusal → String → (String → Fetch × List Sent) → Fetch × List Sent
  enter none url again = again (canonical url)
  enter (some r) url again = (refused r, [])

  unfoldable pub follow :
      ℕ → String → Option String → (String → Fetch × List Sent) → Fetch × List Sent
  unfolding enter validate_url
  follow hop current none again = (no_location, [])
  follow hop current (some next) again =
      let target = join next current in
      let followed = enter (validate_url (suc hop) target) target again in
      if str_eq next "" then (no_location, []) else followed

  unfoldable pub after_response :
      ℕ → String → Option Response → (String → Fetch × List Sent) → Fetch × List Sent
  unfolding follow deliver
  after_response hop current none again = (client_failed, [])
  after_response hop current (some r) again =
      let followed = follow hop current (r.location) again in
      if r.is_redirect then followed else (deliver policy r, [])

  abbrev pub sent_at : ℕ → String → Sent
  sent_at hop current = record { hop = hop; target = current; headers = hop_headers hop headers }

  -- `for hop in range(policy.max_redirects + 1)`, with the turns that are left
  unfoldable pub hops : ℕ → ℕ → String → Fetch × List Sent
  unfolding after_response hop_headers
  hops zero hop current = (too_many_redirects, [])
  hops (suc left) hop current =
      let rest =
        after_response hop current (send hop current (hop_headers hop headers))
          (hops left (suc hop)) in
      (rest.0, sent_at hop current ∷ rest.1)

  unfoldable pub safe_fetch : String → Fetch × List Sent
  unfolding hops enter validate_url
  safe_fetch url = enter (validate_url 0 url) url (hops (suc (policy.max_redirects)) 0)
