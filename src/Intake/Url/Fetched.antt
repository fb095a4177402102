-- ===== src/Intake/Url/Fetched.antt =====
-- What safe_fetch sends, and what it returns.
use knovaryn.Base.{
  ℕ, zero, suc, ◌≤◌, ◌<◌, ◌≡◌, refl, arith, Bool, true, false, String, str_eq, List, [], Option,
  none, some, All, length, inl, inr, ◌⊎◌, if◌then◌else◌,
}
use knovaryn.Dict.{Dict, get, remove, get-remove}
use knovaryn.Intake.Url.{
  UrlPolicy, Address, Parsed, Refusal, Response, Fetch, fetched, no_location, Sent, hop_headers,
  deliver, host_of, validate_url, enter, follow, after_response, sent_at, hops, safe_fetch,
}
use knovaryn.Intake.Url.Valid.{IsValid, validate_parsed_iff}

-- What is returned is a success within the size limit.
abbrev pub IsWithin : UrlPolicy → Fetch → Type 0
IsWithin policy (fetched r) = (r.status_code < 400) × (length (r.content) ≤ policy.max_bytes)
IsWithin policy _ = true ≡ true

deliver-IsWithin : (policy : UrlPolicy) (r : Response) → IsWithin policy (deliver policy r)
unfolding deliver
deliver-IsWithin policy r = ground arith

hop_headers-get :
    (hop : ℕ) (headers : Dict String) (k : String)
    → (str_eq "Authorization" k ≡ true) ⊎ (str_eq "Cookie" k ≡ true)
    → get (hop_headers (suc hop) headers) k ≡ none
unfolding hop_headers
hop_headers-get hop headers k h = ground (
  arith,
  h,
  get-remove (remove headers "Authorization") "Cookie" k,
  get-remove headers "Authorization" k,
)

hop_headers-others :
    (hop : ℕ) (headers : Dict String) (k : String)
    → str_eq "Authorization" k ≡ false
    → str_eq "Cookie" k ≡ false
    → get (hop_headers hop headers) k ≡ get headers k
unfolding hop_headers
hop_headers-others zero headers k a c = refl
hop_headers-others (suc hop) headers k a c = ground (
  arith,
  a,
  c,
  get-remove (remove headers "Authorization") "Cookie" k,
  get-remove headers "Authorization" k,
)

module _ (parse_url : String → Parsed) (canonical : String → String)
    (lookup : ℕ → String → Option (List (Option Address)))
    (send : ℕ → String → Dict String → Option Response) (join : String → String → String)
    (policy : UrlPolicy) (headers : Dict String) where
  -- The target is an address that was valid by the answers of its hop. The headers are those that were given,
  -- but for the keys Authorization and Cookie, in this very spelling, which are sent at the first hop only.
  pub record IsSafe (q : Sent) : Type 0 where
    pub url : String
    pub target : q.target ≡ canonical url
    pub valid : IsValid policy (parse_url url) (lookup q.hop (host_of ((parse_url url).hostname)))
    pub no_authorization : 1 ≤ q.hop → get (q.headers) "Authorization" ≡ none
    pub no_cookie : 1 ≤ q.hop → get (q.headers) "Cookie" ≡ none
    pub at_first : q.hop ≡ 0 → q.headers ≡ headers
    pub others :
        (k : String)
        → str_eq "Authorization" k ≡ false
        → str_eq "Cookie" k ≡ false
        → get (q.headers) k ≡ get headers k

  abbrev IsPassed : ℕ → String → Type 0
  IsPassed hop current =
      (url : String) × (current ≡ canonical url)
      × (validate_url parse_url canonical lookup send join policy headers hop url ≡ none)

  abbrev Good : ℕ → Fetch × List Sent → Type 0
  Good left r = IsWithin policy r.0 × All IsSafe r.1 × (length r.1 ≤ left)

  sent_at-IsSafe :
      (hop : ℕ) (current : String)
      → IsPassed hop current
      → IsSafe (sent_at parse_url canonical lookup send join policy headers hop current)
  unfolding validate_url hop_headers
  sent_at-IsSafe hop current (url, same, passed) = record {
    url = url;
    target = same;
    valid = (validate_parsed_iff policy (parse_url url) _).0 passed;
    no_authorization = λ h. by hop "Authorization" h (inl refl);
    no_cookie = λ h. by hop "Cookie" h (inr refl);
    at_first = first hop;
    others = hop_headers-others hop headers;
  }
    where
      first : (n : ℕ) → n ≡ 0 → hop_headers n headers ≡ headers
      first zero e = refl
      first (suc n) e = absurd (omega (arith, e))

      by :
          (n : ℕ) (k : String)
          → 1 ≤ n
          → (str_eq "Authorization" k ≡ true) ⊎ (str_eq "Cookie" k ≡ true)
          → get (hop_headers n headers) k ≡ none
      by zero k h e = absurd (omega (arith, h))
      by (suc n) k h e = hop_headers-get n headers k e

  enter-Good :
      (hop left : ℕ) (url : String) (again : String → Fetch × List Sent) (o : Option Refusal)
      → validate_url parse_url canonical lookup send join policy headers hop url ≡ o
      → ((current : String) → IsPassed hop current → Good left (again current))
      → Good left (enter parse_url canonical lookup send join policy headers o url again)
  unfolding enter
  enter-Good hop left url again none e f = f (canonical url) (url, refl, e)
  enter-Good hop left url again (some r) e f = (refl, tt, omega arith)

  if-Good :
      (left : ℕ) (b : Bool) (x y : Fetch × List Sent)
      → Good left x
      → Good left y
      → Good left (if b then x else y)
  if-Good left true x y f g = f
  if-Good left false x y f g = g

  follow-Good :
      (hop left : ℕ) (current : String) (location : Option String)
      (again : String → Fetch × List Sent)
      → ((next : String) → IsPassed (suc hop) next → Good left (again next))
      → Good left
          (follow parse_url canonical lookup send join policy headers hop current location again)
  unfolding follow
  follow-Good hop left current none again f = (refl, tt, omega arith)
  follow-Good hop left current (some next) again f =
      if-Good left (str_eq next "") (no_location, []) _ (refl, tt, omega arith)
        (enter-Good (suc hop) left (join next current) again _ refl f)

  after_response-Good :
      (hop left : ℕ) (current : String) (o : Option Response) (again : String → Fetch × List Sent)
      → ((next : String) → IsPassed (suc hop) next → Good left (again next))
      → Good left
          (after_response parse_url canonical lookup send join policy headers hop current o again)
  unfolding after_response
  after_response-Good hop left current none again f = (refl, tt, omega arith)
  after_response-Good hop left current (some r) again f =
      if-Good left (r.is_redirect) _ (deliver policy r, [])
        (follow-Good hop left current (r.location) again f)
        (deliver-IsWithin policy r, tt, omega arith)

  hops-Good :
      (left hop : ℕ) (current : String)
      → IsPassed hop current
      → Good left (hops parse_url canonical lookup send join policy headers left hop current)
  unfolding hops
  hops-Good zero hop current p = (refl, tt, omega arith)
  hops-Good (suc left) hop current p =
      let (within, safe, short) =
        after_response-Good hop left current (send hop current (hop_headers hop headers)) _
          (λ next q. hops-Good left (suc hop) next q) in
      (within, (sent_at-IsSafe hop current p, safe), omega (arith, short))

  -- Whatever the name service and the servers answer, safe_fetch sends at most one request more than the
  -- policy's redirects, each to an address whose validation at that hop found it valid. The first has the
  -- headers that were given; a later one has the same under every key but Authorization and Cookie in this
  -- very spelling, which it does not have. A key that is spelled otherwise, as authorization, is sent at every
  -- hop. What is returned has a status below 400 and keeps the size limit.
  pub safe_fetch-IsSafe :
      (url : String)
      → let r = safe_fetch parse_url canonical lookup send join policy headers url in
        All IsSafe r.1 × (length r.1 ≤ suc (policy.max_redirects)) × IsWithin policy r.0
  unfolding safe_fetch
  safe_fetch-IsSafe url =
      let (within, safe, short) =
        enter-Good 0 (suc (policy.max_redirects)) url _ _ refl
          (λ current p. hops-Good (suc (policy.max_redirects)) 0 current p) in
      (safe, short, within)
