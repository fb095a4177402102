-- ===== src/Intake/Url/Valid.antt =====
-- What an address has to be like to be fetched.
use knovaryn.Base.{
  ◌≤◌, ◌<◌, ◌≡◌, ◌≢◌, ◌↔◌, ◌⊎◌, inl, inr, refl, sym, ap, arith, Bool, true, false, not, ◌&&◌,
  String, str_eq, eq_iff, contains, List, [], ◌∷◌, any, Option, none, some, All, Bool-cases,
  if◌then◌else◌,
}
use knovaryn.Intake.Url.{
  UrlPolicy, Address, Parsed, Refusal, blocks_address, resolved, truthy, wildcard_match, is_listed,
  scheme_allowed, check_credentials, check_addresses, metadata_hostnames, host_of, validate_parsed,
}

-- Outside the networks that are blocked; 1681915904 is 100.64.0.0, and 2851995648 is 169.254.0.0.
pub record IsPublic (a : Address) : Type 0 where
  pub no_loopback : a.is_loopback ≡ false
  pub no_link_local : a.is_link_local ≡ false
  pub no_private : a.is_private ≡ false
  pub no_multicast : a.is_multicast ≡ false
  pub no_reserved : a.is_reserved ≡ false
  pub no_unspecified : a.is_unspecified ≡ false
  pub no_shared : a.is_v4 ≡ true → (a.value < 1681915904) ⊎ (1686110208 ≤ a.value)
  pub no_metadata : a.is_v4 ≡ true → (a.value < 2851995648) ⊎ (2852061184 ≤ a.value)

blocks_address_iff : (a : Address) → (blocks_address a ≡ false) ↔ IsPublic a
unfolding blocks_address
blocks_address_iff a = (
  λ h. record {
    no_loopback = ground (arith, h);
    no_link_local = ground (arith, h);
    no_private = ground (arith, h);
    no_multicast = ground (arith, h);
    no_reserved = ground (arith, h);
    no_unspecified = ground (arith, h);
    no_shared = λ v. ground (arith, h, v);
    no_metadata = λ v. ground (arith, h, v);
  },
  λ p. ground (
    arith, p.no_loopback, p.no_link_local, p.no_private, p.no_multicast, p.no_reserved,
    p.no_unspecified, p.no_shared, p.no_metadata,
  ),
)

any_blocked_iff : (rest : List Address) → (any blocks_address rest ≡ false) ↔ All IsPublic rest
any_blocked_iff [] = (λ h. tt, λ h. refl)
any_blocked_iff (a ∷ rest) = (
  λ h. ((blocks_address_iff a).0 (ground (arith, h)), (any_blocked_iff rest).0 (ground (arith, h))),
  λ h. ground (arith, (blocks_address_iff a).1 h.0, (any_blocked_iff rest).1 h.1),
)

-- Is absent, or empty.
abbrev pub IsBlank : Option String → Type 0
IsBlank o = (o ≡ none) ⊎ (o ≡ some "")

truthy-false_iff : (o : Option String) → (truthy o ≡ false) ↔ IsBlank o
unfolding truthy
truthy-false_iff none = (λ h. inl refl, λ h. refl)
truthy-false_iff (some s) = (
  λ h. inr (ap some ((eq_iff s "").0 (ground (arith, h)))),
  λ h. elim h [ inl e ↦ absurd cc | inr e ↦ ground (arith, (eq_iff s "").1 cc) ],
)

guard_iff :
    (b : Bool) (r : Refusal) (o : Option Refusal)
    → ((if not b then some r else o) ≡ none) ↔ ((b ≡ true) × (o ≡ none))
guard_iff b r o = ground arith

module _ (policy : UrlPolicy) where
  -- https, or http where the policy allows it.
  abbrev pub IsScheme : String → Type 0
  IsScheme scheme = (scheme ≡ "https") ⊎ ((policy.allow_http ≡ true) × (scheme ≡ "http"))

  -- Listed by itself or by a wildcard, or there is no list.
  abbrev pub IsListed : String → Type 0
  IsListed host =
      (policy.allowlist ≡ [])
      ⊎ (contains (policy.allowlist) host ≡ true)
      ⊎ (wildcard_match host (policy.allowlist) ≡ true)

  pub record IsValid (p : Parsed) (infos : Option (List (Option Address))) : Type 0 where
    pub enabled : policy.enabled ≡ true
    pub scheme : IsScheme (p.scheme)
    pub host : String
    pub hostname : p.hostname ≡ some host
    pub named : host ≢ ""
    pub listed : IsListed host
    pub no_metadata :
        policy.block_metadata ≡ true
        → (host ≢ "metadata.google.internal") × (host ≢ "169.254.169.254")
    pub answers : List (Option Address)
    pub answered : infos ≡ some answers
    pub all_public : All IsPublic (resolved answers)
    pub no_username : IsBlank (p.username)
    pub no_password : IsBlank (p.password)

  scheme_allowed-iff_IsScheme : (s : String) → (scheme_allowed policy s ≡ true) ↔ IsScheme s
  unfolding scheme_allowed
  scheme_allowed-iff_IsScheme s = ground (arith, eq_iff s "https", eq_iff s "http")

  known_scheme : (s : String) → IsScheme s → contains ("http" ∷ "https" ∷ []) s ≡ true
  known_scheme s h = ground (arith, h, eq_iff "https" s, eq_iff "http" s)

  is_listed-iff_IsListed :
      (host : String) → (is_listed host (policy.allowlist) ≡ true) ↔ IsListed host
  unfolding is_listed wildcard_match
  is_listed-iff_IsListed host = by (policy.allowlist)
    where
      by :
          (hs : List String)
          → (is_listed host hs ≡ true)
            ↔ ((hs ≡ []) ⊎ (contains hs host ≡ true) ⊎ (wildcard_match host hs ≡ true))
      by [] = (λ h. inl refl, λ h. refl)
      by (x ∷ xs) = (
        λ h. inr (ground (arith, h)),
        λ h. elim h [ inl e ↦ absurd cc | inr e ↦ ground (arith, e) ],
      )

  credentials_iff :
      (p : Parsed) → (check_credentials p ≡ none) ↔ (IsBlank (p.username) × IsBlank (p.password))
  unfolding check_credentials
  credentials_iff p = ground (arith, truthy-false_iff (p.username), truthy-false_iff (p.password))

  addresses_iff :
      (p : Parsed) (answers : List (Option Address))
      → (check_addresses p (some answers) ≡ none)
        ↔ (All IsPublic (resolved answers) × IsBlank (p.username) × IsBlank (p.password))
  unfolding check_addresses
  addresses_iff p answers = ground (arith, any_blocked_iff (resolved answers), credentials_iff p)

  metadata_iff :
      (host : String)
      → ((policy.block_metadata && contains metadata_hostnames host) ≡ false) ↔ (
          policy.block_metadata ≡ true
          → (host ≢ "metadata.google.internal") × (host ≢ "169.254.169.254"))
  metadata_iff host = (
    λ h b. (
      λ e. absurd (ground (arith, h, b, (eq_iff "metadata.google.internal" host).1 (sym e))),
      λ e. absurd (ground (arith, h, b, (eq_iff "169.254.169.254" host).1 (sym e))),
    ),
    λ f. elim (Bool-cases (policy.block_metadata)) [
      | inl b ↦
          let (m, n) = f b in
          let not_m : str_eq "metadata.google.internal" host ≢ true =
            λ e. m (sym ((eq_iff "metadata.google.internal" host).0 e)) in
          let not_n : str_eq "169.254.169.254" host ≢ true =
            λ e. n (sym ((eq_iff "169.254.169.254" host).0 e)) in
          ground (arith, not_m, not_n)
      | inr b ↦ rw b refl
    ],
  )

  tests_iff :
      (p : Parsed) (infos : Option (List (Option Address)))
      → (validate_parsed policy p infos ≡ none) ↔ (
          (policy.enabled ≡ true)
          × (scheme_allowed policy (p.scheme) ≡ true)
          × (contains ("http" ∷ "https" ∷ []) (p.scheme) ≡ true)
          × (truthy (p.hostname) ≡ true)
          × (is_listed (host_of (p.hostname)) (policy.allowlist) ≡ true)
          × ((policy.block_metadata && contains metadata_hostnames (host_of (p.hostname))) ≡ false)
          × (check_addresses p infos ≡ none))
  unfolding validate_parsed
  tests_iff p infos = ground arith

  truthy-some :
      (o : Option String)
      → truthy o ≡ true
      → (host : String) × (o ≡ some host) × (host ≢ "") × (host_of o ≡ host)
  unfolding truthy
  truthy-some none h = absurd cc
  truthy-some (some s) h = (s, refl, λ e. absurd (ground (arith, h, (eq_iff s "").1 e)), refl)

  answered_iff :
      (p : Parsed) (infos : Option (List (Option Address)))
      → check_addresses p infos ≡ none
      → (answers : List (Option Address)) × (infos ≡ some answers)
  unfolding check_addresses
  answered_iff p none h = absurd cc
  answered_iff p (some answers) h = (answers, refl)

  -- The guards of an address let it pass exactly if it is valid: the policy is enabled, the scheme is https, or
  -- http where that is allowed, the host is there, listed, and not the metadata service, the name service has
  -- answered, with public addresses only, and there are no credentials.
  pub validate_parsed_iff :
      (p : Parsed) (infos : Option (List (Option Address)))
      → (validate_parsed policy p infos ≡ none) ↔ IsValid p infos
  unfolding validate_parsed
  validate_parsed_iff p infos = (valid, passes)
    where
      valid : validate_parsed policy p infos ≡ none → IsValid p infos
      valid h =
          let (en, sch, known, named, listed, meta, addrs) = (tests_iff p infos).0 h in
          let (host, is_host, nonempty, same) = truthy-some (p.hostname) named in
          let (answers, answered) = answered_iff p infos addrs in
          let (public, user, password) = (addresses_iff p answers).0 (rw answered at addrs) in
          record {
            enabled = en;
            scheme = (scheme_allowed-iff_IsScheme (p.scheme)).0 sch;
            host = host;
            hostname = is_host;
            named = nonempty;
            listed = (is_listed-iff_IsListed host).0 (rw same at listed);
            no_metadata = (metadata_iff host).0 (rw same at meta);
            answers = answers;
            answered = answered;
            all_public = public;
            no_username = user;
            no_password = password;
          }

      passes : IsValid p infos → validate_parsed policy p infos ≡ none
      passes v =
          let same : host_of (p.hostname) ≡ v.host = ap host_of v.hostname in
          (tests_iff p infos).1 (
            v.enabled,
            (scheme_allowed-iff_IsScheme (p.scheme)).1 v.scheme,
            known_scheme (p.scheme) v.scheme,
            rw v.hostname (ground (arith, v.named, eq_iff v.host "")),
            rw same ((is_listed-iff_IsListed v.host).1 v.listed),
            rw same ((metadata_iff v.host).1 v.no_metadata),
            rw v.answered
                ((addresses_iff p v.answers).1 (v.all_public, v.no_username, v.no_password)),
          )
