-- ===== src/Abuse/Callers.antt =====
-- The windows of all callers.
use knovaryn.Base.{
  ℕ, ◌≤◌, ◌<◌, ◌≡◌, refl, sym, ap, ◌∙◌, subst, false, ◌&&◌, String, str_eq, eq_iff, List, [], ◌∷◌,
  ◌==◌, if◌then◌else◌, arith, count_if, Bool-cases, inl, inr,
}
use knovaryn.Dict.{Dict, get, get_or, put, get-put}
use knovaryn.Abuse.{allow, serve, serve_all}
use knovaryn.Abuse.Window.{allowed, IsOrdered, in_stretch, allowed-IsLimited}

-- The times of a caller's requests.
unfoldable pub times_of : String → List (ℕ × String) → List ℕ
times_of key [] = []
times_of key ((now, k) ∷ requests) =
    let rest = times_of key requests in if str_eq k key then now ∷ rest else rest

-- The requests come in the order of time.
abbrev pub IsTimed : ℕ → List (ℕ × String) → Type 0
IsTimed b [] = Unit
IsTimed b (q ∷ qs) = (b ≤ q.0) × IsTimed q.0 qs

times_of-IsOrdered :
    (key : String) (a b : ℕ) (requests : List (ℕ × String))
    → a ≤ b
    → IsTimed b requests
    → IsOrdered a (times_of key requests)
unfolding times_of
times_of-IsOrdered key a b [] le h = tt
times_of-IsOrdered key a b ((now, k) ∷ requests) le h = elim (Bool-cases (str_eq k key)) [
  | inl e ↦ rw e (omega (arith, le, h.0), times_of-IsOrdered key now now requests (omega arith) h.1)
  | inr e ↦ rw e (times_of-IsOrdered key a now requests (omega (arith, le, h.0)) h.1)
]

get_or-put :
    (d : Dict (List ℕ)) (k j : String) (v : List ℕ)
    → get_or (put d k v) j [] ≡ (if str_eq k j then v else get_or d j [])
unfolding get_or
get_or-put d k j v = elim (Bool-cases (str_eq k j)) [
  | inl e ↦ rw (get-put d k j v, e, get_or) refl
  | inr e ↦ rw (get-put d k j v, e, get_or) refl
]

-- One request, as the caller's own bucket sees it.
serve-own :
    (window cap now : ℕ) (key : String) (buckets : Dict (List ℕ))
    → 0 < cap
    → ((serve window cap now key buckets).0 ≡ (allow window cap now (get_or buckets key [])).0)
      × (get_or (serve window cap now key buckets).1 key []
          ≡ (allow window cap now (get_or buckets key [])).1)
unfolding serve
serve-own window cap now key buckets pos =
    let other : (cap == 0) ≡ false = ground (arith, pos) in
    rw other (
      refl,
      ground (
        arith,
        get_or-put buckets key key (allow window cap now (get_or buckets key [])).1,
        eq_iff key key,
      ),
    )

serve-same :
    (window cap now : ℕ) (key k : String) (buckets : Dict (List ℕ))
    → 0 < cap
    → k ≡ key
    → ((serve window cap now k buckets).0 ≡ (allow window cap now (get_or buckets key [])).0)
      × (get_or (serve window cap now k buckets).1 key []
          ≡ (allow window cap now (get_or buckets key [])).1)
serve-same window cap now key k buckets pos same =
    subst
      (λ x.
        ((serve window cap now k buckets).0 ≡ (allow window cap now (get_or buckets x [])).0)
        × (get_or (serve window cap now k buckets).1 x []
            ≡ (allow window cap now (get_or buckets x [])).1))
      same (serve-own window cap now k buckets pos)

serve-other :
    (window cap now : ℕ) (key k : String) (buckets : Dict (List ℕ))
    → 0 < cap
    → str_eq k key ≡ false
    → get_or (serve window cap now k buckets).1 key [] ≡ get_or buckets key []
unfolding serve
serve-other window cap now key k buckets pos ne =
    let other : (cap == 0) ≡ false = ground (arith, pos) in
    rw other
      (ground (arith, get_or-put buckets k key (allow window cap now (get_or buckets k [])).1, ne))

serve_all-times :
    (window cap : ℕ) (key : String) (requests : List (ℕ × String)) (buckets : Dict (List ℕ))
    → 0 < cap
    → times_of key (serve_all window cap requests buckets)
      ≡ allowed window cap (times_of key requests) (get_or buckets key [])
unfolding serve_all times_of allowed
serve_all-times window cap key [] buckets pos = refl
serve_all-times window cap key ((now, k) ∷ requests) buckets pos =
    let r = serve window cap now k buckets in
    let step = serve_all-times window cap key requests r.1 pos in
    elim (Bool-cases (str_eq k key)) [
      | inl e ↦
          let own = serve-same window cap now key k buckets pos ((eq_iff k key).0 e) in
          elim (Bool-cases r.0) [
            | inl t ↦ rw (e, t) (rw (e, sym own.0 ∙ t) (ap (λ ts. now ∷ ts) (rw own.1 at step)))
            | inr t ↦ rw (e, t) (rw (sym own.0 ∙ t) (rw own.1 at step))
          ]
      | inr e ↦ elim (Bool-cases r.0) [
        | inl t ↦ rw (e, t) (rw e (rw (serve-other window cap now key k buckets pos e) at step))
        | inr t ↦ rw (e, t) (rw (serve-other window cap now key k buckets pos e) at step)
      ]
    ]

count_if-times_of :
    (key : String) (window from : ℕ) (requests : List (ℕ × String))
    → count_if (λ q. str_eq q.1 key && in_stretch from window q.0) requests
      ≡ count_if (in_stretch from window) (times_of key requests)
unfolding times_of
count_if-times_of key window from [] = refl
count_if-times_of key window from ((now, k) ∷ requests) =
    ground (arith, count_if-times_of key window from requests)

-- Of the requests of a caller that go on, at most the cap lie in any stretch of time as long as the
-- window, whatever requests of other callers come between, when the cap is not 0 and the clock never
-- goes back.
pub serve_all-IsLimited :
    (window cap from : ℕ) (key : String) (requests : List (ℕ × String))
    → 0 < cap
    → IsTimed 0 requests
    → count_if
        (λ q. str_eq q.1 key && in_stretch from window q.0)
        (serve_all window cap requests [])
      ≤ cap
unfolding get_or get
serve_all-IsLimited window cap from key requests pos timed = ground (
  arith,
  count_if-times_of key window from (serve_all window cap requests []),
  serve_all-times window cap key requests [] pos,
  ap (λ ts. count_if (in_stretch from window) ts) (serve_all-times window cap key requests [] pos),
  allowed-IsLimited window cap 0 from (times_of key requests) []
      (times_of-IsOrdered key 0 0 requests (omega arith) timed) (omega arith),
)
