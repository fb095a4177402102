-- ===== src/Abuse/Window.antt =====
-- The window of one caller.
use knovaryn.Base.{
  ℕ, ◌+◌, ◌≤◌, ◌<◌, ◌≡◌, refl, Bool, true, false, ◌&&◌, List, [], ◌∷◌, ◌++◌, leb, ltb, length,
  if◌then◌else◌, arith, count_if, count_if-le, length-append, Bool-cases, inl, inr,
}
use knovaryn.Abuse.{expire, allow, next_retry}

-- The requests of one caller that go on.
unfoldable pub allowed : ℕ → ℕ → List ℕ → List ℕ → List ℕ
unfolding allow
allowed window limit [] times = []
allowed window limit (now ∷ nows) times =
    let r = allow window limit now times in
    let rest = allowed window limit nows r.1 in if r.0 then now ∷ rest else rest

-- The times never go back.
abbrev pub IsOrdered : ℕ → List ℕ → Type 0
IsOrdered b [] = Unit
IsOrdered b (t ∷ ts) = (b ≤ t) × IsOrdered t ts

abbrev pub in_stretch : ℕ → ℕ → ℕ → Bool
in_stretch from window t = leb from t && ltb t (from + window)

count_if-append :
    (p : ℕ → Bool) (xs ys : List ℕ) → count_if p (xs ++ ys) ≡ count_if p xs + count_if p ys
count_if-append p [] ys = omega arith
count_if-append p (x ∷ xs) ys = ground (arith, count_if-append p xs ys)

expire-le : (window now : ℕ) (times : List ℕ) → length (expire window now times) ≤ length times
unfolding expire
expire-le window now [] = omega arith
expire-le window now (t ∷ times) = ground (arith, expire-le window now times)

-- What has left the window is not in a stretch that is still open.
expire-count :
    (window now from : ℕ) (times : List ℕ)
    → now < from + window
    → count_if (in_stretch from window) (expire window now times)
      ≡ count_if (in_stretch from window) times
unfolding expire
expire-count window now from [] h = refl
expire-count window now from (t ∷ times) h = ground (arith, expire-count window now from times h)

allowed-late :
    (window limit b from : ℕ) (nows times : List ℕ)
    → IsOrdered b nows
    → from + window ≤ b
    → count_if (in_stretch from window) (allowed window limit nows times) ≡ 0
unfolding allowed
allowed-late window limit b from [] times h le = refl
allowed-late window limit b from (now ∷ nows) times h le = ground (
  arith,
  allowed-late window limit now from nows (allow window limit now times).1 h.1 (omega (arith, h.0)),
  h.0,
)

allow-length :
    (window limit now : ℕ) (times : List ℕ)
    → length times ≤ limit
    → length (allow window limit now times).1 ≤ limit
unfolding allow
allow-length window limit now times h =
    ground (arith, expire-le window now times, length-append (expire window now times) (now ∷ []))

allow-count :
    (window limit now from : ℕ) (times : List ℕ)
    → now < from + window
    → count_if (in_stretch from window) (allow window limit now times).1
      ≡ count_if (in_stretch from window) times
        + (if (allow window limit now times).0 && in_stretch from window now then 1 else 0)
unfolding allow
allow-count window limit now from times h = ground (
  arith,
  expire-count window now from times h,
  count_if-append (in_stretch from window) (expire window now times) (now ∷ []),
)

-- In any stretch of a window's length, no more requests go on than the limit, those that the bucket
-- remembers included.
pub allowed-IsLimited :
    (window limit b from : ℕ) (nows times : List ℕ)
    → IsOrdered b nows
    → length times ≤ limit
    → count_if (in_stretch from window) (times ++ allowed window limit nows times) ≤ limit
unfolding allowed
allowed-IsLimited window limit b from [] times h le = omega (
  arith,
  count_if-append (in_stretch from window) times [],
  count_if-le (in_stretch from window) times,
)
allowed-IsLimited window limit b from (now ∷ nows) times h le =
    elim (Bool-cases (ltb now (from + window))) [
      | inl e ↦
          let t = (allow window limit now times).1 in
          ground (
            arith,
            e,
            allowed-IsLimited window limit now from nows t h.1
                (allow-length window limit now times le),
            allow-count window limit now from times (ground (arith, e)),
            count_if-append (in_stretch from window) t (allowed window limit nows t),
            count_if-append (in_stretch from window) times
                (allowed window limit (now ∷ nows) times),
          )
      | inr e ↦ omega (
        arith,
        count_if-le (in_stretch from window) times,
        le,
        allowed-late window limit now from (now ∷ nows) times (omega arith, h.1)
            (ground (arith, e)),
        count_if-append (in_stretch from window) times (allowed window limit (now ∷ nows) times),
      )
    ]

-- The window has room once its first time has left it.
expire-room :
    (window limit now later : ℕ) (live : List ℕ)
    → length live ≤ limit
    → 0 < limit
    → limit ≤ length live
    → now + next_retry window now live ≤ later
    → length (expire window later live) < limit
unfolding expire next_retry
expire-room window limit now later [] le pos full wait = absurd (omega arith)
expire-room window limit now later (t ∷ live) le pos full wait =
    ground (arith, expire-le window later live)

-- A caller that is refused and comes back after the time that it was told is let through, if no
-- request of it came between, its window holds no more than the limit, and the limit is not 0.
pub next_retry-allows :
    (window limit now later : ℕ) (times : List ℕ)
    → length times ≤ limit
    → 0 < limit
    → (allow window limit now times).0 ≡ false
    → now + next_retry window now (allow window limit now times).1 ≤ later
    → (allow window limit later (allow window limit now times).1).0 ≡ true
unfolding allow
next_retry-allows window limit now later times le pos refused wait =
    let live = expire window now times in
    let full : limit ≤ length live = ground (arith, refused) in
    ground (
      arith,
      refused,
      wait,
      expire-room window limit now later live (omega (arith, expire-le window now times)) pos full,
    )
