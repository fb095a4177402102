-- ===== src/Abuse/Tests.antt =====
-- Two callers in one window.
use knovaryn.Base.{ℕ, ◌≤◌, ◌≡◌, refl, true, ◌&&◌, String, str_eq, List, [], ◌∷◌, count_if, arith}
use knovaryn.Abuse.{serve_all, allow, next_retry, expire}
use knovaryn.Abuse.Window.{in_stretch, next_retry-allows}
use knovaryn.Abuse.Callers.{serve_all-IsLimited}

abbrev requests : List (ℕ × String)
requests = (1, "a") ∷ (2, "b") ∷ (3, "a") ∷ (4, "a") ∷ (70, "a") ∷ []

serve_all-IsLimited_example :
    count_if (λ q. str_eq q.1 "a" && in_stretch 0 60 q.0) (serve_all 60 2 requests []) ≤ 2
serve_all-IsLimited_example =
    serve_all-IsLimited 60 2 0 "a" requests (omega arith)
      (omega arith, (omega arith, (omega arith, (omega arith, (omega arith, tt)))))

next_retry-allows_example : (allow 60 2 61 (allow 60 2 4 (1 ∷ 3 ∷ [])).1).0 ≡ true
unfolding allow expire next_retry
next_retry-allows_example =
    next_retry-allows 60 2 4 61 (1 ∷ 3 ∷ []) (omega arith) (omega arith) refl (omega arith)
