-- ===== src/Abuse.antt =====
-- knovaryn/interfaces/rest/rate_limit.py and knovaryn/application/abuse.py: what a caller may do in a
-- window of time.
--
-- Times are counted in ticks of the monotonic clock, and a window is a number of ticks. A cap of 0
-- is no cap.
mod Tests
pub mod Window
pub mod Callers
pub mod Calls
use knovaryn.Base.{
  ℕ, zero, suc, ◌+◌, ◌-◌, Bool, true, false, ◌&&◌, ◌||◌, String, str_eq, List, [], ◌∷◌, ◌++◌, leb,
  ◌==◌, length, if◌then◌else◌,
}
use knovaryn.Dict.{Dict, get_or, put}

-- The loop that drops the times at the front that have left the window.
unfoldable pub expire : ℕ → ℕ → List ℕ → List ℕ
expire window now [] = []
expire window now (t ∷ times) =
    let rest = expire window now times in if leb (t + window) now then rest else t ∷ times

-- _Bucket.allow
unfoldable pub allow : ℕ → ℕ → ℕ → List ℕ → Bool × List ℕ
unfolding expire
allow window limit now times =
    let live = expire window now times in
    if leb limit (length live) then (false, live) else (true, live ++ now ∷ [])

-- _Bucket.next_retry
unfoldable pub next_retry : ℕ → ℕ → List ℕ → ℕ
next_retry window now [] = 0
next_retry window now (t ∷ times) = t + window - now

-- RateLimitMiddleware.__call__ for a caller: whether the request goes on.
unfoldable pub serve : ℕ → ℕ → ℕ → String → Dict (List ℕ) → Bool × Dict (List ℕ)
unfolding allow
serve window cap now key buckets =
    let r = allow window cap now (get_or buckets key []) in
    if cap == 0 then (true, buckets) else (r.0, put buckets key r.1)

-- Requests, each with its time and its caller, and those that go on.
unfoldable pub serve_all : ℕ → ℕ → List (ℕ × String) → Dict (List ℕ) → List (ℕ × String)
unfolding serve
serve_all window cap [] buckets = []
serve_all window cap ((now, key) ∷ requests) buckets =
    let r = serve window cap now key buckets in
    let rest = serve_all window cap requests r.1 in if r.0 then (now, key) ∷ rest else rest

-- enforce_publish_attempts: whether it returns; without a principal it raises.
unfoldable pub enforce_publish_attempts : ℕ → ℕ → ℕ → String → Dict (List ℕ) → Bool × Dict (List ℕ)
unfolding serve
enforce_publish_attempts window cap now principal history =
    let r = serve window cap now principal history in
    if cap == 0 then (true, history) else if str_eq principal "" then (false, history) else r

unfoldable pub enforce_concurrent_jobs : ℕ → ℕ → Bool
enforce_concurrent_jobs cap running_count = cap == 0 || leb (running_count + 1) cap

-- enforce_provider_call, on the number of calls since begin_generation_run
unfoldable pub enforce_provider_call : ℕ → ℕ → Bool × ℕ
enforce_provider_call cap calls =
    if cap == 0 then (true, calls) else if leb cap calls then (false, calls) else (true, calls + 1)

unfoldable pub begin_generation_run : ℕ
begin_generation_run = 0
