-- ===== src/RateLimit/Window.antt =====
-- The emergency throttle of the process.
use lotzi.Base.{ℕ, ◌+◌, ◌-◌, ◌≤◌, ◌<◌, List, [], ◌∷◌, Option, none, some, All, if◌then◌else◌, arith}
use lotzi.RateLimit.Limiter.{MemoryBucket, consume_in_memory}

-- How many of the calls at these times, one behind the other, the throttle lets through.
unfoldable pub passed : ℕ → ℕ → Option MemoryBucket → List ℕ → ℕ
passed limit window_ms bucket [] = 0
passed limit window_ms bucket (t ∷ ts) =
    let (next, result) = consume_in_memory limit window_ms t bucket in
    let rest = passed limit window_ms next ts in if result.allowed then rest + 1 else rest

passed_open :
    (limit window_ms count reset_at : ℕ) (ts : List ℕ)
    → All (λ t. t < reset_at) ts
    → passed limit window_ms (some (record { count = count; reset_at = reset_at })) ts
      ≤ limit - count
unfolding passed consume_in_memory
passed_open limit window_ms count reset_at [] h = omega arith
passed_open limit window_ms count reset_at (t ∷ ts) h =
    ground (arith, passed_open limit window_ms (count + 1) reset_at ts h.1)

-- Of the calls on a new key from a time on, all of them within one window of it, the throttle lets at
-- most as many through as the limit says, if the limit is positive.
pub passed_window :
    (limit window_ms start : ℕ) (ts : List ℕ)
    → 0 < limit
    → All (λ t. t < start + window_ms) ts
    → passed limit window_ms none (start ∷ ts) ≤ limit
unfolding passed consume_in_memory
passed_window limit window_ms start ts positive h =
    ground (arith, passed_open limit window_ms 1 (start + window_ms) ts h)
