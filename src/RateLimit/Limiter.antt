-- ===== src/RateLimit/Limiter.antt =====
-- RateLimitService: `consume`, `enforce`, `consumeInMemory`, and the script that runs in Redis. Times
-- are milliseconds, keys are numbered, and limits are positive.
use lotzi.Base.{
  ℕ, ◌+◌, ◌-◌, ◌*◌, ◌/◌, Bool, true, false, ◌&&◌, Option, none, some, leb, ◌==◌, max, if◌then◌else◌,
}

pub record LimitResult : Type 0 where
  pub allowed : Bool
  pub retry_after_seconds : ℕ
  pub degraded : Bool

pub record MemoryBucket : Type 0 where
  pub count : ℕ
  pub reset_at : ℕ

-- A key of Redis with its time of expiry, as `SET … PX ttl` leaves it.
pub record Stored : Type 0 where
  pub tat : ℕ
  pub expires_at : ℕ

pub record State : Type 0 where
  pub redis : ℕ → Option Stored
  pub memory : ℕ → Option MemoryBucket
  pub redis_circuit_open_until : ℕ
  pub last_redis_error_log_at : ℕ

abbrev ceil_div : ℕ → ℕ → ℕ
ceil_div a b = (a + (b - 1)) / b

abbrev redis_circuit_open_ms : ℕ
redis_circuit_open_ms = 30000

-- `tonumber(redis.call("GET", key) or "0")`; a key that has expired is not there.
abbrev pub stored_tat : ℕ → Option Stored → ℕ
stored_tat now none = 0
stored_tat now (some e) = if leb e.expires_at now then 0 else e.tat

-- `GCRA_SCRIPT`.
unfoldable pub gcra : ℕ → ℕ → ℕ → ℕ → Option Stored → (Bool × ℕ) × Option Stored
gcra now interval burst ttl entry =
    let new_tat = max (stored_tat now entry) now + interval in
    let allow_at = new_tat - burst in
    if leb allow_at now
    then ((true, 0), some (record { tat = new_tat; expires_at = now + ttl }))
    else ((false, ceil_div (allow_at - now) 1000), entry)

abbrev opened : ℕ → ℕ → Option MemoryBucket × LimitResult
opened now window_ms = (
  some (record { count = 1; reset_at = now + window_ms }),
  record { allowed = true; retry_after_seconds = 0; degraded = true },
)

-- `consumeInMemory`, for the bucket of the key.
unfoldable pub consume_in_memory :
    ℕ → ℕ → ℕ → Option MemoryBucket → Option MemoryBucket × LimitResult
consume_in_memory limit window_ms now none = opened now window_ms
consume_in_memory limit window_ms now (some b) =
    if leb b.reset_at now then opened now window_ms else (
      some (record { count = b.count + 1; reset_at = b.reset_at }),
      (if leb (b.count + 1) limit
          then record { allowed = true; retry_after_seconds = 0; degraded = true }
          else record {
            allowed = false;
            retry_after_seconds = ceil_div (b.reset_at - now) 1000;
            degraded = true;
          }),
    )

abbrev pub put : {A : Type 0} → ℕ → Option A → (ℕ → Option A) → ℕ → Option A
put k x m j = if j == k then x else m j

abbrev limit_or_default : Option ℕ → ℕ → ℕ
limit_or_default none limit = max (limit * 3) limit
limit_or_default (some n) limit = n

-- The last line of `consume`.
unfoldable pub throttle : ℕ → ℕ → ℕ → ℕ → State → LimitResult × State
throttle key limit window_ms now s =
    let (b, r) = consume_in_memory limit window_ms now (s.memory key) in
    (r, record s { memory = put key b s.memory })

abbrev open_circuit : ℕ → State → State
open_circuit now s = record s {
  redis_circuit_open_until = now + redis_circuit_open_ms;
  last_redis_error_log_at =
      if leb redis_circuit_open_ms (now - s.last_redis_error_log_at)
      then now
      else s.last_redis_error_log_at;
}

-- The answer of Redis.
unfoldable ask_redis : ℕ → ℕ → ℕ → ℕ → State → LimitResult × State
ask_redis key interval_ms window_ms now s =
    let ((allowed, retry), entry) =
      gcra now interval_ms window_ms (window_ms + interval_ms) (s.redis key) in
    (
      record { allowed = allowed; retry_after_seconds = retry; degraded = false },
      record s { redis = put key entry s.redis },
    )

-- `is_configured` and `answers` are about Redis: whether it is set up, and whether it answers this
-- call.
unfoldable consume : Bool → Bool → ℕ → ℕ → ℕ → Option ℕ → ℕ → State → LimitResult × State
consume is_configured answers key limit window_seconds degraded_limit now s =
    let window_ms = window_seconds * 1000 in
    if is_configured && leb s.redis_circuit_open_until now
    then (if answers
        then ask_redis key (ceil_div window_ms limit) window_ms now s
        else throttle key (limit_or_default degraded_limit limit) window_ms now
            (open_circuit now s))
    else throttle key (limit_or_default degraded_limit limit) window_ms now s

-- `some` is the thrown error, with the seconds to wait.
unfoldable enforce : Bool → Bool → ℕ → ℕ → ℕ → ℕ → State → Option ℕ × State
enforce is_configured answers key limit window_seconds now s =
    let (r, t) = consume is_configured answers key limit window_seconds none now s in
    ((if r.allowed then none else some r.retry_after_seconds), t)
