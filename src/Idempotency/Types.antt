-- ===== src/Idempotency/Types.antt =====
-- The types of idempotency.service.ts. Keys, users, operations and digests are numbers, instants are
-- in milliseconds.
use lotzi.Base.{ℕ, Bool, Option, List, String}

pub data IdempotencyStatus : Type 0 where
  in_progress completed failed : IdempotencyStatus

pub record ReserveInput : Type 0 where
  pub key : ℕ
  pub user_id : ℕ
  pub store_id : Option ℕ
  pub operation : ℕ
  pub request_hash : ℕ
  pub ttl_ms : ℕ

-- `CachedIdempotencyRecord`, and a row of the table, which has the same fields.
pub record IdempotencyRecord : Type 0 where
  pub user_id : ℕ
  pub store_id : Option ℕ
  pub operation : ℕ
  pub request_hash : ℕ
  pub status : IdempotencyStatus
  pub response_json : Option String
  pub expires_at : ℕ

-- A value of Redis until `evicted_at`; `none` is a text that is no record.
pub record CacheValue : Type 0 where
  pub text : Option IdempotencyRecord
  pub evicted_at : ℕ

-- `IdempotencyReservation` where its state is `reserved`. It has a Redis key if it is held in Redis.
pub record Reserved : Type 0 where
  pub key : ℕ
  pub user_id : ℕ
  pub store_id : Option ℕ
  pub operation : ℕ
  pub request_hash : ℕ
  pub expires_at : ℕ
  pub in_redis : Bool
  pub ttl_seconds : ℕ

pub data IdempotencyReservation : Type 0 where
  reserved : Reserved → IdempotencyReservation
  replayed : Option String → IdempotencyReservation

pub data IdempotencyError : Type 0 where
  key_reused still_in_progress record_not_found : IdempotencyError

-- The writes of the table that nothing waits for.
pub data AsyncWrite : Type 0 where
  create_db : ReserveInput → ℕ → AsyncWrite
  complete_db : Reserved → Option String → AsyncWrite
  fail_db : Reserved → Option String → AsyncWrite

pub record State : Type 0 where
  pub cache : ℕ → Option CacheValue
  pub table : ℕ → Option IdempotencyRecord
  pub pending : List AsyncWrite
