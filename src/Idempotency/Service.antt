-- ===== src/Idempotency/Service.antt =====
-- IdempotencyService. A call is a sequence of commands, each of which is one step: the commands of
-- several calls may interleave.
use lotzi.Base.{
  ℕ, zero, suc, ◌+◌, ◌*◌, ◌/◌, max, Bool, true, false, ◌&&◌, Option, none, some, ◌∷◌, ltb, leb,
  ◌==◌, if◌then◌else◌, String,
}
use lotzi.Base.Outcome.{Outcome, returned, thrown}
use lotzi.Idempotency.Types.{
  IdempotencyStatus, ReserveInput, IdempotencyRecord, CacheValue, Reserved, IdempotencyReservation,
  reserved, replayed, IdempotencyError, key_reused, still_in_progress, record_not_found, AsyncWrite,
  create_db, complete_db, fail_db, State,
}

-- Set what a map has at a key.
abbrev pub put : {A : Type 0} → ℕ → Option A → (ℕ → Option A) → ℕ → Option A
put k v m j = if j == k then v else m j

-- `Math.max(1, Math.ceil(ttlMs / 1000))`.
unfoldable pub ttl_seconds : ℕ → ℕ
ttl_seconds ttl_ms = max 1 ((ttl_ms + 999) / 1000)

abbrev pub new_record : ReserveInput → ℕ → IdempotencyRecord
new_record input expires_at = record {
  user_id = input.user_id;
  store_id = input.store_id;
  operation = input.operation;
  request_hash = input.request_hash;
  status = IdempotencyStatus.in_progress;
  response_json = none;
  expires_at = expires_at;
}

abbrev pub new_reservation : ReserveInput → ℕ → Bool → IdempotencyReservation
new_reservation input expires_at in_redis = reserved (record {
  key = input.key;
  user_id = input.user_id;
  store_id = input.store_id;
  operation = input.operation;
  request_hash = input.request_hash;
  expires_at = expires_at;
  in_redis = in_redis;
  ttl_seconds = ttl_seconds input.ttl_ms;
})

-- What Redis holds at an instant.
unfoldable pub live : ℕ → Option CacheValue → Option CacheValue
live t none = none
live t (some v) = if ltb t v.evicted_at then some v else none

-- `parseCachedRecord(await redis.get(key))`.
unfoldable pub cached_record : ℕ → Option CacheValue → Option IdempotencyRecord
unfolding live
cached_record t v = text_of (live t v)
  where
    text_of : Option CacheValue → Option IdempotencyRecord
    text_of none = none
    text_of (some v) = v.text

abbrev pub is_failed : IdempotencyStatus → Bool
is_failed IdempotencyStatus.failed = true
is_failed _ = false

-- `!existing || existing.expiresAt <= now || existing.status === "FAILED"`.
unfoldable pub is_stale : ℕ → Option IdempotencyRecord → Bool
is_stale now none = true
is_stale now (some r) = if leb r.expires_at now then true else is_failed r.status

abbrev pub same_request : IdempotencyRecord → ReserveInput → Bool
same_request r input =
    r.operation == input.operation
    && (r.user_id == input.user_id && r.request_hash == input.request_hash)

abbrev pub answer_status :
    IdempotencyRecord → IdempotencyStatus → Outcome IdempotencyError IdempotencyReservation
answer_status r IdempotencyStatus.completed = returned (replayed r.response_json)
answer_status r _ = thrown still_in_progress

-- The answer from a record that is not stale.
unfoldable pub answer :
    IdempotencyRecord → ReserveInput → Outcome IdempotencyError IdempotencyReservation
answer r input = if same_request r input then answer_status r r.status else thrown key_reused

-- Where a call of `reserve` stands: at its next command, with the instant at which it began.
pub data Phase : Type 0 where
  set_nx : Phase
  get del create find upsert : ℕ → Phase
  ended : Outcome IdempotencyError IdempotencyReservation → Phase

-- The record is new in Redis, and the row is written without waiting.
abbrev pub grant_redis : ℕ → ReserveInput → State → Phase × State
grant_redis t input s = (
  ended (returned (new_reservation input (t + input.ttl_ms) true)),
  record s {
    cache =
        put input.key
          (some (record {
            text = some (new_record input (t + input.ttl_ms));
            evicted_at = t + ttl_seconds input.ttl_ms * 1000;
          }))
          s.cache;
    pending = create_db input (t + input.ttl_ms) ∷ s.pending;
  },
)

-- The row is new in the table, or takes the place of a stale one.
abbrev pub grant_table : ℕ → ReserveInput → State → Phase × State
grant_table now input s = (
  ended (returned (new_reservation input (now + input.ttl_ms) false)),
  record s { table = put input.key (some (new_record input (now + input.ttl_ms))) s.table },
)

-- The first command of `reserve`; `up` tells whether Redis answers `setNxEx`.
unfoldable pub step_set_nx : ℕ → Bool → ReserveInput → State → Phase × State
unfolding live
step_set_nx t false input s = (create t, s)
step_set_nx t true input s = elim (live t (s.cache input.key)) [
  | some v ↦ (get t, s)
  | none ↦ grant_redis t input s
]

abbrev pub decide : (ℕ → Phase) → ℕ → Option IdempotencyRecord → ReserveInput → Phase
decide take_over now none input = take_over now
decide take_over now (some r) input =
    if is_stale now (some r) then take_over now else ended (answer r input)

-- One command of `reserve`, at an instant.
unfoldable pub step : ℕ → Bool → ReserveInput → Phase → State → Phase × State
unfolding step_set_nx cached_record is_stale answer
step t up input set_nx s = step_set_nx t up input s
step t up input (get now) s = (decide del now (cached_record t (s.cache input.key)) input, s)
step t up input (del now) s = (set_nx, record s { cache = put input.key none s.cache })
step t up input (create now) s = elim (s.table input.key) [
  | some r ↦ (find now, s)
  | none ↦ grant_table now input s
]
step t up input (find now) s = (decide upsert now (s.table input.key) input, s)
step t up input (upsert now) s = grant_table now input s
step t up input (ended o) s = (ended o, s)

-- Several commands of one call, with no other call between them.
unfoldable pub steps : ℕ → ℕ → Bool → ReserveInput → Phase × State → Phase × State
steps zero t up input c = c
steps (suc n) t up input (phase, s) = steps n t up input (step t up input phase s)

-- `reserve` with no other call between its commands: four are enough.
unfoldable pub reserve : ℕ → Bool → ReserveInput → State → Phase × State
unfolding steps
reserve t up input s = steps 4 t up input (set_nx, s)

abbrev pub completed_record : Reserved → Option String → IdempotencyRecord
completed_record r response = record {
  user_id = r.user_id;
  store_id = r.store_id;
  operation = r.operation;
  request_hash = r.request_hash;
  status = IdempotencyStatus.completed;
  response_json = response;
  expires_at = r.expires_at;
}

-- `update` of a row, which throws where there is none.
abbrev updated :
    ℕ
    → (IdempotencyRecord → IdempotencyRecord)
    → State
    → Option IdempotencyRecord
    → Outcome IdempotencyError (Unit {0}) × State
updated key f s none = (thrown record_not_found, s)
updated key f s (some row) = (returned tt, record s { table = put key (some (f row)) s.table })

abbrev update_row :
    ℕ
    → (IdempotencyRecord → IdempotencyRecord)
    → State
    → Outcome IdempotencyError (Unit {0}) × State
update_row key f s = updated key f s (s.table key)

unfoldable pub complete :
    ℕ → Reserved → Option String → State → Outcome IdempotencyError (Unit {0}) × State
complete t r response s =
    if r.in_redis
    then (
      returned tt,
      record s {
        cache =
            put r.key
              (some (record {
                text = some (completed_record r response);
                evicted_at = t + r.ttl_seconds * 1000;
              }))
              s.cache;
        pending = complete_db r response ∷ s.pending;
      },
    )
    else update_row r.key
        (λ row. record row { status = IdempotencyStatus.completed; response_json = response }) s

-- Its error on a missing row is caught.
unfoldable pub fail : Reserved → Option String → State → State
fail r response s =
    if r.in_redis
    then record s { cache = put r.key none s.cache; pending = fail_db r response ∷ s.pending }
    else (update_row r.key
        (λ row. record row { status = IdempotencyStatus.failed; response_json = response }) s).1

-- `create` of a row, whose conflict is caught, the `upsert` of `completeDbAsync`, and the `update` of
-- `failDbAsync`, whose error is caught: what they make of the row.
unfoldable pub write_row : AsyncWrite → Option IdempotencyRecord → Option IdempotencyRecord
write_row (create_db input expires_at) none = some (new_record input expires_at)
write_row (create_db input expires_at) (some row) = some row
write_row (complete_db r response) none = some (completed_record r response)
write_row (complete_db r response) (some row) = some (record row {
  status = IdempotencyStatus.completed;
  response_json = response;
  expires_at = r.expires_at;
})
write_row (fail_db r response) none = none
write_row (fail_db r response) (some row) =
    some (record row { status = IdempotencyStatus.failed; response_json = response })

abbrev key_of : AsyncWrite → ℕ
key_of (create_db input expires_at) = input.key
key_of (complete_db r response) = r.key
key_of (fail_db r response) = r.key

unfoldable pub write_db : AsyncWrite → State → State
unfolding write_row
write_db w s = record s { table = put (key_of w) (write_row w (s.table (key_of w))) s.table }
