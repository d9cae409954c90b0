-- ===== src/Idempotency/Contract.antt =====
-- What a request key promises: it is free, held by a request, or done with a response.
use lotzi.Base.{
  ◌&&◌, ℕ, zero, suc, ◌+◌, ◌*◌, ◌≤◌, ◌<◌, ◌≡◌, ◌≢◌, refl, sym, inl, inr, Bool, true, false, Option,
  none, some, leb, ◌==◌, if◌then◌else◌, String, arith, Bool-cases,
}
use mathlib.Core.Bool.{false≢true}
use lotzi.Base.Outcome.{Outcome, returned, thrown}
use lotzi.Idempotency.Types.{
  IdempotencyStatus, ReserveInput, IdempotencyRecord, IdempotencyReservation, IdempotencyError,
  State, key_reused, still_in_progress, reserved, replayed,
}
use lotzi.Idempotency.Service.{
  ended, ttl_seconds, new_record, cached_record, is_stale, is_failed, answer_status, same_request,
  answer, step, steps, reserve,
}

-- Who asked for what: the user, the operation and the digest of the request.
abbrev pub Request : Type 0
Request = ℕ × ℕ × ℕ

pub data View : Type 0 where
  free : View
  held : Request → View
  done : Request → Option String → View

abbrev request_of : IdempotencyRecord → Request
request_of r = (r.user_id, r.operation, r.request_hash)

abbrev view_status : IdempotencyRecord → IdempotencyStatus → View
view_status r IdempotencyStatus.in_progress = held (request_of r)
view_status r IdempotencyStatus.completed = done (request_of r) r.response_json
view_status r IdempotencyStatus.failed = free

abbrev view_record : ℕ → IdempotencyRecord → View
view_record t r = if leb r.expires_at t then free else view_status r r.status

abbrev pub view : ℕ → Option IdempotencyRecord → View
view t none = free
view t (some r) = view_record t r

-- The view of a key at an instant: of Redis, or of the table.
abbrev pub view_at : Bool → ℕ → ℕ → State → View
view_at true t key s = view t (cached_record t (s.cache key))
view_at false t key s = view t (s.table key)

pub data Answer : Type 0 where
  granted : Answer
  repeated : Option String → Answer
  refused : IdempotencyError → Answer

abbrev pub answer_of : Outcome IdempotencyError IdempotencyReservation → Answer
answer_of (returned (reserved r)) = granted
answer_of (returned (replayed response)) = repeated response
answer_of (thrown e) = refused e

abbrev pub same : Request → ReserveInput → Bool
same (user, operation, hash) input =
    operation == input.operation && (user == input.user_id && hash == input.request_hash)

-- The contract of `reserve`.
abbrev pub reserve_view : ReserveInput → View → Answer × View
reserve_view input free = (granted, held (input.user_id, input.operation, input.request_hash))
reserve_view input (held r) =
    (if same r input then refused still_in_progress else refused key_reused, held r)
reserve_view input (done r response) =
    (if same r input then repeated response else refused key_reused, done r response)

abbrev pub Refines : Bool → ℕ → ReserveInput → State → Type 0
Refines up t input s =
    (o : Outcome IdempotencyError IdempotencyReservation) × (s' : State) × (reserve t up input s
      ≡ (ended o, s'))
    × ((answer_of o, view_at up t input.key s') ≡ reserve_view input (view_at up t input.key s))
    × ((j : ℕ) → j ≢ input.key → (s'.cache j ≡ s.cache j) × (s'.table j ≡ s.table j))

pub ==_refl : (n : ℕ) → (n == n) ≡ true
==_refl n = ground arith

pub ==_ne : (m n : ℕ) → m ≢ n → (m == n) ≡ false
==_ne m n h = ground arith

pub ttl_seconds-cover : (ttl : ℕ) → (ttl ≤ ttl_seconds ttl * 1000) × (0 < ttl_seconds ttl)
unfolding ttl_seconds
ttl_seconds-cover ttl = (omega arith, omega arith)

pub stale-view : (t : ℕ) (o : Option IdempotencyRecord) → is_stale t o ≡ true → view t o ≡ free
unfolding is_stale
stale-view t none h = refl
stale-view t (some r) h = elim (Bool-cases (leb r.expires_at t)) [
  | inl e ↦ rw e refl
  | inr e ↦ rw e (failed_view r.status (rw e at h))
]
  where
    failed_view :
        (status : IdempotencyStatus) → is_failed status ≡ true → view_status r status ≡ free
    failed_view IdempotencyStatus.in_progress h = cc
    failed_view IdempotencyStatus.completed h = cc
    failed_view IdempotencyStatus.failed h = refl

pub answer-view :
    (t : ℕ) (r : IdempotencyRecord) (input : ReserveInput)
    → is_stale t (some r) ≡ false
    → (answer_of (answer r input), view t (some r)) ≡ reserve_view input (view t (some r))
unfolding is_stale answer
answer-view t r input h = elim (Bool-cases (leb r.expires_at t)) [
  | inl e ↦ absurd (false≢true (sym (rw e at h)))
  | inr e ↦ rw e (by_status r.status (rw e at h))
]
  where
    by_status :
        (status : IdempotencyStatus)
        → is_failed status ≡ false
        → (
          answer_of (if same_request r input then answer_status r status else thrown key_reused),
          view_status r status,
        )
          ≡ reserve_view input (view_status r status)
    by_status IdempotencyStatus.in_progress h = elim (Bool-cases (same_request r input)) [
      | inl e ↦ rw e refl
      | inr e ↦ rw e refl
    ]
    by_status IdempotencyStatus.completed h = elim (Bool-cases (same_request r input)) [
      | inl e ↦ rw e refl
      | inr e ↦ rw e refl
    ]
    by_status IdempotencyStatus.failed h = cc

pub new_record-view :
    (t : ℕ) (input : ReserveInput)
    → 0 < input.ttl_ms
    → view t (some (new_record input (t + input.ttl_ms)))
      ≡ held (input.user_id, input.operation, input.request_hash)
new_record-view t input h =
    let later : leb (t + input.ttl_ms) t ≡ false = ground arith in rw later refl

steps-ended :
    (n t : ℕ) (up : Bool) (input : ReserveInput)
    (o : Outcome IdempotencyError IdempotencyReservation) (s : State)
    → steps n t up input (ended o, s) ≡ (ended o, s)
unfolding steps step
steps-ended zero t up input o s = refl
steps-ended (suc n) t up input o s = steps-ended n t up input o s
