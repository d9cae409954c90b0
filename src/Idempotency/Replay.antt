-- ===== src/Idempotency/Replay.antt =====
-- A request that is repeated after it was completed, or after it failed.
use lotzi.Base.{
  ℕ, ◌+◌, ◌*◌, ◌≤◌, ◌<◌, ◌≡◌, refl, sym, ap, ◌∙◌, inl, inr, Bool, true, false, Option, some, leb,
  ltb, String, arith,
}
use lotzi.Base.Outcome.{Outcome, returned, thrown}
use lotzi.Idempotency.Types.{
  ReserveInput, IdempotencyRecord, Reserved, IdempotencyReservation, IdempotencyError, State,
  reserved, replayed,
}
use lotzi.Idempotency.Service.{
  ended, ttl_seconds, live, cached_record, is_stale, answer, reserve, complete, fail,
}
use lotzi.Idempotency.Contract.{
  free, held, done, view, view_at, answer_of, repeated, same, ==_refl, ttl_seconds-cover,
  answer-view,
}
use lotzi.Idempotency.Refinement.{grant, reserve-Cases}

abbrev pub reservation_of : Bool → ℕ → ReserveInput → Reserved
reservation_of up t input = record {
  key = input.key;
  user_id = input.user_id;
  store_id = input.store_id;
  operation = input.operation;
  request_hash = input.request_hash;
  expires_at = t + input.ttl_ms;
  in_redis = up;
  ttl_seconds = ttl_seconds input.ttl_ms;
}

same_self :
    (input : ReserveInput) → same (input.user_id, input.operation, input.request_hash) input ≡ true
same_self input =
    rw (==_refl input.user_id, ==_refl input.operation, ==_refl input.request_hash) refl

module _ (t t1 t2 : ℕ) (input : ReserveInput) (response : Option String) (s : State)
    (after : t ≤ t1) (later : t1 ≤ t2) (alive : t2 < t + input.ttl_ms) where
  unexpired : leb (t + input.ttl_ms) t2 ≡ false
  unexpired = ground arith

  complete-view :
      (up : Bool)
      → ((complete t1 (reservation_of up t input) response (grant up t input s).1).0 ≡ returned tt)
        × (view_at up t2 input.key
              (complete t1 (reservation_of up t input) response (grant up t input s).1).1
            ≡ done (input.user_id, input.operation, input.request_hash) response)
  unfolding complete cached_record live
  complete-view true =
      let cover = ttl_seconds-cover input.ttl_ms in
      let kept : ltb t2 (t1 + ttl_seconds input.ttl_ms * 1000) ≡ true = ground arith in
      (refl, rw (==_refl input.key, kept, unexpired) refl)
  complete-view false =
      (rw (==_refl input.key) refl, rw (==_refl input.key, ==_refl input.key, unexpired) refl)

  fail-view :
      (up : Bool)
      → view_at up t2 input.key (fail (reservation_of up t input) response (grant up t input s).1)
        ≡ free
  unfolding fail cached_record live
  fail-view true = rw (==_refl input.key) refl
  fail-view false = rw (==_refl input.key, ==_refl input.key, unexpired) refl

replayed-of :
    (o : Outcome IdempotencyError IdempotencyReservation) (response : Option String)
    → answer_of o ≡ repeated response
    → o ≡ returned (replayed response)
replayed-of (returned (replayed response')) response h = cc
replayed-of (returned (reserved r)) response h = cc
replayed-of (thrown e) response h = cc

replay :
    (up : Bool) (t : ℕ) (input : ReserveInput) (response : Option String) (s : State)
    → view_at up t input.key s ≡ done (input.user_id, input.operation, input.request_hash) response
    → reserve t up input s ≡ (ended (returned (replayed response)), s)
replay up t input response s d = elim (reserve-Cases up t input s) [
  | inl (s0, k, v, e) ↦ absurd (free≢done (sym v ∙ d))
  | inr (r, f, v, e) ↦
      let both = rw (sym v ∙ d, same_self input) at (answer-view t r input f) in
      e ∙ ap (λ o. (ended o, s)) (replayed-of (answer r input) response (ap (λ p. p.0) both))
]
  where
    free≢done : {q : ℕ × ℕ × ℕ} → ¬ (free ≡ done q response)
    free≢done h = cc

taken-of :
    (up : Bool) (t : ℕ) (input : ReserveInput) (s : State)
    → view_at up t input.key s ≡ free
    → (s0 : State) × (reserve t up input s ≡ grant up t input s0)
taken-of up t input s f = elim (reserve-Cases up t input s) [
  | inl (s0, k, v, e) ↦ (s0, e)
  | inr (r, g, v, e) ↦ absurd (fresh≢free r g (sym v ∙ f))
]
  where
    fresh≢free : (r : IdempotencyRecord) → is_stale t (some r) ≡ false → ¬ (view t (some r) ≡ free)
    fresh≢free r g h = free≢held (ap (λ p. p.1) (rw h at (answer-view t r input g)))
      where
        free≢held : {q : ℕ × ℕ × ℕ} → ¬ (free ≡ held q)
        free≢held h = cc

granted-of :
    (up : Bool) (t : ℕ) (input : ReserveInput) (s0 : State)
    → grant up t input s0
      ≡ (ended (returned (reserved (reservation_of up t input))), (grant up t input s0).1)
granted-of true t input s0 = refl
granted-of false t input s0 = refl

-- A request on a free key is given the key. Once it has completed, the same request is answered with
-- its response, and changes nothing, until the life of the key is over. This holds in Redis and in
-- the table.
pub reserve-complete-replay :
    (up : Bool) (t t1 t2 : ℕ) (input : ReserveInput) (response : Option String) (s : State)
    → t ≤ t1
    → t1 ≤ t2
    → t2 < t + input.ttl_ms
    → view_at up t input.key s ≡ free
    → (s1 : State) × (reserve t up input s
        ≡ (ended (returned (reserved (reservation_of up t input))), s1))
      × ((complete t1 (reservation_of up t input) response s1).0 ≡ returned tt)
      × (reserve t2 up input (complete t1 (reservation_of up t input) response s1).1 ≡ (
        ended (returned (replayed response)),
        (complete t1 (reservation_of up t input) response s1).1,
      ))
reserve-complete-replay up t t1 t2 input response s a b c f =
    let (s0, e) = taken-of up t input s f in
    let (ok, d) = complete-view t t1 t2 input response s0 a b c up in
    ((grant up t input s0).1, e ∙ granted-of up t input s0, ok, replay up t2 input response _ d)

-- A request on a free key that fails gives the key back: the next request of the key, which may be
-- another one, is given it.
pub reserve-fail-reserve :
    (up : Bool) (t t2 : ℕ) (input next : ReserveInput) (response : Option String) (s : State)
    → t ≤ t2
    → t2 < t + input.ttl_ms
    → next.key ≡ input.key
    → view_at up t input.key s ≡ free
    → (s1 s2 : State) × (reserve t up input s
        ≡ (ended (returned (reserved (reservation_of up t input))), s1))
      × (reserve t2 up next (fail (reservation_of up t input) response s1)
          ≡ (ended (returned (reserved (reservation_of up t2 next))), s2))
reserve-fail-reserve up t t2 input next response s a c k f =
    let (s0, e) = taken-of up t input s f in
    let d = fail-view t t t2 input response s0 (omega arith) a c up in
    let (s0', e') =
      taken-of up t2 next (fail (reservation_of up t input) response (grant up t input s0).1)
        (rw k d) in
    (
      (grant up t input s0).1,
      (grant up t2 next s0').1,
      e ∙ granted-of up t input s0,
      e' ∙ granted-of up t2 next s0',
    )
