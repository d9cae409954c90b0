-- ===== src/Idempotency/Examples.antt =====
-- Requests with one key.
use lotzi.Base.{◌≡◌, refl, true, false, Option, none, some, List, [], ◌∷◌, arith}
use lotzi.Base.Outcome.{returned}
use lotzi.Idempotency.Types.{
  IdempotencyStatus, ReserveInput, IdempotencyRecord, State, reserved, replayed, create_db,
  complete_db,
}
use lotzi.Idempotency.Service.{
  set_nx, ended, completed_record, live, cached_record, is_stale, answer, step, step_set_nx,
  reserve, complete, fail, write_db, write_row,
}
use lotzi.Idempotency.Contract.{view_at, free, Refines}
use lotzi.Idempotency.Refinement.{reserve-Refines}
use lotzi.Idempotency.Replay.{reservation_of, reserve-complete-replay, reserve-fail-reserve}
use lotzi.Idempotency.Race.{Call, advance, run, winners, run-winners}
use lotzi.Idempotency.Persistence.{write_db-order}

abbrev checkout : ReserveInput
checkout = record {
  key = 7;
  user_id = 1;
  store_id = none;
  operation = 2;
  request_hash = 33;
  ttl_ms = 5000;
}

-- Another request under the same key.
abbrev other : ReserveInput
other = record checkout { request_hash = 44 }

abbrev empty : State
empty = record { cache = λ k. none; table = λ k. none; pending = [] }

-- The key has a record that is past its life, but that Redis still holds.
abbrev stale : State
stale = record {
  cache = λ k. some (record {
    text = some (record {
      user_id = 1;
      store_id = none;
      operation = 2;
      request_hash = 33;
      status = IdempotencyStatus.in_progress;
      response_json = none;
      expires_at = 900;
    });
    evicted_at = 2000;
  });
  table = λ k. none;
  pending = [];
}

reserve-Refines_example : Refines true 1000 checkout stale
reserve-Refines_example = reserve-Refines true 1000 checkout stale (omega arith)

empty_free : view_at true 1000 7 empty ≡ free
unfolding cached_record live
empty_free = refl

reserve-complete-replay_example :
    (s1 : State) × (reserve 1000 true checkout empty
      ≡ (ended (returned (reserved (reservation_of true 1000 checkout))), s1))
    × ((complete 1500 (reservation_of true 1000 checkout) (some "{}") s1).0 ≡ returned tt)
    × (reserve 3000 true checkout
          (complete 1500 (reservation_of true 1000 checkout) (some "{}") s1).1
        ≡ (
          ended (returned (replayed (some "{}"))),
          (complete 1500 (reservation_of true 1000 checkout) (some "{}") s1).1,
        ))
reserve-complete-replay_example =
    reserve-complete-replay true 1000 1500 3000 checkout (some "{}") empty (omega arith)
      (omega arith) (omega arith) empty_free

reserve-fail-reserve_example :
    (s1 s2 : State) × (reserve 1000 false checkout empty
      ≡ (ended (returned (reserved (reservation_of false 1000 checkout))), s1))
    × (reserve 3000 false other (fail (reservation_of false 1000 checkout) none s1)
        ≡ (ended (returned (reserved (reservation_of false 3000 other))), s2))
reserve-fail-reserve_example =
    reserve-fail-reserve false 1000 3000 checkout other none empty (omega arith) (omega arith) refl
      refl

abbrev two_calls : List Call
two_calls = (checkout, set_nx) ∷ (other, set_nx) ∷ []

run-winners_example :
    winners (run true ((1, 1000) ∷ (0, 1001) ∷ (0, 1002) ∷ (1, 1003) ∷ []) (two_calls, empty)).0 ≡ 1
run-winners_example =
    run-winners 7 1000 6000 1 1000 ((0, 1001) ∷ (0, 1002) ∷ (1, 1003) ∷ []) two_calls empty
      ((refl, omega arith, refl), ((refl, omega arith, refl), tt)) tt (omega arith) (omega arith)
      (omega arith, (omega arith, (omega arith, (omega arith, tt))))

write_db-order_example :
    ((write_db
          (complete_db (reservation_of true 1000 checkout) (some "{}"))
          (write_db (create_db checkout 6000) empty)).table
        7
      ≡ some (completed_record (reservation_of true 1000 checkout) (some "{}")))
    × ((write_db
            (create_db checkout 6000)
            (write_db (complete_db (reservation_of true 1000 checkout) (some "{}")) empty)).table
          7
        ≡ some (completed_record (reservation_of true 1000 checkout) (some "{}")))
write_db-order_example = write_db-order 1000 checkout (some "{}") empty refl

-- The row of a request that failed, and then the writes of another request with its key: the row has
-- the response of the second and the digest of the first.
abbrev failed_once : State
failed_once = record empty {
  table = λ k. some (record {
    user_id = 1;
    store_id = none;
    operation = 2;
    request_hash = 33;
    status = IdempotencyStatus.failed;
    response_json = none;
    expires_at = 5000;
  });
}

-- Two repeats of the failed request while Redis is away: both find the row failed, each puts its own
-- in its place, and both are given the key.
two_winners :
    winners
      (run false
        ((0, 1000)
          ∷ (1, 1000)
          ∷ (0, 1001)
          ∷ (1, 1001)
          ∷ (0, 1002)
          ∷ (1, 1002)
          ∷ (0, 1003)
          ∷ (1, 1003)
          ∷ [])
        (two_calls, failed_once)).0
    ≡ 2
unfolding run advance step step_set_nx is_stale answer
two_winners = refl

abbrev after_both : Option IdempotencyRecord
after_both =
    (write_db (complete_db (reservation_of true 2000 other) (some "other"))
        (write_db (create_db other 7000) failed_once)).table
      7

mixed_row :
    after_both
    ≡ some (record {
      user_id = 1;
      store_id = none;
      operation = 2;
      request_hash = 33;
      status = IdempotencyStatus.completed;
      response_json = some "other";
      expires_at = 7000;
    })
unfolding write_db write_row
mixed_row = refl
