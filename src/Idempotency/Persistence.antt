-- ===== src/Idempotency/Persistence.antt =====
-- The writes of the table that nothing waits for.
use lotzi.Base.{ℕ, ◌+◌, ◌≡◌, refl, true, Option, none, some, String}
use lotzi.Idempotency.Types.{ReserveInput, State, create_db, complete_db}
use lotzi.Idempotency.Service.{completed_record, write_db}
use lotzi.Idempotency.Contract.{==_refl}
use lotzi.Idempotency.Replay.{reservation_of}

-- The two writes of a request that completes may reach the table in either order. Where the table
-- has no row of the key, it ends with the same row: the one of the completed request.
pub write_db-order :
    (t : ℕ) (input : ReserveInput) (response : Option String) (s : State)
    → s.table input.key ≡ none
    → let create = create_db input (t + input.ttl_ms) in
      let complete = complete_db (reservation_of true t input) response in
      let row = some (completed_record (reservation_of true t input) response) in
      ((write_db complete (write_db create s)).table input.key ≡ row)
      × ((write_db create (write_db complete s)).table input.key ≡ row)
unfolding write_db
write_db-order t input response s e =
    (rw (==_refl input.key, e) refl, rw (==_refl input.key, e) refl)
