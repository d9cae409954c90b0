-- ===== src/Inventory/Claims.antt =====
-- `claimOperation` and `completeOperation`: each call of the engine runs once for its key.
use text.Mathlib.Text.{◌==◌ as str_eq}
use lotzi.Base.{
  ℕ, ◌+◌, ◌*◌, Bool, true, false, ◌&&◌, ◌||◌, not, Option, none, some, List, [], ◌∷◌, leb, ltb,
  ◌==◌, if◌then◌else◌,
}
use lotzi.Inventory.Types.{
  OperationKey, reserve_op, cod_authorize_op, confirm_op, release_op, adjust_op, OperationType,
  reserve_order, cod_authorize_order, confirm_order, release_order, adjustment, Operation,
  OperationStatus, in_progress, completed, failed, ReservationStatus, Response, Error,
}
use lotzi.Inventory.Tx.{Tx, ok, pure, throw, ◌>>=◌, ◌>>◌}

abbrev operation_claim_ms : ℕ
operation_claim_ms = 5 * 60 * 1000

abbrev operation_ttl_ms : ℕ
operation_ttl_ms = 90 * 24 * 60 * 60 * 1000

abbrev status_eq : ReservationStatus → ReservationStatus → Bool
status_eq ReservationStatus.active ReservationStatus.active = true
status_eq ReservationStatus.confirmed ReservationStatus.confirmed = true
status_eq ReservationStatus.released ReservationStatus.released = true
status_eq ReservationStatus.expired ReservationStatus.expired = true
status_eq _ _ = false

-- Whether two operation keys are the same text.
unfoldable pub key_eq : OperationKey → OperationKey → Bool
key_eq (reserve_op a) (reserve_op b) = a == b
key_eq (cod_authorize_op a) (cod_authorize_op b) = a == b
key_eq (confirm_op a) (confirm_op b) = a == b
key_eq (release_op a s x) (release_op b t y) = a == b && (status_eq s t && str_eq x y)
key_eq (adjust_op x) (adjust_op y) = str_eq x y
key_eq _ _ = false

abbrev pub type_eq : OperationType → OperationType → Bool
type_eq reserve_order reserve_order = true
type_eq cod_authorize_order cod_authorize_order = true
type_eq confirm_order confirm_order = true
type_eq release_order release_order = true
type_eq adjustment adjustment = true
type_eq _ _ = false

pub record ClaimInput : Type 0 where
  pub operation_key : OperationKey
  pub operation_type : OperationType
  pub aggregate_id : ℕ
  pub request_hash : ℕ

pub data Claim : Type 0 where
  reserved_claim : Claim
  replayed : Option Response → Claim

unfoldable pub find_operation : OperationKey → List Operation → Option Operation
find_operation k [] = none
find_operation k (o ∷ os) = if key_eq o.operation_key k then some o else find_operation k os

unfoldable pub update_operation :
    OperationKey → (Operation → Operation) → List Operation → List Operation
update_operation k f [] = []
update_operation k f (o ∷ os) =
    (if key_eq o.operation_key k then f o else o) ∷ update_operation k f os

abbrev pub new_operation : ClaimInput → ℕ → Operation
new_operation input now = record {
  operation_key = input.operation_key;
  operation_type = input.operation_type;
  aggregate_id = input.aggregate_id;
  request_hash = input.request_hash;
  status = in_progress;
  response = none;
  claimed_until = now + operation_claim_ms;
  heartbeat_at = now;
  expires_at = now + operation_ttl_ms;
}

abbrev pub is_completed : OperationStatus → Bool
is_completed completed = true
is_completed _ = false

abbrev is_in_progress : OperationStatus → Bool
is_in_progress in_progress = true
is_in_progress _ = false

abbrev is_failed : OperationStatus → Bool
is_failed failed = true
is_failed _ = false

-- The `where` of the `updateMany` that takes an abandoned operation over.
abbrev reclaimable : ℕ → Operation → Bool
reclaimable now o =
    is_failed o.status
    || (is_in_progress o.status && leb o.claimed_until now)
    || leb o.expires_at now

unfoldable pub reclaim : ClaimInput → ℕ → Operation → Operation
reclaim input now o = record o {
  status = in_progress;
  response = none;
  claimed_until = now + operation_claim_ms;
  heartbeat_at = now;
  expires_at = now + operation_ttl_ms;
}

-- What follows the unique conflict, in a transaction that has not been aborted.
unfoldable pub claim_existing : ClaimInput → Operation → Tx Claim
unfolding reclaim
claim_existing input existing env s =
    if not (existing.request_hash == input.request_hash)
      || not (type_eq existing.operation_type input.operation_type)
    then throw Error.key_reused env s
    else if is_completed existing.status
    then pure (replayed existing.response) env s
    else if is_in_progress existing.status && ltb env.now existing.claimed_until
    then throw Error.operation_in_progress env s
    else if reclaimable env.now existing
    then (
      ok reserved_claim,
      record s {
        db = record (s.db) {
          operations = update_operation input.operation_key (reclaim input env.now) s.db.operations;
        };
      },
    )
    else throw Error.operation_in_progress env s

-- The `create`, whose unique conflict is caught. What follows the conflict reads the operation of that
-- key in the same transaction, which is refused where the conflict has aborted it.
unfoldable pub claim_operation : ClaimInput → Tx Claim
claim_operation input env s = elim (find_operation input.operation_key s.db.operations) [
  | none ↦ (
    ok reserved_claim,
    record s { db = record (s.db) { operations = new_operation input env.now ∷ s.db.operations } },
  )
  | some existing ↦
      if env.resumes
      then claim_existing input existing env s
      else throw Error.transaction_aborted env s
]

unfoldable pub complete : Response → ℕ → Operation → Operation
complete response now o = record o {
  status = completed;
  response = some response;
  heartbeat_at = now;
}

-- `update` throws where the operation is missing.
unfoldable pub complete_operation : OperationKey → Response → Tx (Unit {0})
unfolding complete
complete_operation key response env s = elim (find_operation key s.db.operations) [
  | none ↦ throw Error.record_not_found env s
  | some o ↦ (
    ok tt,
    record s {
      db = record (s.db) {
        operations = update_operation key (complete response env.now) s.db.operations;
      };
    },
  )
]

-- `completeOperation` and the `return` behind it.
unfoldable pub finish : OperationKey → Response → Tx Response
finish key response = do complete_operation key response; pure response

-- A completed operation is replayed; else the work is done.
unfoldable pub replay_or : Tx Response → Claim → Tx (Option Response)
replay_or work (replayed response) env s = pure response env s
replay_or work reserved_claim env s = (do response ← work; pure (some response)) env s
