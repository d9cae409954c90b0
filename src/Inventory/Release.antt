-- ===== src/Inventory/Release.antt =====
-- `releaseOrderStock`, `expireReservations` and their loop `releaseReservations`: reserved stock
-- goes back on sale.
use lotzi.Base.{
  ℕ, ◌+◌, ◌-◌, Bool, ◌&&◌, Option, none, some, List, [], ◌∷◌, String, leb, ltb, ◌==◌, if◌then◌else◌,
  select, sort, take,
}
use lotzi.Inventory.Types.{
  InventoryItem, Counters, Reservation, ReservationStatus, is_active, is_expired, LedgerType,
  EventType, inventory_released, inventory_expired, Payload, Actor, Reason, Key, HashInput,
  OperationKey, OperationType, Response, Env, Error,
}
use lotzi.Inventory.Tx.{Tx, pure, or_throw, transaction, ◌>>=◌, ◌>>◌}
use lotzi.Inventory.Rows.{update_inventory_item, create_ledger, emit_inventory_event}
use lotzi.Inventory.Claims.{ClaimInput, claim_operation, finish, replay_or}
use lotzi.Inventory.Locations.{configure_tx, configure_platform_tx}
use lotzi.Inventory.Items.{lock_inventory_items_for_reservations, by_key}
use lotzi.Inventory.Confirm.{covered, reservation_le, update_reservation}

-- The input of `releaseReservations`.
pub record ReleaseContext : Type 0 where
  pub status : ReservationStatus
  pub reason : Reason
  pub idempotency_key : Key
  pub actor_type : Actor
  pub actor_user_id : Option ℕ

pub record ReleaseInput : Type 0 where
  pub store_id : ℕ
  pub order_id : ℕ
  pub reason : String
  pub status : Option ReservationStatus
  pub idempotency_key : Key
  pub actor_type : Option Actor
  pub actor_user_id : Option ℕ

abbrev pub released_counters : InventoryItem → ℕ → Counters
released_counters row q = record {
  available_stock = row.available_stock + q;
  reserved_stock = row.reserved_stock - q;
  sold_stock = row.sold_stock;
  version = row.version + 1;
}

abbrev pub release : ReleaseContext → ℕ → Reservation → Reservation
release c now r = record r { status = c.status; reason = some c.reason; released_at = some now }

abbrev release_event : ReservationStatus → EventType
release_event status = if is_expired status then inventory_expired else inventory_released

unfoldable pub release_row : ReleaseContext → Reservation → InventoryItem → Tx (Unit {0})
release_row c x row env =
    (do
      update_inventory_item row (released_counters row x.quantity)
      update_reservation x.id (release c env.now)
      create_ledger row (released_counters row x.quantity) (record {
        type = LedgerType.released;
        quantity = x.quantity;
        order_id = some x.order_id;
        reservation_id = some x.id;
        actor_type = c.actor_type;
        actor_user_id = c.actor_user_id;
        reason = c.reason;
        idempotency_key = c.idempotency_key;
      })
      emit_inventory_event (release_event c.status) row.id row.store_id
          (Key.released_event c.idempotency_key x.id)
          (Payload.of_reservation x.order_id x.id x.product_variant_id x.location_id x.quantity
            (some c.reason)))
      env

-- The loop; it counts the reservations that it has released.
unfoldable pub release_rows : ReleaseContext → List InventoryItem → ℕ → List Reservation → Tx ℕ
release_rows c locked n [] env s = pure n env s
release_rows c locked n (x ∷ xs) env s =
    (do
      row ←
          or_throw (covered (by_key x.product_variant_id x.location_id locked) x.quantity)
            Error.release_failed
      release_row c x row
      release_rows c locked (n + 1) xs)
      env s

unfoldable pub release_reservations : ReleaseContext → List Reservation → Tx ℕ
release_reservations c reservations = do
  locked ← lock_inventory_items_for_reservations reservations
  release_rows c locked 0 reservations

unfoldable pub active_reservations : ℕ → ℕ → List Reservation → List Reservation
active_reservations store_id order_id rs =
    sort reservation_le
      (select (λ r. r.store_id == store_id && (r.order_id == order_id && is_active r.status)) rs)

abbrev pub target_status : Option ReservationStatus → ReservationStatus
target_status none = ReservationStatus.released
target_status (some status) = status

abbrev actor_or_system : Option Actor → Actor
actor_or_system none = Actor.system
actor_or_system (some a) = a

abbrev pub release_key : ReleaseInput → OperationKey
release_key input = OperationKey.release_op input.order_id (target_status input.status) input.reason

abbrev pub release_context : ReleaseInput → ReleaseContext
release_context input = record {
  status = target_status input.status;
  reason = Reason.text input.reason;
  idempotency_key = input.idempotency_key;
  actor_type = actor_or_system input.actor_type;
  actor_user_id = input.actor_user_id;
}

unfoldable pub release_active : ReleaseInput → List Reservation → Tx Response
release_active input [] env s = finish (release_key input) Response.no_active_reservations env s
release_active input (x ∷ xs) env s =
    (do
      released ← release_reservations (release_context input) (x ∷ xs)
      finish (release_key input) (Response.released_stock (target_status input.status) released))
      env s

-- What `releaseOrderStock` does where the operation is not replayed.
unfoldable pub release_work : ReleaseInput → Tx Response
release_work input env s =
    release_active input (active_reservations input.store_id input.order_id s.db.reservations) env s

abbrev pub release_claim : ReleaseInput → Env → ClaimInput
release_claim input env = record {
  operation_key = release_key input;
  operation_type = OperationType.release_order;
  aggregate_id = input.order_id;
  request_hash = env.hash (
      HashInput.of_release input.store_id input.order_id (target_status input.status) input.reason);
}

unfoldable pub release_order_stock : ReleaseInput → Tx (Option Response)
release_order_stock input env =
    (do
      configure_tx input.store_id
      claim ← claim_operation (release_claim input env)
      replay_or (release_work input) claim)
      env

-- `ORDER BY expires_at ASC`.
abbrev expiry_le : Reservation → Reservation → Bool
expiry_le a b = leb a.expires_at b.expires_at

-- No other transaction holds a lock while the query runs, so `SKIP LOCKED` skips no row.
unfoldable pub due_reservations : ℕ → ℕ → List Reservation → List Reservation
due_reservations now limit rs =
    take limit (sort expiry_le (select (λ r. is_active r.status && ltb r.expires_at now) rs))

abbrev pub expiry_context : Reservation → ReleaseContext
expiry_context x = record {
  status = ReservationStatus.expired;
  reason = Reason.reservation_ttl_expired;
  idempotency_key = Key.reservation_expiry x.id;
  actor_type = Actor.system;
  actor_user_id = none;
}

unfoldable pub expire_rows : ℕ → List Reservation → Tx ℕ
expire_rows n [] env s = pure n env s
expire_rows n (x ∷ xs) env s =
    (do k ← release_reservations (expiry_context x) (x ∷ []); expire_rows (n + k) xs) env s

unfoldable pub expire_work : ℕ → Tx ℕ
expire_work limit env s = expire_rows 0 (due_reservations env.now limit s.db.reservations) env s

unfoldable pub expire_due : ℕ → Tx ℕ
expire_due limit = do configure_platform_tx; expire_work limit

unfoldable pub expire_reservations : ℕ → Tx ℕ
expire_reservations limit = transaction (expire_due limit)
