-- ===== src/Inventory/Confirm.antt =====
-- `confirmOrderStock`: the reserved stock of a paid order becomes sold.
use lotzi.Base.{
  ℕ, ◌+◌, ◌-◌, Bool, ◌&&◌, ◌||◌, not, Option, none, some, List, [], ◌∷◌, map, leb, ltb, ◌==◌,
  if◌then◌else◌, select, every, sort,
}
use lotzi.Base.Tables.{update_by}
use lotzi.Inventory.Types.{
  InventoryItem, Counters, Reservation, ReservationStatus, is_active, is_confirmed, LedgerType,
  EventType, Payload, Actor, Reason, Key, HashInput, OperationKey, OperationType, Response, Env,
}
use lotzi.Inventory.Tx.{Tx, pure, write, ◌>>=◌, ◌>>◌}
use lotzi.Inventory.Rows.{update_inventory_item, create_ledger, emit_inventory_event}
use lotzi.Inventory.Claims.{ClaimInput, claim_operation, finish, replay_or}
use lotzi.Inventory.Locations.{configure_tx}
use lotzi.Inventory.Items.{lock_inventory_items_for_reservations, by_key}

pub record ConfirmInput : Type 0 where
  pub store_id : ℕ
  pub order_id : ℕ
  pub idempotency_key : Key

abbrev pub reservation_id : Reservation → ℕ
reservation_id r = r.id

-- `ORDER BY product_variant_id, location_id`.
abbrev pub reservation_le : Reservation → Reservation → Bool
reservation_le a b =
    ltb a.product_variant_id b.product_variant_id
    || a.product_variant_id == b.product_variant_id && leb a.location_id b.location_id

unfoldable pub order_reservations : ℕ → ℕ → List Reservation → List Reservation
order_reservations store_id order_id rs =
    sort reservation_le (select (λ r. r.store_id == store_id && r.order_id == order_id) rs)

-- The row of a reservation, if its counter covers it.
unfoldable pub covered : Option InventoryItem → ℕ → Option InventoryItem
covered none q = none
covered (some row) q = if ltb row.reserved_stock q then none else some row

abbrev pub confirmed_counters : InventoryItem → ℕ → Counters
confirmed_counters row q = record {
  available_stock = row.available_stock;
  reserved_stock = row.reserved_stock - q;
  sold_stock = row.sold_stock + q;
  version = row.version + 1;
}

-- `inventoryReservation.update({ where: { id } })`.
unfoldable pub update_reservation : ℕ → (Reservation → Reservation) → Tx (Unit {0})
update_reservation id f =
    write (λ env db. record db { reservations = update_by reservation_id id f db.reservations })

abbrev pub confirm : ℕ → Reservation → Reservation
confirm now r = record r { status = ReservationStatus.confirmed; confirmed_at = some now }

-- The body of the loop, once the row is known.
unfoldable pub confirm_row : ConfirmInput → Reservation → InventoryItem → Tx (Unit {0})
unfolding update_reservation
confirm_row input x row env =
    (do
      update_inventory_item row (confirmed_counters row x.quantity)
      update_reservation x.id (confirm env.now)
      create_ledger row (confirmed_counters row x.quantity) (record {
        type = LedgerType.sold;
        quantity = x.quantity;
        order_id = some input.order_id;
        reservation_id = some x.id;
        actor_type = Actor.system;
        actor_user_id = none;
        reason = Reason.payment_confirmed;
        idempotency_key = input.idempotency_key;
      })
      emit_inventory_event EventType.inventory_confirmed row.id input.store_id
          (Key.confirmed_event input.idempotency_key x.id)
          (Payload.of_reservation input.order_id x.id x.product_variant_id x.location_id x.quantity
            none))
      env

-- The loop, with the `return` in it and the one behind it.
unfoldable pub confirm_rows : ConfirmInput → List InventoryItem → List Reservation → Tx Response
confirm_rows input locked [] env s =
    finish (OperationKey.confirm_op input.order_id) Response.confirmed_stock env s
confirm_rows input locked (x ∷ xs) env s =
    elim (covered (by_key x.product_variant_id x.location_id locked) x.quantity) [
      | none ↦
          finish (OperationKey.confirm_op input.order_id) (Response.reserved_counter_underflow x.id)
            env s
      | some row ↦ (do confirm_row input x row; confirm_rows input locked xs) env s
    ]

unfoldable pub confirm_active : ConfirmInput → List Reservation → Tx Response
unfolding confirm_rows
confirm_active input reservations = do
  locked ← lock_inventory_items_for_reservations reservations
  confirm_rows input locked reservations

unfoldable pub review : ConfirmInput → Response → Tx Response
review input response = do
  finish (OperationKey.confirm_op input.order_id) response
  emit_inventory_event EventType.confirmation_requires_review input.order_id input.store_id
      (Key.review_event input.idempotency_key) (Payload.of_response response)
  pure response

abbrev pub inactive_of : List Reservation → List Reservation
inactive_of = select (λ r. not (is_active r.status))

unfoldable pub confirm_if_active : ConfirmInput → List Reservation → List Reservation → Tx Response
unfolding confirm_active review
confirm_if_active input reservations [] env s = confirm_active input reservations env s
confirm_if_active input reservations (x ∷ xs) env s =
    review input (Response.reservation_not_active (map (λ r. (r.id, r.status)) (x ∷ xs))) env s

unfoldable pub confirm_reservations : ConfirmInput → List Reservation → Tx Response
unfolding confirm_if_active
confirm_reservations input [] env s =
    finish (OperationKey.confirm_op input.order_id) Response.reservation_missing env s
confirm_reservations input (x ∷ xs) env s =
    if every (λ r. is_confirmed r.status) (x ∷ xs)
    then finish (OperationKey.confirm_op input.order_id) Response.already_confirmed env s
    else confirm_if_active input (x ∷ xs) (inactive_of (x ∷ xs)) env s

-- What `confirmOrderStock` does where the operation is not replayed.
unfoldable pub confirm_work : ConfirmInput → Tx Response
confirm_work input env s =
    confirm_reservations input (order_reservations input.store_id input.order_id s.db.reservations)
      env s

abbrev pub confirm_claim : ConfirmInput → Env → ClaimInput
confirm_claim input env = record {
  operation_key = OperationKey.confirm_op input.order_id;
  operation_type = OperationType.confirm_order;
  aggregate_id = input.order_id;
  request_hash = env.hash (HashInput.of_order input.store_id input.order_id);
}

unfoldable pub confirm_order_stock : ConfirmInput → Tx (Option Response)
confirm_order_stock input env =
    (do
      configure_tx input.store_id
      claim ← claim_operation (confirm_claim input env)
      replay_or (confirm_work input) claim)
      env
