-- ===== src/Inventory/Reserve.antt =====
-- `reserveOrderStock` and `authorizeCodOrderStock`: stock is set aside for an order, or sold at once
-- where the order is paid on delivery.
use lotzi.Base.{
  ℕ, ◌+◌, ◌-◌, Bool, ◌&&◌, ◌||◌, Option, none, some, List, [], ◌∷◌, map, ltb, ◌==◌, if◌then◌else◌,
  any, length,
}
use lotzi.Inventory.Types.{
  InventoryItem, Counters, Reservation, ReservationRef, ReservationStatus, is_active, LedgerType,
  EventType, Payload, Actor, Reason, Key, Line, HashInput, OperationKey, OperationType, Response,
  Env, Error,
}
use lotzi.Inventory.Tx.{Tx, ok, pure, throw, or_throw, ◌>>=◌, ◌>>◌}
use lotzi.Inventory.Rows.{
  item_id, update_inventory_item, create_ledger, emit_inventory_event, emit_low_stock_if_needed,
}
use lotzi.Inventory.Claims.{ClaimInput, claim_operation, replay_or, finish}
use lotzi.Inventory.Locations.{configure_tx, ensure_default_location}
use lotzi.Inventory.Items.{ensure_inventory_items, lock_inventory_items, by_variant}
use lotzi.Inventory.Lines.{RawLine, aggregate_items, assert_lock_budget}

-- The input of both calls.
pub record OrderInput : Type 0 where
  pub store_id : ℕ
  pub user_id : ℕ
  pub order_id : ℕ
  pub items : List RawLine
  pub expires_at : ℕ
  pub idempotency_key : Key

-- The row of a line, if it has the stock: `!row || row.availableStock < item.quantity` throws.
unfoldable pub stocked : Option InventoryItem → ℕ → Option InventoryItem
stocked none q = none
stocked (some row) q = if ltb row.available_stock q then none else some row

abbrev pub reserved_counters : InventoryItem → ℕ → Counters
reserved_counters row q = record {
  available_stock = row.available_stock - q;
  reserved_stock = row.reserved_stock + q;
  sold_stock = row.sold_stock;
  version = row.version + 1;
}

abbrev pub cod_counters : InventoryItem → ℕ → Counters
cod_counters row q = record {
  available_stock = row.available_stock - q;
  reserved_stock = row.reserved_stock;
  sold_stock = row.sold_stock + q;
  version = row.version + 1;
}

-- The unique index on the active reservations, and the primary key.
abbrev pub clashes : Reservation → Reservation → Bool
clashes a b =
    a.id == b.id
    || (is_active a.status && is_active b.status)
      && (a.order_id == b.order_id
          && (a.product_variant_id == b.product_variant_id && a.location_id == b.location_id))

unfoldable insert_reservation : Reservation → Tx (Unit {0})
insert_reservation r env s =
    if any (clashes r) s.db.reservations
    then throw Error.unique_violation env s
    else (ok tt, record s { db = record (s.db) { reservations = r ∷ s.db.reservations } })

abbrev pub new_reservation :
    OrderInput → Line → InventoryItem → ReservationStatus → Option ℕ → ℕ → Reservation
new_reservation input item row status confirmed_at id = record {
  id = id;
  store_id = input.store_id;
  order_id = input.order_id;
  product_variant_id = item.product_variant_id;
  location_id = row.location_id;
  quantity = item.quantity;
  status = status;
  reason = none;
  expires_at = input.expires_at;
  confirmed_at = confirmed_at;
  released_at = none;
}

abbrev ref_of : Reservation → ReservationRef
ref_of r = record {
  id = r.id;
  product_variant_id = r.product_variant_id;
  location_id = r.location_id;
  quantity = r.quantity;
}

-- `inventoryReservation.create`, with an identifier from the database.
unfoldable pub create_reservation : (ℕ → Reservation) → Tx ReservationRef
unfolding insert_reservation
create_reservation make env s =
    (do insert_reservation (make (env.uuid s.drawn)); pure (ref_of (make (env.uuid s.drawn)))) env
      (record s { drawn = s.drawn + 1 })

-- The body of the loop of `reserveOrderStock` behind the `create`.
unfoldable pub record_reserved :
    OrderInput → Line → InventoryItem → ReservationRef → Tx ReservationRef
record_reserved input item row reservation = do
  update_inventory_item row (reserved_counters row item.quantity)
  create_ledger row (reserved_counters row item.quantity) (record {
    type = LedgerType.reserved;
    quantity = item.quantity;
    order_id = some input.order_id;
    reservation_id = some reservation.id;
    actor_type = Actor.customer;
    actor_user_id = some input.user_id;
    reason = Reason.checkout_reserved;
    idempotency_key = input.idempotency_key;
  })
  emit_inventory_event EventType.inventory_reserved row.id input.store_id
      (Key.reserved_event input.idempotency_key reservation.id)
      (Payload.of_reservation input.order_id reservation.id item.product_variant_id row.location_id
        item.quantity none)
  emit_low_stock_if_needed row (reserved_counters row item.quantity)
  pure reservation

-- The body of the loop, once the row is known.
unfoldable pub reserve_row : OrderInput → Line → InventoryItem → Tx ReservationRef
reserve_row input item row env =
    (create_reservation (new_reservation input item row ReservationStatus.active none)
        >>= record_reserved input item row)
      env

-- The body of the loop of `authorizeCodOrderStock` behind the `create`.
unfoldable pub record_cod : OrderInput → Line → InventoryItem → ReservationRef → Tx ReservationRef
record_cod input item row reservation = do
  update_inventory_item row (cod_counters row item.quantity)
  create_ledger row (cod_counters row item.quantity) (record {
    type = LedgerType.sold;
    quantity = item.quantity;
    order_id = some input.order_id;
    reservation_id = some reservation.id;
    actor_type = Actor.customer;
    actor_user_id = some input.user_id;
    reason = Reason.cod_order_authorized;
    idempotency_key = input.idempotency_key;
  })
  emit_inventory_event EventType.inventory_confirmed row.id input.store_id
      (Key.cod_confirmed_event input.idempotency_key reservation.id)
      (Payload.of_reservation input.order_id reservation.id item.product_variant_id row.location_id
        item.quantity none)
  emit_low_stock_if_needed row (cod_counters row item.quantity)
  pure reservation

unfoldable pub authorize_cod_row : OrderInput → Line → InventoryItem → Tx ReservationRef
authorize_cod_row input item row env =
    (create_reservation (new_reservation input item row ReservationStatus.confirmed (some env.now))
        >>= record_cod input item row)
      env

-- `reservations.push(reservation)`, and the rest of the loop.
unfoldable pub push_to : Tx (List ReservationRef) → ReservationRef → Tx (List ReservationRef)
push_to rest reservation = do refs ← rest; pure (reservation ∷ refs)

-- `for (const item of items)`. The rows are those that were locked before the loop.
unfoldable pub for_lines :
    (Line → InventoryItem → Tx ReservationRef)
    → List InventoryItem
    → List Line
    → Tx (List ReservationRef)
for_lines body locked [] env s = (ok [], s)
for_lines body locked (item ∷ items) env s =
    elim (stocked (by_variant item.product_variant_id locked) item.quantity) [
      | none ↦ throw Error.out_of_stock env s
      | some row ↦ (body item row >>= push_to (for_lines body locked items)) env s
    ]

-- From the default location to the end of the loop.
unfoldable pub take_stock :
    (Line → InventoryItem → Tx ReservationRef) → ℕ → List Line → Tx (List ReservationRef)
take_stock body store_id items = do
  location_id ← ensure_default_location store_id
  inventory_items ←
      ensure_inventory_items store_id location_id (map (λ l. l.product_variant_id) items)
  locked ← lock_inventory_items (map item_id inventory_items)
  for_lines body locked items

-- What `reserveOrderStock` does where the operation is not replayed.
unfoldable pub reserve_work : OrderInput → List Line → Tx Response
reserve_work input items = do
  refs ← take_stock (reserve_row input) input.store_id items
  finish (OperationKey.reserve_op input.order_id) (Response.reserved_stock refs)

abbrev pub reserve_claim : OrderInput → List Line → Env → ClaimInput
reserve_claim input items env = record {
  operation_key = OperationKey.reserve_op input.order_id;
  operation_type = OperationType.reserve_order;
  aggregate_id = input.order_id;
  request_hash = env.hash (HashInput.of_lines input.store_id input.order_id items);
}

unfoldable pub reserve_lines : OrderInput → List Line → Tx (Option Response)
reserve_lines input items env =
    (do
      assert_lock_budget (length items)
      configure_tx input.store_id
      claim ← claim_operation (reserve_claim input items env)
      replay_or (reserve_work input items) claim)
      env

unfoldable pub reserve_order_stock : OrderInput → Tx (Option Response)
unfolding reserve_lines
reserve_order_stock input =
    or_throw (aggregate_items input.items) Error.quantity_invalid >>= reserve_lines input

-- What `authorizeCodOrderStock` does where the operation is not replayed.
unfoldable pub authorize_cod_work : OrderInput → List Line → Tx Response
authorize_cod_work input items = do
  refs ← take_stock (authorize_cod_row input) input.store_id items
  finish (OperationKey.cod_authorize_op input.order_id) (Response.cod_confirmed refs)

abbrev pub authorize_cod_claim : OrderInput → List Line → Env → ClaimInput
authorize_cod_claim input items env = record {
  operation_key = OperationKey.cod_authorize_op input.order_id;
  operation_type = OperationType.cod_authorize_order;
  aggregate_id = input.order_id;
  request_hash = env.hash (HashInput.of_lines input.store_id input.order_id items);
}

unfoldable pub authorize_cod_lines : OrderInput → List Line → Tx (Option Response)
authorize_cod_lines input items env =
    (do
      assert_lock_budget (length items)
      configure_tx input.store_id
      claim ← claim_operation (authorize_cod_claim input items env)
      replay_or (authorize_cod_work input items) claim)
      env

unfoldable pub authorize_cod_order_stock : OrderInput → Tx (Option Response)
unfolding authorize_cod_lines
authorize_cod_order_stock input =
    or_throw (aggregate_items input.items) Error.quantity_invalid >>= authorize_cod_lines input
