-- ===== src/Inventory/Adjust.antt =====
-- `applyManualAdjustment`: a merchant changes the available stock of a variant.
use lotzi.Base.{ℕ, ◌+◌, true, Option, none, some, List, [], ◌∷◌, String, ◌==◌, if◌then◌else◌, max}
use lotzi.Base.Int.{ℤ, pos, negsuc, ◌+ℤ◌, abs}
use lotzi.Inventory.Types.{
  InventoryItem, Counters, LedgerType, Actor, Reason, Key, HashInput, OperationKey, OperationType,
  AuditEvent, Response, Error,
}
use lotzi.Inventory.Tx.{Tx, pure, throw, or_throw, write, transaction, ◌>>=◌, ◌>>◌}
use lotzi.Inventory.Rows.{update_inventory_item, create_ledger, emit_low_stock_if_needed}
use lotzi.Inventory.Claims.{claim_operation, finish, replay_or}
use lotzi.Inventory.Locations.{configure_tx, ensure_default_location}
use lotzi.Inventory.Items.{ensure_inventory_items, lock_inventory_items}

record AdjustInput : Type 0 where
  pub store_id : ℕ
  pub product_variant_id : ℕ
  pub location_id : Option ℕ
  pub delta_available_stock : ℤ
  pub expected_version : ℕ
  pub reason : String
  pub idempotency_key : String
  pub actor_user_id : ℕ

unfoldable pub location_or_default : ℕ → Option ℕ → Tx ℕ
location_or_default store_id none = ensure_default_location store_id
location_or_default store_id (some id) = pure id

unfoldable first_of_rows : List InventoryItem → Option InventoryItem
first_of_rows [] = none
first_of_rows (r ∷ rs) = some r

-- The row is written before the error is thrown.
unfoldable audit_conflict : ℕ → Tx (Unit {0})
audit_conflict store_id = write (λ env db. record db {
  audit_logs =
      record { event_type = AuditEvent.version_conflict; store_id = store_id; denied = true }
      ∷ db.audit_logs;
})

unfoldable check_version : AdjustInput → InventoryItem → Tx (Unit {0})
check_version input locked env s =
    if locked.version == input.expected_version
    then pure tt env s
    else (do audit_conflict input.store_id; throw Error.version_conflict) env s

-- `nextAvailable`, unless it is negative.
unfoldable next_available : InventoryItem → ℤ → Option ℕ
next_available locked delta = elim (pos locked.available_stock +ℤ delta) [
  | pos n ↦ some n
  | negsuc n ↦ none
]

abbrev adjusted_counters : InventoryItem → ℕ → Counters
adjusted_counters locked next = record {
  available_stock = next;
  reserved_stock = locked.reserved_stock;
  sold_stock = locked.sold_stock;
  version = locked.version + 1;
}

unfoldable apply_adjustment : AdjustInput → InventoryItem → ℕ → Tx Response
apply_adjustment input locked next = do
  update_inventory_item locked (adjusted_counters locked next)
  create_ledger locked (adjusted_counters locked next) (record {
    type = LedgerType.manual_adjustment;
    quantity = max (abs input.delta_available_stock) 1;
    order_id = none;
    reservation_id = none;
    actor_type = Actor.merchant;
    actor_user_id = some input.actor_user_id;
    reason = Reason.text input.reason;
    idempotency_key = Key.given input.idempotency_key;
  })
  emit_low_stock_if_needed locked (adjusted_counters locked next)
  finish (OperationKey.adjust_op input.idempotency_key)
      (Response.applied locked.id (locked.version + 1))

-- What follows the lock.
unfoldable adjust_locked : AdjustInput → ℕ → InventoryItem → Tx (Option Response)
adjust_locked input location_id locked env =
    (do
      check_version input locked
      next ← or_throw (next_available locked input.delta_available_stock) Error.adjustment_invalid
      claim ← claim_operation (record {
        operation_key = OperationKey.adjust_op input.idempotency_key;
        operation_type = OperationType.adjustment;
        aggregate_id = locked.id;
        request_hash = env.hash (
            HashInput.of_adjustment input.store_id input.product_variant_id location_id
              input.delta_available_stock input.expected_version input.reason);
      })
      replay_or (apply_adjustment input locked next) claim)
      env

unfoldable adjust : AdjustInput → Tx (Option Response)
adjust input = do
  configure_tx input.store_id
  location_id ← location_or_default input.store_id input.location_id
  items ← ensure_inventory_items input.store_id location_id (input.product_variant_id ∷ [])
  item ← or_throw (first_of_rows items) Error.item_not_found
  rows ← lock_inventory_items (item.id ∷ [])
  locked ← or_throw (first_of_rows rows) Error.item_not_found
  adjust_locked input location_id locked

unfoldable apply_manual_adjustment : AdjustInput → Tx (Option Response)
unfolding adjust
apply_manual_adjustment input = transaction (adjust input)
