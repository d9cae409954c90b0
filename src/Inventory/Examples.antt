-- ===== src/Inventory/Examples.antt =====
-- A shop with ten pieces of one variant, and calls on it.
use lotzi.Base.{ℕ, ◌+◌, true, false, ◌≡◌, refl, List, [], ◌∷◌, Option, none, some, arith, sort}
use lotzi.Base.Int.{pos}
use lotzi.Base.Tables.{find_by}
use lotzi.Inventory.Types.{
  InventoryItem, ProductVariant, VariantStatus, Line, whole, given, Response, Db, State, Env, Error,
}
use lotzi.Inventory.Lines.{RawLine, aggregate_items, positive, add_line, assert_lock_budget}
use lotzi.Inventory.Reserve.{OrderInput}
use lotzi.Inventory.Claims.{
  claim_operation, find_operation, key_eq, update_operation, complete_operation, finish, replay_or,
}
use lotzi.Inventory.Locations.{
  configure_tx, ensure_default_location, get_cached, find_entry, load_default_location,
  default_location, set_cached, delete_entry,
}
use lotzi.Inventory.Items.{ensure_inventory_items, items_at, lock_inventory_items, by_variant}
use lotzi.Inventory.Reserve.{
  reserve_order_stock, reserve_work, take_stock, for_lines, push_to, stocked, reserve_row,
  create_reservation, record_reserved,
}
use lotzi.Inventory.Rows.{
  update_inventory_item, update_rows, create_ledger, emit_inventory_event, emit_low_stock_if_needed,
  low_stock_rows,
}
use lotzi.Inventory.Confirm.{ConfirmInput}
use lotzi.Inventory.Release.{ReleaseInput}
use lotzi.Inventory.Counts.{active_total}
use lotzi.Inventory.Invariant.{Inv, find_item, units}
use lotzi.Inventory.History.{
  Call, reserve_call, authorize_cod_call, confirm_call, release_call, expire_call, run, run-Inv,
  run-units,
}
use lotzi.Inventory.Idempotence.{
  to_reserve, order_call, later, in_store, key_of, SameOperation, order_call-replay,
}
use lotzi.Inventory.Tx.{ok, err}
use lotzi.Inventory.Aggregation.{Rises, asked, asked_raw, aggregate_items_lem}

abbrev shelf : InventoryItem
shelf = record {
  id = 5;
  store_id = 1;
  product_variant_id = 3;
  location_id = 7;
  available_stock = 10;
  reserved_stock = 0;
  sold_stock = 0;
  low_stock_threshold = 2;
  version = 0;
}

abbrev mug : ProductVariant
mug = record {
  id = 3;
  product_id = 2;
  store_id = 1;
  status = VariantStatus.active;
  stock = 10;
  stock_on_hand = 10;
  stock_reserved = 0;
  stock_version = 0;
}

abbrev tables : Db
tables = record {
  locations = record { id = 7; store_id = 1; is_default = true } ∷ [];
  items = shelf ∷ [];
  variants = mug ∷ [];
  summaries = [];
  reservations = [];
  ledger = [];
  operations = [];
  events = [];
  audit_logs = [];
}

abbrev shop : State
shop = record {
  db = tables;
  location_cache = [];
  settings = record { current_store_id = none; is_platform_admin = false };
  drawn = 0;
}

abbrev at : ℕ → Env
at now = record { now = now; uuid = λ n. 100 + n; hash = λ x. 0; resumes = false }

abbrev raw_lines : List RawLine
raw_lines =
    record { product_variant_id = 3; quantity = whole (pos 2) }
    ∷ record { product_variant_id = 3; quantity = whole (pos 1) }
    ∷ []

abbrev lines : List Line
lines = record { product_variant_id = 3; quantity = 3 } ∷ []

abbrev order : ℕ → List RawLine → OrderInput
order id items = record {
  store_id = 1;
  user_id = 9;
  order_id = id;
  items = items;
  expires_at = 5000;
  idempotency_key = given "order";
}

abbrev paid_order : ConfirmInput
paid_order = record { store_id = 1; order_id = 42; idempotency_key = given "paid" }

abbrev dropped_order : ReleaseInput
dropped_order = record {
  store_id = 1;
  order_id = 43;
  reason = "dropped";
  status = none;
  idempotency_key = given "drop";
  actor_type = none;
  actor_user_id = none;
}

-- One order is paid for, one is given up, one is paid on delivery, one expires.
abbrev calls : List (Env × Call)
calls =
    (at 1000, reserve_call (order 42 raw_lines))
    ∷ (at 1001, reserve_call (order 43 raw_lines))
    ∷ (at 1002, authorize_cod_call (order 44 raw_lines))
    ∷ (at 1003, confirm_call paid_order)
    ∷ (at 1004, release_call dropped_order)
    ∷ (at 1005, reserve_call (order 45 raw_lines))
    ∷ (at 9000, expire_call 100)
    ∷ []

tables-keyed :
    (i j : ℕ) (a b : InventoryItem)
    → find_item i tables ≡ some a
    → find_item j tables ≡ some b
    → i ≡ j
unfolding find_by
tables-keyed i j a b h k = ground arith

tables-Inv : Inv tables
unfolding active_total
tables-Inv = record {
  unique_items = (tt, tt);
  admitted = tt;
  keyed = λ i j a b h k e. tables-keyed i j a b h k;
  backed = λ i r h. omega arith;
  homed = λ r h. refl;
}

run-Inv_example : Inv (run shop calls).db
run-Inv_example = run-Inv shop calls (tt, (tt, (tt, (tt, (refl, (tt, (tt, tt))))))) tables-Inv

found : find_item 5 tables ≡ some shelf
unfolding find_by
found = refl

run-units_example :
    (r : InventoryItem) × (find_item 5 (run shop calls).db ≡ some r) × (units r ≡ 10)
run-units_example =
    run-units shop calls 5 shelf (tt, (tt, (tt, (tt, (refl, (tt, (tt, tt))))))) tables-Inv found

aggregated : aggregate_items raw_lines ≡ some lines
unfolding aggregate_items positive sort add_line
aggregated = refl

aggregate_items_lem_example : Rises lines × ((v : ℕ) → asked v lines ≡ asked_raw v raw_lines)
aggregate_items_lem_example = aggregate_items_lem raw_lines aggregated

abbrev reserved : State
reserved = (order_call (to_reserve (order 42 raw_lines)) (at 1000) shop).1

abbrev answer : Option Response
answer = some (
    Response.reserved_stock
      (record { id = 100; product_variant_id = 3; location_id = 7; quantity = 3 } ∷ []))

first_call : order_call (to_reserve (order 42 raw_lines)) (at 1000) shop ≡ (ok answer, reserved)
unfolding order_call aggregate_items positive add_line sort assert_lock_budget claim_operation
    find_operation key_eq update_operation complete_operation finish replay_or configure_tx
    ensure_default_location get_cached find_entry load_default_location default_location set_cached
    delete_entry ensure_inventory_items items_at lock_inventory_items by_variant reserve_order_stock
    reserve_work take_stock for_lines push_to stocked reserve_row create_reservation record_reserved
    update_inventory_item update_rows create_ledger emit_inventory_event emit_low_stock_if_needed
    low_stock_rows find_by
first_call = refl

-- The same stock and events are other ones by now.
abbrev reserved_more : State
reserved_more = record reserved { db = record (reserved.db) { items = shelf ∷ []; events = [] } }

same_operation : SameOperation (key_of (to_reserve (order 42 raw_lines))) reserved_more reserved
unfolding order_call aggregate_items positive add_line sort assert_lock_budget claim_operation
    find_operation key_eq update_operation complete_operation finish replay_or configure_tx
    ensure_default_location get_cached find_entry load_default_location default_location set_cached
    delete_entry ensure_inventory_items items_at lock_inventory_items by_variant reserve_order_stock
    reserve_work take_stock for_lines push_to stocked reserve_row create_reservation record_reserved
    update_inventory_item update_rows create_ledger emit_inventory_event emit_low_stock_if_needed
    low_stock_rows find_by
same_operation = refl

order_call-replay_example :
    order_call (to_reserve (order 42 raw_lines)) (later (at 1000) 2000 (λ n. 200 + n)) reserved_more
    ≡ (err Error.transaction_aborted, in_store 1 reserved_more)
order_call-replay_example =
    order_call-replay (to_reserve (order 42 raw_lines)) (at 1000) shop reserved_more 2000
      (λ n. 200 + n) same_operation first_call
