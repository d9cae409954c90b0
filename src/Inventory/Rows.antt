-- ===== src/Inventory/Rows.antt =====
-- The writes that every stock change makes: `updateInventoryItem`, `createLedger`,
-- `emitInventoryEvent` and `emitLowStockIfNeeded`.
use lotzi.Base.{
  ℕ, ◌+◌, ◌-◌, ◌/◌, ◌*◌, Bool, true, false, ◌&&◌, ◌||◌, Option, none, some, List, [], ◌∷◌, leb, ltb,
  ◌==◌, if◌then◌else◌, max, any,
}
use lotzi.Base.Tables.{find_by, update_by}
use lotzi.Inventory.Types.{
  InventoryItem, Counters, ProductVariant, VariantStatus, Summary, LedgerEntry, LedgerType,
  DomainEvent, EventType, Payload, Actor, Reason, Key, Db,
}
use lotzi.Inventory.Tx.{Tx, write}

abbrev pub item_id : InventoryItem → ℕ
item_id r = r.id

abbrev variant_id : ProductVariant → ℕ
variant_id v = v.id

abbrev pub with_counters : Counters → InventoryItem → InventoryItem
with_counters after r = record r {
  available_stock = after.available_stock;
  reserved_stock = after.reserved_stock;
  sold_stock = after.sold_stock;
  version = after.version;
}

abbrev with_stock : Counters → ProductVariant → ProductVariant
with_stock after v = record v {
  stock = after.available_stock;
  stock_on_hand = after.available_stock + after.reserved_stock;
  stock_reserved = after.reserved_stock;
  stock_version = after.version;
}

abbrev is_active_variant : VariantStatus → Bool
is_active_variant VariantStatus.active = true
is_active_variant VariantStatus.archived = false

abbrev summary_of : Counters → InventoryItem → ProductVariant → Summary
summary_of after r v = record {
  store_id = r.store_id;
  product_id = v.product_id;
  product_variant_id = r.product_variant_id;
  available_stock = after.available_stock;
  reserved_stock = after.reserved_stock;
  sold_stock = after.sold_stock;
  in_stock = ltb 0 after.available_stock && is_active_variant v.status;
  variant_status = v.status;
  stock_version = after.version;
}

-- `INSERT … ON CONFLICT (store_id, product_variant_id) DO UPDATE`.
unfoldable pub upsert_summary : Summary → List Summary → List Summary
upsert_summary x [] = x ∷ []
upsert_summary x (y ∷ ys) =
    let rest = upsert_summary x ys in
    if y.store_id == x.store_id && y.product_variant_id == x.product_variant_id
    then x ∷ ys
    else y ∷ rest

unfoldable pub update_variant : Counters → InventoryItem → Db → Db
update_variant after r db = elim (find_by variant_id r.product_variant_id db.variants) [
  | none ↦ db
  | some v ↦ record db {
    variants = update_by variant_id r.product_variant_id (with_stock after) db.variants;
    summaries = upsert_summary (summary_of after r v) db.summaries;
  }
]

-- The statement writes nothing where no row has the identifier.
unfoldable pub update_rows : ℕ → Counters → Db → Db
unfolding update_variant
update_rows id after db = elim (find_by item_id id db.items) [
  | none ↦ db
  | some r ↦
      update_variant after r
        (record db { items = update_by item_id id (with_counters after) db.items })
]

unfoldable pub update_inventory_item : InventoryItem → Counters → Tx (Unit {0})
update_inventory_item before after = write (λ env. update_rows before.id after)

-- What `createLedger` is given beside the row and its counters.
pub record LedgerInput : Type 0 where
  pub type : LedgerType
  pub quantity : ℕ
  pub order_id : Option ℕ
  pub reservation_id : Option ℕ
  pub actor_type : Actor
  pub actor_user_id : Option ℕ
  pub reason : Reason
  pub idempotency_key : Key

abbrev ledger_entry : InventoryItem → Counters → LedgerInput → ℕ → LedgerEntry
ledger_entry row after input now = record {
  store_id = row.store_id;
  product_variant_id = row.product_variant_id;
  location_id = row.location_id;
  order_id = input.order_id;
  reservation_id = input.reservation_id;
  type = input.type;
  quantity = max input.quantity 1;
  before_available_stock = row.available_stock;
  after_available_stock = after.available_stock;
  before_reserved_stock = row.reserved_stock;
  after_reserved_stock = after.reserved_stock;
  before_sold_stock = row.sold_stock;
  after_sold_stock = after.sold_stock;
  actor_type = input.actor_type;
  actor_user_id = input.actor_user_id;
  reason = input.reason;
  idempotency_key = input.idempotency_key;
  created_at = now;
}

-- The newest entry stands first.
unfoldable pub create_ledger : InventoryItem → Counters → LedgerInput → Tx (Unit {0})
create_ledger row after input =
    write (λ env db. record db { ledger = ledger_entry row after input env.now ∷ db.ledger })

abbrev event_row : EventType → ℕ → ℕ → Key → Payload → ℕ → DomainEvent
event_row event_type aggregate_id store_id key payload now = record {
  event_type = event_type;
  aggregate_id = aggregate_id;
  store_id = store_id;
  idempotency_key = key;
  payload = payload;
  occurred_at = now;
}

unfoldable pub emit_inventory_event : EventType → ℕ → ℕ → Key → Payload → Tx (Unit {0})
emit_inventory_event event_type aggregate_id store_id key payload = write (λ env db. record db {
  events = event_row event_type aggregate_id store_id key payload env.now ∷ db.events;
})

abbrev is_low_stock : EventType → Bool
is_low_stock EventType.inventory_low_stock = true
is_low_stock _ = false

abbrev low_stock_dedupe_ms : ℕ
low_stock_dedupe_ms = 24 * 60 * 60 * 1000

-- The `findFirst` on `domain_events`.
unfoldable recently_low : ℕ → ℕ → List DomainEvent → Bool
recently_low id since =
    any (λ e. is_low_stock e.event_type && (e.aggregate_id == id && leb since e.occurred_at))

-- The three tests of the early return.
unfoldable stays_above : InventoryItem → Counters → Bool
stays_above before after =
    leb before.low_stock_threshold 0
    || leb before.available_stock before.low_stock_threshold
    || ltb before.low_stock_threshold after.available_stock

abbrev low_stock_event : InventoryItem → Counters → ℕ → DomainEvent
low_stock_event before after now =
    event_row EventType.inventory_low_stock before.id before.store_id
      (Key.low_stock before.id (now / low_stock_dedupe_ms))
      (Payload.of_low_stock before.product_variant_id before.location_id after.available_stock
        before.low_stock_threshold)
      now

unfoldable pub low_stock_rows : InventoryItem → Counters → ℕ → Db → Db
unfolding stays_above recently_low
low_stock_rows before after now db =
    if stays_above before after
    then db
    else if recently_low before.id (now - low_stock_dedupe_ms) db.events
    then db
    else record db { events = low_stock_event before after now ∷ db.events }

unfoldable pub emit_low_stock_if_needed : InventoryItem → Counters → Tx (Unit {0})
emit_low_stock_if_needed before after = write (λ env. low_stock_rows before after env.now)
