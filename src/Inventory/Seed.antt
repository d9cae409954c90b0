-- ===== src/Inventory/Seed.antt =====
-- `initializeCatalogInventory`: one SQL statement whose parts all read the tables as they were
-- before it, as PostgreSQL runs the parts of a `WITH`.
use text.Mathlib.Text.{◌==◌ as str_eq}
use lotzi.Base.{
  ℕ, ◌+◌, ◌&&◌, not, Bool, false, none, List, [], ◌∷◌, map, leb, ltb, ◌==◌, ◌++◌, select, any, sort,
  length, max,
}
use lotzi.Base.Int.{ℤ, pos, negsuc}
use lotzi.Inventory.Types.{
  InventoryItem, LedgerEntry, LedgerType, DomainEvent, EventType, Payload, Actor, Reason, Key, Db,
  Env, State,
}
use lotzi.Inventory.Tx.{Tx, ok, pure, ◌>>=◌, ◌>>◌}
use lotzi.Inventory.Locations.{configure_tx, ensure_default_location}
use lotzi.Inventory.Items.{insert_item}
use lotzi.Inventory.Lines.{assert_lock_budget}

record SeedLine : Type 0 where
  pub product_variant_id : ℕ
  pub available_stock : ℕ

record SeedInput : Type 0 where
  pub store_id : ℕ
  pub variants : List (ℕ × ℤ)
  pub reason : Reason
  pub idempotency_key : Key

-- `Math.max(availableStock, 0)`.
abbrev at_least_zero : ℤ → ℕ
at_least_zero (pos n) = n
at_least_zero (negsuc n) = 0

abbrev seed_lines : List (ℕ × ℤ) → List SeedLine
seed_lines = map λ v. record { product_variant_id = v.0; available_stock = at_least_zero v.1 }

-- `insert_items`.
unfoldable seed_items : Env → ℕ → ℕ → List SeedLine → State → State
seed_items env store_id location_id [] s = s
seed_items env store_id location_id (v ∷ vs) s = seed_items env store_id location_id vs (record s {
  db = record (s.db) {
    items =
        insert_item
          (record {
            id = env.uuid s.drawn;
            store_id = store_id;
            product_variant_id = v.product_variant_id;
            location_id = location_id;
            available_stock = max v.available_stock 0;
            reserved_stock = 0;
            sold_stock = 0;
            low_stock_threshold = 0;
            version = 1;
          })
          s.db.items;
  };
  drawn = s.drawn + 1;
})

-- Whether two idempotency keys are the same text.
unfoldable same_text : Key → Key → Bool
same_text (Key.given x) (Key.given y) = str_eq x y
same_text (Key.reservation_expiry i) (Key.reservation_expiry j) = i == j
same_text (Key.reserved_event k i) (Key.reserved_event l j) = i == j && same_text k l
same_text (Key.confirmed_event k i) (Key.confirmed_event l j) = i == j && same_text k l
same_text (Key.cod_confirmed_event k i) (Key.cod_confirmed_event l j) = i == j && same_text k l
same_text (Key.released_event k i) (Key.released_event l j) = i == j && same_text k l
same_text (Key.item_key k i) (Key.item_key l j) = i == j && same_text k l
same_text (Key.review_event k) (Key.review_event l) = same_text k l
same_text (Key.low_stock i d) (Key.low_stock j e) = i == j && d == e
same_text _ _ = false

-- `initialized_items`: rows of the tables before the statement that have stock and no entry yet.
unfoldable initialized_items : SeedInput → ℕ → List SeedLine → Db → List InventoryItem
unfolding same_text
initialized_items input location_id variants db =
    select
      (λ r.
        (any (λ v. v.product_variant_id == r.product_variant_id) variants
          && (r.store_id == input.store_id && r.location_id == location_id))
        && (ltb 0 r.available_stock
            && not (
                any
                  (λ e.
                    same_text e.idempotency_key
                      (Key.item_key input.idempotency_key r.product_variant_id))
                  db.ledger)))
      db.items

abbrev seed_entry : SeedInput → ℕ → InventoryItem → LedgerEntry
seed_entry input now r = record {
  store_id = r.store_id;
  product_variant_id = r.product_variant_id;
  location_id = r.location_id;
  order_id = none;
  reservation_id = none;
  type = LedgerType.manual_adjustment;
  quantity = max r.available_stock 1;
  before_available_stock = 0;
  after_available_stock = r.available_stock;
  before_reserved_stock = 0;
  after_reserved_stock = 0;
  before_sold_stock = 0;
  after_sold_stock = 0;
  actor_type = Actor.system;
  actor_user_id = none;
  reason = input.reason;
  idempotency_key = Key.item_key input.idempotency_key r.product_variant_id;
  created_at = now;
}

abbrev seed_event : SeedInput → ℕ → InventoryItem → DomainEvent
seed_event input now r = record {
  event_type = EventType.inventory_initialized;
  aggregate_id = r.id;
  store_id = r.store_id;
  idempotency_key = Key.item_key input.idempotency_key r.product_variant_id;
  payload = Payload.of_item r.product_variant_id r.location_id r.available_stock;
  occurred_at = now;
}

-- The statement; it answers with the number of entries.
unfoldable seed_statement : SeedInput → ℕ → List SeedLine → Tx ℕ
unfolding seed_items
seed_statement input location_id variants env s =
    let found = initialized_items input location_id variants s.db in
    let t = seed_items env input.store_id location_id variants s in
    (
      ok (length found),
      record t {
        db = record (t.db) {
          ledger = map (seed_entry input env.now) found ++ t.db.ledger;
          events = map (seed_event input env.now) found ++ t.db.events;
        };
      },
    )

abbrev seed_le : SeedLine → SeedLine → Bool
seed_le a b = leb a.product_variant_id b.product_variant_id

unfoldable seed_sorted : SeedInput → List SeedLine → Tx ℕ
unfolding seed_statement
seed_sorted input [] env s = pure 0 env s
seed_sorted input (v ∷ vs) env s =
    (do
      configure_tx input.store_id
      location_id ← ensure_default_location input.store_id
      seed_statement input location_id (v ∷ vs))
      env s

unfoldable initialize_catalog_inventory : SeedInput → Tx ℕ
unfolding seed_sorted
initialize_catalog_inventory input = do
  assert_lock_budget (length input.variants)
  seed_sorted input (sort seed_le (seed_lines input.variants))
