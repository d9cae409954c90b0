-- ===== src/Inventory/Items.antt =====
-- The rows of `inventory_items` that a call works on: `ensureInventoryItems` creates the missing
-- ones, `lockInventoryItems` and `lockInventoryItemsForReservations` read them under a lock.
use lotzi.Base.{
  ℕ, ◌+◌, ◌-◌, Bool, ◌&&◌, ◌||◌, not, Option, none, some, List, [], ◌∷◌, map, leb, ltb, ◌==◌,
  if◌then◌else◌, max, any, select, sort, length,
}
use lotzi.Inventory.Types.{InventoryItem, ProductVariant, Reservation, Db, State, Env, Error}
use lotzi.Inventory.Tx.{Tx, ok, pure, throw, ◌>>◌}

abbrev pub elem : ℕ → List ℕ → Bool
elem k = any (λ j. j == k)

-- `where: { storeId, locationId, productVariantId: { in: ids } }`.
unfoldable pub items_at : ℕ → ℕ → List ℕ → List InventoryItem → List InventoryItem
items_at store_id location_id ids =
    select (λ r.
      r.store_id == store_id && (r.location_id == location_id && elem r.product_variant_id ids))

abbrev pub missing_ids : List InventoryItem → List ℕ → List ℕ
missing_ids existing = select (λ id. not (elem id (map (λ r. r.product_variant_id) existing)))

unfoldable pub variants_of : ℕ → List ℕ → List ProductVariant → List ProductVariant
variants_of store_id ids = select (λ v. elem v.id ids && v.store_id == store_id)

-- The row that `createMany` gives a variant.
abbrev pub fresh_item : ℕ → ℕ → ℕ → ProductVariant → InventoryItem
fresh_item id store_id location_id v = record {
  id = id;
  store_id = store_id;
  product_variant_id = v.id;
  location_id = location_id;
  available_stock = v.stock_on_hand - v.stock_reserved;
  reserved_stock = v.stock_reserved;
  sold_stock = 0;
  low_stock_threshold = 0;
  version = max v.stock_version 1;
}

-- The unique index of `inventory_items`.
abbrev pub same_key : InventoryItem → InventoryItem → Bool
same_key a b =
    a.store_id == b.store_id
    && (a.product_variant_id == b.product_variant_id && a.location_id == b.location_id)

-- One row of a `createMany` with `skipDuplicates`; a row that conflicts is left out.
unfoldable pub insert_item : InventoryItem → List InventoryItem → List InventoryItem
insert_item r rows = if any (λ x. same_key x r || x.id == r.id) rows then rows else r ∷ rows

unfoldable pub insert_items : Env → ℕ → ℕ → List ProductVariant → State → State
unfolding insert_item
insert_items env store_id location_id [] s = s
insert_items env store_id location_id (v ∷ vs) s =
    insert_items env store_id location_id vs (record s {
      db = record (s.db) {
        items = insert_item (fresh_item (env.uuid s.drawn) store_id location_id v) s.db.items;
      };
      drawn = s.drawn + 1;
    })

-- The foreign key from an item to its location.
abbrev has_location : ℕ → Db → Bool
has_location id db = any (λ l. l.id == id) db.locations

unfoldable pub create_items : ℕ → ℕ → List ProductVariant → Tx (Unit {0})
create_items store_id location_id vs env s =
    if has_location location_id s.db
    then (ok tt, insert_items env store_id location_id vs s)
    else throw Error.foreign_key_violation env s

abbrev by_variant_le : InventoryItem → InventoryItem → Bool
by_variant_le a b = leb a.product_variant_id b.product_variant_id

abbrev pub create_missing : ℕ → ℕ → List ℕ → Tx (Unit {0})
create_missing store_id location_id [] env s = pure tt env s
create_missing store_id location_id (id ∷ ids) env s =
    let vs = variants_of store_id (id ∷ ids) s.db.variants in
    if length vs == length (id ∷ ids)
    then create_items store_id location_id vs env s
    else throw Error.product_unavailable env s

abbrev pub read_items : ℕ → ℕ → List ℕ → Tx (List InventoryItem)
read_items store_id location_id ids env s =
    let rows = items_at store_id location_id ids s.db.items in
    if length rows == length ids
    then pure (sort by_variant_le rows) env s
    else throw Error.item_missing env s

unfoldable pub ensure_inventory_items : ℕ → ℕ → List ℕ → Tx (List InventoryItem)
ensure_inventory_items store_id location_id ids env s =
    (do
      create_missing store_id location_id
          (missing_ids (items_at store_id location_id ids s.db.items) ids)
      read_items store_id location_id ids)
      env s

-- `ORDER BY store_id, location_id, product_variant_id`.
abbrev lock_le : InventoryItem → InventoryItem → Bool
lock_le a b =
    ltb a.store_id b.store_id
    || a.store_id == b.store_id
      && (ltb a.location_id b.location_id
          || a.location_id == b.location_id && leb a.product_variant_id b.product_variant_id)

abbrev pub rows_with : List ℕ → List InventoryItem → List InventoryItem
rows_with ids = select (λ r. elem r.id ids)

unfoldable pub lock_inventory_items : List ℕ → Tx (List InventoryItem)
lock_inventory_items [] env s = pure [] env s
lock_inventory_items (id ∷ ids) env s =
    let rows = rows_with (id ∷ ids) s.db.items in
    if length rows == length (id ∷ ids)
    then pure (sort lock_le rows) env s
    else throw Error.lock_failed env s

-- Whether an item is the one that a reservation holds stock of.
abbrev pub holds : InventoryItem → Reservation → Bool
holds r x =
    r.store_id == x.store_id
    && (r.product_variant_id == x.product_variant_id && r.location_id == x.location_id)

unfoldable pub lock_inventory_items_for_reservations : List Reservation → Tx (List InventoryItem)
lock_inventory_items_for_reservations xs env s =
    lock_inventory_items (map (λ r. r.id) (select (λ r. any (holds r) xs) s.db.items)) env s

-- `new Map(rows.map(row => [row.productVariantId, row]))`: of two rows the later counts.
unfoldable pub by_variant : ℕ → List InventoryItem → Option InventoryItem
by_variant k [] = none
by_variant k (r ∷ rs) = elim (by_variant k rs) [
  | some x ↦ some x
  | none ↦ if r.product_variant_id == k then some r else none
]

-- The same with `inventoryKey` for its key.
unfoldable pub by_key : ℕ → ℕ → List InventoryItem → Option InventoryItem
by_key v l [] = none
by_key v l (r ∷ rs) = elim (by_key v l rs) [
  | some x ↦ some x
  | none ↦ if r.product_variant_id == v && r.location_id == l then some r else none
]
