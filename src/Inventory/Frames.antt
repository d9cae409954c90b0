-- ===== src/Inventory/Frames.antt =====
-- What the single writes do to the tables that hold the stock, and what they leave alone.
use lotzi.Base.{ℕ, ◌≡◌, arith}
use lotzi.Base.Tables.{update_by, update_by-none}
use lotzi.Inventory.Types.{InventoryItem, Counters, Db}
use lotzi.Inventory.Rows.{item_id, with_counters, update_rows, update_variant, low_stock_rows}

update_variant-frame :
    (after : Counters) (r : InventoryItem) (db : Db)
    → ((update_variant after r db).items ≡ db.items)
      × ((update_variant after r db).reservations ≡ db.reservations)
      × ((update_variant after r db).operations ≡ db.operations)
unfolding update_variant
update_variant-frame after r db = ground arith

-- The `UPDATE` of the item, whether or not the row is there.
pub update_rows-items :
    (id : ℕ) (after : Counters) (db : Db)
    → ((update_rows id after db).items ≡ update_by item_id id (with_counters after) db.items)
      × ((update_rows id after db).reservations ≡ db.reservations)
      × ((update_rows id after db).operations ≡ db.operations)
unfolding update_rows
update_rows-items id after db =
    ground (arith, update_by-none item_id id (with_counters after) db.items)

pub low_stock-frame :
    (row : InventoryItem) (after : Counters) (now : ℕ) (db : Db)
    → ((low_stock_rows row after now db).items ≡ db.items)
      × ((low_stock_rows row after now db).reservations ≡ db.reservations)
      × ((low_stock_rows row after now db).operations ≡ db.operations)
unfolding low_stock_rows
low_stock-frame row after now db = ground arith
