-- ===== src/Inventory/Reconcile.antt =====
-- `reconcile`: the counters of each item against the ledger.
use mathlib.Core.List.{reverse}
use lotzi.Base.{
  ℕ, ◌&&◌, not, Bool, true, false, Option, none, some, List, [], ◌∷◌, leb, ◌==◌, if◌then◌else◌,
  select, sort, take,
}
use lotzi.Inventory.Types.{InventoryItem, LedgerEntry, AuditEvent, Error}
use lotzi.Inventory.Tx.{Tx, pure, throw_if, write, transaction, ◌>>=◌, ◌>>◌}
use lotzi.Inventory.Locations.{configure_tx}
use lotzi.Inventory.Adjust.{location_or_default}

pub record ReconcileInput : Type 0 where
  pub store_id : ℕ
  pub location_id : Option ℕ
  pub product_variant_id : Option ℕ
  pub dry_run : Option Bool
  pub chunk_size : Option ℕ

pub record Totals : Type 0 where
  pub available_stock : ℕ
  pub reserved_stock : ℕ
  pub sold_stock : ℕ

pub record Diff : Type 0 where
  pub inventory_item_id : ℕ
  pub stored : Totals
  pub expected : Totals

abbrev ledger_limit : ℕ
ledger_limit = 1000

unfoldable pub is_entry_of : InventoryItem → LedgerEntry → Bool
is_entry_of item e =
    e.store_id == item.store_id
    && (e.product_variant_id == item.product_variant_id && e.location_id == item.location_id)

abbrev created_le : LedgerEntry → LedgerEntry → Bool
created_le a b = leb a.created_at b.created_at

-- `orderBy: { createdAt: "asc" }, take: 1_000`. Entries of one instant stay in the order of writing.
unfoldable pub ledger_page : InventoryItem → List LedgerEntry → List LedgerEntry
ledger_page item ledger =
    take ledger_limit (sort created_le (reverse (select (is_entry_of item) ledger)))

unfoldable last_entry : List LedgerEntry → Option LedgerEntry
last_entry [] = none
last_entry (e ∷ es) = elim (last_entry es) [ none ↦ some e | some x ↦ some x ]

unfoldable expected_totals : Option LedgerEntry → Totals
expected_totals none = record { available_stock = 0; reserved_stock = 0; sold_stock = 0 }
expected_totals (some e) = record {
  available_stock = e.after_available_stock;
  reserved_stock = e.after_reserved_stock;
  sold_stock = e.after_sold_stock;
}

abbrev stored_totals : InventoryItem → Totals
stored_totals r = record {
  available_stock = r.available_stock;
  reserved_stock = r.reserved_stock;
  sold_stock = r.sold_stock;
}

abbrev agree : Totals → Totals → Bool
agree a b =
    a.available_stock == b.available_stock
    && (a.reserved_stock == b.reserved_stock && a.sold_stock == b.sold_stock)

unfoldable pub diffs_of : List LedgerEntry → List InventoryItem → List Diff
unfolding ledger_page last_entry expected_totals
diffs_of ledger [] = []
diffs_of ledger (r ∷ rs) =
    let rest = diffs_of ledger rs in
    let expected = expected_totals (last_entry (ledger_page r ledger)) in
    if agree expected (stored_totals r)
    then rest
    else record { inventory_item_id = r.id; stored = stored_totals r; expected = expected } ∷ rest

abbrev matches : Option ℕ → ℕ → Bool
matches none v = true
matches (some k) v = v == k

abbrev variant_le : InventoryItem → InventoryItem → Bool
variant_le a b = leb a.product_variant_id b.product_variant_id

unfoldable pub reconcile_items : ReconcileInput → ℕ → ℕ → List InventoryItem → List InventoryItem
reconcile_items input location_id chunk_size items = take chunk_size (
    sort variant_le (
      select
        (λ r.
          r.store_id == input.store_id
          && (r.location_id == location_id
              && matches input.product_variant_id r.product_variant_id))
        items))

abbrev is_dry_run : Option Bool → Bool
is_dry_run (some false) = false
is_dry_run _ = true

abbrev chunk_or_default : Option ℕ → ℕ
chunk_or_default none = 500
chunk_or_default (some n) = n

audit_reconcile : ReconcileInput → Tx (Unit {0})
audit_reconcile input = write (λ env db. record db {
  audit_logs =
      record {
        event_type =
            if is_dry_run input.dry_run
            then AuditEvent.reconcile_dry_run
            else AuditEvent.reconcile_apply;
        store_id = input.store_id;
        denied = false;
      }
      ∷ db.audit_logs;
})

-- `lock_free` says whether `pg_try_advisory_xact_lock` gets the lock.
unfoldable pub reconcile : Bool → ReconcileInput → Tx (List Diff)
unfolding audit_reconcile
reconcile lock_free input = transaction (do
  configure_tx input.store_id
  location_id ← location_or_default input.store_id input.location_id
  throw_if (not lock_free) Error.reconcile_busy
  diffs ← (λ env s.
      pure
        (diffs_of s.db.ledger
          (reconcile_items input location_id (chunk_or_default input.chunk_size) s.db.items))
        env s)
  audit_reconcile input
  pure diffs)
