-- ===== src/Inventory/Ending.antt =====
-- The loops of `confirmOrderStock` and `releaseReservations`: what a turn at one reservation leaves
-- for the turns at the others.
use lotzi.Base.{
  ℕ, ◌≡◌, ◌≢◌, sym, ◌∙◌, ap, true, List, [], ◌∷◌, some, any, All, All-select_test, All-map, select,
  arith,
}
use mathlib.Core.Option.{some-injective}
use lotzi.Base.Tables.{find_by, update_by, find_by-update_by_ne}
use lotzi.Inventory.Types.{InventoryItem, Counters, Reservation, State, Env, is_active}
use lotzi.Inventory.Tx.{ok}
use lotzi.Inventory.Items.{holds, by_key, lock_inventory_items_for_reservations}
use lotzi.Inventory.Confirm.{reservation_id}
use lotzi.Inventory.Counts.{exclusive}
use lotzi.Inventory.Steps.{Moves}
use lotzi.Inventory.Invariant.{Inv, find_item, find-moved_ne}
use lotzi.Inventory.Turns.{Reads}
use lotzi.Inventory.Loops.{by_key-All}
use lotzi.Inventory.Taking.{lock_inventory_items-Reads, own_rows}

-- An active reservation of the order in the table.
abbrev pub Stored : ℕ → ℕ → State → Reservation → Type 0
Stored store_id order_id s x =
    (find_by reservation_id x.id s.db.reservations ≡ some x)
    × (is_active x.status ≡ true)
    × (x.order_id ≡ order_id)
    × (x.store_id ≡ store_id)

-- The row that the loop will find for it is present, and is the one that it holds stock of.
abbrev KeyReady : ℕ → List InventoryItem → State → Reservation → Type 0
KeyReady store_id locked s x =
    (row : InventoryItem)
    → by_key x.product_variant_id x.location_id locked ≡ some row
    → Reads store_id s row
      × (row.product_variant_id ≡ x.product_variant_id)
      × (row.location_id ≡ x.location_id)

abbrev pub Pending : ℕ → ℕ → List InventoryItem → State → Reservation → Type 0
Pending store_id order_id locked s x = Stored store_id order_id s x × KeyReady store_id locked s x

module _ (store_id order_id : ℕ) (locked : List InventoryItem) (x : Reservation)
    (row : InventoryItem) (after : Counters) (f : Reservation → Reservation)
    (same : (y : Reservation) → (f y).id ≡ y.id) (s t : State) (inv : Inv s.db)
    (moves : Moves row after (update_by reservation_id x.id f s.db.reservations) s t)
    (here : Pending store_id order_id locked s x)
    (found : by_key x.product_variant_id x.location_id locked ≡ some row) where
  other_row :
      (y : Reservation) (other : InventoryItem)
      → y.id ≢ x.id
      → Stored store_id order_id s y
      → Reads store_id s other
      → other.product_variant_id ≡ y.product_variant_id
      → other.location_id ≡ y.location_id
      → other.id ≢ row.id
  other_row y other ne stored reads v l e =
      let (present, variant, location) = here.1 row found in
      let same_row : other ≡ row =
        some-injective other row (sym reads.0 ∙ ap (λ k. find_item k s.db) e ∙ present.0) in
      ne (
        sym (
          exclusive x y s.db.reservations inv.admitted here.0.0 stored.0 here.0.1 stored.1 (
            here.0.2 ∙ sym stored.2,
            sym variant ∙ ap (λ r. r.product_variant_id) (sym same_row) ∙ v,
            sym location ∙ ap (λ r. r.location_id) (sym same_row) ∙ l,
          )))

  Pending-turned :
      (y : Reservation)
      → y.id ≢ x.id
      → Pending store_id order_id locked s y
      → Pending store_id order_id locked t y
  Pending-turned y ne (stored, ready) = (
    (
      ap (find_by reservation_id y.id) moves.1
          ∙ find_by-update_by_ne reservation_id x.id y.id f s.db.reservations same ne
          ∙ stored.0,
      stored.1,
      stored.2,
      stored.3,
    ),
    λ other at.
        let (reads, v, l) = ready other at in
        (
          (
            find-moved_ne row after (update_by reservation_id x.id f s.db.reservations) s t moves
                  (here.1 row found).0.0 other.id (other_row y other ne stored reads v l)
                ∙ reads.0,
            reads.1,
          ),
          v,
          l,
        ),
  )

  pub All-Pending-turned :
      (ys : List Reservation)
      → All (λ y. y.id ≢ x.id) ys
      → All (Pending store_id order_id locked s) ys
      → All (Pending store_id order_id locked t) ys
  All-Pending-turned [] a h = tt
  All-Pending-turned (y ∷ ys) a h = (Pending-turned y a.0 h.0, All-Pending-turned ys a.1 h.1)

holds_store :
    (store_id : ℕ) (r : InventoryItem) (xs : List Reservation)
    → All (λ x. x.store_id ≡ store_id) xs
    → any (holds r) xs ≡ true
    → r.store_id ≡ store_id
holds_store store_id r [] h e = cc
holds_store store_id r (x ∷ xs) h e = ground (arith, holds_store store_id r xs h.1)

-- The rows that are locked for reservations of one store.
pub locked-Reads :
    (store_id : ℕ) (xs : List Reservation) (env : Env) (s : State) {locked : List InventoryItem}
    {t : State}
    → Inv s.db
    → All (λ x. x.store_id ≡ store_id) xs
    → lock_inventory_items_for_reservations xs env s ≡ (ok locked, t)
    → (s ≡ t) × All (Reads store_id s) locked
unfolding lock_inventory_items_for_reservations
locked-Reads store_id xs env s inv stores h =
    lock_inventory_items-Reads store_id (select (λ r. any (holds r) xs) s.db.items) env s inv
      (All-map (λ r p. (p.0, holds_store store_id r xs stores p.1))
        (select (λ r. any (holds r) xs) s.db.items)
        (All-select_test (λ r. find_item r.id s.db ≡ some r) (λ r. any (holds r) xs) s.db.items
          (own_rows s inv)))
      h

pub Stored-Pending :
    (store_id order_id : ℕ) (locked : List InventoryItem) (s : State) (xs : List Reservation)
    → All (Reads store_id s) locked
    → All (Stored store_id order_id s) xs
    → All (Pending store_id order_id locked s) xs
Stored-Pending store_id order_id locked s [] reads h = tt
Stored-Pending store_id order_id locked s (x ∷ xs) reads h = (
  (
    h.0,
    λ row found.
        by_key-All (Reads store_id s) x.product_variant_id x.location_id locked reads found,
  ),
  Stored-Pending store_id order_id locked s xs reads h.1,
)

-- The item of a pending reservation is the one that it holds stock of.
pub Pending-holds :
    (store_id order_id : ℕ) (locked : List InventoryItem) (s : State) (x : Reservation)
    (row : InventoryItem)
    → Pending store_id order_id locked s x
    → by_key x.product_variant_id x.location_id locked ≡ some row
    → holds row x ≡ true
Pending-holds store_id order_id locked s x row h found =
    let (reads, v, l) = h.1 row found in
    let store : row.store_id ≡ x.store_id = reads.1 ∙ sym h.0.3 in ground arith
