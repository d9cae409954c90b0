-- ===== src/Inventory/Turns.antt =====
-- One turn of each loop keeps the invariant and the units of every item.
use lotzi.Base.{ℕ, ◌+◌, ◌-◌, ◌≤◌, ◌≡◌, true, false, List, ◌∷◌, Option, none, some, arith}
use lotzi.Base.Tables.{find_by, update_by}
use lotzi.Inventory.Types.{
  InventoryItem, Counters, Reservation, ReservationRef, ReservationStatus, Line, State, Env,
  is_active,
}
use lotzi.Inventory.Tx.{ok}
use lotzi.Inventory.Items.{same_key, holds}
use lotzi.Inventory.Reserve.{
  OrderInput, reserved_counters, cod_counters, new_reservation, reserve_row, authorize_cod_row,
}
use lotzi.Inventory.Confirm.{reservation_id}
use lotzi.Inventory.Counts.{
  held, active_total, active_total-update, Admitted-IsUnique, update_by-Admitted,
}
use lotzi.Inventory.Steps.{Moves, reserve_row-Moves, authorize_cod_row-Moves}
use lotzi.Inventory.Invariant.{Inv, Conserves, find_item, moved-Inv, moved-Conserves}

-- The row is the present one, and of the store.
abbrev pub Reads : ℕ → State → InventoryItem → Type 0
Reads store_id s row = (find_item row.id s.db ≡ some row) × (row.store_id ≡ store_id)

-- What a turn at `row` that leads from `s` to `t` has kept.
abbrev pub Turned : InventoryItem → State → State → Type 0
Turned row s t =
    ((after : Counters) × (rs : List Reservation) × Moves row after rs s t)
    × Inv t.db
    × Conserves s.db t.db

held_new-le :
    (input : OrderInput) (item : Line) (row r : InventoryItem) (status : ReservationStatus)
    (at : Option ℕ) (id : ℕ)
    → held r (new_reservation input item row status at id) ≤ item.quantity
held_new-le input item row r status at id = ground arith

held_new_other :
    (input : OrderInput) (item : Line) (row r : InventoryItem) (status : ReservationStatus)
    (at : Option ℕ) (id : ℕ)
    → row.store_id ≡ input.store_id
    → row.product_variant_id ≡ item.product_variant_id
    → same_key row r ≡ false
    → held r (new_reservation input item row status at id) ≡ 0
held_new_other input item row r status at id e k h = ground arith

pub reserve_row-Turned :
    (input : OrderInput) (item : Line) (row : InventoryItem) (env : Env) (s : State)
    {ref : ReservationRef} {t : State}
    → Inv s.db
    → Reads input.store_id s row
    → row.product_variant_id ≡ item.product_variant_id
    → item.quantity ≤ row.available_stock
    → reserve_row input item row env s ≡ (ok ref, t)
    → Turned row s t
unfolding active_total
reserve_row-Turned input item row env s {t = t} inv (current, store) variant enough h =
    let new = new_reservation input item row ReservationStatus.active none (env.uuid s.drawn) in
    let after = reserved_counters row item.quantity in
    let rs = new ∷ s.db.reservations in
    let (free, moves) = reserve_row-Moves input item row env s h in
    (
      (after, rs, moves),
      moved-Inv row after rs s t moves current
          (omega (
            arith,
            held_new-le input item row row ReservationStatus.active none (env.uuid s.drawn),
            inv.backed row.id row current,
          ))
          (λ r other. omega (
            arith,
            held_new_other input item row r ReservationStatus.active none (env.uuid s.drawn) store
                variant other,
          ))
          (free, inv.admitted) inv,
      moved-Conserves row after rs s t moves current (omega arith),
    )

pub authorize_cod_row-Turned :
    (input : OrderInput) (item : Line) (row : InventoryItem) (env : Env) (s : State)
    {ref : ReservationRef} {t : State}
    → Inv s.db
    → Reads input.store_id s row
    → row.product_variant_id ≡ item.product_variant_id
    → item.quantity ≤ row.available_stock
    → authorize_cod_row input item row env s ≡ (ok ref, t)
    → Turned row s t
unfolding active_total
authorize_cod_row-Turned input item row env s {t = t} inv (current, store) variant enough h =
    let new =
      new_reservation input item row ReservationStatus.confirmed (some env.now)
        (env.uuid s.drawn) in
    let after = cod_counters row item.quantity in
    let rs = new ∷ s.db.reservations in
    let (free, moves) = authorize_cod_row-Moves input item row env s h in
    let none_held : (r : InventoryItem) → held r new ≡ 0 = (λ r. ground arith) in
    (
      (after, rs, moves),
      moved-Inv row after rs s t moves current
          (omega (arith, none_held row, inv.backed row.id row current))
          (λ r other. omega (arith, none_held r)) (free, inv.admitted) inv,
      moved-Conserves row after rs s t moves current (omega arith),
    )

-- An active reservation of the item ends, and the counter falls by its quantity.
module _ (x : Reservation) (f : Reservation → Reservation) (row : InventoryItem) (after : Counters)
    (s t : State) (inv : Inv s.db) (current : find_item row.id s.db ≡ some row)
    (holding : holds row x ≡ true) (active : is_active x.status ≡ true)
    (stored : find_by reservation_id x.id s.db.reservations ≡ some x)
    (ends : (y : Reservation) → is_active (f y).status ≡ false)
    (same : (y : Reservation) → (f y).id ≡ y.id)
    (counter : after.reserved_stock ≡ row.reserved_stock - x.quantity)
    (kept : after.available_stock + after.reserved_stock + after.sold_stock
      ≡ row.available_stock + row.reserved_stock + row.sold_stock)
    (moves : Moves row after (update_by reservation_id x.id f s.db.reservations) s t) where
  ended_total :
      (r : InventoryItem)
      → active_total r (update_by reservation_id x.id f s.db.reservations) + held r x
        ≡ active_total r s.db.reservations
  ended_total r =
      active_total-update r x f s.db.reservations (Admitted-IsUnique s.db.reservations inv.admitted)
        stored (ends x)

  held_whole : held row x ≡ x.quantity
  held_whole = ground arith

  pub ended-Turned : Turned row s t
  ended-Turned =
      let rs = update_by reservation_id x.id f s.db.reservations in
      (
        (after, rs, moves),
        moved-Inv row after rs s t moves current
            (omega (arith, counter, ended_total row, held_whole, inv.backed row.id row current))
            (λ r other. omega (arith, ended_total r))
            (update_by-Admitted x.id f same ends s.db.reservations inv.admitted) inv,
        moved-Conserves row after rs s t moves current kept,
      )
