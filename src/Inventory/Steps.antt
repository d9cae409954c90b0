-- ===== src/Inventory/Steps.antt =====
-- What one turn of each loop does to the items, the reservations and the operations.
use lotzi.Base.{ℕ, ◌≡◌, ap, ◌∙◌, false, List, ◌∷◌, none, some, arith, any}
use lotzi.Base.Tables.{update_by}
use lotzi.Inventory.Types.{
  InventoryItem, Counters, Reservation, ReservationRef, ReservationStatus, Line, State, Env,
}
use lotzi.Inventory.Tx.{ok, >>=-eq-ok}
use lotzi.Inventory.Rows.{
  item_id, with_counters, update_inventory_item, create_ledger, emit_inventory_event,
  emit_low_stock_if_needed,
}
use lotzi.Inventory.Reserve.{
  OrderInput, reserved_counters, cod_counters, clashes, new_reservation, create_reservation,
  record_reserved, reserve_row, record_cod, authorize_cod_row,
}
use lotzi.Inventory.Confirm.{
  ConfirmInput, confirmed_counters, reservation_id, update_reservation, confirm, confirm_row,
}
use lotzi.Inventory.Release.{ReleaseContext, released_counters, release, release_row}
use lotzi.Inventory.Frames.{update_rows-items, low_stock-frame}

-- From `s` to `t` one item got new counters and the reservations became `rs`.
abbrev pub Moves : InventoryItem → Counters → List Reservation → State → State → Type 0
Moves row after rs s t =
    (t.db.items ≡ update_by item_id row.id (with_counters after) s.db.items)
    × (t.db.reservations ≡ rs)
    × (t.db.operations ≡ s.db.operations)

create_reservation-eq-ok :
    (make : ℕ → Reservation) (env : Env) (s : State) {ref : ReservationRef} {t : State}
    → create_reservation make env s ≡ (ok ref, t)
    → (any (clashes (make (env.uuid s.drawn))) s.db.reservations ≡ false)
      × (t.db.reservations ≡ make (env.uuid s.drawn) ∷ s.db.reservations)
      × (t.db.items ≡ s.db.items)
      × (t.db.operations ≡ s.db.operations)
unfolding create_reservation
create_reservation-eq-ok make env s h = ground arith

record_reserved-Moves :
    (input : OrderInput) (item : Line) (row : InventoryItem) (ref : ReservationRef) (env : Env)
    (s : State) {ref' : ReservationRef} {t : State}
    → record_reserved input item row ref env s ≡ (ok ref', t)
    → Moves row (reserved_counters row item.quantity) s.db.reservations s t
unfolding record_reserved update_inventory_item create_ledger emit_inventory_event
    emit_low_stock_if_needed
record_reserved-Moves input item row ref env s h = grind (arith, low_stock-frame, update_rows-items)

record_cod-Moves :
    (input : OrderInput) (item : Line) (row : InventoryItem) (ref : ReservationRef) (env : Env)
    (s : State) {ref' : ReservationRef} {t : State}
    → record_cod input item row ref env s ≡ (ok ref', t)
    → Moves row (cod_counters row item.quantity) s.db.reservations s t
unfolding record_cod update_inventory_item create_ledger emit_inventory_event
    emit_low_stock_if_needed
record_cod-Moves input item row ref env s h = grind (arith, low_stock-frame, update_rows-items)

pub reserve_row-Moves :
    (input : OrderInput) (item : Line) (row : InventoryItem) (env : Env) (s : State)
    {ref : ReservationRef} {t : State}
    → reserve_row input item row env s ≡ (ok ref, t)
    → let new = new_reservation input item row ReservationStatus.active none (env.uuid s.drawn) in
      (any (clashes new) s.db.reservations ≡ false)
      × Moves row (reserved_counters row item.quantity) (new ∷ s.db.reservations) s t
unfolding reserve_row
reserve_row-Moves input item row env s h =
    let make = new_reservation input item row ReservationStatus.active none in
    let (ref, u, made, rest) =
      >>=-eq-ok (create_reservation make env s) (record_reserved input item row) env h in
    let (free, rs, is, os) = create_reservation-eq-ok make env s made in
    let (is', rs', os') = record_reserved-Moves input item row ref env u rest in
    (free, (is' ∙ ap (update_by item_id row.id _) is, rs' ∙ rs, os' ∙ os))

pub authorize_cod_row-Moves :
    (input : OrderInput) (item : Line) (row : InventoryItem) (env : Env) (s : State)
    {ref : ReservationRef} {t : State}
    → authorize_cod_row input item row env s ≡ (ok ref, t)
    → let new =
        new_reservation input item row ReservationStatus.confirmed
          (some env.now)
          (env.uuid s.drawn) in
      (any (clashes new) s.db.reservations ≡ false)
      × Moves row (cod_counters row item.quantity) (new ∷ s.db.reservations) s t
unfolding authorize_cod_row
authorize_cod_row-Moves input item row env s h =
    let make = new_reservation input item row ReservationStatus.confirmed (some env.now) in
    let (ref, u, made, rest) =
      >>=-eq-ok (create_reservation make env s) (record_cod input item row) env h in
    let (free, rs, is, os) = create_reservation-eq-ok make env s made in
    let (is', rs', os') = record_cod-Moves input item row ref env u rest in
    (free, (is' ∙ ap (update_by item_id row.id _) is, rs' ∙ rs, os' ∙ os))

pub confirm_row-Moves :
    (input : ConfirmInput) (x : Reservation) (row : InventoryItem) (env : Env) (s : State)
    {t : State}
    → confirm_row input x row env s ≡ (ok tt, t)
    → Moves row
        (confirmed_counters row x.quantity)
        (update_by reservation_id x.id (confirm env.now) s.db.reservations)
        s
        t
unfolding confirm_row update_inventory_item create_ledger emit_inventory_event
confirm_row-Moves input x row env s h = grind (arith, update_rows-items)

pub release_row-Moves :
    (c : ReleaseContext) (x : Reservation) (row : InventoryItem) (env : Env) (s : State) {t : State}
    → release_row c x row env s ≡ (ok tt, t)
    → Moves row
        (released_counters row x.quantity)
        (update_by reservation_id x.id (release c env.now) s.db.reservations)
        s
        t
unfolding release_row update_reservation update_inventory_item create_ledger emit_inventory_event
release_row-Moves c x row env s h = grind (arith, update_rows-items)
