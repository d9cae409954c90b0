-- ===== src/Inventory/Confirming.antt =====
-- `confirmOrderStock` keeps the invariant and the units of every item.
use lotzi.Base.{
  ℕ, ◌≤◌, ◌≡◌, refl, ◌∙◌, ap, inl, inr, Bool, true, ◌&&◌, ◌==◌, List, [], ◌∷◌, Option, some, All,
  All-sort, All-map, All-select_test, every, select, arith, Bool-cases, Option-cases,
}
use lotzi.Base.Tables.{find_by, IsUnique, find_by-own, select-IsUnique, sort-IsUnique}
use lotzi.Inventory.Types.{
  InventoryItem, Reservation, Response, OperationKey, State, Env, is_active, is_confirmed,
}
use lotzi.Inventory.Tx.{ok, >>=-eq-ok}
use lotzi.Inventory.Rows.{emit_inventory_event}
use lotzi.Inventory.Claims.{finish}
use lotzi.Inventory.Items.{by_key, lock_inventory_items_for_reservations}
use lotzi.Inventory.Confirm.{
  ConfirmInput, reservation_id, reservation_le, order_reservations, covered, confirmed_counters,
  confirm, confirm_row, confirm_rows, confirm_active, review, inactive_of, confirm_if_active,
  confirm_reservations, confirm_work, confirm_claim, confirm_order_stock,
}
use lotzi.Inventory.Counts.{Admitted-IsUnique}
use lotzi.Inventory.Steps.{confirm_row-Moves}
use lotzi.Inventory.Invariant.{Inv, Conserves, Conserves-trans}
use lotzi.Inventory.Turns.{Turned, ended-Turned}
use lotzi.Inventory.Ending.{
  Stored, Pending, All-Pending-turned, locked-Reads, Stored-Pending, Pending-holds,
}
use lotzi.Inventory.Soundness.{
  Sound, Sound-bind, Sound-frame, finish-Sound, Sound-env, guarded, guarded-Sound,
}

pub covered_enough :
    (o : Option InventoryItem) (q : ℕ) {row : InventoryItem}
    → covered o q ≡ some row
    → (o ≡ some row) × (q ≤ row.reserved_stock)
unfolding covered
covered_enough o q h = ground arith

module _ (input : ConfirmInput) (locked : List InventoryItem) where
  abbrev IsPending : State → Reservation → Type 0
  IsPending = Pending input.store_id input.order_id locked

  confirm_row-Turned :
      (x : Reservation) (row : InventoryItem) (env : Env) (s : State) (t : State)
      → Inv s.db
      → IsPending s x
      → by_key x.product_variant_id x.location_id locked ≡ some row
      → x.quantity ≤ row.reserved_stock
      → confirm_row input x row env s ≡ (ok tt, t)
      → Turned row s t
  confirm_row-Turned x row env s t inv pending found enough h =
      ended-Turned x (confirm env.now) row (confirmed_counters row x.quantity) s t inv
        (pending.1 row found).0.0
        (Pending-holds input.store_id input.order_id locked s x row pending found) pending.0.1
        pending.0.0 (λ y. refl) (λ y. refl) refl (omega arith)
        (confirm_row-Moves input x row env s h)

  confirm_rows-keeps :
      (xs : List Reservation) (env : Env) (s : State) {r : Response} {t : State}
      → IsUnique reservation_id xs
      → Inv s.db
      → All (IsPending s) xs
      → confirm_rows input locked xs env s ≡ (ok r, t)
      → Inv t.db × Conserves s.db t.db
  unfolding confirm_rows
  confirm_rows-keeps [] env s {r} {t} unique inv pending h =
      (finish-Sound (OperationKey.confirm_op input.order_id) Response.confirmed_stock).keeps env s r
        t inv h
  confirm_rows-keeps (x ∷ xs) env s {r} {t} unique inv pending h =
      elim (Option-cases (covered (by_key x.product_variant_id x.location_id locked) x.quantity)) [
        | inl e ↦
            (finish-Sound (OperationKey.confirm_op input.order_id)
                (Response.reserved_counter_underflow x.id)).keeps
              env s r t inv (rw (e, confirm_rows) at h)
        | inr (row, e) ↦
            let (found, enough) = covered_enough _ x.quantity e in
            let (_, u, turned, rest) =
              >>=-eq-ok (confirm_row input x row env s) (λ _. confirm_rows input locked xs) env
                (rw (e, confirm_rows) at h) in
            let moved = confirm_row-Turned x row env s u inv pending.0 found enough turned in
            let later =
              All-Pending-turned input.store_id input.order_id locked x row
                (confirmed_counters row x.quantity) (confirm env.now) (λ y. refl) s u inv
                (confirm_row-Moves input x row env s turned) pending.0 found xs unique.0
                pending.1 in
            let (inv', kept) = confirm_rows-keeps xs env u unique.1 moved.1 later rest in
            (inv', Conserves-trans s.db u.db t.db moved.2 kept)
      ]

stores_of :
    (store_id order_id : ℕ) (s : State) (xs : List Reservation)
    → All (Stored store_id order_id s) xs
    → All (λ x. x.store_id ≡ store_id) xs
stores_of store_id order_id s xs h = All-map (λ x p. p.3) xs h

confirm_active-keeps :
    (input : ConfirmInput) (xs : List Reservation) (env : Env) (s : State) {r : Response}
    {t : State}
    → IsUnique reservation_id xs
    → Inv s.db
    → All (Stored input.store_id input.order_id s) xs
    → confirm_active input xs env s ≡ (ok r, t)
    → Inv t.db × Conserves s.db t.db
unfolding confirm_active
confirm_active-keeps input xs env s {r} {t} unique inv stored h =
    let (locked, u, got, looped) =
      >>=-eq-ok (lock_inventory_items_for_reservations xs env s)
        (λ rows. confirm_rows input rows xs) env h in
    let (same, reads) =
      locked-Reads input.store_id xs env s inv (stores_of input.store_id input.order_id s xs stored)
        got in
    confirm_rows-keeps input locked xs env s unique inv
      (Stored-Pending input.store_id input.order_id locked s xs reads stored)
      (ap (λ z. confirm_rows input locked xs env z) same ∙ looped)

emit_then_pure-Sound : (input : ConfirmInput) (response : Response) → Sound (review input response)
unfolding review emit_inventory_event
emit_then_pure-Sound input response =
    Sound-bind (finish (OperationKey.confirm_op input.order_id) response) _
      (finish-Sound (OperationKey.confirm_op input.order_id) response)
      (λ _. Sound-frame _ (λ env s. (refl, refl)))

-- A row of the order, whatever its status.
abbrev OfOrder : ConfirmInput → State → Reservation → Type 0
OfOrder input s x =
    (find_by reservation_id x.id s.db.reservations ≡ some x)
    × ((x.store_id == input.store_id && x.order_id == input.order_id) ≡ true)

Stored-row :
    (input : ConfirmInput) (s : State) (x : Reservation)
    → is_active x.status ≡ true
    → OfOrder input s x
    → Stored input.store_id input.order_id s x
Stored-row input s x a h = (h.0, a, ground arith, ground arith)

none_inactive :
    (input : ConfirmInput) (s : State) (xs : List Reservation)
    → inactive_of xs ≡ []
    → All (OfOrder input s) xs
    → All (Stored input.store_id input.order_id s) xs
none_inactive input s [] e h = tt
none_inactive input s (x ∷ xs) e h = elim (Bool-cases (is_active x.status)) [
  | inl a ↦ (Stored-row input s x a h.0, none_inactive input s xs (rw a at e) h.1)
  | inr a ↦ cc (rw a at e)
]

confirm_if_active-keeps :
    (input : ConfirmInput) (xs inactive : List Reservation) (env : Env) (s : State) {r : Response}
    {t : State}
    → inactive_of xs ≡ inactive
    → IsUnique reservation_id xs
    → Inv s.db
    → All (OfOrder input s) xs
    → confirm_if_active input xs inactive env s ≡ (ok r, t)
    → Inv t.db × Conserves s.db t.db
unfolding confirm_if_active
confirm_if_active-keeps input xs [] env s e unique inv h run =
    confirm_active-keeps input xs env s unique inv (none_inactive input s xs e h) run
confirm_if_active-keeps input xs (y ∷ ys) env s {r} {t} e unique inv h run =
    (emit_then_pure-Sound input _).keeps env s r t inv run

confirm_reservations-keeps :
    (input : ConfirmInput) (xs : List Reservation) (env : Env) (s : State) {r : Response}
    {t : State}
    → IsUnique reservation_id xs
    → Inv s.db
    → All (OfOrder input s) xs
    → confirm_reservations input xs env s ≡ (ok r, t)
    → Inv t.db × Conserves s.db t.db
unfolding confirm_reservations
confirm_reservations-keeps input [] env s {r} {t} unique inv h run =
    (finish-Sound _ _).keeps env s r t inv run
confirm_reservations-keeps input (x ∷ xs) env s {r} {t} unique inv h run =
    elim (Bool-cases (every (λ y. is_confirmed y.status) (x ∷ xs))) [
      | inl e ↦
          (finish-Sound (OperationKey.confirm_op input.order_id) Response.already_confirmed).keeps
            env s r t inv (rw (e, confirm_reservations) at run)
      | inr e ↦
          confirm_if_active-keeps input (x ∷ xs) (inactive_of (x ∷ xs)) env s refl unique inv h
            (rw (e, confirm_reservations) at run)
    ]

order_reservations-OfOrder :
    (input : ConfirmInput) (s : State)
    → Inv s.db
    → IsUnique reservation_id (order_reservations input.store_id input.order_id s.db.reservations)
      × All (OfOrder input s) (order_reservations input.store_id input.order_id s.db.reservations)
unfolding order_reservations
order_reservations-OfOrder input s inv =
    let rs = s.db.reservations in
    let unique = Admitted-IsUnique rs inv.admitted in
    let test : Reservation → Bool =
      (λ r. r.store_id == input.store_id && r.order_id == input.order_id) in
    (
      sort-IsUnique reservation_id reservation_le (select test rs)
          (select-IsUnique reservation_id test rs unique),
      All-sort (OfOrder input s) reservation_le (select test rs) (
          All-select_test (λ x. find_by reservation_id x.id rs ≡ some x) test rs
            (find_by-own reservation_id rs unique)),
    )

confirm_work-Sound : (input : ConfirmInput) → Sound (confirm_work input)
unfolding confirm_work
confirm_work-Sound input = record {
  keeps = λ env s r t inv h.
      let (unique, of_order) = order_reservations-OfOrder input s inv in
      confirm_reservations-keeps input _ env s unique inv of_order h;
}

-- A confirmation that succeeds keeps the invariant, and the units of every item.
pub confirm_order_stock-Sound : (input : ConfirmInput) → Sound (confirm_order_stock input)
unfolding confirm_order_stock
confirm_order_stock-Sound input =
    Sound-env (λ e. guarded input.store_id (confirm_claim input e) (confirm_work input))
      (λ e. guarded-Sound input.store_id _ _ (confirm_work-Sound input))
