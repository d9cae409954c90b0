-- ===== src/Inventory/Untouched.antt =====
-- Steps of a transaction that leave the operations alone where they end well, and how they are put
-- together: what an order call does between its claim and its completion.
use lotzi.Base.{ℕ, ◌+◌, ◌≡◌, refl, ◌∙◌, subst, List, [], ◌∷◌, Option, none, some, map, arith}
use lotzi.Inventory.Types.{
  Line, InventoryItem, Reservation, ReservationRef, ProductVariant, State, Env, Error,
}
use lotzi.Inventory.Tx.{Tx, ok, err, or_throw, pure, ◌>>=◌, ◌>>◌, >>=-eq-ok}
use lotzi.Inventory.Rows.{item_id}
use lotzi.Inventory.Locations.{
  get_cached, set_cached, insert_default, create_default_location, load_default_location,
  ensure_default_location,
}
use lotzi.Inventory.Items.{
  insert_items, create_items, create_missing, read_items, ensure_inventory_items,
  lock_inventory_items, lock_inventory_items_for_reservations, by_variant, by_key, missing_ids,
  items_at,
}
use lotzi.Inventory.Reserve.{
  OrderInput, stocked, reserve_row, authorize_cod_row, push_to, for_lines, take_stock,
}
use lotzi.Inventory.Confirm.{ConfirmInput, covered, confirm_row}
use lotzi.Inventory.Release.{ReleaseContext, release_row, release_rows, release_reservations}
use lotzi.Inventory.Steps.{
  reserve_row-Moves, authorize_cod_row-Moves, confirm_row-Moves, release_row-Moves,
}

pub record Untouched {A : Type 0} (m : Tx A) : Type 0 where
  pub same :
      (env : Env) (s : State) (a : A) (t : State)
      → m env s ≡ (ok a, t)
      → t.db.operations ≡ s.db.operations

Untouched-bind :
    {A B : Type 0} (m : Tx A) (f : A → Tx B)
    → Untouched m
    → ((a : A) → Untouched (f a))
    → Untouched (m >>= f)
Untouched-bind m f h k = record {
  same = λ env s b t e.
      let (a, u, first, second) = >>=-eq-ok (m env s) f env e in
      (k a).same env u b t second ∙ h.same env s a u first;
}

-- A step that leaves the operations alone however it ends.
Untouched-frame :
    {A : Type 0} (m : Tx A)
    → ((env : Env) (s : State) → (m env s).1.db.operations ≡ s.db.operations)
    → Untouched m
Untouched-frame m frame = record {
  same = λ env s a t h. subst (λ x. x.1.db.operations ≡ s.db.operations) h (frame env s);
}

or_throw-Untouched : {A : Type 0} (o : Option A) (e : Error) → Untouched (or_throw o e)
or_throw-Untouched none e = Untouched-frame _ (λ env s. refl)
or_throw-Untouched (some a) e = Untouched-frame _ (λ env s. refl)

pure-Untouched : {A : Type 0} (a : A) → Untouched (pure a)
pure-Untouched a = Untouched-frame (pure a) (λ env s. refl)

insert_items-operations :
    (env : Env) (store_id location_id : ℕ) (vs : List ProductVariant) (s : State)
    → (insert_items env store_id location_id vs s).db.operations ≡ s.db.operations
unfolding insert_items
insert_items-operations env store_id location_id [] s = refl
insert_items-operations env store_id location_id (v ∷ vs) s =
    insert_items-operations env store_id location_id vs _

create_items-operations :
    (store_id location_id : ℕ) (vs : List ProductVariant) (env : Env) (s : State)
    → (create_items store_id location_id vs env s).1.db.operations ≡ s.db.operations
unfolding create_items
create_items-operations store_id location_id vs env s =
    ground (arith, insert_items-operations env store_id location_id vs s)

create_missing-operations :
    (store_id location_id : ℕ) (ids : List ℕ) (env : Env) (s : State)
    → (create_missing store_id location_id ids env s).1.db.operations ≡ s.db.operations
create_missing-operations store_id location_id [] env s = refl
create_missing-operations store_id location_id (id ∷ ids) env s =
    grind (arith, create_items-operations)

ensure_inventory_items-Untouched :
    (store_id location_id : ℕ) (ids : List ℕ)
    → Untouched (ensure_inventory_items store_id location_id ids)
unfolding ensure_inventory_items
ensure_inventory_items-Untouched store_id location_id ids = record {
  same = λ env s a t h.
      (Untouched-bind
          (create_missing store_id location_id
            (missing_ids (items_at store_id location_id ids s.db.items) ids))
          (λ _. read_items store_id location_id ids)
          (Untouched-frame _ (create_missing-operations store_id location_id _))
          (λ _. Untouched-frame _ (λ e u. ground arith))).same
        env s a t h;
}

lock_inventory_items-Untouched : (ids : List ℕ) → Untouched (lock_inventory_items ids)
unfolding lock_inventory_items
lock_inventory_items-Untouched [] = Untouched-frame _ (λ env s. refl)
lock_inventory_items-Untouched (id ∷ ids) = Untouched-frame _ (λ env s. ground arith)

pub lock_for_reservations-Untouched :
    (xs : List Reservation) → Untouched (lock_inventory_items_for_reservations xs)
unfolding lock_inventory_items_for_reservations
lock_for_reservations-Untouched xs = record {
  same = λ env s. (lock_inventory_items-Untouched _).same env s;
}

ensure_default_location-operations :
    (store_id : ℕ) (env : Env) (s : State)
    → (ensure_default_location store_id env s).1.db.operations ≡ s.db.operations
unfolding ensure_default_location get_cached load_default_location set_cached
    create_default_location insert_default
ensure_default_location-operations store_id env s = ground arith

pub reserve_row-Untouched :
    (input : OrderInput) (item : Line) (row : InventoryItem)
    → Untouched (reserve_row input item row)
reserve_row-Untouched input item row = record {
  same = λ env s ref t h. (reserve_row-Moves input item row env s h).1.2;
}

pub authorize_cod_row-Untouched :
    (input : OrderInput) (item : Line) (row : InventoryItem)
    → Untouched (authorize_cod_row input item row)
authorize_cod_row-Untouched input item row = record {
  same = λ env s ref t h. (authorize_cod_row-Moves input item row env s h).1.2;
}

pub confirm_row-Untouched :
    (input : ConfirmInput) (x : Reservation) (row : InventoryItem)
    → Untouched (confirm_row input x row)
confirm_row-Untouched input x row = record {
  same = λ env s u t h. (confirm_row-Moves input x row env s h).2;
}

release_row-Untouched :
    (c : ReleaseContext) (x : Reservation) (row : InventoryItem) → Untouched (release_row c x row)
release_row-Untouched c x row = record {
  same = λ env s u t h. (release_row-Moves c x row env s h).2;
}

module _ (body : Line → InventoryItem → Tx ReservationRef)
    (h : (item : Line) (row : InventoryItem) → Untouched (body item row)) where
  for_lines-Untouched :
      (locked : List InventoryItem) (items : List Line) → Untouched (for_lines body locked items)
  unfolding for_lines push_to
  for_lines-Untouched locked [] = Untouched-frame _ (λ env s. refl)
  for_lines-Untouched locked (item ∷ items) =
      elim (stocked (by_variant item.product_variant_id locked) item.quantity)
        as (λ o. Untouched {A = List ReservationRef} (λ env s. elim o [
          | none ↦ (err Error.out_of_stock, s)
          | some row ↦ (body item row >>= push_to (for_lines body locked items)) env s
        ])) [
          | none ↦ Untouched-frame _ (λ env s. refl)
          | some row ↦
              Untouched-bind (body item row) (push_to (for_lines body locked items)) (h item row)
                (λ ref.
                  Untouched-bind (for_lines body locked items) (λ refs. pure (ref ∷ refs))
                    (for_lines-Untouched locked items) (λ refs. pure-Untouched (ref ∷ refs)))
        ]

  pub take_stock-Untouched :
      (store_id : ℕ) (items : List Line) → Untouched (take_stock body store_id items)
  unfolding take_stock
  take_stock-Untouched store_id items =
      Untouched-bind (ensure_default_location store_id) _
        (Untouched-frame _ (ensure_default_location-operations store_id))
        (λ location_id.
          Untouched-bind
            (ensure_inventory_items store_id location_id (map (λ l. l.product_variant_id) items))
            (λ rows.
              lock_inventory_items (map item_id rows) >>= λ locked. for_lines body locked items)
            (ensure_inventory_items-Untouched store_id location_id _)
            (λ rows.
              Untouched-bind (lock_inventory_items (map item_id rows))
                (λ locked. for_lines body locked items) (lock_inventory_items-Untouched _)
                (λ locked. for_lines-Untouched locked items)))

release_rows-Untouched :
    (c : ReleaseContext) (locked : List InventoryItem) (n : ℕ) (xs : List Reservation)
    → Untouched (release_rows c locked n xs)
unfolding release_rows
release_rows-Untouched c locked n [] = Untouched-frame _ (λ env s. refl)
release_rows-Untouched c locked n (x ∷ xs) =
    Untouched-bind
      (or_throw (covered (by_key x.product_variant_id x.location_id locked) x.quantity)
        Error.release_failed)
      (λ row. release_row c x row >> release_rows c locked (n + 1) xs) (or_throw-Untouched _ _)
      (λ row.
        Untouched-bind (release_row c x row) (λ _. release_rows c locked (n + 1) xs)
          (release_row-Untouched c x row) (λ _. release_rows-Untouched c locked (n + 1) xs))

pub release_reservations-Untouched :
    (c : ReleaseContext) (xs : List Reservation) → Untouched (release_reservations c xs)
unfolding release_reservations
release_reservations-Untouched c xs =
    Untouched-bind (lock_inventory_items_for_reservations xs) (λ locked. release_rows c locked 0 xs)
      (lock_for_reservations-Untouched xs) (λ locked. release_rows-Untouched c locked 0 xs)
