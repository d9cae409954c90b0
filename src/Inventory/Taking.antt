-- ===== src/Inventory/Taking.antt =====
-- From the default location to the end of the loop: `ensureDefaultLocation`,
-- `ensureInventoryItems`, `lockInventoryItems` and the loop keep the invariant and the units.
use lotzi.Base.{
  ℕ, ◌≡◌, sym, ◌∙◌, ap, subst, inl, inr, true, ◌==◌, List, [], ◌∷◌, map, some, any, All, All-sort,
  arith, Bool-cases, length,
}
use mathlib.Core.Option.{some-injective}
use lotzi.Base.Tables.{find_by-own}
use lotzi.Inventory.Types.{InventoryItem, ProductVariant, State, Env}
use lotzi.Inventory.Tx.{ok, >>=-eq-ok}
use lotzi.Inventory.Rows.{item_id}
use lotzi.Inventory.Locations.{
  ensure_default_location, get_cached, load_default_location, create_default_location,
  insert_default, set_cached,
}
use lotzi.Inventory.Items.{
  items_at, variants_of, create_items, create_missing, read_items, ensure_inventory_items,
  lock_inventory_items, rows_with, elem, missing_ids,
}
use lotzi.Inventory.Invariant.{Inv, find_item}
use lotzi.Inventory.Turns.{Reads}
use lotzi.Inventory.Loops.{Kept, Kept-refl}
use lotzi.Inventory.Creation.{Inv-same, Conserves-same, insert_items-Kept}

-- A step that leaves the three tables alone keeps what is to be kept.
same_tables-Kept :
    (s t : State)
    → (t.db.items ≡ s.db.items)
      × (t.db.reservations ≡ s.db.reservations)
      × (t.db.operations ≡ s.db.operations)
    → Inv s.db
    → Kept s t
same_tables-Kept s t (is, rs, os) inv =
    (Inv-same s.db t.db is rs inv, Conserves-same s.db t.db is, os)

ensure_default_location-frame :
    (store_id : ℕ) (env : Env) (s : State)
    → let t = (ensure_default_location store_id env s).1 in
      (t.db.items ≡ s.db.items)
      × (t.db.reservations ≡ s.db.reservations)
      × (t.db.operations ≡ s.db.operations)
unfolding ensure_default_location get_cached load_default_location create_default_location
    insert_default set_cached
ensure_default_location-frame store_id env s = ground arith

pub ensure_default_location-Kept :
    (store_id : ℕ) (env : Env) (s : State) {id : ℕ} {t : State}
    → Inv s.db
    → ensure_default_location store_id env s ≡ (ok id, t)
    → Kept s t
ensure_default_location-Kept store_id env s {t = t} inv h =
    same_tables-Kept s t
      (subst
        (λ x.
          (x.1.db.items ≡ s.db.items)
          × (x.1.db.reservations ≡ s.db.reservations)
          × (x.1.db.operations ≡ s.db.operations))
        h (ensure_default_location-frame store_id env s))
      inv

ok_injective : {A : Type 0} {a b : A} → ok a ≡ ok b → a ≡ b
ok_injective h = cc

create_items-Kept :
    (store_id location_id : ℕ) (vs : List ProductVariant) (env : Env) (s : State) {t : State}
    → Inv s.db
    → create_items store_id location_id vs env s ≡ (ok tt, t)
    → Kept s t
unfolding create_items
create_items-Kept store_id location_id vs env s {t = t} inv h =
    elim (Bool-cases (any (λ l. l.id == location_id) s.db.locations)) [
      | inl e ↦
          subst (Kept s) (ap (λ x. x.1) (rw e at h))
            (insert_items-Kept env store_id location_id vs s inv)
      | inr e ↦ cc (rw e at h)
    ]

create_missing-Kept :
    (store_id location_id : ℕ) (ids : List ℕ) (env : Env) (s : State) {t : State}
    → Inv s.db
    → create_missing store_id location_id ids env s ≡ (ok tt, t)
    → Kept s t
create_missing-Kept store_id location_id [] env s inv h =
    subst (Kept s) (ap (λ x. x.1) h) (Kept-refl s inv)
create_missing-Kept store_id location_id (id ∷ ids) env s {t = t} inv h =
    let vs = variants_of store_id (id ∷ ids) s.db.variants in
    elim (Bool-cases (length vs == length (id ∷ ids))) [
      | inl e ↦ create_items-Kept store_id location_id vs env s inv (rw e at h)
      | inr e ↦ cc (rw e at h)
    ]

-- Rows of the table that a query with the store in its `where` finds.
items_at-Reads :
    (store_id location_id : ℕ) (ids : List ℕ) (s : State) (xs : List InventoryItem)
    → All (λ r. find_item r.id s.db ≡ some r) xs
    → All (Reads store_id s) (items_at store_id location_id ids xs)
unfolding items_at
items_at-Reads store_id location_id ids s [] h = tt
items_at-Reads store_id location_id ids s (x ∷ xs) h =
    ground (arith, items_at-Reads store_id location_id ids s xs h.1)

pub own_rows : (s : State) → Inv s.db → All (λ r. find_item r.id s.db ≡ some r) s.db.items
own_rows s inv = find_by-own item_id s.db.items inv.unique_items

read_items-Reads :
    (store_id location_id : ℕ) (ids : List ℕ) (env : Env) (s : State) {rows : List InventoryItem}
    {t : State}
    → Inv s.db
    → read_items store_id location_id ids env s ≡ (ok rows, t)
    → (s ≡ t) × All (Reads store_id s) rows
read_items-Reads store_id location_id ids env s {rows = rows} inv h =
    let found = items_at store_id location_id ids s.db.items in
    elim (Bool-cases (length found == length ids)) [
      | inl e ↦
          let eq = (rw e at h) in
          (
            ap (λ x. x.1) eq,
            subst (All (Reads store_id s)) (ok_injective (ap (λ x. x.0) eq)) (
                All-sort (Reads store_id s) _ found
                  (items_at-Reads store_id location_id ids s s.db.items (own_rows s inv))),
          )
      | inr e ↦ cc (rw e at h)
    ]

pub ensure_inventory_items-Kept :
    (store_id location_id : ℕ) (ids : List ℕ) (env : Env) (s : State) {rows : List InventoryItem}
    {t : State}
    → Inv s.db
    → ensure_inventory_items store_id location_id ids env s ≡ (ok rows, t)
    → Kept s t × All (Reads store_id t) rows
unfolding ensure_inventory_items
ensure_inventory_items-Kept store_id location_id ids env s {rows = rows} {t = t} inv h =
    let missing = missing_ids (items_at store_id location_id ids s.db.items) ids in
    let (_, u, created, read) =
      >>=-eq-ok (create_missing store_id location_id missing env s)
        (λ _. read_items store_id location_id ids) env h in
    let kept = create_missing-Kept store_id location_id missing env s inv created in
    let (same, reads) = read_items-Reads store_id location_id ids env u kept.0 read in
    (subst (Kept s) same kept, subst (λ x. All (Reads store_id x) rows) same reads)

elem-id :
    (store_id k : ℕ) (s : State) (rows : List InventoryItem)
    → All (Reads store_id s) rows
    → elem k (map item_id rows) ≡ true
    → (a : InventoryItem) × (a.id ≡ k) × Reads store_id s a
elem-id store_id k s [] h e = cc
elem-id store_id k s (x ∷ xs) h e = elim (Bool-cases (item_id x == k)) [
  | inl here ↦ (x, ground arith, h.0)
  | inr there ↦ elem-id store_id k s xs h.1 (rw there at e)
]

-- A row under the identifier of a row that was read is that row.
row_of_id :
    (store_id : ℕ) (s : State) (rows : List InventoryItem) (x : InventoryItem)
    → All (Reads store_id s) rows
    → find_item x.id s.db ≡ some x
    → elem x.id (map item_id rows) ≡ true
    → Reads store_id s x
row_of_id store_id s rows x h own e =
    let (a, id, (found, store)) = elem-id store_id x.id s rows h e in
    let same : a ≡ x = some-injective a x (sym found ∙ ap (λ k. find_item k s.db) id ∙ own) in
    (own, sym (ap (λ r. r.store_id) same) ∙ store)

rows_with-Reads :
    (store_id : ℕ) (s : State) (rows xs : List InventoryItem)
    → All (Reads store_id s) rows
    → All (λ r. find_item r.id s.db ≡ some r) xs
    → All (Reads store_id s) (rows_with (map item_id rows) xs)
rows_with-Reads store_id s rows [] h own = tt
rows_with-Reads store_id s rows (x ∷ xs) h own = elim (Bool-cases (elem x.id (map item_id rows))) [
  | inl e ↦ rw e (row_of_id store_id s rows x h own.0 e, rows_with-Reads store_id s rows xs h own.1)
  | inr e ↦ rw e (rows_with-Reads store_id s rows xs h own.1)
]

pub lock_inventory_items-Reads :
    (store_id : ℕ) (rows : List InventoryItem) (env : Env) (s : State) {locked : List InventoryItem}
    {t : State}
    → Inv s.db
    → All (Reads store_id s) rows
    → lock_inventory_items (map item_id rows) env s ≡ (ok locked, t)
    → (s ≡ t) × All (Reads store_id s) locked
unfolding lock_inventory_items
lock_inventory_items-Reads store_id [] env s inv h e =
    (ap (λ x. x.1) e, subst (All (Reads store_id s)) (ok_injective (ap (λ x. x.0) e)) tt)
lock_inventory_items-Reads store_id (r ∷ rs) env s inv h e =
    let ids = map item_id (r ∷ rs) in
    elim (Bool-cases (length (rows_with ids s.db.items) == length ids)) [
      | inl k ↦
          let eq = (rw k at e) in
          (
            ap (λ x. x.1) eq,
            subst (All (Reads store_id s)) (ok_injective (ap (λ x. x.0) eq)) (
                All-sort (Reads store_id s) _ (rows_with ids s.db.items)
                  (rows_with-Reads store_id s (r ∷ rs) s.db.items h (own_rows s inv))),
          )
      | inr k ↦ cc (rw k at e)
    ]
