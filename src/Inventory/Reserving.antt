-- ===== src/Inventory/Reserving.antt =====
-- `reserveOrderStock` and `authorizeCodOrderStock` keep the invariant and the units of every item.
use lotzi.Base.{ℕ, ◌≤◌, ◌≡◌, refl, ◌∙◌, ap, List, map, Option, none, some, length}
use lotzi.Base.Tables.{IsUnique}
use lotzi.Inventory.Types.{
  InventoryItem, ReservationRef, Line, Response, OperationKey, State, Env, Error,
}
use lotzi.Inventory.Tx.{Tx, ok, or_throw, ◌>>=◌, ◌>>◌, >>=-eq-ok}
use lotzi.Inventory.Rows.{item_id}
use lotzi.Inventory.Claims.{finish}
use lotzi.Inventory.Locations.{ensure_default_location}
use lotzi.Inventory.Items.{ensure_inventory_items, lock_inventory_items}
use lotzi.Inventory.Lines.{aggregate_items, assert_lock_budget}
use lotzi.Inventory.Reserve.{
  OrderInput, reserve_row, authorize_cod_row, for_lines, take_stock, reserve_work, reserve_claim,
  reserve_lines, reserve_order_stock, authorize_cod_work, authorize_cod_claim, authorize_cod_lines,
  authorize_cod_order_stock,
}
use lotzi.Inventory.Invariant.{Inv}
use lotzi.Inventory.Turns.{Reads, Turned, reserve_row-Turned, authorize_cod_row-Turned}
use lotzi.Inventory.Loops.{Kept, Kept-trans, line_variant, Reads-Ready, for_lines-Kept}
use lotzi.Inventory.Taking.{
  ensure_default_location-Kept, ensure_inventory_items-Kept, lock_inventory_items-Reads,
}
use lotzi.Inventory.Soundness.{
  Sound, Sound-bind, throw_if-Sound, finish-Sound, Sound-env, guarded, guarded-Sound,
}
use lotzi.Inventory.Aggregation.{aggregate_items-IsUnique}

module _ (store_id : ℕ) (body : Line → InventoryItem → Tx ReservationRef)
    (turn : (item : Line) (row : InventoryItem) (env : Env) (s : State) (ref : ReservationRef)
        (t : State)
      → Inv s.db
      → Reads store_id s row
      → row.product_variant_id ≡ item.product_variant_id
      → item.quantity ≤ row.available_stock
      → body item row env s ≡ (ok ref, t)
      → Turned row s t)
    (items : List Line) (distinct : IsUnique line_variant items) where
  abbrev ids : List ℕ
  ids = map (λ l. l.product_variant_id) items

  abbrev loop : List InventoryItem → Tx (List ReservationRef)
  loop locked = for_lines body locked items

  abbrev lock_and_loop : List InventoryItem → Tx (List ReservationRef)
  lock_and_loop rows = lock_inventory_items (map item_id rows) >>= loop

  abbrev ensure_and_loop : ℕ → Tx (List ReservationRef)
  ensure_and_loop location_id = ensure_inventory_items store_id location_id ids >>= lock_and_loop

  take_stock-Kept :
      (env : Env) (s : State) {refs : List ReservationRef} {t : State}
      → Inv s.db
      → take_stock body store_id items env s ≡ (ok refs, t)
      → Kept s t
  unfolding take_stock
  take_stock-Kept env s {t = t} inv h =
      let (location_id, s1, located, rest1) =
        >>=-eq-ok (ensure_default_location store_id env s) ensure_and_loop env h in
      let kept1 = ensure_default_location-Kept store_id env s inv located in
      let (rows, s2, ensured, rest2) =
        >>=-eq-ok (ensure_inventory_items store_id location_id ids env s1) lock_and_loop env
          rest1 in
      let (kept2, reads) =
        ensure_inventory_items-Kept store_id location_id ids env s1 kept1.0 ensured in
      let (locked, s3, got, looped) =
        >>=-eq-ok (lock_inventory_items (map item_id rows) env s2) loop env rest2 in
      let (same, reads') = lock_inventory_items-Reads store_id rows env s2 kept2.0 reads got in
      let kept3 =
        for_lines-Kept store_id body turn locked items env s2 distinct kept2.0
          (Reads-Ready store_id locked s2 items reads')
          (ap (λ x. loop locked env x) same ∙ looped) in
      Kept-trans s s1 t kept1 (Kept-trans s1 s2 t kept2 kept3)

  take_stock-Sound : Sound (take_stock body store_id items)
  take_stock-Sound = record {
    keeps = λ env s refs t inv h. let kept = take_stock-Kept env s inv h in (kept.0, kept.1);
  }

reserve_work-Sound :
    (input : OrderInput) (items : List Line)
    → IsUnique line_variant items
    → Sound (reserve_work input items)
unfolding reserve_work
reserve_work-Sound input items distinct =
    Sound-bind (take_stock (reserve_row input) input.store_id items)
      (λ refs. finish (OperationKey.reserve_op input.order_id) (Response.reserved_stock refs))
      (take_stock-Sound input.store_id (reserve_row input)
        (λ item row env s ref t. reserve_row-Turned input item row env s) items distinct)
      (λ refs. finish-Sound _ _)

authorize_cod_work-Sound :
    (input : OrderInput) (items : List Line)
    → IsUnique line_variant items
    → Sound (authorize_cod_work input items)
unfolding authorize_cod_work
authorize_cod_work-Sound input items distinct =
    Sound-bind (take_stock (authorize_cod_row input) input.store_id items)
      (λ refs. finish (OperationKey.cod_authorize_op input.order_id) (Response.cod_confirmed refs))
      (take_stock-Sound input.store_id (authorize_cod_row input)
        (λ item row env s ref t. authorize_cod_row-Turned input item row env s) items distinct)
      (λ refs. finish-Sound _ _)

reserve_lines-Sound :
    (input : OrderInput) (items : List Line)
    → IsUnique line_variant items
    → Sound (reserve_lines input items)
unfolding reserve_lines assert_lock_budget
reserve_lines-Sound input items distinct =
    Sound-env
      (λ e.
        assert_lock_budget (length items)
        >> guarded input.store_id (reserve_claim input items e) (reserve_work input items))
      (λ e.
        Sound-bind (assert_lock_budget (length items))
          (λ _. guarded input.store_id (reserve_claim input items e) (reserve_work input items))
          (throw_if-Sound _ _)
          (λ _. guarded-Sound input.store_id _ _ (reserve_work-Sound input items distinct)))

authorize_cod_lines-Sound :
    (input : OrderInput) (items : List Line)
    → IsUnique line_variant items
    → Sound (authorize_cod_lines input items)
unfolding authorize_cod_lines assert_lock_budget
authorize_cod_lines-Sound input items distinct =
    Sound-env
      (λ e.
        assert_lock_budget (length items)
        >> guarded input.store_id (authorize_cod_claim input items e)
            (authorize_cod_work input items))
      (λ e.
        Sound-bind (assert_lock_budget (length items))
          (λ _.
            guarded input.store_id (authorize_cod_claim input items e)
              (authorize_cod_work input items))
          (throw_if-Sound _ _)
          (λ _. guarded-Sound input.store_id _ _ (authorize_cod_work-Sound input items distinct)))

-- Of a list of lines that is there, what it is the lines of is known.
some_lines-Sound :
    (o : Option (List Line)) (f : List Line → Tx (Option Response))
    → ((items : List Line) → o ≡ some items → Sound (f items))
    → Sound (or_throw o Error.quantity_invalid >>= f)
some_lines-Sound none f h = record { keeps = λ env s a t inv e. cc }
some_lines-Sound (some items) f h = record { keeps = (h items refl).keeps }

-- A reservation that succeeds keeps the invariant, and the units of every item.
pub reserve_order_stock-Sound : (input : OrderInput) → Sound (reserve_order_stock input)
unfolding reserve_order_stock
reserve_order_stock-Sound input =
    some_lines-Sound (aggregate_items input.items) (reserve_lines input)
      (λ items e. reserve_lines-Sound input items (aggregate_items-IsUnique input.items e))

-- So does an authorization of an order that is paid on delivery.
pub authorize_cod_order_stock-Sound : (input : OrderInput) → Sound (authorize_cod_order_stock input)
unfolding authorize_cod_order_stock
authorize_cod_order_stock-Sound input =
    some_lines-Sound (aggregate_items input.items) (authorize_cod_lines input)
      (λ items e. authorize_cod_lines-Sound input items (aggregate_items-IsUnique input.items e))
