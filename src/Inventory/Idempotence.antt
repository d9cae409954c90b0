-- ===== src/Inventory/Idempotence.antt =====
-- The four calls of an order, made twice.
use lotzi.Base.{
  ℕ, ◌≡◌, refl, ◌∙◌, true, false, List, [], ◌∷◌, Option, none, some, every, length, ltb, inl, inr,
  Bool-cases, Option-cases, arith, if◌then◌else◌,
}
use lotzi.Inventory.Types.{
  Line, InventoryItem, Reservation, Response, OperationKey, State, Env, is_confirmed,
}
use lotzi.Inventory.Tx.{Tx, ok, ◌>>◌}
use lotzi.Inventory.Rows.{emit_inventory_event}
use lotzi.Inventory.Claims.{ClaimInput, finish, complete, complete_operation, find_operation}
use lotzi.Inventory.Locations.{configure_tx}
use lotzi.Inventory.Items.{lock_inventory_items_for_reservations, by_key}
use lotzi.Inventory.Lines.{aggregate_items, assert_lock_budget, max_inventory_lock_lines}
use lotzi.Inventory.Reserve.{
  OrderInput, reserve_row, authorize_cod_row, take_stock, reserve_work, reserve_claim,
  reserve_lines, reserve_order_stock, authorize_cod_work, authorize_cod_claim, authorize_cod_lines,
  authorize_cod_order_stock,
}
use lotzi.Inventory.Confirm.{
  ConfirmInput, covered, confirm_row, confirm_rows, confirm_active, review, inactive_of,
  confirm_if_active, confirm_reservations, confirm_work, confirm_claim, confirm_order_stock,
}
use lotzi.Inventory.Release.{
  ReleaseInput, release_reservations, release_active, release_work, release_claim, release_key,
  release_context, target_status, release_order_stock,
}
use lotzi.Inventory.Soundness.{guarded}
use lotzi.Inventory.Untouched.{
  take_stock-Untouched, reserve_row-Untouched, authorize_cod_row-Untouched, confirm_row-Untouched,
  lock_for_reservations-Untouched, release_reservations-Untouched,
}
use lotzi.Inventory.Replay.{
  Completes, finish-Completes, bind-Completes, find-update_operation, guarded-Answered,
  guarded-replay, again,
}

reserve_work-Completes :
    (input : OrderInput) (items : List Line)
    → Completes (OperationKey.reserve_op input.order_id) (reserve_work input items)
unfolding reserve_work
reserve_work-Completes input items =
    bind-Completes _ (take_stock (reserve_row input) input.store_id items)
      (λ refs. finish (OperationKey.reserve_op input.order_id) (Response.reserved_stock refs))
      (take_stock-Untouched (reserve_row input) (reserve_row-Untouched input) input.store_id items)
      (λ refs. finish-Completes _ _)

authorize_cod_work-Completes :
    (input : OrderInput) (items : List Line)
    → Completes (OperationKey.cod_authorize_op input.order_id) (authorize_cod_work input items)
unfolding authorize_cod_work
authorize_cod_work-Completes input items =
    bind-Completes _ (take_stock (authorize_cod_row input) input.store_id items)
      (λ refs. finish (OperationKey.cod_authorize_op input.order_id) (Response.cod_confirmed refs))
      (take_stock-Untouched (authorize_cod_row input) (authorize_cod_row-Untouched input)
        input.store_id items)
      (λ refs. finish-Completes _ _)

module _ (input : ConfirmInput) where
  abbrev confirm_key : OperationKey
  confirm_key = OperationKey.confirm_op input.order_id

  confirm_rows-Completes :
      (locked : List InventoryItem) (xs : List Reservation)
      → Completes confirm_key (confirm_rows input locked xs)
  unfolding confirm_rows
  confirm_rows-Completes locked [] = finish-Completes _ _
  confirm_rows-Completes locked (x ∷ xs) =
      elim (covered (by_key x.product_variant_id x.location_id locked) x.quantity)
        as (λ o. Completes confirm_key (λ env s. elim o [
          | none ↦ finish confirm_key (Response.reserved_counter_underflow x.id) env s
          | some row ↦ (confirm_row input x row >> confirm_rows input locked xs) env s
        ])) [
          | none ↦ finish-Completes _ _
          | some row ↦
              bind-Completes _ (confirm_row input x row) (λ _. confirm_rows input locked xs)
                (confirm_row-Untouched input x row) (λ _. confirm_rows-Completes locked xs)
        ]

  review-Completes : (response : Response) → Completes confirm_key (review input response)
  unfolding review finish complete_operation emit_inventory_event
  review-Completes response = record {
    stores = λ env s r t o found h. ground (
      arith,
      find-update_operation confirm_key (complete response env.now) s.db.operations (λ x. refl)
          found,
    );
  }

  confirm_if_active-Completes :
      (reservations inactive : List Reservation)
      → Completes confirm_key (confirm_if_active input reservations inactive)
  unfolding confirm_if_active confirm_active
  confirm_if_active-Completes reservations [] =
      bind-Completes _ (lock_inventory_items_for_reservations reservations)
        (λ locked. confirm_rows input locked reservations)
        (lock_for_reservations-Untouched reservations)
        (λ locked. confirm_rows-Completes locked reservations)
  confirm_if_active-Completes reservations (x ∷ xs) = review-Completes _

  confirm_reservations-Completes :
      (xs : List Reservation) → Completes confirm_key (confirm_reservations input xs)
  unfolding confirm_reservations
  confirm_reservations-Completes [] = finish-Completes _ _
  confirm_reservations-Completes (x ∷ xs) =
      elim (every (λ r. is_confirmed r.status) (x ∷ xs))
        as (λ b. Completes confirm_key (λ env s.
          if b
          then finish confirm_key Response.already_confirmed env s
          else confirm_if_active input (x ∷ xs) (inactive_of (x ∷ xs)) env s)) [
            | true ↦ finish-Completes _ _
            | false ↦ confirm_if_active-Completes (x ∷ xs) (inactive_of (x ∷ xs))
          ]

  confirm_work-Completes : Completes confirm_key (confirm_work input)
  unfolding confirm_work
  confirm_work-Completes = record {
    stores = λ env s. (confirm_reservations-Completes _).stores env s;
  }

release_active-Completes :
    (input : ReleaseInput) (xs : List Reservation)
    → Completes (release_key input) (release_active input xs)
unfolding release_active
release_active-Completes input [] = finish-Completes _ _
release_active-Completes input (x ∷ xs) =
    bind-Completes _ (release_reservations (release_context input) (x ∷ xs))
      (λ n. finish (release_key input) (Response.released_stock (target_status input.status) n))
      (release_reservations-Untouched (release_context input) (x ∷ xs)) (λ n. finish-Completes _ _)

release_work-Completes : (input : ReleaseInput) → Completes (release_key input) (release_work input)
unfolding release_work
release_work-Completes input = record {
  stores = λ env s. (release_active-Completes input _).stores env s;
}

-- A call that an order makes, in a transaction of its caller.
pub data OrderCall : Type 0 where
  to_reserve to_authorize_cod : OrderInput → OrderCall
  to_confirm : ConfirmInput → OrderCall
  to_release : ReleaseInput → OrderCall

unfoldable pub order_call : OrderCall → Tx (Option Response)
order_call (to_reserve input) = reserve_order_stock input
order_call (to_authorize_cod input) = authorize_cod_order_stock input
order_call (to_confirm input) = confirm_order_stock input
order_call (to_release input) = release_order_stock input

abbrev store_of : OrderCall → ℕ
store_of (to_reserve input) = input.store_id
store_of (to_authorize_cod input) = input.store_id
store_of (to_confirm input) = input.store_id
store_of (to_release input) = input.store_id

abbrev pub key_of : OrderCall → OperationKey
key_of (to_reserve input) = OperationKey.reserve_op input.order_id
key_of (to_authorize_cod input) = OperationKey.cod_authorize_op input.order_id
key_of (to_confirm input) = OperationKey.confirm_op input.order_id
key_of (to_release input) = release_key input

-- The same process at another time, with other identifiers to come.
abbrev pub later : Env → ℕ → (ℕ → ℕ) → Env
later env now uuid = record { now = now; uuid = uuid; hash = env.hash; resumes = env.resumes }

-- The transaction of `configureTx`, with the tables and the cache as they are.
abbrev pub in_store : ℕ → State → State
in_store store_id t = record t {
  settings = record { current_store_id = some store_id; is_platform_admin = false };
}

-- The operation of the key is in `u` what it is in `t`.
abbrev pub SameOperation : OperationKey → State → State → Type 0
SameOperation key u t = find_operation key u.db.operations ≡ find_operation key t.db.operations

module _ (env : Env) (s u : State) (now : ℕ) (uuid : ℕ → ℕ) {r : Option Response} {t : State} where
  guarded_twice :
      (store_id : ℕ) (input : ClaimInput) (work : Tx Response)
      → Completes input.operation_key work
      → SameOperation input.operation_key u t
      → guarded store_id input work env s ≡ (ok r, t)
      → guarded store_id input work (later env now uuid) u ≡ (again env r, in_store store_id u)
  unfolding configure_tx
  guarded_twice store_id input work c same h =
      let (o, (found, hash, type), done, stored) = guarded-Answered store_id input work env s c h in
      guarded-replay store_id input work (later env now uuid) u
        (o, (same ∙ found, hash, type), done, stored)

  -- Behind the test of the number of lines.
  budgeted_twice :
      (n store_id : ℕ) (input : ClaimInput) (work : Tx Response)
      → Completes input.operation_key work
      → SameOperation input.operation_key u t
      → (assert_lock_budget n >> guarded store_id input work) env s ≡ (ok r, t)
      → (assert_lock_budget n >> guarded store_id input work) (later env now uuid) u
        ≡ (again env r, in_store store_id u)
  unfolding assert_lock_budget
  budgeted_twice n store_id input work c same h =
      elim (Bool-cases (ltb max_inventory_lock_lines n)) [
        | inl e ↦ cc (rw e at h)
        | inr e ↦ rw e (guarded_twice store_id input work c same (rw e at h))
      ]

  reserved_twice :
      (input : OrderInput)
      → SameOperation (OperationKey.reserve_op input.order_id) u t
      → reserve_order_stock input env s ≡ (ok r, t)
      → reserve_order_stock input (later env now uuid) u ≡ (again env r, in_store input.store_id u)
  unfolding reserve_order_stock reserve_lines
  reserved_twice input same h = elim (Option-cases (aggregate_items input.items)) [
    | inl e ↦ cc (rw (e, reserve_order_stock) at h)
    | inr (items, e) ↦
        rw (e, reserve_order_stock)
          (budgeted_twice (length items) input.store_id (reserve_claim input items env)
            (reserve_work input items) (reserve_work-Completes input items) same
            (rw (e, reserve_order_stock) at h))
  ]

  authorized_twice :
      (input : OrderInput)
      → SameOperation (OperationKey.cod_authorize_op input.order_id) u t
      → authorize_cod_order_stock input env s ≡ (ok r, t)
      → authorize_cod_order_stock input (later env now uuid) u
        ≡ (again env r, in_store input.store_id u)
  unfolding authorize_cod_order_stock authorize_cod_lines
  authorized_twice input same h = elim (Option-cases (aggregate_items input.items)) [
    | inl e ↦ cc (rw (e, authorize_cod_order_stock) at h)
    | inr (items, e) ↦
        rw (e, authorize_cod_order_stock)
          (budgeted_twice (length items) input.store_id (authorize_cod_claim input items env)
            (authorize_cod_work input items) (authorize_cod_work-Completes input items) same
            (rw (e, authorize_cod_order_stock) at h))
  ]

-- A call of an order that has succeeded, made again with the same input in any state in which the
-- operation of its key is as the call left it, whatever else has changed, leaves every table and the
-- cache as they are. It returns the stored response where a transaction goes on after the unique
-- conflict, and is refused with the error of the aborted transaction where it does not.
pub order_call-replay :
    (c : OrderCall) (env : Env) (s u : State) (now : ℕ) (uuid : ℕ → ℕ) {r : Option Response}
    {t : State}
    → SameOperation (key_of c) u t
    → order_call c env s ≡ (ok r, t)
    → order_call c (later env now uuid) u ≡ (again env r, in_store (store_of c) u)
unfolding order_call confirm_order_stock release_order_stock
order_call-replay (to_reserve input) env s u now uuid same h =
    reserved_twice env s u now uuid input same h
order_call-replay (to_authorize_cod input) env s u now uuid same h =
    authorized_twice env s u now uuid input same h
order_call-replay (to_confirm input) env s u now uuid same h =
    guarded_twice env s u now uuid input.store_id (confirm_claim input env) (confirm_work input)
      (confirm_work-Completes input) same h
order_call-replay (to_release input) env s u now uuid same h =
    guarded_twice env s u now uuid input.store_id (release_claim input env) (release_work input)
      (release_work-Completes input) same h
