-- ===== src/Inventory/Releasing.antt =====
-- `releaseOrderStock` and `expireReservations` keep the invariant and the units of every item.
use lotzi.Base.{
  ℕ, zero, suc, ◌+◌, ◌≤◌, ◌≡◌, ◌≢◌, refl, sym, ◌∙◌, ap, inl, inr, Bool, true, false, ◌&&◌, ◌==◌,
  List, [], ◌∷◌, some, All, All-sort, All-map, All-select_test, select, arith, Option-cases, ltb,
  take,
}
use lotzi.Base.Tables.{
  find_by, IsUnique, find_by-own, select-IsUnique, sort-IsUnique, find_by-update_by_ne,
}
use lotzi.Inventory.Types.{InventoryItem, Reservation, Response, State, Env, is_active}
use lotzi.Inventory.Tx.{ok, >>=-eq-ok}
use lotzi.Inventory.Claims.{finish}
use lotzi.Inventory.Locations.{configure_platform_tx}
use lotzi.Inventory.Items.{by_key, lock_inventory_items_for_reservations}
use lotzi.Inventory.Confirm.{reservation_id, reservation_le, covered}
use lotzi.Inventory.Release.{
  ReleaseContext, ReleaseInput, released_counters, release, release_row, release_rows,
  release_reservations, active_reservations, target_status, release_active, release_work,
  release_claim, release_order_stock, due_reservations, expiry_context, expire_rows, expire_work,
  expire_due, release_key, release_context,
}
use lotzi.Inventory.Counts.{Admitted-IsUnique}
use lotzi.Inventory.Steps.{release_row-Moves}
use lotzi.Inventory.Invariant.{Inv, Conserves, Conserves-trans}
use lotzi.Inventory.Turns.{Turned, ended-Turned}
use lotzi.Inventory.Ending.{
  Stored, Pending, All-Pending-turned, locked-Reads, Stored-Pending, Pending-holds,
}
use lotzi.Inventory.Confirming.{covered_enough}
use lotzi.Inventory.Soundness.{
  Sound, Sound-bind, Sound-frame, Sound-pure, finish-Sound, Sound-env, guarded, guarded-Sound,
}

module _ (c : ReleaseContext) (ends : is_active c.status ≡ false) (store_id order_id : ℕ)
    (locked : List InventoryItem) where
  abbrev IsPending : State → Reservation → Type 0
  IsPending = Pending store_id order_id locked

  release_row-Turned :
      (x : Reservation) (row : InventoryItem) (env : Env) (s : State) (t : State)
      → Inv s.db
      → IsPending s x
      → by_key x.product_variant_id x.location_id locked ≡ some row
      → x.quantity ≤ row.reserved_stock
      → release_row c x row env s ≡ (ok tt, t)
      → Turned row s t
  release_row-Turned x row env s t inv pending found enough h =
      ended-Turned x (release c env.now) row (released_counters row x.quantity) s t inv
        (pending.1 row found).0.0 (Pending-holds store_id order_id locked s x row pending found)
        pending.0.1 pending.0.0 (λ y. ends) (λ y. refl) refl (omega arith)
        (release_row-Moves c x row env s h)

  release_rows-keeps :
      (n : ℕ) (xs : List Reservation) (env : Env) (s : State) {k : ℕ} {t : State}
      → IsUnique reservation_id xs
      → Inv s.db
      → All (IsPending s) xs
      → release_rows c locked n xs env s ≡ (ok k, t)
      → Inv t.db × Conserves s.db t.db
  unfolding release_rows
  release_rows-keeps n [] env s {k} {t} unique inv pending h = (Sound-pure n).keeps env s k t inv h
  release_rows-keeps n (x ∷ xs) env s {k} {t} unique inv pending h =
      elim (Option-cases (covered (by_key x.product_variant_id x.location_id locked) x.quantity)) [
        | inl e ↦ cc (rw (e, release_rows) at h)
        | inr (row, e) ↦
            let (found, enough) = covered_enough _ x.quantity e in
            let (_, u, turned, rest) =
              >>=-eq-ok (release_row c x row env s) (λ _. release_rows c locked (n + 1) xs) env
                (rw (e, release_rows) at h) in
            let moved = release_row-Turned x row env s u inv pending.0 found enough turned in
            let later =
              All-Pending-turned store_id order_id locked x row (released_counters row x.quantity)
                (release c env.now) (λ y. refl) s u inv (release_row-Moves c x row env s turned)
                pending.0 found xs unique.0 pending.1 in
            let (inv', kept) = release_rows-keeps (n + 1) xs env u unique.1 moved.1 later rest in
            (inv', Conserves-trans s.db u.db t.db moved.2 kept)
      ]

release_reservations-keeps :
    (c : ReleaseContext) (store_id order_id : ℕ) (xs : List Reservation) (env : Env) (s : State)
    {k : ℕ} {t : State}
    → is_active c.status ≡ false
    → IsUnique reservation_id xs
    → Inv s.db
    → All (Stored store_id order_id s) xs
    → release_reservations c xs env s ≡ (ok k, t)
    → Inv t.db × Conserves s.db t.db
unfolding release_reservations
release_reservations-keeps c store_id order_id xs env s {k} {t} ends unique inv stored h =
    let (locked, u, got, looped) =
      >>=-eq-ok (lock_inventory_items_for_reservations xs env s) (λ rows. release_rows c rows 0 xs)
        env h in
    let (same, reads) = locked-Reads store_id xs env s inv (All-map (λ x p. p.3) xs stored) got in
    release_rows-keeps c ends store_id order_id locked 0 xs env s unique inv
      (Stored-Pending store_id order_id locked s xs reads stored)
      (ap (λ z. release_rows c locked 0 xs env z) same ∙ looped)

-- A row of a reservation that is not among those released.
release_rows-others :
    (c : ReleaseContext) (locked : List InventoryItem) (j n : ℕ) (xs : List Reservation) (env : Env)
    (s : State) {k : ℕ} {t : State}
    → All (λ x. j ≢ x.id) xs
    → release_rows c locked n xs env s ≡ (ok k, t)
    → find_by reservation_id j t.db.reservations ≡ find_by reservation_id j s.db.reservations
unfolding release_rows
release_rows-others c locked j n [] env s apart h =
    ap (λ z. find_by reservation_id j z.1.db.reservations) (sym h)
release_rows-others c locked j n (x ∷ xs) env s apart h =
    elim (Option-cases (covered (by_key x.product_variant_id x.location_id locked) x.quantity)) [
      | inl e ↦ cc (rw (e, release_rows) at h)
      | inr (row, e) ↦
          let (_, u, turned, rest) =
            >>=-eq-ok (release_row c x row env s) (λ _. release_rows c locked (n + 1) xs) env
              (rw (e, release_rows) at h) in
          release_rows-others c locked j (n + 1) xs env u apart.1 rest
          ∙ ap (find_by reservation_id j) (release_row-Moves c x row env s turned).1
          ∙ find_by-update_by_ne reservation_id x.id j (release c env.now) s.db.reservations
              (λ y. refl) apart.0
    ]

release_reservations-others :
    (c : ReleaseContext) (j store_id order_id : ℕ) (xs : List Reservation) (env : Env) (s : State)
    {k : ℕ} {t : State}
    → Inv s.db
    → All (Stored store_id order_id s) xs
    → All (λ x. j ≢ x.id) xs
    → release_reservations c xs env s ≡ (ok k, t)
    → find_by reservation_id j t.db.reservations ≡ find_by reservation_id j s.db.reservations
unfolding release_reservations
release_reservations-others c j store_id order_id xs env s inv stored apart h =
    let (locked, u, got, looped) =
      >>=-eq-ok (lock_inventory_items_for_reservations xs env s) (λ rows. release_rows c rows 0 xs)
        env h in
    let (same, reads) = locked-Reads store_id xs env s inv (All-map (λ x p. p.3) xs stored) got in
    release_rows-others c locked j 0 xs env u apart looped
    ∙ ap (λ z. find_by reservation_id j z.db.reservations) (sym same)

-- An active row of the table.
abbrev Due : State → Reservation → Type 0
Due s x = (find_by reservation_id x.id s.db.reservations ≡ some x) × (is_active x.status ≡ true)

later_Due :
    (s t : State) (x : Reservation) (xs : List Reservation)
    → ((j : ℕ)
        → All (λ y. j ≢ y.id) (x ∷ [])
        → find_by reservation_id j t.db.reservations ≡ find_by reservation_id j s.db.reservations)
    → All (λ y. reservation_id y ≢ x.id) xs
    → All (Due s) xs
    → All (Due t) xs
later_Due s t x [] others apart h = tt
later_Due s t x (y ∷ ys) others apart h =
    ((others y.id (apart.0, tt) ∙ h.0.0, h.0.1), later_Due s t x ys others apart.1 h.1)

expire_rows-keeps :
    (n : ℕ) (xs : List Reservation) (env : Env) (s : State) {k : ℕ} {t : State}
    → IsUnique reservation_id xs
    → Inv s.db
    → All (Due s) xs
    → expire_rows n xs env s ≡ (ok k, t)
    → Inv t.db × Conserves s.db t.db
unfolding expire_rows
expire_rows-keeps n [] env s {k} {t} unique inv due h = (Sound-pure n).keeps env s k t inv h
expire_rows-keeps n (x ∷ xs) env s {k} {t} unique inv due h =
    let (m, u, freed, rest) =
      >>=-eq-ok (release_reservations (expiry_context x) (x ∷ []) env s)
        (λ m. expire_rows (n + m) xs) env h in
    let stored : All (Stored x.store_id x.order_id s) (x ∷ []) =
      ((due.0.0, due.0.1, refl, refl), tt) in
    let (inv', kept) =
      release_reservations-keeps (expiry_context x) x.store_id x.order_id (x ∷ []) env s refl
        (tt, tt) inv stored freed in
    let (inv'', kept') =
      expire_rows-keeps (n + m) xs env u unique.1 inv'
        (later_Due s u x xs
          (λ j apart.
            release_reservations-others (expiry_context x) j x.store_id x.order_id (x ∷ []) env s
              inv stored apart freed)
          unique.0 due.1)
        rest in
    (inv'', Conserves-trans s.db u.db t.db kept kept')

All-take : {A : Type 0} (P : A → Type 0) (n : ℕ) (xs : List A) → All P xs → All P (take n xs)
All-take P zero xs h = tt
All-take P (suc n) [] h = tt
All-take P (suc n) (x ∷ xs) h = (h.0, All-take P n xs h.1)

take-IsUnique :
    (n : ℕ) (xs : List Reservation)
    → IsUnique reservation_id xs
    → IsUnique reservation_id (take n xs)
take-IsUnique zero xs u = tt
take-IsUnique (suc n) [] u = tt
take-IsUnique (suc n) (x ∷ xs) u =
    (All-take (λ y. reservation_id y ≢ x.id) n xs u.0, take-IsUnique n xs u.1)

and_left : (a b : Bool) → (a && b) ≡ true → a ≡ true
and_left a b h = ground arith

Stored-tested :
    (input : ReleaseInput) (s : State) (x : Reservation)
    → find_by reservation_id x.id s.db.reservations ≡ some x
    → (x.store_id == input.store_id && (x.order_id == input.order_id && is_active x.status)) ≡ true
    → Stored input.store_id input.order_id s x
Stored-tested input s x found h = (found, ground arith, ground arith, ground arith)

due_reservations-Due :
    (now limit : ℕ) (s : State)
    → Inv s.db
    → IsUnique reservation_id (due_reservations now limit s.db.reservations)
      × All (Due s) (due_reservations now limit s.db.reservations)
unfolding due_reservations
due_reservations-Due now limit s inv =
    let rs = s.db.reservations in
    let unique = Admitted-IsUnique rs inv.admitted in
    let test : Reservation → Bool = (λ r. is_active r.status && ltb r.expires_at now) in
    (
      take-IsUnique limit _ (
          sort-IsUnique reservation_id _ (select test rs)
            (select-IsUnique reservation_id test rs unique)),
      All-take (Due s) limit _ (
          All-sort (Due s) _ (select test rs) (
            All-map (λ x p. (p.0, and_left _ _ p.1)) (select test rs)
              (All-select_test (λ x. find_by reservation_id x.id rs ≡ some x) test rs
                (find_by-own reservation_id rs unique)))),
    )

expire_work-Sound : (limit : ℕ) → Sound (expire_work limit)
unfolding expire_work
expire_work-Sound limit = record {
  keeps = λ env s r t inv h.
      let (unique, due) = due_reservations-Due env.now limit s inv in
      expire_rows-keeps 0 _ env s unique inv due h;
}

pub expire_due-Sound : (limit : ℕ) → Sound (expire_due limit)
unfolding expire_due configure_platform_tx
expire_due-Sound limit =
    Sound-bind configure_platform_tx (λ _. expire_work limit)
      (Sound-frame _ (λ env s. (refl, refl))) (λ _. expire_work-Sound limit)

active_reservations-Stored :
    (input : ReleaseInput) (s : State)
    → Inv s.db
    → IsUnique reservation_id (active_reservations input.store_id input.order_id s.db.reservations)
      × All
          (Stored input.store_id input.order_id s)
          (active_reservations input.store_id input.order_id s.db.reservations)
unfolding active_reservations
active_reservations-Stored input s inv =
    let rs = s.db.reservations in
    let unique = Admitted-IsUnique rs inv.admitted in
    let test : Reservation → Bool =
      (λ r. r.store_id == input.store_id && (r.order_id == input.order_id && is_active r.status)) in
    (
      sort-IsUnique reservation_id reservation_le (select test rs)
          (select-IsUnique reservation_id test rs unique),
      All-sort (Stored input.store_id input.order_id s) reservation_le (select test rs) (
          All-map (λ x p. Stored-tested input s x p.0 p.1) (select test rs)
            (All-select_test (λ x. find_by reservation_id x.id rs ≡ some x) test rs
              (find_by-own reservation_id rs unique))),
    )

release_active-keeps :
    (input : ReleaseInput) (xs : List Reservation) (env : Env) (s : State) {r : Response}
    {t : State}
    → is_active (target_status input.status) ≡ false
    → IsUnique reservation_id xs
    → Inv s.db
    → All (Stored input.store_id input.order_id s) xs
    → release_active input xs env s ≡ (ok r, t)
    → Inv t.db × Conserves s.db t.db
unfolding release_active
release_active-keeps input [] env s {r} {t} ends unique inv stored h =
    (finish-Sound _ _).keeps env s r t inv h
release_active-keeps input (x ∷ xs) env s {r} {t} ends unique inv stored h =
    let c = release_context input in
    let (n, u, freed, rest) =
      >>=-eq-ok (release_reservations c (x ∷ xs) env s)
        (λ n. finish (release_key input) (Response.released_stock (target_status input.status) n))
        env h in
    let (inv', kept) =
      release_reservations-keeps c input.store_id input.order_id (x ∷ xs) env s ends unique inv
        stored freed in
    let (inv'', kept') = (finish-Sound _ _).keeps env u r t inv' rest in
    (inv'', Conserves-trans s.db u.db t.db kept kept')

release_work-Sound :
    (input : ReleaseInput)
    → is_active (target_status input.status) ≡ false
    → Sound (release_work input)
unfolding release_work
release_work-Sound input ends = record {
  keeps = λ env s r t inv h.
      let (unique, stored) = active_reservations-Stored input s inv in
      release_active-keeps input _ env s ends unique inv stored h;
}

-- A release to a status that is not active keeps the invariant, and the units of every item.
pub release_order_stock-Sound :
    (input : ReleaseInput)
    → is_active (target_status input.status) ≡ false
    → Sound (release_order_stock input)
unfolding release_order_stock
release_order_stock-Sound input ends =
    Sound-env (λ e. guarded input.store_id (release_claim input e) (release_work input))
      (λ e. guarded-Sound input.store_id _ _ (release_work-Sound input ends))
