-- ===== src/Inventory/Loops.antt =====
-- The loops over the lines of an order and over its reservations keep the invariant and the units.
use lotzi.Base.{
  ℕ, ◌≤◌, ◌≡◌, ◌≢◌, refl, sym, ◌∙◌, ap, subst, ◌⊎◌, inl, inr, List, [], ◌∷◌, Option, some, All,
  arith, Option-cases,
}
use mathlib.Core.Option.{some-injective}
use lotzi.Base.Tables.{IsUnique}
use lotzi.Inventory.Types.{
  InventoryItem, Counters, Reservation, ReservationRef, Line, State, Env, Error,
}
use lotzi.Inventory.Tx.{Tx, Result, ok, err, pure, >>=-eq-ok, continue_with}
use lotzi.Inventory.Items.{by_variant, by_key}
use lotzi.Inventory.Reserve.{stocked, for_lines, push_to}
use lotzi.Inventory.Steps.{Moves}
use lotzi.Inventory.Invariant.{
  Inv, Conserves, Conserves-refl, Conserves-trans, find_item, find-moved_ne,
}
use lotzi.Inventory.Turns.{Reads, Turned}

-- What a successful step has kept: the invariant, the units, and the operations.
abbrev pub Kept : State → State → Type 0
Kept s t = Inv t.db × Conserves s.db t.db × (t.db.operations ≡ s.db.operations)

pub Kept-refl : (s : State) → Inv s.db → Kept s s
Kept-refl s inv = (inv, Conserves-refl s.db, refl)

pub Kept-trans : (s t u : State) → Kept s t → Kept t u → Kept s u
Kept-trans s t u h k = (k.0, Conserves-trans s.db t.db u.db h.1 k.1, k.2 ∙ h.2)

Turned-Kept : (row : InventoryItem) (s t : State) → Turned row s t → Kept s t
Turned-Kept row s t h = (h.1, h.2, h.0.2.2)

by_variant_nil : (v : ℕ) {row : InventoryItem} → by_variant v [] ≡ some row → ⊥
unfolding by_variant
by_variant_nil v h = cc

by_key_nil : (v l : ℕ) {row : InventoryItem} → by_key v l [] ≡ some row → ⊥
unfolding by_key
by_key_nil v l h = cc

by_variant_cases :
    (v : ℕ) (r : InventoryItem) (rs : List InventoryItem) {row : InventoryItem}
    → by_variant v (r ∷ rs) ≡ some row
    → (by_variant v rs ≡ some row) ⊎ ((r ≡ row) × (r.product_variant_id ≡ v))
unfolding by_variant
by_variant_cases v r rs h = ground arith

-- The row of a variant is one of the rows, and of that variant.
by_variant-All :
    (P : InventoryItem → Type 0) (v : ℕ) (rows : List InventoryItem) {row : InventoryItem}
    → All P rows
    → by_variant v rows ≡ some row
    → P row × (row.product_variant_id ≡ v)
by_variant-All P v [] a h = absurd (by_variant_nil v h)
by_variant-All P v (r ∷ rs) a h = elim (by_variant_cases v r rs h) [
  | inl later ↦ by_variant-All P v rs a.1 later
  | inr (here, e) ↦ (subst P here a.0, ap (λ x. x.product_variant_id) (sym here) ∙ e)
]

by_key_cases :
    (v l : ℕ) (r : InventoryItem) (rs : List InventoryItem) {row : InventoryItem}
    → by_key v l (r ∷ rs) ≡ some row
    → (by_key v l rs ≡ some row) ⊎ ((r ≡ row) × (r.product_variant_id ≡ v) × (r.location_id ≡ l))
unfolding by_key
by_key_cases v l r rs h = ground arith

pub by_key-All :
    (P : InventoryItem → Type 0) (v l : ℕ) (rows : List InventoryItem) {row : InventoryItem}
    → All P rows
    → by_key v l rows ≡ some row
    → P row × (row.product_variant_id ≡ v) × (row.location_id ≡ l)
by_key-All P v l [] a h = absurd (by_key_nil v l h)
by_key-All P v l (r ∷ rs) a h = elim (by_key_cases v l r rs h) [
  | inl later ↦ by_key-All P v l rs a.1 later
  | inr (here, e, k) ↦ (
    subst P here a.0,
    ap (λ x. x.product_variant_id) (sym here) ∙ e,
    ap (λ x. x.location_id) (sym here) ∙ k,
  )
]

stocked_enough :
    (o : Option InventoryItem) (q : ℕ) {row : InventoryItem}
    → stocked o q ≡ some row
    → (o ≡ some row) × (q ≤ row.available_stock)
unfolding stocked
stocked_enough o q h = ground arith

-- The rows that the lines still to come will read are present.
abbrev Ready : ℕ → List InventoryItem → State → List Line → Type 0
Ready store_id locked s = All (λ l.
    (row : InventoryItem)
    → by_variant l.product_variant_id locked ≡ some row
    → Reads store_id s row × (row.product_variant_id ≡ l.product_variant_id))

abbrev pub line_variant : Line → ℕ
line_variant l = l.product_variant_id

pub Reads-Ready :
    (store_id : ℕ) (locked : List InventoryItem) (s : State) (items : List Line)
    → All (Reads store_id s) locked
    → Ready store_id locked s items
Reads-Ready store_id locked s [] h = tt
Reads-Ready store_id locked s (l ∷ ls) h = (
  λ row found. by_variant-All (Reads store_id s) l.product_variant_id locked h found,
  Reads-Ready store_id locked s ls h,
)

-- A row of another variant is read after the turn as before.
Reads-turned :
    (store_id : ℕ) (row other : InventoryItem) (after : Counters) (rs : List Reservation)
    (s t : State)
    → Moves row after rs s t
    → Reads store_id s row
    → Reads store_id s other
    → other.product_variant_id ≢ row.product_variant_id
    → Reads store_id t other
Reads-turned store_id row other after rs s t moves (here, _) (there, store) ne = (
  find-moved_ne row after rs s t moves here other.id (λ e. ne (
        ap (λ x. x.product_variant_id)
          (some-injective other row (sym there ∙ ap (λ k. find_item k s.db) e ∙ here))))
      ∙ there,
  store,
)

Ready-Turned :
    (store_id : ℕ) (locked : List InventoryItem) (s t : State) (row : InventoryItem)
    (items : List Line)
    → Turned row s t
    → Reads store_id s row
    → All (λ l. line_variant l ≢ row.product_variant_id) items
    → Ready store_id locked s items
    → Ready store_id locked t items
Ready-Turned store_id locked s t row [] turned here apart ready = tt
Ready-Turned store_id locked s t row (l ∷ ls) turned here apart ready = (
  λ other found.
      let (reads, variant) = ready.0 other found in
      (
        Reads-turned store_id row other turned.0.0 turned.0.1 s t turned.0.2 here reads
            (λ e. apart.0 (sym variant ∙ e)),
        variant,
      ),
  Ready-Turned store_id locked s t row ls turned here apart.1 ready.1,
)

push_to_result :
    (x : Result (List ReservationRef) × State) (ref : ReservationRef) (env : Env)
    {refs : List ReservationRef} {t : State}
    → continue_with (λ more. pure (ref ∷ more)) env x ≡ (ok refs, t)
    → (more : List ReservationRef) × (x ≡ (ok more, t)) × (refs ≡ ref ∷ more)
push_to_result (ok more, u) ref env h = (more, ground arith, ground arith)
push_to_result (err e, u) ref env h = cc

thrown_ne_ok :
    {A : Type 0} {e : Error} {s t : State} {a : A}
    → ◌≡◌ {A = Result A × State} (err e, s) (ok a, t)
    → ⊥
thrown_ne_ok h = cc

push_to-eq-ok :
    (rest : Tx (List ReservationRef)) (ref : ReservationRef) (env : Env) (u : State)
    {refs : List ReservationRef} {t : State}
    → push_to rest ref env u ≡ (ok refs, t)
    → (more : List ReservationRef) × (rest env u ≡ (ok more, t)) × (refs ≡ ref ∷ more)
unfolding push_to
push_to-eq-ok rest ref env u h = push_to_result (rest env u) ref env h

-- A turn of the loop that ends well: the row has the stock, and the rest of the loop follows.
for_lines-eq-ok :
    (body : Line → InventoryItem → Tx ReservationRef) (locked : List InventoryItem) (item : Line)
    (items : List Line) (env : Env) (s : State) {refs : List ReservationRef} {t : State}
    → for_lines body locked (item ∷ items) env s ≡ (ok refs, t)
    → (row : InventoryItem) × (ref : ReservationRef) × (u : State) × (more : List ReservationRef)
      × (by_variant item.product_variant_id locked ≡ some row)
      × (item.quantity ≤ row.available_stock)
      × (body item row env s ≡ (ok ref, u))
      × (for_lines body locked items env u ≡ (ok more, t))
      × (refs ≡ ref ∷ more)
unfolding for_lines
for_lines-eq-ok body locked item items env s h =
    elim (Option-cases (stocked (by_variant item.product_variant_id locked) item.quantity)) [
      | inl e ↦ absurd (thrown_ne_ok (rw (e, for_lines) at h))
      | inr (row, e) ↦
          let (found, enough) = stocked_enough _ item.quantity e in
          let (ref, u, turned, rest) =
            >>=-eq-ok (body item row env s) (push_to (for_lines body locked items)) env
              (rw (e, for_lines) at h) in
          let (more, looped, refs) = push_to-eq-ok (for_lines body locked items) ref env u rest in
          (row, ref, u, more, found, enough, turned, looped, refs)
    ]

-- The loop over lines of different variants, for a body whose turns keep what `Turned` says.
module _ (store_id : ℕ) (body : Line → InventoryItem → Tx ReservationRef)
    (turn : (item : Line) (row : InventoryItem) (env : Env) (s : State) (ref : ReservationRef)
        (t : State)
      → Inv s.db
      → Reads store_id s row
      → row.product_variant_id ≡ item.product_variant_id
      → item.quantity ≤ row.available_stock
      → body item row env s ≡ (ok ref, t)
      → Turned row s t)
    (locked : List InventoryItem) where
  pub for_lines-Kept :
      (items : List Line) (env : Env) (s : State) {refs : List ReservationRef} {t : State}
      → IsUnique line_variant items
      → Inv s.db
      → Ready store_id locked s items
      → for_lines body locked items env s ≡ (ok refs, t)
      → Kept s t
  unfolding for_lines
  for_lines-Kept [] env s {t = t} distinct inv ready h =
      subst (Kept s) (ap (λ x. x.1) h) (Kept-refl s inv)
  for_lines-Kept (item ∷ items) env s {t = t} distinct inv ready h =
      let (row, ref, u, more, found, enough, turned, looped, refs) =
        for_lines-eq-ok body locked item items env s h in
      let (reads, variant) = ready.0 row found in
      let moved = turn item row env s ref u inv reads variant enough turned in
      let apart : All (λ l. line_variant l ≢ row.product_variant_id) items =
        subst (λ v. All (λ l. line_variant l ≢ v) items) (sym variant) distinct.0 in
      let rest =
        for_lines-Kept items env u distinct.1 moved.1
          (Ready-Turned store_id locked s u row items moved reads apart ready.1) looped in
      Kept-trans s u t (Turned-Kept row s u moved) rest
