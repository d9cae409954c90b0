-- ===== src/Inventory/Invariant.antt =====
-- What holds of the tables between two transactions of the engine, and that one change of an item
-- beside a change of the reservations keeps it.
use lotzi.Base.{
  ℕ, ◌+◌, ◌≤◌, ◌≡◌, ◌≢◌, refl, sym, ◌∙◌, ap, subst, ◌⊎◌, inl, inr, true, false, List, [], ◌∷◌,
  Option, some, any, arith, Bool-cases,
}
use native.Mathlib.Decide.{ℕ_discrete}
use mathlib.Core.Option.{some-injective}
use lotzi.Base.Tables.{
  find_by, update_by, IsUnique, find_by-update_by_self, find_by-update_by_ne, update_by-IsUnique,
}
use lotzi.Inventory.Types.{InventoryItem, Counters, Reservation, Db, State}
use lotzi.Inventory.Rows.{item_id, with_counters}
use lotzi.Inventory.Items.{same_key}
use lotzi.Inventory.Counts.{active_total, active_total-key, Admitted}
use lotzi.Inventory.Steps.{Moves}

abbrev pub find_item : ℕ → Db → Option InventoryItem
find_item i db = find_by item_id i db.items

pub record Inv (db : Db) : Type 0 where
  -- the primary key of the items
  pub unique_items : IsUnique item_id db.items
  -- the unique indexes of the reservations
  pub admitted : Admitted db.reservations
  -- one row for a store, a variant and a location
  pub keyed :
      (i j : ℕ) (a b : InventoryItem)
      → find_item i db ≡ some a
      → find_item j db ≡ some b
      → same_key a b ≡ true
      → i ≡ j
  -- the reserved counter of an item covers its active reservations
  pub backed :
      (i : ℕ) (r : InventoryItem)
      → find_item i db ≡ some r
      → active_total r db.reservations ≤ r.reserved_stock
  -- what has no item has no active reservation
  pub homed :
      (r : InventoryItem)
      → any (λ x. same_key x r) db.items ≡ false
      → active_total r db.reservations ≡ 0

abbrev pub units : InventoryItem → ℕ
units r = r.available_stock + r.reserved_stock + r.sold_stock

-- Every item of `d` is in `e` under its identifier and its key, and has as many units, on sale,
-- reserved and sold together.
abbrev pub Conserves : Db → Db → Type 0
Conserves d e =
    (i : ℕ) (r : InventoryItem)
    → find_item i d ≡ some r
    → (r' : InventoryItem) × (find_item i e ≡ some r')
      × (units r' ≡ units r)
      × (same_key r' r ≡ true)

pub same_key_refl : (r : InventoryItem) → same_key r r ≡ true
same_key_refl r = ground arith

same_key_trans :
    (a b c : InventoryItem) → same_key a b ≡ true → same_key b c ≡ true → same_key a c ≡ true
same_key_trans a b c h k = ground arith

pub Conserves-refl : (d : Db) → Conserves d d
Conserves-refl d i r h = (r, h, refl, same_key_refl r)

pub Conserves-trans : (d e f : Db) → Conserves d e → Conserves e f → Conserves d f
Conserves-trans d e f h k i r p =
    let (r', p', u, s) = h i r p in
    let (r'', p'', u', s') = k i r' p' in (r'', p'', u' ∙ u, same_key_trans r'' r' r s' s)

same_key_sym : (a b : InventoryItem) → same_key a b ≡ true → same_key b a ≡ true
same_key_sym a b h = ground arith

any_key_updated :
    (k : ℕ) (after : Counters) (r : InventoryItem) (xs : List InventoryItem)
    → any (λ x. same_key x r) (update_by item_id k (with_counters after) xs)
      ≡ any (λ x. same_key x r) xs
unfolding update_by
any_key_updated k after r [] = refl
any_key_updated k after r (x ∷ xs) = ground (arith, any_key_updated k after r xs)

any_key_found :
    (k : ℕ) (r a : InventoryItem) (xs : List InventoryItem)
    → find_by item_id k xs ≡ some a
    → any (λ x. same_key x r) xs ≡ false
    → same_key a r ≡ false
unfolding find_by
any_key_found k r a [] h e = cc
any_key_found k r a (x ∷ xs) h e = ground (arith, any_key_found k r a xs)

-- One item moves.
module _ (row : InventoryItem) (after : Counters) (rs : List Reservation) (s t : State)
    (moves : Moves row after rs s t) (current : find_item row.id s.db ≡ some row) where
  find-moved_self : find_item row.id t.db ≡ some (with_counters after row)
  find-moved_self =
      ap (find_by item_id row.id) moves.0
      ∙ find_by-update_by_self item_id row.id (with_counters after) s.db.items refl current

  pub find-moved_ne : (j : ℕ) → j ≢ row.id → find_item j t.db ≡ find_item j s.db
  find-moved_ne j ne =
      ap (find_by item_id j) moves.0
      ∙ find_by-update_by_ne item_id row.id j (with_counters after) s.db.items (λ x. refl) ne

  moved_cases :
      (j : ℕ) (r : InventoryItem)
      → find_item j t.db ≡ some r
      → ((j ≡ row.id) × (r ≡ with_counters after row))
        ⊎ ((j ≢ row.id) × (find_item j s.db ≡ some r))
  moved_cases j r h = elim (ℕ_discrete j row.id) [
    | yes e ↦ inl (
      e,
      some-injective r (with_counters after row)
          (sym h ∙ ap (λ k. find_item k t.db) e ∙ find-moved_self),
    )
    | no ne ↦ inr (ne, sym (find-moved_ne j ne) ∙ h)
  ]

  -- The item as it was, for the item as it is.
  moved_from :
      (j : ℕ) (r : InventoryItem)
      → find_item j t.db ≡ some r
      → (r' : InventoryItem) × (find_item j s.db ≡ some r') × (same_key r' r ≡ true)
  moved_from j r h = elim (moved_cases j r h) [
    | inl (e, k) ↦ (
      row,
      ap (λ i. find_item i s.db) e ∙ current,
      subst (λ x. same_key row x ≡ true) (sym k) (same_key_refl row),
    )
    | inr (ne, k) ↦ (r, k, same_key_refl r)
  ]

  pub moved-Conserves :
      after.available_stock + after.reserved_stock + after.sold_stock ≡ units row
      → Conserves s.db t.db
  moved-Conserves kept i r h = elim (ℕ_discrete i row.id) [
    | yes e ↦
        let same : row ≡ r =
          some-injective row r (sym current ∙ ap (λ k. find_item k s.db) (sym e) ∙ h) in
        (
          with_counters after row,
          ap (λ k. find_item k t.db) e ∙ find-moved_self,
          kept ∙ ap units same,
          subst (λ x. same_key row x ≡ true) same (same_key_refl row),
        )
    | no ne ↦ (r, find-moved_ne i ne ∙ h, refl, same_key_refl r)
  ]

  -- The reservations give the item no more than its new counter, and no other item more than before.
  module _ (own : active_total row rs ≤ after.reserved_stock)
      (others : (r : InventoryItem)
        → same_key row r ≡ false
        → active_total r rs ≤ active_total r s.db.reservations)
      (admitted : Admitted rs) (inv : Inv s.db) where
    moved_keyed :
        (i j : ℕ) (a b : InventoryItem)
        → find_item i t.db ≡ some a
        → find_item j t.db ≡ some b
        → same_key a b ≡ true
        → i ≡ j
    moved_keyed i j a b h k e =
        let (a', h', p) = moved_from i a h in
        let (b', k', q) = moved_from j b k in
        inv.keyed i j a' b' h' k'
          (same_key_trans a' a b' p (same_key_trans a b b' e (same_key_sym b' b q)))

    moved_others :
        (j : ℕ) (r : InventoryItem)
        → j ≢ row.id
        → find_item j s.db ≡ some r
        → same_key row r ≡ false
    moved_others j r ne h = elim (Bool-cases (same_key row r)) [
      | inl e ↦ absurd (ne (sym (inv.keyed row.id j row r current h e)))
      | inr e ↦ e
    ]

    moved_backed :
        (j : ℕ) (r : InventoryItem)
        → find_item j t.db ≡ some r
        → active_total r t.db.reservations ≤ r.reserved_stock
    moved_backed j r h = elim (moved_cases j r h) [
      | inl (e, k) ↦
          rw (moves.1, k)
            (omega
              (arith, own, active_total-key (with_counters after row) row rs (same_key_refl row)))
      | inr (ne, k) ↦ rw moves.1 (omega (arith, others r (moved_others j r ne k), inv.backed j r k))
    ]

    moved_homed :
        (r : InventoryItem)
        → any (λ x. same_key x r) t.db.items ≡ false
        → active_total r t.db.reservations ≡ 0
    moved_homed r h =
        let before : any (λ x. same_key x r) s.db.items ≡ false =
          sym (any_key_updated row.id after r s.db.items)
          ∙ ap (any (λ x. same_key x r)) (sym moves.0)
          ∙ h in
        rw moves.1 (
          omega (
            arith,
            others r (any_key_found row.id r row s.db.items current before),
            inv.homed r before,
          ))

    pub moved-Inv : Inv t.db
    moved-Inv = record {
      unique_items = rw moves.0 (
          update_by-IsUnique item_id row.id (with_counters after) s.db.items (λ x. refl)
            inv.unique_items);
      admitted = rw moves.1 admitted;
      keyed = moved_keyed;
      backed = moved_backed;
      homed = moved_homed;
    }
