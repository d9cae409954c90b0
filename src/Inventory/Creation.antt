-- ===== src/Inventory/Creation.antt =====
-- New rows of `inventory_items` keep the invariant, and touch no row that is there.
use lotzi.Base.{
  ℕ, ◌+◌, ◌≤◌, ◌≡◌, ◌≢◌, refl, sym, ◌∙◌, ap, subst, ◌⊎◌, inl, inr, Bool, true, false, ◌||◌, ◌==◌,
  List, [], ◌∷◌, some, any, All, arith, Bool-cases,
}
use lotzi.Base.Tables.{find_by}
use lotzi.Inventory.Types.{InventoryItem, ProductVariant, Db, State, Env}
use lotzi.Inventory.Rows.{item_id}
use lotzi.Inventory.Items.{same_key, insert_item, insert_items, fresh_item}
use lotzi.Inventory.Counts.{active_total}
use lotzi.Inventory.Invariant.{Inv, Conserves, find_item, same_key_refl}
use lotzi.Inventory.Loops.{Kept, Kept-refl, Kept-trans}

-- The invariant and the units speak of the items and the reservations alone.
pub Inv-same : (d e : Db) → e.items ≡ d.items → e.reservations ≡ d.reservations → Inv d → Inv e
Inv-same d e is rs inv = record {
  unique_items = rw is inv.unique_items;
  admitted = rw rs inv.admitted;
  keyed = λ i j a b h k.
      inv.keyed i j a b (sym (ap (find_by item_id i) is) ∙ h) (sym (ap (find_by item_id j) is) ∙ k);
  backed = λ i r h. rw rs (inv.backed i r (sym (ap (find_by item_id i) is) ∙ h));
  homed = λ r h. rw rs (inv.homed r (sym (ap (any (λ x. same_key x r)) is) ∙ h));
}

pub Conserves-same : (d e : Db) → e.items ≡ d.items → Conserves d e
Conserves-same d e is i r h = (r, ap (find_by item_id i) is ∙ h, refl, same_key_refl r)

no_clash :
    (r : InventoryItem) (xs : List InventoryItem)
    → any (λ x. same_key x r || x.id == r.id) xs ≡ false
    → (any (λ x. same_key x r) xs ≡ false) × All (λ y. item_id y ≢ r.id) xs
no_clash r [] h = (refl, tt)
no_clash r (x ∷ xs) h = ground (arith, no_clash r xs)

find_by-apart :
    (k : ℕ) (xs : List InventoryItem) {a : InventoryItem}
    → All (λ y. item_id y ≢ k) xs
    → find_by item_id k xs ≡ some a
    → ⊥
unfolding find_by
find_by-apart k [] h e = cc
find_by-apart k (x ∷ xs) {a} h e = ground (arith, find_by-apart k xs {a = a})

any_key_same :
    (i : ℕ) (r a : InventoryItem) (xs : List InventoryItem)
    → find_by item_id i xs ≡ some a
    → same_key a r ≡ true
    → any (λ x. same_key x r) xs ≡ true
unfolding find_by
any_key_same i r a [] h e = cc
any_key_same i r a (x ∷ xs) h e = ground (arith, any_key_same i r a xs)

find_cons_cases :
    (i : ℕ) (r a : InventoryItem) (xs : List InventoryItem)
    → find_by item_id i (r ∷ xs) ≡ some a
    → ((i ≡ r.id) × (r ≡ a)) ⊎ (find_by item_id i xs ≡ some a)
unfolding find_by
find_cons_cases i r a xs h = ground arith

find_cons_ne :
    (i : ℕ) (r : InventoryItem) (xs : List InventoryItem)
    → r.id ≢ i
    → find_by item_id i (r ∷ xs) ≡ find_by item_id i xs
unfolding find_by
find_cons_ne i r xs ne = ground arith

same_key_swap : (a b : InventoryItem) → same_key a b ≡ true → same_key b a ≡ true
same_key_swap a b h = ground arith

any_tail :
    (r a : InventoryItem) (xs : List InventoryItem)
    → any (λ x. same_key x a) (r ∷ xs) ≡ false
    → any (λ x. same_key x a) xs ≡ false
any_tail r a xs h = ground arith

true_and_false : {b : Bool} → b ≡ true → b ≡ false → ⊥
true_and_false h k = cc

module _ (r : InventoryItem) (d e : Db) (is : e.items ≡ r ∷ d.items)
    (rs : e.reservations ≡ d.reservations)
    (free : any (λ x. same_key x r || x.id == r.id) d.items ≡ false) (inv : Inv d) where
  inserted_keyed :
      (i j : ℕ) (a b : InventoryItem)
      → find_item i e ≡ some a
      → find_item j e ≡ some b
      → same_key a b ≡ true
      → i ≡ j
  inserted_keyed i j a b h k same =
      let new = (no_clash r d.items free).0 in
      elim (find_cons_cases i r a d.items (sym (ap (find_by item_id i) is) ∙ h)) [
        | inl (x, p) ↦ elim (find_cons_cases j r b d.items (sym (ap (find_by item_id j) is) ∙ k)) [
          | inl (y, q) ↦ x ∙ sym y
          | inr q ↦ absurd (
              true_and_false
                (any_key_same j r b d.items q
                  (same_key_swap r b (subst (λ z. same_key z b ≡ true) (sym p) same)))
                new)
        ]
        | inr p ↦ elim (find_cons_cases j r b d.items (sym (ap (find_by item_id j) is) ∙ k)) [
          | inl (y, q) ↦ absurd (
              true_and_false
                (any_key_same i r a d.items p (subst (λ z. same_key a z ≡ true) (sym q) same)) new)
          | inr q ↦ inv.keyed i j a b p q same
        ]
      ]

  inserted_backed :
      (i : ℕ) (a : InventoryItem)
      → find_item i e ≡ some a
      → active_total a e.reservations ≤ a.reserved_stock
  inserted_backed i a h =
      elim (find_cons_cases i r a d.items (sym (ap (find_by item_id i) is) ∙ h)) [
        | inl (x, p) ↦ rw (rs, ← p) (omega (arith, inv.homed r (no_clash r d.items free).0))
        | inr p ↦ rw rs (inv.backed i a p)
      ]

  inserted_homed :
      (a : InventoryItem)
      → any (λ x. same_key x a) e.items ≡ false
      → active_total a e.reservations ≡ 0
  inserted_homed a h =
      rw rs (inv.homed a (any_tail r a d.items (sym (ap (any (λ x. same_key x a)) is) ∙ h)))

  inserted-Inv : Inv e
  inserted-Inv = record {
    unique_items = rw is ((no_clash r d.items free).1, inv.unique_items);
    admitted = rw rs inv.admitted;
    keyed = inserted_keyed;
    backed = inserted_backed;
    homed = inserted_homed;
  }

  inserted-Conserves : Conserves d e
  inserted-Conserves i a h =
      let apart : r.id ≢ i = (λ p.
        find_by-apart r.id d.items (no_clash r d.items free).1
          (ap (λ k. find_by item_id k d.items) p ∙ h)) in
      (a, ap (find_by item_id i) is ∙ find_cons_ne i r d.items apart ∙ h, refl, same_key_refl a)

insert_item-Kept :
    (r : InventoryItem) (d e : Db)
    → e.items ≡ insert_item r d.items
    → e.reservations ≡ d.reservations
    → Inv d
    → Inv e × Conserves d e
unfolding insert_item
insert_item-Kept r d e is rs inv =
    elim (Bool-cases (any (λ x. same_key x r || x.id == r.id) d.items)) [
      | inl taken ↦
          let same : e.items ≡ d.items = is ∙ (rw taken) in
          (Inv-same d e same rs inv, Conserves-same d e same)
      | inr free ↦
          let new : e.items ≡ r ∷ d.items = is ∙ (rw free) in
          (inserted-Inv r d e new rs free inv, inserted-Conserves r d e new rs free inv)
    ]

pub insert_items-Kept :
    (env : Env) (store_id location_id : ℕ) (vs : List ProductVariant) (s : State)
    → Inv s.db
    → Kept s (insert_items env store_id location_id vs s)
unfolding insert_items
insert_items-Kept env store_id location_id [] s inv = Kept-refl s inv
insert_items-Kept env store_id location_id (v ∷ vs) s inv =
    let r = fresh_item (env.uuid s.drawn) store_id location_id v in
    let t : State = record s {
      db = record (s.db) { items = insert_item r s.db.items };
      drawn = s.drawn + 1;
    } in
    let (inv', kept) = insert_item-Kept r s.db t.db refl refl inv in
    Kept-trans s t (insert_items env store_id location_id vs t) (inv', kept, refl)
      (insert_items-Kept env store_id location_id vs t inv')
