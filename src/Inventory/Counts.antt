-- ===== src/Inventory/Counts.antt =====
-- The stock that active reservations hold of an item, as the reservations change.
use lotzi.Base.{
  ℕ, ◌+◌, ◌≤◌, ◌≡◌, ◌≢◌, refl, Bool, true, false, ◌&&◌, ◌==◌, List, [], ◌∷◌, some, any, All,
  if◌then◌else◌, arith, inl, inr, Bool-cases, ap, subst, sym, ◌∙◌, ◌||◌, ◌⊎◌, ==_iff,
}
use mathlib.Core.Option.{some-injective}
use lotzi.Base.Tables.{find_by, update_by, update_by-absent, IsUnique}
use lotzi.Inventory.Types.{InventoryItem, Reservation, is_active}
use lotzi.Inventory.Items.{holds, same_key}
use lotzi.Inventory.Confirm.{reservation_id}
use lotzi.Inventory.Reserve.{clashes}

abbrev pub held : InventoryItem → Reservation → ℕ
held r x = if holds r x && is_active x.status then x.quantity else 0

-- `SUM(quantity)` of the active reservations of an item.
unfoldable pub active_total : InventoryItem → List Reservation → ℕ
active_total r [] = 0
active_total r (x ∷ xs) = held r x + active_total r xs

held-key : (a b : InventoryItem) (x : Reservation) → same_key a b ≡ true → held a x ≡ held b x
held-key a b x h = ground arith

-- The sum depends on the key of the item alone.
pub active_total-key :
    (a b : InventoryItem) (xs : List Reservation)
    → same_key a b ≡ true
    → active_total a xs ≡ active_total b xs
unfolding active_total
active_total-key a b [] h = refl
active_total-key a b (x ∷ xs) h = omega (arith, held-key a b x h, active_total-key a b xs h)

held_inactive : (r : InventoryItem) (x : Reservation) → is_active x.status ≡ false → held r x ≡ 0
held_inactive r x h = ground arith

-- A reservation that stops being active gives back what it held, of its item and of no other.
pub active_total-update :
    (r : InventoryItem) (x : Reservation) (f : Reservation → Reservation) (xs : List Reservation)
    → IsUnique reservation_id xs
    → find_by reservation_id x.id xs ≡ some x
    → is_active (f x).status ≡ false
    → active_total r (update_by reservation_id x.id f xs) + held r x ≡ active_total r xs
unfolding find_by update_by active_total
active_total-update r x f [] u h d = cc
active_total-update r x f (y ∷ ys) u h d = elim (Bool-cases (y.id == x.id)) [
  | inl e ↦
      let here : y ≡ x = some-injective y x (rw e at h) in
      let apart : All (λ z. reservation_id z ≢ x.id) ys =
        subst (λ k. All (λ z. reservation_id z ≢ k) ys) (ap reservation_id here) u.0 in
      rw e (
        omega (
          arith,
          held_inactive r (f y) (rw here d),
          ap (active_total r) (update_by-absent reservation_id x.id f ys apart),
          ap (held r) here,
        ))
  | inr e ↦ rw e (omega (arith, active_total-update r x f ys u.1 (rw e at h) d))
]

held-le-active_total :
    (r : InventoryItem) (x : Reservation) (xs : List Reservation)
    → find_by reservation_id x.id xs ≡ some x
    → held r x ≤ active_total r xs
unfolding find_by active_total
held-le-active_total r x [] h = cc
held-le-active_total r x (y ∷ ys) h = ground (arith, held-le-active_total r x ys)

-- What the database's check of a new row says of its identifier.
fresh_id :
    (x : Reservation) (xs : List Reservation)
    → any (clashes x) xs ≡ false
    → All (λ y. reservation_id y ≢ x.id) xs
fresh_id x [] h = tt
fresh_id x (y ∷ ys) h = ground (arith, fresh_id x ys)

-- Each row has passed the database's check against the rows before it.
abbrev pub Admitted : List Reservation → Type 0
Admitted [] = Unit
Admitted (x ∷ xs) = (any (clashes x) xs ≡ false) × Admitted xs

pub Admitted-IsUnique : (xs : List Reservation) → Admitted xs → IsUnique reservation_id xs
Admitted-IsUnique [] a = tt
Admitted-IsUnique (x ∷ xs) a = (fresh_id x xs a.0, Admitted-IsUnique xs a.1)

or_false : {a b : Bool} → (a || b) ≡ false → (a ≡ false) × (b ≡ false)
or_false h = ground arith

both_false : {a b : Bool} → a ≡ false → b ≡ false → (a || b) ≡ false
both_false h k = ground arith

or_right : (a : Bool) {b : Bool} → b ≡ true → (a || b) ≡ true
or_right a h = ground arith

true_ne_false : {b : Bool} → b ≡ true → b ≡ false → ⊥
true_ne_false h k = cc

-- The same row, or the row under its identifier with a status that is not active.
abbrev Ends : Reservation → Reservation → Type 0
Ends y' y = (y'.id ≡ y.id) × ((y' ≡ y) ⊎ (is_active y'.status ≡ false))

clashes-Ends :
    (y z y' z' : Reservation) → Ends y' y → Ends z' z → clashes y z ≡ false → clashes y' z' ≡ false
clashes-Ends y z y' z' (i, inl p) (j, inl q) h = rw (p, q) h
clashes-Ends y z y' z' (i, inl p) (j, inr q) h = ground arith
clashes-Ends y z y' z' (i, inr p) (j, q) h = ground arith

module _ (k : ℕ) (f : Reservation → Reservation) (same : (y : Reservation) → (f y).id ≡ y.id)
    (ends : (y : Reservation) → is_active (f y).status ≡ false) where
  updated-Ends : (y : Reservation) → Ends (if y.id == k then f y else y) y
  updated-Ends y = elim (Bool-cases (y.id == k)) [
    | inl e ↦ rw e (same y, inr (ends y))
    | inr e ↦ rw e (refl, inl refl)
  ]

  any-clashes-update_by :
      (y y' : Reservation) (xs : List Reservation)
      → Ends y' y
      → any (clashes y) xs ≡ false
      → any (clashes y') (update_by reservation_id k f xs) ≡ false
  unfolding update_by
  any-clashes-update_by y y' [] e h = refl
  any-clashes-update_by y y' (x ∷ xs) e h =
      let (now, later) = or_false h in
      both_false (clashes-Ends y x y' (if x.id == k then f x else x) e (updated-Ends x) now)
        (any-clashes-update_by y y' xs e later)

  pub update_by-Admitted :
      (xs : List Reservation) → Admitted xs → Admitted (update_by reservation_id k f xs)
  unfolding update_by
  update_by-Admitted [] a = tt
  update_by-Admitted (x ∷ xs) a = (
    any-clashes-update_by x (if x.id == k then f x else x) xs (updated-Ends x) a.0,
    update_by-Admitted xs a.1,
  )

abbrev SameStock : Reservation → Reservation → Type 0
SameStock x y =
    (x.order_id ≡ y.order_id)
    × (x.product_variant_id ≡ y.product_variant_id)
    × (x.location_id ≡ y.location_id)

clashes_same :
    (x y : Reservation)
    → is_active x.status ≡ true
    → is_active y.status ≡ true
    → SameStock x y
    → clashes x y ≡ true
clashes_same x y a b s = ground arith

clashes_sym : (x y : Reservation) → clashes x y ≡ true → clashes y x ≡ true
clashes_sym x y h = ground arith

any_found :
    (x y : Reservation) (xs : List Reservation)
    → find_by reservation_id y.id xs ≡ some y
    → clashes x y ≡ true
    → any (clashes x) xs ≡ true
unfolding find_by
any_found x y [] h c = cc
any_found x y (z ∷ zs) h c = elim (Bool-cases (z.id == y.id)) [
  | inl e ↦ let here : z ≡ y = some-injective z y (rw e at h) in rw here (rw c)
  | inr e ↦ or_right (clashes x z) (any_found x y zs (rw e at h) c)
]

-- Two active reservations of one order, variant and location are one row.
pub exclusive :
    (x y : Reservation) (xs : List Reservation)
    → Admitted xs
    → find_by reservation_id x.id xs ≡ some x
    → find_by reservation_id y.id xs ≡ some y
    → is_active x.status ≡ true
    → is_active y.status ≡ true
    → SameStock x y
    → x.id ≡ y.id
unfolding find_by
exclusive x y [] a h k ax ay s = cc
exclusive x y (z ∷ zs) a h k ax ay s = elim (Bool-cases (z.id == x.id)) [
  | inl e ↦
      let p : z ≡ x = some-injective z x (rw e at h) in
      elim (Bool-cases (z.id == y.id)) [
        | inl e' ↦ sym ((==_iff z.id x.id).0 e) ∙ (==_iff z.id y.id).0 e'
        | inr e' ↦ absurd (
            true_ne_false (any_found x y zs (rw e' at k) (clashes_same x y ax ay s))
              (subst (λ w. any (clashes w) zs ≡ false) p a.0))
      ]
  | inr e ↦ elim (Bool-cases (z.id == y.id)) [
    | inl e' ↦
        let q : z ≡ y = some-injective z y (rw e' at k) in
        absurd (
          true_ne_false (any_found y x zs (rw e at h) (clashes_sym x y (clashes_same x y ax ay s)))
            (subst (λ w. any (clashes w) zs ≡ false) q a.0))
    | inr e' ↦ exclusive x y zs a.1 (rw e at h) (rw e' at k) ax ay s
  ]
]
