-- ===== src/Checkout/Lines.antt =====
-- `normalizeCheckout` keeps what is asked for.
use lotzi.Base.{
  ℕ, ◌+◌, ◌≤◌, ◌≡◌, ◌≢◌, refl, sym, ◌∙◌, inl, inr, true, false, List, [], ◌∷◌, ◌==◌, ltb,
  if◌then◌else◌, sort, length, All, arith, Bool-cases,
}
use lotzi.Base.Sorting.{total_of, total_of-sort, IsSorted, sort-IsSorted}
use lotzi.Base.Tables.{IsUnique, sort-IsUnique}
use lotzi.Base.Outcome.{returned}
use lotzi.Checkout.Types.{CheckoutItem}
use lotzi.Checkout.Normalize.{
  aggregate_item, aggregate, by_variant, normalize_checkout, checkout_max_lines,
}

-- How much of a variant the lines ask for.
abbrev quantity_for : ℕ → CheckoutItem → ℕ
quantity_for v i = if i.variant_id == v then i.quantity else 0

abbrev pub asked : ℕ → List CheckoutItem → ℕ
asked v = total_of (quantity_for v)

asked-aggregate_item :
    (v : ℕ) (item : CheckoutItem) (xs : List CheckoutItem)
    → asked v (aggregate_item item xs) ≡ quantity_for v item + asked v xs
unfolding aggregate_item
asked-aggregate_item v item [] = refl
asked-aggregate_item v item (x ∷ xs) = ground (arith, asked-aggregate_item v item xs)

asked-aggregate :
    (v : ℕ) (items xs : List CheckoutItem)
    → asked v (aggregate xs items) ≡ asked v xs + asked v items
unfolding aggregate
asked-aggregate v [] xs = omega arith
asked-aggregate v (i ∷ items) xs =
    omega (arith, asked-aggregate v items (aggregate_item i xs), asked-aggregate_item v i xs)

All-aggregate_item :
    (j : ℕ) (item : CheckoutItem) (xs : List CheckoutItem)
    → item.variant_id ≢ j
    → All (λ x. x.variant_id ≢ j) xs
    → All (λ x. x.variant_id ≢ j) (aggregate_item item xs)
unfolding aggregate_item
All-aggregate_item j item [] n h = (n, tt)
All-aggregate_item j item (x ∷ xs) n h = ground (arith, All-aggregate_item j item xs n h.1)

aggregate_item-IsUnique :
    (item : CheckoutItem) (xs : List CheckoutItem)
    → IsUnique (λ x. x.variant_id) xs
    → IsUnique (λ x. x.variant_id) (aggregate_item item xs)
unfolding aggregate_item
aggregate_item-IsUnique item [] u = (tt, tt)
aggregate_item-IsUnique item (x ∷ xs) u = elim (Bool-cases (x.variant_id == item.variant_id)) [
  | inl e ↦ rw e u
  | inr e ↦ rw e (
    All-aggregate_item x.variant_id item xs (ground arith) u.0,
    aggregate_item-IsUnique item xs u.1,
  )
]

aggregate-IsUnique :
    (items xs : List CheckoutItem)
    → IsUnique (λ x. x.variant_id) xs
    → IsUnique (λ x. x.variant_id) (aggregate xs items)
unfolding aggregate
aggregate-IsUnique [] xs u = u
aggregate-IsUnique (i ∷ items) xs u =
    aggregate-IsUnique items (aggregate_item i xs) (aggregate_item-IsUnique i xs u)

by_variant_connex : (x y : CheckoutItem) → by_variant x y ≡ false → by_variant y x ≡ true
by_variant_connex x y h = ground arith

by_variant_trans :
    (x y z : CheckoutItem) → by_variant x y ≡ true → by_variant y z ≡ true → by_variant x z ≡ true
by_variant_trans x y z h k = ground arith

-- The normal form of a request.
abbrev pub IsNormalized : List CheckoutItem → List CheckoutItem → Type 0
IsNormalized dto items =
    ((v : ℕ) → asked v items ≡ asked v dto)
    × IsUnique (λ i. i.variant_id) items
    × IsSorted by_variant items
    × (length items ≤ checkout_max_lines)

length-aggregate_item :
    (item : CheckoutItem) (xs : List CheckoutItem) → length (aggregate_item item xs) ≤ length xs + 1
unfolding aggregate_item
length-aggregate_item item [] = omega arith
length-aggregate_item item (x ∷ xs) = ground (arith, length-aggregate_item item xs)

length-aggregate :
    (items xs : List CheckoutItem) → length (aggregate xs items) ≤ length xs + length items
unfolding aggregate
length-aggregate [] xs = omega arith
length-aggregate (i ∷ items) xs =
    omega (arith, length-aggregate items (aggregate_item i xs), length-aggregate_item i xs)

count : (xs : List CheckoutItem) → length xs ≡ total_of (λ x. 1) xs
count [] = refl
count (x ∷ xs) = omega (arith, count xs)

length-sorted : (xs : List CheckoutItem) → length (sort by_variant xs) ≡ length xs
length-sorted xs =
    count (sort by_variant xs) ∙ total_of-sort (λ x. 1) by_variant xs ∙ sym (count xs)

-- A request of at most 50 lines, and the DTO has no more, is accepted. The lines that are returned
-- ask for each variant as often as the request does, have each variant once, are in the order of the
-- variants, and are at most 50.
pub normalize_checkout-IsNormalized :
    (dto_items : List CheckoutItem)
    → length dto_items ≤ checkout_max_lines
    → (items : List CheckoutItem) × (normalize_checkout dto_items ≡ returned items)
      × IsNormalized dto_items items
unfolding normalize_checkout
normalize_checkout-IsNormalized dto few =
    let lines = aggregate [] dto in
    let fits : length (sort by_variant lines) ≤ checkout_max_lines =
      omega (arith, length-sorted lines, length-aggregate dto []) in
    let inside : ltb checkout_max_lines (length (sort by_variant lines)) ≡ false = ground arith in
    (
      sort by_variant lines,
      rw inside refl,
      (
        λ v.
            omega
              (arith, total_of-sort (quantity_for v) by_variant lines, asked-aggregate v dto []),
        sort-IsUnique (λ i. i.variant_id) by_variant lines (aggregate-IsUnique dto [] tt),
        sort-IsSorted by_variant by_variant_connex by_variant_trans lines,
        fits,
      ),
    )
