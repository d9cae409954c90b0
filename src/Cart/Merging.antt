-- ===== src/Cart/Merging.antt =====
-- The lines of a cart, and the answer for all of them.
use lotzi.Base.{
  ℕ, ◌+◌, ◌≡◌, refl, ◌∙◌, inl, inr, false, ◌&&◌, Option, none, some, List, [], ◌∷◌, ◌==◌,
  if◌then◌else◌, sort, All, All-sort, All-sort_insert, sort_insert, arith, Bool-cases,
}
use lotzi.Base.Sorting.{total_of, total_of-sort}
use lotzi.Cart.Validation.{
  CartItem, CartItemDto, same_line, merge_item, named, merge_items, by_product, normalize_items,
}

-- How much of a variant of a product a line asks for.
abbrev quantity_of : ℕ → ℕ → CartItem → ℕ
quantity_of p v i = if i.product_id == p && i.variant_id == v then i.quantity else 0

abbrev pub in_cart : ℕ → ℕ → List CartItem → ℕ
in_cart p v = total_of (quantity_of p v)

abbrev requested_of : ℕ → ℕ → CartItemDto → Option ℕ → ℕ
requested_of p v i none = 0
requested_of p v i (some w) = if i.product_id == p && w == v then i.quantity else 0

abbrev pub requested : ℕ → ℕ → List CartItemDto → ℕ
requested p v = total_of (λ i. requested_of p v i i.variant_id)

in_cart-merge_item :
    (p v : ℕ) (item : CartItem) (xs : List CartItem)
    → in_cart p v (merge_item item xs) ≡ quantity_of p v item + in_cart p v xs
unfolding merge_item
in_cart-merge_item p v item [] = refl
in_cart-merge_item p v item (x ∷ xs) = ground (arith, in_cart-merge_item p v item xs)

in_cart-named :
    (p v : ℕ) (item : CartItemDto) (o : Option ℕ) (xs : List CartItem)
    → in_cart p v (named item o xs) ≡ requested_of p v item o + in_cart p v xs
in_cart-named p v item none xs = omega arith
in_cart-named p v item (some w) xs = in_cart-merge_item p v _ xs

in_cart-merge_items :
    (p v : ℕ) (items : List CartItemDto) (xs : List CartItem)
    → in_cart p v (merge_items xs items) ≡ in_cart p v xs + requested p v items
unfolding merge_items
in_cart-merge_items p v [] xs = omega arith
in_cart-merge_items p v (i ∷ items) xs = omega (
  arith,
  in_cart-merge_items p v items (named i i.variant_id xs),
  in_cart-named p v i i.variant_id xs,
)

-- No two lines are of the same variant and product.
abbrev pub IsMerged : List CartItem → Type 0
IsMerged [] = Unit
IsMerged (x ∷ xs) = All (λ y. same_line y x ≡ false) xs × IsMerged xs

All-merge_item :
    (z item : CartItem) (xs : List CartItem)
    → same_line item z ≡ false
    → All (λ y. same_line y z ≡ false) xs
    → All (λ y. same_line y z ≡ false) (merge_item item xs)
unfolding merge_item
All-merge_item z item [] n h = (n, tt)
All-merge_item z item (x ∷ xs) n h = elim (Bool-cases (same_line x item)) [
  | inl e ↦ rw e h
  | inr e ↦ rw e (h.0, All-merge_item z item xs n h.1)
]

same_line_comm : (x y : CartItem) → same_line x y ≡ same_line y x
same_line_comm x y = ground arith

merge_item-IsMerged :
    (item : CartItem) (xs : List CartItem) → IsMerged xs → IsMerged (merge_item item xs)
unfolding merge_item
merge_item-IsMerged item [] u = (tt, tt)
merge_item-IsMerged item (x ∷ xs) u = elim (Bool-cases (same_line x item)) [
  | inl e ↦ rw e u
  | inr e ↦
      rw e
        (All-merge_item x item xs (same_line_comm item x ∙ e) u.0, merge_item-IsMerged item xs u.1)
]

named-IsMerged :
    (item : CartItemDto) (o : Option ℕ) (xs : List CartItem)
    → IsMerged xs
    → IsMerged (named item o xs)
named-IsMerged item none xs u = u
named-IsMerged item (some w) xs u = merge_item-IsMerged _ xs u

merge_items-IsMerged :
    (items : List CartItemDto) (xs : List CartItem) → IsMerged xs → IsMerged (merge_items xs items)
unfolding merge_items
merge_items-IsMerged [] xs u = u
merge_items-IsMerged (i ∷ items) xs u =
    merge_items-IsMerged items (named i i.variant_id xs) (named-IsMerged i i.variant_id xs u)

sort_insert-IsMerged :
    (x : CartItem) (xs : List CartItem)
    → All (λ y. same_line y x ≡ false) xs
    → IsMerged xs
    → IsMerged (sort_insert by_product x xs)
sort_insert-IsMerged x [] a u = (tt, tt)
sort_insert-IsMerged x (y ∷ ys) a u = elim (Bool-cases (by_product x y)) [
  | inl e ↦ rw e (a, u)
  | inr e ↦ rw e (
    All-sort_insert (λ z. same_line z y ≡ false) by_product x ys (same_line_comm x y ∙ a.0) u.0,
    sort_insert-IsMerged x ys a.1 u.1,
  )
]

sort-IsMerged : (xs : List CartItem) → IsMerged xs → IsMerged (sort by_product xs)
unfolding sort
sort-IsMerged [] u = tt
sort-IsMerged (x ∷ xs) u =
    sort_insert-IsMerged x (sort by_product xs)
      (All-sort (λ y. same_line y x ≡ false) by_product xs u.0) (sort-IsMerged xs u.1)

-- The lines of a cart ask for each variant of a product as often as the request does in the lines
-- that name a variant, and no two of them are of the same variant and product.
pub normalize_items-IsMerged :
    (dto_items : List CartItemDto)
    → IsMerged (normalize_items dto_items)
      × ((p v : ℕ) → in_cart p v (normalize_items dto_items) ≡ requested p v dto_items)
unfolding normalize_items
normalize_items-IsMerged dto = (
  sort-IsMerged (merge_items [] dto) (merge_items-IsMerged dto [] tt),
  λ p v. omega (
    arith,
    total_of-sort (quantity_of p v) by_product (merge_items [] dto),
    in_cart-merge_items p v dto [],
  ),
)
