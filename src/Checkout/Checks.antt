-- ===== src/Checkout/Checks.antt =====
-- What `prepareLocalCheckout` has checked when it goes on to write the order.
use lotzi.Base.{
  ℕ, ◌⊎◌, ◌*◌, ◌<◌, ◌≡◌, refl, sym, subst, inl, inr, Bool, true, false, not, ◌||◌, ◌&&◌, Option,
  none, some, List, [], ◌∷◌, map, length, any, All, ◌==◌, String, arith, Bool-cases,
}
use lotzi.Base.Tables.{find_by, find_by-key}
use lotzi.Base.Outcome.{
  Outcome, returned, returned-injective, >>=-returned, thrown≢returned, throw_if-returned, passed,
  or_throw-returned,
}
use lotzi.Checkout.Types.{
  StoreStatus, ProductStatus, Product, CheckoutProductRow, CheckoutItem, ShippingOption, QuoteItem,
  Quote, CheckoutError, product_unavailable, single_store_required, store_unavailable,
  address_required, total_invalid,
}
use lotzi.Checkout.Quote.{
  distinct, is_published, is_approved, is_some, resolve_store, price_item, price_items,
  calculate_quote, price_checkout,
}
use lotzi.Checkout.Totals.{IsBalanced, returned_quote}

distinct_some : (x : ℕ) (xs : List ℕ) → 0 < length (distinct (x ∷ xs))
unfolding distinct
distinct_some x [] = omega arith
distinct_some x (y ∷ ys) = ground (arith, distinct_some y ys)

any_equal : (x y : ℕ) (xs : List ℕ) → All (λ z. z ≡ y) xs → any (λ z. z == x) xs ≡ true → x ≡ y
any_equal x y [] a h = cc
any_equal x y (z ∷ zs) a h = ground (arith, any_equal x y zs a.1)

distinct_one : (x : ℕ) (xs : List ℕ) → length (distinct (x ∷ xs)) ≡ 1 → All (λ y. y ≡ x) xs
unfolding distinct
distinct_one x [] h = tt
distinct_one x (y ∷ ys) h = elim (Bool-cases (any (λ z. z == x) (y ∷ ys))) [
  | inl e ↦
      let same = distinct_one y ys (rw e at h) in
      let x_y = any_equal x y (y ∷ ys) (refl, same) e in
      (sym x_y, subst (λ n. All (λ z. z ≡ n) ys) (sym x_y) same)
  | inr e ↦ let more = rw e at h in absurd (omega (arith, distinct_some y ys))
]

-- A line of the quote is the variant that the request names, of the product that the request names,
-- at the price of the variant; the product is published and active.
pub Priced : List CheckoutProductRow → CheckoutItem → QuoteItem → Type 0
Priced rows item priced =
    (variant : CheckoutProductRow) × (find_by (λ r. r.id) item.variant_id rows ≡ some variant)
    × (variant.product_id ≡ item.product_id)
    × (variant.product.status ≡ ProductStatus.published)
    × (variant.product.is_active ≡ true)
    × (priced.variant_id ≡ item.variant_id)
    × (priced.product_id ≡ item.product_id)
    × (priced.unit_price_paise ≡ variant.price_paise)
    × (priced.quantity ≡ item.quantity)
    × (priced.line_subtotal_paise ≡ variant.price_paise * item.quantity)

published-of : (s : ProductStatus) → is_published s ≡ true → s ≡ ProductStatus.published
published-of ProductStatus.published h = refl
published-of ProductStatus.draft h = cc
published-of ProductStatus.paused h = cc
published-of ProductStatus.needs_review h = cc

approved-of : (s : StoreStatus) → is_approved s ≡ true → s ≡ StoreStatus.approved
approved-of StoreStatus.approved h = refl
approved-of StoreStatus.pending h = cc
approved-of StoreStatus.rejected h = cc
approved-of StoreStatus.suspended h = cc

none-of : (o : Option ℕ) → is_some o ≡ false → o ≡ none
none-of none h = refl
none-of (some n) h = cc

equal-of : (a b : ℕ) → not (a == b) ≡ false → a ≡ b
equal-of a b h = ground arith

tests-equal : (a b : ℕ) → (a == b) ≡ true → a ≡ b
tests-equal a b h = ground arith

three_true : (a b c : Bool) → not (a && (b && c)) ≡ false → (a ≡ true) × (b ≡ true) × (c ≡ true)
three_true a b c h = ground arith

neither : (a b : Bool) → (not a || b) ≡ false → (a ≡ true) × (b ≡ false)
neither a b h = ground arith

price_item-Priced :
    (rows : List CheckoutProductRow) (item : CheckoutItem) {i : QuoteItem}
    → price_item rows item ≡ returned i
    → Priced rows item i
unfolding price_item Priced
price_item-Priced rows item h =
    let (variant, f, h1) = >>=-returned _ _ h in
    let (u, c, h2) = >>=-returned _ _ h1 in
    let (product, published, active) = three_true _ _ _ (throw_if-returned _ _ c) in
    let at = or_throw-returned _ _ f in
    let of_product = tests-equal _ _ product in
    subst (Priced rows item) (returned-injective h2) (
      variant,
      at,
      of_product,
      published-of _ published,
      active,
      find_by-key (λ r. r.id) item.variant_id rows at,
      of_product,
      refl,
      refl,
      refl,
    )

abbrev AllPriced : List CheckoutProductRow → List CheckoutItem → List QuoteItem → Type 0
AllPriced rows [] [] = Unit
AllPriced rows (item ∷ items) (i ∷ is) = Priced rows item i × AllPriced rows items is
AllPriced rows _ _ = ⊥

price_items-AllPriced :
    (rows : List CheckoutProductRow) (dto_items : List CheckoutItem) {items : List QuoteItem}
    → price_items rows dto_items ≡ returned items
    → AllPriced rows dto_items items
unfolding price_items
price_items-AllPriced rows [] h = subst (AllPriced rows []) (returned-injective h) tt
price_items-AllPriced rows (item ∷ dto_items) h =
    let (i, p, h1) = >>=-returned (price_item rows item) _ h in
    let (is, ps, h2) = >>=-returned (price_items rows dto_items) _ h1 in
    subst (AllPriced rows (item ∷ dto_items)) {x = i ∷ is} (returned-injective h2)
      (price_item-Priced rows item p, price_items-AllPriced rows dto_items ps)

-- All rows are of one store, which is approved and not deleted.
abbrev FromStore : List CheckoutProductRow → Product → Type 0
FromStore rows product =
    All (λ n. n ≡ product.store_id) (map (λ r. r.product.store_id) rows)
    × (product.store.status ≡ StoreStatus.approved)
    × (product.store.deleted_at ≡ none)

resolve_store-FromStore :
    (items : List CheckoutItem) (rows : List CheckoutProductRow) {product : Product}
    → resolve_store items rows ≡ returned product
    → FromStore rows product
unfolding resolve_store
resolve_store-FromStore items [] h = elim (Bool-cases (length items == 0)) [
  | inl e ↦ absurd (thrown≢returned (rw e at h))
  | inr e ↦ absurd (thrown≢returned (rw e at h))
]
resolve_store-FromStore items (row ∷ rows) h =
    let (same_length, h1) =
      passed (not (length (row ∷ rows) == length items)) product_unavailable _ h in
    let (one, h2) =
      passed (not (length (distinct (map (λ r. r.product.store_id) (row ∷ rows))) == 1))
        single_store_required _ h1 in
    let (open', h3) =
      passed (not (is_approved row.product.store.status) || is_some row.product.store.deleted_at)
        store_unavailable _ h2 in
    let (approved, kept) = neither (is_approved row.product.store.status) _ open' in
    subst (FromStore (row ∷ rows)) {x = row.product} (returned-injective h3) (
      (
        refl,
        distinct_one row.product.store_id (map (λ r. r.product.store_id) rows) (equal-of _ _ one),
      ),
      approved-of _ approved,
      none-of _ kept,
    )

address_known : (a b : Bool) → (not a && b) ≡ false → (a ≡ true) ⊎ (b ≡ false)
address_known a b h = ground arith

positive-of : (n : ℕ) → (n == 0) ≡ false → 0 < n
positive-of n h = ground arith

-- What is known of a quote with which the checkout goes on.
abbrev pub IsAccepted :
    (ℕ → List ℕ → Outcome CheckoutError (Unit {0}))
    → List CheckoutProductRow
    → List CheckoutItem
    → Option ℕ
    → Quote
    → Type 0
IsAccepted admit rows dto_items address q =
    (product : Product) × FromStore rows product
    × ((is_some address ≡ true) ⊎ (product.store.is_delivery_available ≡ false))
    × AllPriced rows dto_items q.items
    × IsBalanced q
    × (admit product.store_id (map (λ i. i.variant_id) q.items) ≡ returned tt)
    × (0 < q.grand_total_paise)

-- A checkout that is priced without an error is of one approved store that is not deleted, each of
-- its lines is the requested variant of the requested product, which is published and active, in the
-- requested quantity at the price of the variant, there is an address unless the store does not
-- deliver, the amounts are balanced, the inventory has admitted the variants, and the grand total is
-- positive.
pub price_checkout-IsAccepted :
    (admit : ℕ → List ℕ → Outcome CheckoutError (Unit {0})) (rows : List CheckoutProductRow)
    (dto_items : List CheckoutItem) (address : Option ℕ) (code : Option String)
    (shipping : ShippingOption) {q : Quote}
    → price_checkout admit rows dto_items address code shipping ≡ returned q
    → IsAccepted admit rows dto_items address q
unfolding price_checkout
price_checkout-IsAccepted admit rows dto_items address code shipping {q} h =
    let (product, s, h1) = >>=-returned (resolve_store dto_items rows) _ h in
    let (known, h2) =
      passed (not (is_some address) && product.store.is_delivery_available) address_required _ h1 in
    let (quote, c, h3) = >>=-returned (calculate_quote rows dto_items code shipping) _ h2 in
    let (u, admitted, h4) =
      >>=-returned (admit product.store_id (map (λ i. i.variant_id) quote.items)) _ h3 in
    let (total, h5) = passed (quote.grand_total_paise == 0) total_invalid _ h4 in
    let (priced, balanced) = returned_quote rows dto_items code shipping c in
    subst (IsAccepted admit rows dto_items address) {x = quote} (returned-injective h5) (
      product,
      resolve_store-FromStore dto_items rows s,
      address_known (is_some address) _ known,
      price_items-AllPriced rows dto_items priced,
      balanced,
      admitted,
      positive-of quote.grand_total_paise total,
    )
