-- ===== src/Checkout/Quote.antt =====
-- The pricing of an order in `prepareLocalCheckout`.
use lotzi.Base.{
  ℕ, ◌+◌, ◌-◌, ◌*◌, Bool, true, false, not, ◌||◌, ◌&&◌, Option, none, some, List, [], ◌∷◌, map,
  ◌==◌, if◌then◌else◌, any, length, String,
}
use text.Mathlib.Text.{◌==◌ as ◌===◌}
use lotzi.Base.Tables.{find_by}
use lotzi.Base.Outcome.{Outcome, returned, thrown, ◌>>=◌, ◌>>◌, throw_if, or_throw}
use lotzi.Payments.Money.{percent_basis_points}
use lotzi.Checkout.Types.{
  StoreStatus, ProductStatus, Product, CheckoutProductRow, CheckoutItem, ShippingOption, QuoteItem,
  Quote, OrderItem, CheckoutError, product_unavailable, single_store_required, store_unavailable,
  address_required, coupon_invalid, total_invalid, internal_error,
}
use lotzi.Checkout.Allocation.{sum, allocate_by_largest_remainder}

abbrev pub gst_basis_points : ℕ
gst_basis_points = 0

-- `percentBasisPoints`, whose error is no HTTP exception.
abbrev pub percent : ℕ → ℕ → Outcome CheckoutError ℕ
percent value basis_points = or_throw (percent_basis_points value basis_points) internal_error

unfoldable pub discount_for : Option String → ℕ → Outcome CheckoutError ℕ
discount_for none subtotal = returned 0
discount_for (some code) subtotal =
    if code === ""
    then returned 0
    else if code === "WELCOME10"
    then percent subtotal 1000
    else if code === "LOCAL5"
    then percent subtotal 500
    else thrown coupon_invalid

-- `new Set(values)`.
unfoldable pub distinct : List ℕ → List ℕ
distinct [] = []
distinct (x ∷ xs) = let rest = distinct xs in if any (λ y. y == x) xs then rest else x ∷ rest

abbrev pub is_approved : StoreStatus → Bool
is_approved StoreStatus.approved = true
is_approved _ = false

abbrev pub is_published : ProductStatus → Bool
is_published ProductStatus.published = true
is_published _ = false

abbrev pub is_some : {A : Type 0} → Option A → Bool
is_some none = false
is_some (some a) = true

-- The checks that `resolveCheckoutStoreIdFromProductRows` and `prepareLocalCheckout` both make.
unfoldable pub resolve_store :
    List CheckoutItem → List CheckoutProductRow → Outcome CheckoutError Product
unfolding distinct
resolve_store items [] =
    if length items == 0 then thrown single_store_required else thrown product_unavailable
resolve_store items (row ∷ rows) = do
  throw_if (not (length (row ∷ rows) == length items)) product_unavailable
  throw_if (not (length (distinct (map (λ r. r.product.store_id) (row ∷ rows))) == 1))
      single_store_required
  throw_if (not (is_approved row.product.store.status) || is_some row.product.store.deleted_at)
      store_unavailable
  returned row.product

abbrev pub is_sold_as : CheckoutItem → CheckoutProductRow → Bool
is_sold_as item variant =
    variant.product_id == item.product_id
    && (is_published variant.product.status && variant.product.is_active)

abbrev pub quote_item : CheckoutItem → CheckoutProductRow → QuoteItem
quote_item item variant = record {
  product_id = variant.product_id;
  variant_id = variant.id;
  quantity = item.quantity;
  unit_price_paise = variant.price_paise;
  line_subtotal_paise = variant.price_paise * item.quantity;
}

-- The body of `dto.items.map`.
unfoldable pub price_item : List CheckoutProductRow → CheckoutItem → Outcome CheckoutError QuoteItem
price_item rows item = do
  variant ← or_throw (find_by (λ r. r.id) item.variant_id rows) product_unavailable
  throw_if (not (is_sold_as item variant)) product_unavailable
  returned (quote_item item variant)

unfoldable pub price_items :
    List CheckoutProductRow → List CheckoutItem → Outcome CheckoutError (List QuoteItem)
price_items rows [] = returned []
price_items rows (item ∷ items) = do
  priced ← price_item rows item
  rest ← price_items rows items
  returned (priced ∷ rest)

abbrev pub line_subtotals : List QuoteItem → List ℕ
line_subtotals = map (λ i. i.line_subtotal_paise)

-- The tax of a line after its discount.
abbrev item_tax : QuoteItem → ℕ → Outcome CheckoutError ℕ
item_tax item discount = percent (item.line_subtotal_paise - discount) gst_basis_points

-- A line without a discount would throw at `lineDiscounts[index]!`.
unfoldable pub tax_total : List QuoteItem → List ℕ → Outcome CheckoutError ℕ
tax_total [] discounts = returned 0
tax_total (item ∷ items) [] = thrown internal_error
tax_total (item ∷ items) (discount ∷ discounts) = do
  tax ← item_tax item discount
  rest ← tax_total items discounts
  returned (tax + rest)

abbrev delivery_fee : ShippingOption → ℕ
delivery_fee ShippingOption.priority = 4900
delivery_fee ShippingOption.standard = 0

-- The object at the end of the callback of `quote_calc`.
abbrev pub quote_of : List QuoteItem → ℕ → List ℕ → ℕ → ShippingOption → Quote
quote_of items discount line_discounts tax shipping = record {
  items = items;
  subtotal_paise = sum (line_subtotals items);
  discount_paise = discount;
  line_discounts = line_discounts;
  tax_paise = tax;
  delivery_fee_paise = delivery_fee shipping;
  grand_total_paise = sum (line_subtotals items) - discount + tax + delivery_fee shipping;
}

-- The callback of `quote_calc`.
unfoldable pub calculate_quote :
    List CheckoutProductRow
    → List CheckoutItem
    → Option String
    → ShippingOption
    → Outcome CheckoutError Quote
unfolding price_items tax_total discount_for
calculate_quote rows dto_items coupon_code shipping = do
  items ← price_items rows dto_items
  let subtotal = sum (line_subtotals items)
  discount ← discount_for coupon_code subtotal
  let line_discounts = allocate_by_largest_remainder discount (line_subtotals items)
  tax ← tax_total items line_discounts
  returned (quote_of items discount line_discounts tax shipping)

-- `prepareLocalCheckout` up to the check of the total. `admit` is `inventory.admitCheckout`.
unfoldable pub price_checkout :
    (ℕ → List ℕ → Outcome CheckoutError (Unit {0}))
    → List CheckoutProductRow
    → List CheckoutItem
    → Option ℕ
    → Option String
    → ShippingOption
    → Outcome CheckoutError Quote
price_checkout admit rows dto_items address coupon_code shipping = do
  product ← resolve_store dto_items rows
  throw_if (not (is_some address) && product.store.is_delivery_available) address_required
  quote ← calculate_quote rows dto_items coupon_code shipping
  admit product.store_id (map (λ i. i.variant_id) quote.items)
  throw_if (quote.grand_total_paise == 0) total_invalid
  returned quote

abbrev pub order_item : QuoteItem → ℕ → ℕ → OrderItem
order_item item discount tax = record {
  product_id = item.product_id;
  variant_id = item.variant_id;
  quantity = item.quantity;
  unit_price_paise = item.unit_price_paise;
  discount_paise = discount;
  tax_paise = tax;
  total_paise = item.line_subtotal_paise - discount + tax;
}

-- The rows of `orderItem.createMany`.
unfoldable pub order_items : List QuoteItem → List ℕ → Outcome CheckoutError (List OrderItem)
order_items [] discounts = returned []
order_items (item ∷ items) [] = thrown internal_error
order_items (item ∷ items) (discount ∷ discounts) = do
  tax ← item_tax item discount
  rest ← order_items items discounts
  returned (order_item item discount tax ∷ rest)
