-- ===== src/Checkout/Totals.antt =====
-- The amounts of a quote and of the rows of its order agree.
use lotzi.Base.{
  ℕ, suc, ◌+◌, ◌-◌, ◌*◌, ◌/◌, ◌≤◌, ◌≡◌, refl, sym, ap, subst, ◌∙◌, inl, inr, Option, none, some,
  List, [], ◌∷◌, map, length, String, arith, Bool-cases,
}
use text.Mathlib.Text.{◌==◌ as ◌===◌}
use lotzi.Base.Sorting.{total_of}
use lotzi.Base.Outcome.{returned, returned-injective, >>=-returned, thrown≢returned}
use lotzi.Payments.Money.{percent_basis_points}
use lotzi.Checkout.Types.{
  CheckoutProductRow, CheckoutItem, ShippingOption, QuoteItem, Quote, OrderItem,
}
use lotzi.Checkout.Allocation.{sum, allocate_by_largest_remainder}
use lotzi.Checkout.HandOut.{nth}
use lotzi.Checkout.Shares.{nth-allocate, sum-allocate}
use lotzi.Checkout.Quote.{
  percent, discount_for, line_subtotals, tax_total, calculate_quote, price_items, order_items,
  order_item, quote_of, gst_basis_points,
}

percent_value : (v b : ℕ) → percent v b ≡ returned ((v * b + 5000) / 10000)
unfolding percent_basis_points
percent_value v b = refl

discount-le :
    (code : Option String) (subtotal : ℕ) {d : ℕ}
    → discount_for code subtotal ≡ returned d
    → d ≤ subtotal
unfolding discount_for
discount-le none s {d} h = omega (arith, returned-injective h)
discount-le (some code) s {d} h = elim (Bool-cases (code === "")) [
  | inl e ↦ omega (arith, returned-injective (rw e at h))
  | inr e ↦ elim (Bool-cases (code === "WELCOME10")) [
    | inl e' ↦ omega (arith, returned-injective (rw (e, e', percent_value s 1000) at h))
    | inr e' ↦ elim (Bool-cases (code === "LOCAL5")) [
      | inl e'' ↦ omega (arith, returned-injective (rw (e, e', e'', percent_value s 500) at h))
      | inr e'' ↦ absurd (thrown≢returned (rw (e, e', e'') at h))
    ]
  ]
]

abbrev tax_of : QuoteItem → ℕ → ℕ
tax_of item d = ((item.line_subtotal_paise - d) * gst_basis_points + 5000) / 10000

-- For discounts that are no larger than their lines: the tax, the rows, and their sums.
abbrev Settled : List QuoteItem → List ℕ → Type 0
Settled items ds =
    (tax : ℕ) × (rows : List OrderItem) × (tax_total items ds ≡ returned tax)
    × (order_items items ds ≡ returned rows)
    × (total_of (λ r. r.total_paise) rows + sum ds ≡ sum (line_subtotals items) + tax)
    × (map (λ r. r.discount_paise) rows ≡ ds)
    × (total_of (λ r. r.tax_paise) rows ≡ tax)

settled :
    (items : List QuoteItem) (ds : List ℕ)
    → length ds ≡ length items
    → ((j : ℕ) → nth j ds ≤ nth j (line_subtotals items))
    → Settled items ds
unfolding tax_total order_items nth
settled [] [] l h = (0, [], refl, refl, refl, refl, refl)
settled [] (d ∷ ds) l h = absurd (omega arith)
settled (item ∷ items) [] l h = absurd (omega arith)
settled (item ∷ items) (d ∷ ds) l h =
    let (tax, rows, t, o, s, g, x) = settled items ds (omega arith) (λ j. h (suc j)) in
    let value = percent_value (item.line_subtotal_paise - d) gst_basis_points in
    (
      tax_of item d + tax,
      order_item item d (tax_of item d) ∷ rows,
      rw (value, t) refl,
      rw (value, o) refl,
      omega (arith, h 0),
      ap (λ xs. d ∷ xs) g,
      omega arith,
    )

length-line_subtotals : (items : List QuoteItem) → length (line_subtotals items) ≡ length items
length-line_subtotals [] = refl
length-line_subtotals (i ∷ items) = ap suc (length-line_subtotals items)

-- What the amounts of a quote have to do with each other and with the rows of the order.
abbrev pub IsBalanced : Quote → Type 0
IsBalanced q =
    (rows : List OrderItem) × (order_items q.items q.line_discounts ≡ returned rows)
    × (total_of (λ r. r.total_paise) rows + q.delivery_fee_paise ≡ q.grand_total_paise)
    × (total_of (λ r. r.discount_paise) rows ≡ q.discount_paise)
    × (total_of (λ r. r.tax_paise) rows ≡ q.tax_paise)
    × (q.discount_paise ≤ q.subtotal_paise)

total_of-map :
    (rows : List OrderItem)
    → sum (map (λ r. r.discount_paise) rows) ≡ total_of (λ r. r.discount_paise) rows
total_of-map [] = refl
total_of-map (r ∷ rows) = omega (arith, total_of-map rows)

-- Once the lines are priced and the coupon is accepted, the quote is calculated, with that discount.
-- The rows of its order can be written, their totals and the delivery fee add up to the grand total,
-- their discounts to the discount, which is at most the subtotal, and their taxes to the tax.
pub calculate_quote-IsBalanced :
    (rows : List CheckoutProductRow) (dto_items : List CheckoutItem) (code : Option String)
    (shipping : ShippingOption) (items : List QuoteItem) (d : ℕ)
    → price_items rows dto_items ≡ returned items
    → discount_for code (sum (line_subtotals items)) ≡ returned d
    → (q : Quote) × (calculate_quote rows dto_items code shipping ≡ returned q)
      × (q.items ≡ items)
      × (q.discount_paise ≡ d)
      × IsBalanced q
unfolding calculate_quote
calculate_quote-IsBalanced rows dto_items code shipping items d p e =
    let ds = allocate_by_largest_remainder d (line_subtotals items) in
    let le = discount-le code (sum (line_subtotals items)) e in
    let (count, whole) = sum-allocate d (line_subtotals items) le in
    let (tax, order, t, o, s, g, x) =
      settled items ds (count ∙ length-line_subtotals items)
        (λ j. nth-allocate d (line_subtotals items) j le) in
    (
      quote_of items d ds tax shipping,
      rw (p, e, t) refl,
      refl,
      refl,
      (order, o, omega arith, sym (total_of-map order) ∙ ap sum g ∙ whole, x, le),
    )

-- A quote that is returned has passed the pricing of its lines, and is balanced.
pub returned_quote :
    (rows : List CheckoutProductRow) (dto_items : List CheckoutItem) (code : Option String)
    (shipping : ShippingOption) {q : Quote}
    → calculate_quote rows dto_items code shipping ≡ returned q
    → (price_items rows dto_items ≡ returned q.items) × IsBalanced q
unfolding calculate_quote
returned_quote rows dto_items code shipping {q} h =
    let (items, p, h1) = >>=-returned (price_items rows dto_items) _ h in
    let (d, e, h2) = >>=-returned (discount_for code (sum (line_subtotals items))) _ h1 in
    let (q', r, same, d', balanced) =
      calculate_quote-IsBalanced rows dto_items code shipping items d p e in
    subst (λ q. (price_items rows dto_items ≡ returned q.items) × IsBalanced q) {x = q'}
      (returned-injective (sym r ∙ h)) (p ∙ ap returned (sym same), balanced)
