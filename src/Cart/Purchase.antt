-- ===== src/Cart/Purchase.antt =====
-- A cart and the checkout that follows it.
use lotzi.Base.{
  ℕ, ◌≡◌, refl, sym, ap, ◌∙◌, inl, inr, Bool, true, false, ◌&&◌, Option, none, some, List, [], ◌∷◌,
  map, ◌==◌, every, String, arith, Bool-cases, Option-cases,
}
use mathlib.Core.Bool.{false≢true}
use lotzi.Base.Tables.{find_by}
use lotzi.Base.Outcome.{returned, returned-injective, thrown≢returned}
use lotzi.Checkout.Types.{CheckoutProductRow, QuoteItem}
use lotzi.Checkout.Quote.{price_item, price_items, quote_item, is_sold_as, is_published}
use lotzi.Cart.Validation.{
  CartItem, CartItemDto, Variant, CartValidationLine, CartValidationResponse, variant_line,
  line_for, has_changes, validate, normalize_items, lines_for, is_empty,
}

-- What checkout reads of the variant.
abbrev pub checkout_row : Variant → CheckoutProductRow
checkout_row v = record {
  id = v.id;
  product_id = v.product_id;
  price_paise = v.price_paise;
  product = v.product;
}

abbrev row_of : Option Variant → Option CheckoutProductRow
row_of none = none
row_of (some v) = some (checkout_row v)

find_row :
    (k : ℕ) (variants : List Variant) {v : Variant}
    → find_by (λ v. v.id) k variants ≡ some v
    → find_by (λ r. r.id) k (map checkout_row variants) ≡ some (checkout_row v)
unfolding find_by
find_row k [] h = cc
find_row k (x ∷ variants) {v} h = elim (Bool-cases (x.id == k)) [
  | inl e ↦ rw e (ap row_of (rw e at h))
  | inr e ↦ rw e (find_row k variants (rw e at h))
]

available_parts : (a b c : Bool) → (a && (b && c)) ≡ true → (a ≡ true) × (b ≡ true) × (c ≡ true)
available_parts a b c h = ground arith

both_parts : (a b : Bool) → (a && b) ≡ true → (a ≡ true) × (b ≡ true)
both_parts a b h = ground arith

available-sold :
    (item : CartItem) (v : Variant)
    → (line_for item (some v)).is_available ≡ true
    → (is_sold_as item (checkout_row v) ≡ true)
      × ((line_for item (some v)).unit_price ≡ v.price_paise)
unfolding line_for variant_line
available-sold item v h = elim (Bool-cases (v.product_id == item.product_id)) [
  | inr e ↦ absurd (false≢true (rw e at h))
  | inl e ↦
      let (open', sold, stock) = available_parts _ _ _ (rw e at h) in
      let (active, published) =
        both_parts v.product.is_active (is_published v.product.status) sold in
      (rw (e, active, published) refl, rw e refl)
]

-- A line of a cart that is available, of variants that checkout reads as they were, is priced by
-- checkout, at the price that the cart shows.
available-price_item :
    (variants : List Variant) (item : CartItem)
    → (line_for item (find_by (λ v. v.id) item.variant_id variants)).is_available ≡ true
    → (q : QuoteItem) × (price_item (map checkout_row variants) item ≡ returned q)
      × (q.unit_price_paise
          ≡ (line_for item (find_by (λ v. v.id) item.variant_id variants)).unit_price)
      × (q.quantity ≡ item.quantity)
unfolding price_item
available-price_item variants item h =
    elim (Option-cases (find_by (λ v. v.id) item.variant_id variants)) [
      | inl e ↦ absurd (unfold line_for in false≢true (rw e at h))
      | inr (v, e) ↦
          let (sold, price) = available-sold item v (rw e at h) in
          (
            quote_item item (checkout_row v),
            rw (find_row item.variant_id variants e, sold) refl,
            rw e (sym price),
            refl,
          )
    ]

abbrev pub unit_prices : List QuoteItem → List ℕ
unit_prices = map (λ q. q.unit_price_paise)

abbrev pub shown_prices : List CartValidationLine → List ℕ
shown_prices = map (λ line. line.unit_price)

unchanged-price_items :
    (variants : List Variant) (items : List CartItem)
    → has_changes (lines_for variants items) ≡ false
    → (qs : List QuoteItem) × (price_items (map checkout_row variants) items ≡ returned qs)
      × (unit_prices qs ≡ shown_prices (lines_for variants items))
      × (every (λ line. line.is_available) (lines_for variants items) ≡ true)
unfolding has_changes price_items
unchanged-price_items variants [] h = ([], refl, refl, refl)
unchanged-price_items variants (item ∷ items) h =
    elim (Bool-cases (line_for item (find_by (λ v. v.id) item.variant_id variants)).is_available) [
      | inr e ↦ absurd (false≢true (sym (rw e at h)))
      | inl e ↦
          let (q, p, price, quantity) = available-price_item variants item e in
          let (qs, ps, prices, all) = unchanged-price_items variants items (rw e at h) in
          (q ∷ qs, rw (p, ps) refl, cc (price, prices), rw e all)
    ]

-- A cart that is validated without changes has only available lines, and checkout, where it reads the
-- variants as they were, prices all of them, at the prices that the cart shows.
pub validate-price_items :
    (digest : List CartValidationLine → String) (variants : List Variant)
    (dto_items : List CartItemDto) (last_seen : Option String) (r : CartValidationResponse)
    → validate digest variants dto_items last_seen ≡ returned r
    → r.has_changes ≡ false
    → (r.all_available ≡ true)
      × (qs : List QuoteItem) × (price_items (map checkout_row variants) (normalize_items dto_items)
          ≡ returned qs)
      × (unit_prices qs ≡ shown_prices r.lines)
unfolding validate
validate-price_items digest variants dto_items last_seen r v h =
    elim (Bool-cases (is_empty (normalize_items dto_items))) [
      | inl e ↦ absurd (thrown≢returned (rw e at v))
      | inr e ↦
          let items = normalize_items dto_items in
          let same = returned-injective (rw e at v) in
          let (qs, ps, prices, all) =
            unchanged-price_items variants items (ap (λ r. r.has_changes) same ∙ h) in
          (
            sym (ap (λ r. r.all_available) same) ∙ all,
            qs,
            ps,
            prices ∙ ap (λ r. shown_prices r.lines) same,
          )
    ]
