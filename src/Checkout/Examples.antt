-- ===== src/Checkout/Examples.antt =====
-- One checkout, of two lines with a coupon and priority delivery.
use lotzi.Base.{ℕ, ◌≡◌, refl, Bool, true, none, some, List, [], ◌∷◌, sort, String, arith}
use lotzi.Base.Outcome.{Outcome, returned}
use lotzi.Base.Tables.{find_by}
use lotzi.Payments.Money.{percent_basis_points}
use lotzi.Checkout.Types.{
  StoreStatus, ProductStatus, Product, CheckoutProductRow, CheckoutItem, ShippingOption, QuoteItem,
  Quote, CheckoutError,
}
use lotzi.Checkout.Allocation.{sum, hand_out, shares, bump, allocate_by_largest_remainder}
use lotzi.Checkout.Shares.{IsFair, allocate_by_largest_remainder-IsFair}
use lotzi.Checkout.Normalize.{normalize_checkout}
use lotzi.Checkout.Lines.{IsNormalized, normalize_checkout-IsNormalized}
use lotzi.Checkout.Quote.{
  discount_for, price_items, price_item, calculate_quote, price_checkout, resolve_store, distinct,
  tax_total, line_subtotals,
}
use lotzi.Checkout.Totals.{IsBalanced, calculate_quote-IsBalanced}
use lotzi.Checkout.Checks.{IsAccepted, price_checkout-IsAccepted}
use lotzi.Checkout.Methods.{PaymentProvider, PaymentSetting, resolve_checkout_payment_intent}
use lotzi.Checkout.Offers.{Chosen, resolve_checkout_payment_intent-Chosen}

abbrev groceries : Product
groceries = record {
  status = ProductStatus.published;
  is_active = true;
  store_id = 7;
  store = record {
    id = 7;
    status = StoreStatus.approved;
    deleted_at = none;
    is_delivery_available = true;
  };
}

abbrev variants : List CheckoutProductRow
variants =
    record { id = 1; product_id = 10; price_paise = 3333; product = groceries }
    ∷ record { id = 2; product_id = 20; price_paise = 101; product = groceries }
    ∷ []

abbrev basket : List CheckoutItem
basket =
    record { product_id = 10; variant_id = 1; quantity = 3 }
    ∷ record { product_id = 20; variant_id = 2; quantity = 1 }
    ∷ []

-- The second variant first, and the first in two lines.
abbrev unsorted_basket : List CheckoutItem
unsorted_basket =
    record { product_id = 20; variant_id = 2; quantity = 1 }
    ∷ record { product_id = 10; variant_id = 1; quantity = 1 }
    ∷ record { product_id = 10; variant_id = 1; quantity = 2 }
    ∷ []

allocation : allocate_by_largest_remainder 10 (1 ∷ 1 ∷ 1 ∷ []) ≡ 4 ∷ 3 ∷ 3 ∷ []
unfolding allocate_by_largest_remainder hand_out sort shares bump
allocation = refl

allocate_by_largest_remainder-IsFair_example :
    IsFair 10 (1 ∷ 1 ∷ 1 ∷ []) (allocate_by_largest_remainder 10 (1 ∷ 1 ∷ 1 ∷ []))
allocate_by_largest_remainder-IsFair_example =
    allocate_by_largest_remainder-IsFair 10 (1 ∷ 1 ∷ 1 ∷ []) (omega arith)

normalize_checkout-IsNormalized_example :
    (items : List CheckoutItem) × (normalize_checkout unsorted_basket ≡ returned items)
    × IsNormalized unsorted_basket items
normalize_checkout-IsNormalized_example =
    normalize_checkout-IsNormalized unsorted_basket (omega arith)

abbrev priced : List QuoteItem
priced =
    record {
      product_id = 10;
      variant_id = 1;
      quantity = 3;
      unit_price_paise = 3333;
      line_subtotal_paise = 9999;
    }
    ∷ record {
      product_id = 20;
      variant_id = 2;
      quantity = 1;
      unit_price_paise = 101;
      line_subtotal_paise = 101;
    }
    ∷ []

lines_found : price_items variants basket ≡ returned priced
unfolding price_items price_item find_by
lines_found = refl

coupon_accepted : discount_for (some "WELCOME10") (sum (line_subtotals priced)) ≡ returned 1010
unfolding discount_for percent_basis_points
coupon_accepted = refl

calculate_quote-IsBalanced_example :
    (q : Quote) × (calculate_quote variants basket (some "WELCOME10") ShippingOption.priority
      ≡ returned q)
    × (q.items ≡ priced)
    × (q.discount_paise ≡ 1010)
    × IsBalanced q
calculate_quote-IsBalanced_example =
    calculate_quote-IsBalanced variants basket (some "WELCOME10") ShippingOption.priority priced
      1010 lines_found coupon_accepted

-- The inventory admits everything.
abbrev admit : ℕ → List ℕ → Outcome CheckoutError (Unit {0})
admit store_id variant_ids = returned tt

abbrev quote : Quote
quote = record {
  items = priced;
  subtotal_paise = 10100;
  discount_paise = 1010;
  line_discounts = 1000 ∷ 10 ∷ [];
  tax_paise = 0;
  delivery_fee_paise = 4900;
  grand_total_paise = 13990;
}

accepted :
    price_checkout admit variants basket (some 5) (some "WELCOME10") ShippingOption.priority
    ≡ returned quote
unfolding price_checkout resolve_store distinct calculate_quote price_items price_item find_by
    discount_for percent_basis_points allocate_by_largest_remainder hand_out sort shares bump
    tax_total
accepted = refl

price_checkout-IsAccepted_example : IsAccepted admit variants basket (some 5) quote
price_checkout-IsAccepted_example =
    price_checkout-IsAccepted admit variants basket (some 5) (some "WELCOME10")
      ShippingOption.priority accepted

abbrev connected : PaymentSetting
connected = record {
  provider = PaymentProvider.phonepe;
  display_name = none;
  display_priority = none;
  merchant_id = some "M1";
  client_id_encrypted = some "c1";
  client_secret_encrypted = some "s1";
}

abbrev name_le : String → String → Bool
name_le a b = true

resolved : resolve_store basket variants ≡ returned groceries
unfolding resolve_store distinct
resolved = refl

resolve_checkout_payment_intent-Chosen_example :
    Chosen name_le
      (connected ∷ [])
      7
      none
      (resolve_checkout_payment_intent name_le (λ id. connected ∷ []) basket variants none)
resolve_checkout_payment_intent-Chosen_example =
    resolve_checkout_payment_intent-Chosen name_le (λ id. connected ∷ []) basket variants none
      groceries resolved
