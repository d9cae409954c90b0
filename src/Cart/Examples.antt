-- ===== src/Cart/Examples.antt =====
-- A cart of one variant.
use lotzi.Base.{ℕ, ◌≡◌, refl, true, false, none, some, List, [], ◌∷◌, map, sort, String, arith}
use lotzi.Base.Int.{pos}
use lotzi.Base.Tables.{find_by}
use lotzi.Base.Outcome.{returned}
use lotzi.Checkout.Types.{StoreStatus, ProductStatus, QuoteItem}
use lotzi.Checkout.Quote.{price_items}
use lotzi.Cart.Validation.{
  CartItem, CartItemDto, Variant, CartValidationLine, CartValidationResponse, merge_item,
  merge_items, normalize_items, line_for, variant_line, available_stock_of, has_changes, validate,
  load_validation,
}
use lotzi.Cart.Availability.{IsExplained, line_for-IsExplained}
use lotzi.Cart.Merging.{IsMerged, in_cart, requested, normalize_items-IsMerged}
use lotzi.Cart.Purchase.{checkout_row, unit_prices, shown_prices, validate-price_items}

abbrev variant : Variant
variant = record {
  id = 4;
  product_id = 10;
  price_paise = 2500;
  stock = pos 0;
  stock_on_hand = pos 0;
  stock_reserved = pos 0;
  stock_version = 1;
  catalog_version = 3;
  product = record {
    status = ProductStatus.published;
    is_active = true;
    store_id = 7;
    store = record {
      id = 7;
      status = StoreStatus.approved;
      deleted_at = none;
      is_delivery_available = true;
    };
  };
  inventory_items = record { available_stock = pos 5; version = 2 } ∷ [];
}

-- Three pieces of it in two lines, and a line without a variant.
abbrev cart : List CartItemDto
cart =
    record { product_id = 10; variant_id = some 4; quantity = 1 }
    ∷ record { product_id = 10; variant_id = none; quantity = 9 }
    ∷ record { product_id = 10; variant_id = some 4; quantity = 2 }
    ∷ []

abbrev digest : List CartValidationLine → String
digest lines = ""

line_for-IsExplained_example :
    IsExplained (record { product_id = 10; variant_id = 4; quantity = 6 }) (some variant)
line_for-IsExplained_example =
    line_for-IsExplained (record { product_id = 10; variant_id = 4; quantity = 6 }) (some variant)
      (omega arith)

normalize_items-IsMerged_example :
    IsMerged (normalize_items cart)
    × ((p v : ℕ) → in_cart p v (normalize_items cart) ≡ requested p v cart)
normalize_items-IsMerged_example = normalize_items-IsMerged cart

abbrev merged : List CartItem
merged = record { product_id = 10; variant_id = 4; quantity = 3 } ∷ []

abbrev response : CartValidationResponse
response = load_validation digest (variant ∷ []) none merged

validated : validate digest (variant ∷ []) cart none ≡ returned response
unfolding validate normalize_items merge_items merge_item sort
validated = refl

unchanged : response.has_changes ≡ false
unfolding has_changes line_for variant_line find_by available_stock_of
unchanged = refl

validate-price_items_example :
    (response.all_available ≡ true)
    × (qs : List QuoteItem) × (price_items (map checkout_row (variant ∷ [])) (normalize_items cart)
        ≡ returned qs)
    × (unit_prices qs ≡ shown_prices response.lines)
validate-price_items_example =
    validate-price_items digest (variant ∷ []) cart none response validated unchanged
