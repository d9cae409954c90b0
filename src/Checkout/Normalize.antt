-- ===== src/Checkout/Normalize.antt =====
-- `normalizeCheckout`: the lines of a request, one for each variant.
use lotzi.Base.{ℕ, ◌+◌, Bool, List, [], ◌∷◌, leb, ltb, ◌==◌, if◌then◌else◌, sort, length}
use lotzi.Base.Outcome.{Outcome, returned, thrown}
use lotzi.Checkout.Types.{CheckoutItem, CheckoutError, cart_too_large}

abbrev pub checkout_max_lines : ℕ
checkout_max_lines = 50

abbrev more_of : CheckoutItem → CheckoutItem → CheckoutItem
more_of x item = record x { quantity = x.quantity + item.quantity }

-- One step of the loop, on the map by variant in its order of insertion.
unfoldable pub aggregate_item : CheckoutItem → List CheckoutItem → List CheckoutItem
aggregate_item item [] = item ∷ []
aggregate_item item (x ∷ xs) =
    if x.variant_id == item.variant_id then more_of x item ∷ xs else x ∷ aggregate_item item xs

unfoldable pub aggregate : List CheckoutItem → List CheckoutItem → List CheckoutItem
aggregate aggregated [] = aggregated
aggregate aggregated (item ∷ items) = aggregate (aggregate_item item aggregated) items

abbrev pub by_variant : CheckoutItem → CheckoutItem → Bool
by_variant a b = leb a.variant_id b.variant_id

unfoldable pub normalize_checkout : List CheckoutItem → Outcome CheckoutError (List CheckoutItem)
normalize_checkout dto_items =
    let items = sort by_variant (aggregate [] dto_items) in
    if ltb checkout_max_lines (length items) then thrown cart_too_large else returned items
