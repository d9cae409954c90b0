-- ===== src/Cart/Validation.antt =====
-- CartValidationService. Identifiers are numbers in the order of `localeCompare`, prices in paise.
use lotzi.Base.{
  ℕ, ◌+◌, max, Bool, true, false, not, ◌&&◌, ◌||◌, Option, none, some, List, [], ◌∷◌, map, ltb, leb,
  ◌==◌, if◌then◌else◌, any, every, sort, String,
}
use lotzi.Base.Int.{ℤ, ◌-ℤ◌, pos_part}
use lotzi.Base.Sorting.{total_of}
use lotzi.Base.Tables.{find_by}
use lotzi.Base.Outcome.{Outcome, returned, thrown}
use lotzi.Checkout.Types.{Product, CheckoutItem}
use lotzi.Checkout.Quote.{is_approved, is_published, is_some}

-- `NormalizedLine`.
abbrev pub CartItem : Type 0
CartItem = CheckoutItem

-- A line of the request, which may name no variant.
pub record CartItemDto : Type 0 where
  pub product_id : ℕ
  pub variant_id : Option ℕ
  pub quantity : ℕ

pub record StockRow : Type 0 where
  pub available_stock : ℤ
  pub version : ℕ

-- An active variant with its product, its store and its stock.
pub record Variant : Type 0 where
  pub id : ℕ
  pub product_id : ℕ
  pub price_paise : ℕ
  pub stock : ℤ
  pub stock_on_hand : ℤ
  pub stock_reserved : ℤ
  pub stock_version : ℕ
  pub catalog_version : ℕ
  pub product : Product
  pub inventory_items : List StockRow

pub data Reason : Type 0 where
  variant_unavailable store_unavailable product_unavailable out_of_stock : Reason
  insufficient_stock unavailable : Reason

pub record CartValidationLine : Type 0 where
  pub product_id : ℕ
  pub variant_id : ℕ
  pub requested_quantity : ℕ
  pub store_id : Option ℕ
  pub unit_price : ℕ
  pub available_stock : ℕ
  pub in_stock : Bool
  pub is_available : Bool
  pub reason : Option Reason
  pub product_version : ℕ
  pub stock_version : ℕ

pub record CartValidationResponse : Type 0 where
  pub validation_version : String
  pub last_seen_catalog_version : Option String
  pub has_changes : Bool
  pub all_available : Bool
  pub lines : List CartValidationLine

-- `BadRequestException`.
pub data CartError : Type 0 where
  no_items : CartError

abbrev pub same_line : CartItem → CartItem → Bool
same_line a b = a.product_id == b.product_id && a.variant_id == b.variant_id

-- One step of the loop, on the map of the lines in its order of insertion.
unfoldable pub merge_item : CartItem → List CartItem → List CartItem
merge_item item [] = item ∷ []
merge_item item (x ∷ xs) =
    if same_line x item
    then record x { quantity = x.quantity + item.quantity } ∷ xs
    else x ∷ merge_item item xs

-- The lines of the request that name a variant.
abbrev pub named : CartItemDto → Option ℕ → List CartItem → List CartItem
named item none merged = merged
named item (some v) merged =
    merge_item (record { product_id = item.product_id; variant_id = v; quantity = item.quantity })
      merged

unfoldable pub merge_items : List CartItem → List CartItemDto → List CartItem
merge_items merged [] = merged
merge_items merged (item ∷ items) = merge_items (named item item.variant_id merged) items

abbrev pub by_product : CartItem → CartItem → Bool
by_product a b =
    ltb a.product_id b.product_id || (a.product_id == b.product_id && leb a.variant_id b.variant_id)

unfoldable pub normalize_items : List CartItemDto → List CartItem
normalize_items items = sort by_product (merge_items [] items)

abbrev unavailable_line : CartItem → Reason → CartValidationLine
unavailable_line item reason = record {
  product_id = item.product_id;
  variant_id = item.variant_id;
  requested_quantity = item.quantity;
  store_id = none;
  unit_price = 0;
  available_stock = 0;
  in_stock = false;
  is_available = false;
  reason = some reason;
  product_version = 0;
  stock_version = 0;
}

unfoldable pub availability_reason : Bool → Bool → ℕ → ℕ → Reason
availability_reason store_available product_available available_stock requested =
    if not store_available
    then store_unavailable
    else if not product_available
    then product_unavailable
    else if available_stock == 0
    then out_of_stock
    else if ltb available_stock requested
    then insufficient_stock
    else unavailable

abbrev pub store_available : Product → Bool
store_available p = is_approved p.store.status && not (is_some p.store.deleted_at)

abbrev pub product_available : Product → Bool
product_available p = p.is_active && is_published p.status

-- The stock of a variant: of its stock rows, and where there is none of its own columns.
unfoldable pub available_stock_of : Variant → List StockRow → ℕ
available_stock_of variant [] =
    max (pos_part (variant.stock_on_hand -ℤ variant.stock_reserved)) (pos_part variant.stock)
available_stock_of variant (row ∷ rows) = total_of (λ r. pos_part r.available_stock) (row ∷ rows)

abbrev max_version : ℕ → List StockRow → ℕ
max_version n [] = n
max_version n (row ∷ rows) = max row.version (max_version n rows)

-- `lines` for a variant that is found and is of the product.
unfoldable pub variant_line : CartItem → Variant → CartValidationLine
variant_line item variant =
    let stock = available_stock_of variant variant.inventory_items in
    let is_available =
      store_available variant.product
      && (product_available variant.product && leb item.quantity stock) in
    record {
      product_id = item.product_id;
      variant_id = item.variant_id;
      requested_quantity = item.quantity;
      store_id = some variant.product.store.id;
      unit_price = variant.price_paise;
      available_stock = stock;
      in_stock = ltb 0 stock;
      is_available = is_available;
      reason =
          if is_available
          then none
          else some (
              availability_reason (store_available variant.product)
                (product_available variant.product) stock item.quantity);
      product_version = variant.catalog_version;
      stock_version = max_version variant.stock_version variant.inventory_items;
    }

unfoldable pub line_for : CartItem → Option Variant → CartValidationLine
line_for item none = unavailable_line item variant_unavailable
line_for item (some variant) =
    if variant.product_id == item.product_id
    then variant_line item variant
    else unavailable_line item variant_unavailable

abbrev pub is_empty : List CartItem → Bool
is_empty [] = true
is_empty (item ∷ items) = false

unfoldable pub has_changes : List CartValidationLine → Bool
has_changes = any (λ line. not line.is_available)

-- The lines of `loadValidation`, for the active variants that its query returns.
abbrev pub lines_for : List Variant → List CartItem → List CartValidationLine
lines_for variants = map (λ i. line_for i (find_by (λ v. v.id) i.variant_id variants))

-- `loadValidation`; `digest` is the hash of the lines.
abbrev pub load_validation :
    (List CartValidationLine → String)
    → List Variant
    → Option String
    → List CartItem
    → CartValidationResponse
load_validation digest variants last_seen items =
    let lines = lines_for variants items in
    record {
      validation_version = digest lines;
      last_seen_catalog_version = last_seen;
      has_changes = has_changes lines;
      all_available = every (λ line. line.is_available) lines;
      lines = lines;
    }

-- `validate`; two calls for the same cart at the same time share one promise.
unfoldable pub validate :
    (List CartValidationLine → String)
    → List Variant
    → List CartItemDto
    → Option String
    → Outcome CartError CartValidationResponse
unfolding has_changes line_for
validate digest variants dto_items last_seen =
    if is_empty (normalize_items dto_items)
    then thrown no_items
    else returned (load_validation digest variants last_seen (normalize_items dto_items))
