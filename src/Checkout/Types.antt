-- ===== src/Checkout/Types.antt =====
-- The types of checkout.service.ts. Identifiers are numbers in the order of `localeCompare`, amounts
-- are in paise.
use lotzi.Base.{ℕ, Bool, Option, List}

pub data StoreStatus : Type 0 where
  pending approved rejected suspended : StoreStatus

pub data ProductStatus : Type 0 where
  draft published paused needs_review : ProductStatus

pub record Store : Type 0 where
  pub id : ℕ
  pub status : StoreStatus
  pub deleted_at : Option ℕ
  pub is_delivery_available : Bool

pub record Product : Type 0 where
  pub status : ProductStatus
  pub is_active : Bool
  pub store_id : ℕ
  pub store : Store

-- `CheckoutProductRow`, a variant with its product. The price is read by `decimalRupeesToPaise`.
pub record CheckoutProductRow : Type 0 where
  pub id : ℕ
  pub product_id : ℕ
  pub price_paise : ℕ
  pub product : Product

pub record CheckoutItem : Type 0 where
  pub product_id : ℕ
  pub variant_id : ℕ
  pub quantity : ℕ

pub data ShippingOption : Type 0 where
  standard priority : ShippingOption

pub record QuoteItem : Type 0 where
  pub product_id : ℕ
  pub variant_id : ℕ
  pub quantity : ℕ
  pub unit_price_paise : ℕ
  pub line_subtotal_paise : ℕ

pub record Quote : Type 0 where
  pub items : List QuoteItem
  pub subtotal_paise : ℕ
  pub discount_paise : ℕ
  pub line_discounts : List ℕ
  pub tax_paise : ℕ
  pub delivery_fee_paise : ℕ
  pub grand_total_paise : ℕ

pub record OrderItem : Type 0 where
  pub product_id : ℕ
  pub variant_id : ℕ
  pub quantity : ℕ
  pub unit_price_paise : ℕ
  pub discount_paise : ℕ
  pub tax_paise : ℕ
  pub total_paise : ℕ

-- The codes of `paymentError`, and an error that is no HTTP exception.
pub data CheckoutError : Type 0 where
  cart_too_large product_unavailable single_store_required store_unavailable : CheckoutError
  address_required coupon_invalid total_invalid internal_error : CheckoutError
  store_payment_method_required payment_method_unavailable : CheckoutError
  store_payment_methods_not_configured : CheckoutError
