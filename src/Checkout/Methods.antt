-- ===== src/Checkout/Methods.antt =====
-- `resolveCheckoutPaymentIntent` and the methods a store offers. `name_le` is the order of the names
-- by `localeCompare`; the settings are the enabled ones of the store.
use lotzi.Base.{
  ℕ, Bool, true, false, ◌&&◌, ◌||◌, Option, none, some, List, [], ◌∷◌, ◌++◌, ltb, ◌==◌,
  if◌then◌else◌, sort, find_first, String,
}
use text.Mathlib.Text.{◌==◌ as ◌===◌}
use lotzi.Base.Outcome.{Outcome, returned, thrown, ◌>>=◌}
use lotzi.Checkout.Types.{
  CheckoutItem, CheckoutProductRow, CheckoutError, store_payment_method_required,
  payment_method_unavailable, store_payment_methods_not_configured,
}
use lotzi.Checkout.Quote.{resolve_store}

pub data PaymentProvider : Type 0 where
  cashfree phonepe cod : PaymentProvider

-- `CheckoutMethodKey`, the methods a request may name.
pub data CheckoutMethodKey : Type 0 where
  cashfree phonepe cod : CheckoutMethodKey

-- `StoreOwnedCheckoutMethodKey`.
pub data StoreOwnedCheckoutMethodKey : Type 0 where
  phonepe cod : StoreOwnedCheckoutMethodKey

-- A row of the payment settings; the white space around the merchant id is trimmed.
pub record PaymentSetting : Type 0 where
  pub provider : PaymentProvider
  pub display_name : Option String
  pub display_priority : Option ℕ
  pub merchant_id : Option String
  pub client_id_encrypted : Option String
  pub client_secret_encrypted : Option String

pub record CheckoutMethodOption : Type 0 where
  pub key : StoreOwnedCheckoutMethodKey
  pub name : String
  pub priority : ℕ

pub record CheckoutPaymentIntent : Type 0 where
  pub store_id : ℕ
  pub method_key : StoreOwnedCheckoutMethodKey
  pub provider : PaymentProvider

abbrev is_text : Option String → Bool
is_text none = false
is_text (some s) = if s === "" then false else true

-- `a ?? b`.
abbrev or_else : {A : Type 0} → Option A → A → A
or_else none b = b
or_else (some a) b = a

unfoldable pub phonepe_setting_is_connected : PaymentSetting → Bool
phonepe_setting_is_connected s =
    is_text s.merchant_id && (is_text s.client_id_encrypted && is_text s.client_secret_encrypted)

abbrev is_phonepe : PaymentProvider → Bool
is_phonepe PaymentProvider.phonepe = true
is_phonepe _ = false

abbrev pub is_cod : PaymentProvider → Bool
is_cod PaymentProvider.cod = true
is_cod _ = false

unfoldable pub cod_checkout_method : Option PaymentSetting → CheckoutMethodOption
cod_checkout_method none = record {
  key = StoreOwnedCheckoutMethodKey.cod;
  name = "Cash on Delivery";
  priority = 3;
}
cod_checkout_method (some s) = record {
  key = StoreOwnedCheckoutMethodKey.cod;
  name = or_else s.display_name "Cash on Delivery";
  priority = or_else s.display_priority 3;
}

-- The callback of `flatMap`.
abbrev pub offers_phonepe : PaymentSetting → Bool
offers_phonepe s = is_phonepe s.provider && phonepe_setting_is_connected s

unfoldable pub phonepe_method : PaymentSetting → List CheckoutMethodOption
phonepe_method s =
    if offers_phonepe s
    then record {
      key = StoreOwnedCheckoutMethodKey.phonepe;
      name = or_else s.display_name "PhonePe";
      priority = or_else s.display_priority 2;
    }
      ∷ []
    else []

unfoldable pub phonepe_methods : List PaymentSetting → List CheckoutMethodOption
phonepe_methods [] = []
phonepe_methods (s ∷ settings) = phonepe_method s ++ phonepe_methods settings

abbrev pub same_key : StoreOwnedCheckoutMethodKey → StoreOwnedCheckoutMethodKey → Bool
same_key StoreOwnedCheckoutMethodKey.phonepe StoreOwnedCheckoutMethodKey.phonepe = true
same_key StoreOwnedCheckoutMethodKey.cod StoreOwnedCheckoutMethodKey.cod = true
same_key _ _ = false

unfoldable pub checkout_payment_intent : ℕ → StoreOwnedCheckoutMethodKey → CheckoutPaymentIntent
checkout_payment_intent store_id StoreOwnedCheckoutMethodKey.phonepe = record {
  store_id = store_id;
  method_key = StoreOwnedCheckoutMethodKey.phonepe;
  provider = PaymentProvider.phonepe;
}
checkout_payment_intent store_id StoreOwnedCheckoutMethodKey.cod = record {
  store_id = store_id;
  method_key = StoreOwnedCheckoutMethodKey.cod;
  provider = PaymentProvider.cod;
}

module _ (name_le : String → String → Bool) where
  abbrev pub by_priority : CheckoutMethodOption → CheckoutMethodOption → Bool
  by_priority a b = ltb a.priority b.priority || (a.priority == b.priority && name_le a.name b.name)

  unfoldable pub store_owned_checkout_methods : List PaymentSetting → List CheckoutMethodOption
  unfolding phonepe_methods phonepe_method cod_checkout_method
  store_owned_checkout_methods enabled_settings = sort by_priority (
      phonepe_methods enabled_settings
      ++ (cod_checkout_method (find_first (λ s. is_cod s.provider) enabled_settings) ∷ []))

  -- `methods[0]`.
  unfoldable pub first_method :
      ℕ → List CheckoutMethodOption → Outcome CheckoutError CheckoutPaymentIntent
  unfolding checkout_payment_intent
  first_method store_id [] = thrown store_payment_methods_not_configured
  first_method store_id (m ∷ methods) = returned (checkout_payment_intent store_id m.key)

  unfoldable pub selected_method :
      ℕ → Option CheckoutMethodOption → Outcome CheckoutError CheckoutPaymentIntent
  unfolding checkout_payment_intent
  selected_method store_id none = thrown payment_method_unavailable
  selected_method store_id (some m) = returned (checkout_payment_intent store_id m.key)

  -- The choice of the method, for a store.
  unfoldable pub choose_method :
      List PaymentSetting
      → ℕ
      → Option CheckoutMethodKey
      → Outcome CheckoutError CheckoutPaymentIntent
  unfolding first_method selected_method checkout_payment_intent store_owned_checkout_methods
  choose_method settings store_id (some CheckoutMethodKey.cashfree) =
      thrown store_payment_method_required
  choose_method settings store_id (some CheckoutMethodKey.cod) =
      returned (checkout_payment_intent store_id StoreOwnedCheckoutMethodKey.cod)
  choose_method settings store_id (some CheckoutMethodKey.phonepe) = selected_method store_id (
      find_first (λ m. same_key m.key StoreOwnedCheckoutMethodKey.phonepe)
        (store_owned_checkout_methods settings))
  choose_method settings store_id none =
      first_method store_id (store_owned_checkout_methods settings)

  unfoldable pub resolve_checkout_payment_intent :
      (ℕ → List PaymentSetting)
      → List CheckoutItem
      → List CheckoutProductRow
      → Option CheckoutMethodKey
      → Outcome CheckoutError CheckoutPaymentIntent
  unfolding choose_method
  resolve_checkout_payment_intent settings_of items rows method = do
    product ← resolve_store items rows
    choose_method (settings_of product.store_id) product.store_id method
