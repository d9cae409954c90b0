-- ===== src/Checkout/Offers.antt =====
-- Which payment method a checkout is given.
use lotzi.Base.{
  ℕ, ◌+◌, ◌<◌, ◌≡◌, refl, ◌∙◌, inl, inr, Bool, true, false, ◌⊎◌, Option, none, some, List, [], ◌∷◌,
  ◌++◌, ltb, if◌then◌else◌, find_first, any, String, arith, Bool-cases,
}
use lotzi.Base.Sorting.{total_of, total_of-sort}
use lotzi.Base.Outcome.{Outcome, returned, thrown}
use lotzi.Checkout.Types.{
  CheckoutItem, CheckoutProductRow, Product, CheckoutError, store_payment_method_required,
  payment_method_unavailable,
}
use lotzi.Checkout.Quote.{resolve_store}
use lotzi.Checkout.Methods.{
  CheckoutMethodKey, StoreOwnedCheckoutMethodKey, PaymentSetting, CheckoutMethodOption,
  CheckoutPaymentIntent, offers_phonepe, phonepe_method, phonepe_methods, cod_checkout_method,
  is_cod, same_key, checkout_payment_intent, by_priority, store_owned_checkout_methods,
  first_method, selected_method, choose_method, resolve_checkout_payment_intent,
}

-- How many elements pass a test.
module _ {A : Type 0} (p : A → Bool) where
  abbrev count : List A → ℕ
  count = total_of (λ x. if p x then 1 else 0)

  any-count : (xs : List A) → any p xs ≡ ltb 0 (count xs)
  any-count [] = refl
  any-count (x ∷ xs) = ground (arith, any-count xs)

  find_first-count :
      (xs : List A)
      → ((find_first p xs ≡ none) × (count xs ≡ 0))
        ⊎ ((x : A) × (find_first p xs ≡ some x) × (p x ≡ true) × (0 < count xs))
  find_first-count [] = inl (refl, refl)
  find_first-count (x ∷ xs) = elim (Bool-cases (p x)) [
    | inl e ↦ inr (x, rw e refl, e, rw e (omega arith))
    | inr e ↦ elim (find_first-count xs) [
      | inl (missing, z) ↦ inl (rw e missing, rw e (omega arith))
      | inr (y, found, t, c) ↦ inr (y, rw e found, t, rw e (omega arith))
    ]
  ]

  count-append : (xs ys : List A) → count (xs ++ ys) ≡ count xs + count ys
  count-append [] ys = omega arith
  count-append (x ∷ xs) ys = omega (arith, count-append xs ys)

abbrev is_phonepe_option : CheckoutMethodOption → Bool
is_phonepe_option m = same_key m.key StoreOwnedCheckoutMethodKey.phonepe

count-phonepe_methods :
    (settings : List PaymentSetting)
    → count is_phonepe_option (phonepe_methods settings) ≡ count offers_phonepe settings
unfolding phonepe_methods phonepe_method
count-phonepe_methods [] = refl
count-phonepe_methods (s ∷ settings) = elim (Bool-cases (offers_phonepe s)) [
  | inl e ↦ rw e (omega (arith, count-phonepe_methods settings))
  | inr e ↦ rw e (omega (arith, count-phonepe_methods settings))
]

count-cod : (o : Option PaymentSetting) → count is_phonepe_option (cod_checkout_method o ∷ []) ≡ 0
unfolding cod_checkout_method
count-cod none = refl
count-cod (some s) = refl

module _ (name_le : String → String → Bool) (settings : List PaymentSetting) where
  abbrev offers : List CheckoutMethodOption
  offers = store_owned_checkout_methods name_le settings

  count-offers : count is_phonepe_option offers ≡ count offers_phonepe settings
  unfolding store_owned_checkout_methods
  count-offers =
      let cod = cod_checkout_method (find_first (λ s. is_cod s.provider) settings) ∷ [] in
      omega (
        arith,
        total_of-sort (λ m. if is_phonepe_option m then 1 else 0) (by_priority name_le)
            (phonepe_methods settings ++ cod),
        count-append is_phonepe_option (phonepe_methods settings) cod,
        count-phonepe_methods settings,
        count-cod (find_first (λ s. is_cod s.provider) settings),
      )

  some_offer : 0 < total_of (λ m. 1) offers
  unfolding store_owned_checkout_methods
  some_offer =
      let cod = cod_checkout_method (find_first (λ s. is_cod s.provider) settings) ∷ [] in
      omega (
        arith,
        total_of-sort (λ m. 1) (by_priority name_le) (phonepe_methods settings ++ cod),
        total_of-append (phonepe_methods settings) cod,
      )
    where
      total_of-append :
          (xs ys : List CheckoutMethodOption)
          → total_of (λ m. 1) (xs ++ ys) ≡ total_of (λ m. 1) xs + total_of (λ m. 1) ys
      total_of-append [] ys = omega arith
      total_of-append (x ∷ xs) ys = omega (arith, total_of-append xs ys)

  -- What is chosen for a method that is asked for, or for none.
  pub Chosen : ℕ → Option CheckoutMethodKey → Outcome CheckoutError CheckoutPaymentIntent → Type 0
  Chosen id none o =
      (key : StoreOwnedCheckoutMethodKey) × (o ≡ returned (checkout_payment_intent id key))
      × ((key ≡ StoreOwnedCheckoutMethodKey.cod) ⊎ (any offers_phonepe settings ≡ true))
  Chosen id (some CheckoutMethodKey.phonepe) o = o ≡ (
      if any offers_phonepe settings
      then returned (checkout_payment_intent id StoreOwnedCheckoutMethodKey.phonepe)
      else thrown payment_method_unavailable)
  Chosen id (some CheckoutMethodKey.cod) o =
      o ≡ returned (checkout_payment_intent id StoreOwnedCheckoutMethodKey.cod)
  Chosen id (some CheckoutMethodKey.cashfree) o = o ≡ thrown store_payment_method_required

  first-Chosen :
      (id : ℕ) (ms : List CheckoutMethodOption)
      → 0 < total_of (λ m. 1) ms
      → count is_phonepe_option ms ≡ count offers_phonepe settings
      → Chosen id none (first_method name_le id ms)
  unfolding first_method Chosen
  first-Chosen id [] h e = absurd (omega arith)
  first-Chosen id (m ∷ ms) h e = (m.key, refl, owned m.key e)
    where
      owned :
          (key : StoreOwnedCheckoutMethodKey)
          → (if same_key key StoreOwnedCheckoutMethodKey.phonepe then 1 else 0)
              + count is_phonepe_option ms
            ≡ count offers_phonepe settings
          → (key ≡ StoreOwnedCheckoutMethodKey.cod) ⊎ (any offers_phonepe settings ≡ true)
      owned StoreOwnedCheckoutMethodKey.cod e = inl refl
      owned StoreOwnedCheckoutMethodKey.phonepe e =
          inr (any-count offers_phonepe settings ∙ ground arith)

  selected-Chosen :
      (id : ℕ) (ms : List CheckoutMethodOption)
      → count is_phonepe_option ms ≡ count offers_phonepe settings
      → Chosen id
          (some CheckoutMethodKey.phonepe)
          (selected_method name_le id (find_first is_phonepe_option ms))
  unfolding selected_method Chosen
  selected-Chosen id ms e = elim (find_first-count is_phonepe_option ms) [
    | inl (missing, z) ↦
        let unconnected : any offers_phonepe settings ≡ false =
          any-count offers_phonepe settings ∙ ground arith in
        rw (missing, unconnected) refl
    | inr (m, found, t, c) ↦
        let connected : any offers_phonepe settings ≡ true =
          any-count offers_phonepe settings ∙ ground arith in
        rw (found, connected, is_phonepe-key m.key t) refl
  ]
    where
      is_phonepe-key :
          (key : StoreOwnedCheckoutMethodKey)
          → same_key key StoreOwnedCheckoutMethodKey.phonepe ≡ true
          → key ≡ StoreOwnedCheckoutMethodKey.phonepe
      is_phonepe-key StoreOwnedCheckoutMethodKey.phonepe h = refl
      is_phonepe-key StoreOwnedCheckoutMethodKey.cod h = cc

  choose_method-Chosen :
      (id : ℕ) (method : Option CheckoutMethodKey)
      → Chosen id method (choose_method name_le settings id method)
  unfolding choose_method
  choose_method-Chosen id none = first-Chosen id offers some_offer count-offers
  choose_method-Chosen id (some CheckoutMethodKey.phonepe) = selected-Chosen id offers count-offers
  choose_method-Chosen id (some CheckoutMethodKey.cod) = unfold Chosen in refl
  choose_method-Chosen id (some CheckoutMethodKey.cashfree) = unfold Chosen in refl

-- Once the store is resolved: a request for PhonePe is given PhonePe if the store has a connected
-- PhonePe setting and is refused if not, a request for cash on delivery is given it, and one for
-- Cashfree is refused. A request that names no method is never refused: it is given cash on
-- delivery, or PhonePe where that is connected.
pub resolve_checkout_payment_intent-Chosen :
    (name_le : String → String → Bool) (settings_of : ℕ → List PaymentSetting)
    (items : List CheckoutItem) (rows : List CheckoutProductRow) (method : Option CheckoutMethodKey)
    (product : Product)
    → resolve_store items rows ≡ returned product
    → Chosen name_le
        (settings_of product.store_id)
        product.store_id
        method
        (resolve_checkout_payment_intent name_le settings_of items rows method)
unfolding resolve_checkout_payment_intent
resolve_checkout_payment_intent-Chosen name_le settings_of items rows method product h =
    rw h (choose_method-Chosen name_le (settings_of product.store_id) product.store_id method)
