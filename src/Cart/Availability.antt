-- ===== src/Cart/Availability.antt =====
-- What the lines of a validated cart say.
use lotzi.Base.{
  ◌≤◌, ◌<◌, ◌≡◌, ◌≢◌, refl, inl, inr, Bool, true, false, Option, none, some, ltb, leb, ◌==◌, arith,
  Bool-cases,
}
use lotzi.Cart.Validation.{
  CartItem, Variant, Reason, variant_unavailable, store_unavailable, product_unavailable,
  out_of_stock, insufficient_stock, availability_reason, store_available, product_available,
  available_stock_of, variant_line, line_for,
}

-- Why a line is as it is: the first check that fails, or none.
pub data Explained (item : CartItem) : Option Variant → Option Reason → Type 0 where
  missing : Explained item none (some variant_unavailable)
  of_another_product :
      {v : Variant}
      → v.product_id ≢ item.product_id
      → Explained item (some v) (some variant_unavailable)
  store_closed :
      {v : Variant}
      → v.product_id ≡ item.product_id
      → store_available v.product ≡ false
      → Explained item (some v) (some store_unavailable)
  product_withdrawn :
      {v : Variant}
      → v.product_id ≡ item.product_id
      → store_available v.product ≡ true
      → product_available v.product ≡ false
      → Explained item (some v) (some product_unavailable)
  sold_out :
      {v : Variant}
      → v.product_id ≡ item.product_id
      → store_available v.product ≡ true
      → product_available v.product ≡ true
      → available_stock_of v v.inventory_items ≡ 0
      → Explained item (some v) (some out_of_stock)
  too_few :
      {v : Variant}
      → v.product_id ≡ item.product_id
      → store_available v.product ≡ true
      → product_available v.product ≡ true
      → 0 < available_stock_of v v.inventory_items
      → available_stock_of v v.inventory_items < item.quantity
      → Explained item (some v) (some insufficient_stock)
  can_be_bought :
      {v : Variant}
      → v.product_id ≡ item.product_id
      → store_available v.product ≡ true
      → product_available v.product ≡ true
      → item.quantity ≤ available_stock_of v v.inventory_items
      → Explained item (some v) none

abbrev is_none : Option Reason → Bool
is_none none = true
is_none (some r) = false

abbrev pub IsExplained : CartItem → Option Variant → Type 0
IsExplained item v =
    Explained item v (line_for item v).reason
    × ((line_for item v).is_available ≡ is_none (line_for item v).reason)

variant_line-Explained :
    (item : CartItem) (v : Variant)
    → 0 < item.quantity
    → v.product_id ≡ item.product_id
    → Explained item (some v) (variant_line item v).reason
      × ((variant_line item v).is_available ≡ is_none (variant_line item v).reason)
unfolding variant_line availability_reason
variant_line-Explained item v h p = elim (Bool-cases (store_available v.product)) [
  | inr e ↦ rw e (store_closed p e, refl)
  | inl e ↦ elim (Bool-cases (product_available v.product)) [
    | inr e' ↦ rw (e, e') (product_withdrawn p e e', refl)
    | inl e' ↦ elim (Bool-cases (leb item.quantity (available_stock_of v v.inventory_items))) [
      | inl enough ↦ rw (e, e', enough) (can_be_bought p e e' (ground arith), refl)
      | inr few ↦ elim (Bool-cases (available_stock_of v v.inventory_items == 0)) [
        | inl none_left ↦ rw (e, e', few, none_left) (sold_out p e e' (ground arith), refl)
        | inr left ↦
            let less : ltb (available_stock_of v v.inventory_items) item.quantity ≡ true =
              ground arith in
            rw (e, e', few, left, less) (too_few p e e' (ground arith) (ground arith), refl)
      ]
    ]
  ]
]

-- A line of at least one piece is available just when it gives no reason, and its reason is the first
-- of the checks that fails; the last reason, UNAVAILABLE, is never given.
pub line_for-IsExplained :
    (item : CartItem) (v : Option Variant) → 0 < item.quantity → IsExplained item v
unfolding line_for
line_for-IsExplained item none h = (missing, refl)
line_for-IsExplained item (some v) h = elim (Bool-cases (v.product_id == item.product_id)) [
  | inr e ↦ rw e (of_another_product (ground arith), refl)
  | inl e ↦ rw e (variant_line-Explained item v h (ground arith))
]
