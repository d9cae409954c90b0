-- ===== src/Inventory/Lines.antt =====
-- `aggregateItems` and `assertLockBudget`: the lines of an order, one to a variant, by variant.
use lotzi.Base.{
  ℕ, zero, suc, ◌+◌, Bool, Option, none, some, List, [], ◌∷◌, leb, ltb, ◌==◌, if◌then◌else◌, sort,
}
use lotzi.Base.Int.{pos, negsuc}
use lotzi.Inventory.Types.{Number, whole, fractional, Line, Error}
use lotzi.Inventory.Tx.{Tx, throw_if}

pub record RawLine : Type 0 where
  pub product_variant_id : ℕ
  pub quantity : Number

abbrev pub max_inventory_lock_lines : ℕ
max_inventory_lock_lines = 50

-- `Number.isInteger(quantity) && quantity > 0`.
unfoldable pub positive : Number → Option ℕ
positive (whole (pos zero)) = none
positive (whole (pos (suc n))) = some (suc n)
positive (whole (negsuc n)) = none
positive fractional = none

-- `existing.quantity += quantity`, or a new entry of the map.
unfoldable pub add_line : ℕ → ℕ → List Line → List Line
add_line v q [] = record { product_variant_id = v; quantity = q } ∷ []
add_line v q (l ∷ ls) =
    let rest = add_line v q ls in
    if l.product_variant_id == v then record l { quantity = l.quantity + q } ∷ ls else l ∷ rest

-- The loop; `none` where a quantity is refused.
unfoldable pub collect : List Line → List RawLine → Option (List Line)
collect acc [] = some acc
collect acc (x ∷ xs) = elim (positive x.quantity) [
  | none ↦ none
  | some q ↦ collect (add_line x.product_variant_id q acc) xs
]

abbrev pub line_le : Line → Line → Bool
line_le a b = leb a.product_variant_id b.product_variant_id

abbrev pub sorted_lines : Option (List Line) → Option (List Line)
sorted_lines none = none
sorted_lines (some ls) = some (sort line_le ls)

unfoldable pub aggregate_items : List RawLine → Option (List Line)
unfolding collect
aggregate_items xs = sorted_lines (collect [] xs)

unfoldable pub assert_lock_budget : ℕ → Tx (Unit {0})
assert_lock_budget n = throw_if (ltb max_inventory_lock_lines n) Error.cart_too_large
