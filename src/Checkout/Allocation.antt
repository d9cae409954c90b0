-- ===== src/Checkout/Allocation.antt =====
-- `allocateByLargestRemainder`: a discount is spread over the lines of an order.
use lotzi.Base.{
  ℕ, zero, suc, ◌+◌, ◌*◌, ◌/◌, ◌%◌, Bool, List, [], ◌∷◌, map, leb, ◌==◌, if◌then◌else◌, sort,
}
use lotzi.Base.Sorting.{total_of}

pub record Share : Type 0 where
  pub index : ℕ
  pub base : ℕ
  pub remainder : ℕ

abbrev pub sum : List ℕ → ℕ
sum = total_of (λ n. n)

-- The rows, from an index on.
unfoldable pub shares : ℕ → ℕ → ℕ → List ℕ → List Share
shares total weight index [] = []
shares total weight index (w ∷ ws) =
    record { index = index; base = (total * w) / weight; remainder = (total * w) % weight }
    ∷ shares total weight (index + 1) ws

-- The larger remainder goes first.
abbrev pub by_remainder : Share → Share → Bool
by_remainder a b = leb b.remainder a.remainder

-- `output[index] += 1n`.
unfoldable pub bump : ℕ → List ℕ → List ℕ
bump i [] = []
bump zero (x ∷ xs) = (x + 1) ∷ xs
bump (suc i) (x ∷ xs) = x ∷ bump i xs

-- The loop over the sorted rows.
unfoldable pub hand_out : ℕ → ℕ → List Share → List ℕ → List ℕ
hand_out total allocated [] output = output
hand_out total allocated (row ∷ rows) output =
    if leb total allocated
    then output
    else hand_out total (allocated + 1) rows (bump row.index output)

abbrev pub bases : List Share → List ℕ
bases = map (λ r. r.base)

abbrev pub zeros : List ℕ → List ℕ
zeros = map (λ w. 0)

unfoldable pub allocate_by_largest_remainder : ℕ → List ℕ → List ℕ
allocate_by_largest_remainder total weights =
    if total == 0
    then zeros weights
    else if sum weights == 0
    then zeros weights
    else let rows = shares total (sum weights) 0 weights in
      hand_out total (sum (bases rows)) (sort by_remainder rows) (bases rows)
