-- ===== src/Checkout/Shares.antt =====
-- How `allocateByLargestRemainder` spreads an amount.
use lotzi.Base.{
  ℕ, zero, suc, ◌+◌, ◌-◌, ◌*◌, ◌/◌, ◌%◌, ◌≤◌, ◌<◌, ◌≡◌, refl, sym, ap, ◌∙◌, inl, inr, true, false,
  List, [], ◌∷◌, leb, ltb, ◌==◌, if◌then◌else◌, sort, All, All-sort, length, arith, Bool-cases,
}
use native.Mathlib.Nat.{mul-le-mul_right, le_of_mul-le-mul_right}
use lotzi.Base.Sorting.{total_of, total_of-sort, sort-IsSorted}
use lotzi.Checkout.Allocation.{
  Share, sum, shares, by_remainder, hand_out, bases, zeros, allocate_by_largest_remainder,
}
use lotzi.Checkout.HandOut.{nth, remainders, credit, Owes-all, Fits, hand_out_lem}

-- One row.
module _ (total weight w : ℕ) (positive : 0 < weight) where
  row_parts :
      (((total * w) / weight) * weight + (total * w) % weight ≡ total * w)
      × ((total * w) % weight < weight)
  row_parts = (grind arith, grind arith)

  -- An amount that is the base, or one more where something remains, is within one of the share.
  row_near :
      (n : ℕ)
      → (total * w) / weight ≤ n
      → n ≤ (total * w) / weight + (if ltb 0 ((total * w) % weight) then 1 else 0)
      → (total * w < n * weight + weight) × (n * weight < total * w + weight)
  row_near n h k =
      let low = mul-le-mul_right weight h in
      elim (Bool-cases (ltb 0 ((total * w) % weight))) [
        | inl e ↦
            let up = mul-le-mul_right weight (rw e at k) in
            let split : (((total * w) / weight) + 1) * weight
                ≡ ((total * w) / weight) * weight + weight =
              grind arith in
            ground (arith, row_parts)
        | inr e ↦ let up = mul-le-mul_right weight (rw e at k) in ground (arith, row_parts)
      ]

shares-sum :
    (total weight k : ℕ) (ws : List ℕ)
    → 0 < weight
    → sum (bases (shares total weight k ws)) * weight + remainders (shares total weight k ws)
      ≡ total * sum ws
unfolding shares
shares-sum total weight k [] h = omega arith
shares-sum total weight k (w ∷ ws) h =
    let rows = shares total weight (k + 1) ws in
    let split : ((total * w) / weight + sum (bases rows)) * weight
        ≡ ((total * w) / weight) * weight + sum (bases rows) * weight =
      grind arith in
    let split' : total * (w + sum ws) ≡ total * w + total * sum ws = grind arith in
    omega (arith, row_parts total weight w h, shares-sum total weight (k + 1) ws h)

shares-Fits :
    (total weight k : ℕ) (ws out : List ℕ)
    → 0 < weight
    → k + length ws ≤ length out
    → All (Fits total weight out) (shares total weight k ws)
unfolding shares
shares-Fits total weight k [] out h l = tt
shares-Fits total weight k (w ∷ ws) out h l = (
  (omega arith, (row_parts total weight w h).1),
  shares-Fits total weight (k + 1) ws out h (omega arith),
)

credit_before :
    (total weight k j : ℕ) (ws : List ℕ)
    → j < k
    → total_of (credit j) (shares total weight k ws) ≡ 0
unfolding shares
credit_before total weight k j [] h = refl
credit_before total weight k j (w ∷ ws) h =
    ground (arith, credit_before total weight (k + 1) j ws (omega arith))

nth_share :
    (total weight k i j : ℕ) (ws : List ℕ)
    → j ≡ k + i
    → (nth i (bases (shares total weight k ws)) ≡ (total * nth i ws) / weight)
      × (total_of (credit j) (shares total weight k ws)
          ≤ (if ltb 0 ((total * nth i ws) % weight) then 1 else 0))
unfolding shares nth
nth_share total weight k i j [] e = (grind arith, omega arith)
nth_share total weight k zero j (w ∷ ws) e =
    (refl, ground (arith, credit_before total weight (k + 1) j ws (omega arith)))
nth_share total weight k (suc i) j (w ∷ ws) e =
    let (b, c) = nth_share total weight (k + 1) i j ws (omega arith) in (b, ground arith)

length-bases :
    (total weight k : ℕ) (ws : List ℕ) → length (bases (shares total weight k ws)) ≡ length ws
unfolding shares
length-bases total weight k [] = refl
length-bases total weight k (w ∷ ws) = ap suc (length-bases total weight (k + 1) ws)

by_remainder_connex : (x y : Share) → by_remainder x y ≡ false → by_remainder y x ≡ true
by_remainder_connex x y h = ground arith

by_remainder_trans :
    (x y z : Share) → by_remainder x y ≡ true → by_remainder y z ≡ true → by_remainder x z ≡ true
by_remainder_trans x y z h k = ground arith

-- The amount at an index is within one unit of the exact share, and no line is left out.
abbrev pub IsFair : ℕ → List ℕ → List ℕ → Type 0
IsFair total weights out =
    (length out ≡ length weights)
    × (sum out ≡ total)
    × ((j : ℕ)
        → (total * nth j weights < nth j out * sum weights + sum weights)
          × (nth j out * sum weights < total * nth j weights + sum weights))

left_over :
    (total base weight room : ℕ)
    → base * weight + room ≡ total * weight
    → base ≤ total
    → (total - base) * weight ≡ room
left_over total base weight room h below =
    let parts : total ≡ base + (total - base) = omega arith in
    let split : (base + (total - base)) * weight ≡ base * weight + (total - base) * weight =
      grind arith in
    let whole = ap (λ n. n * weight) parts in omega arith

reached : (b n q : ℕ) → b ≡ q → b ≤ n → q ≤ n
reached b n q e h = omega arith

within : (n b c d q r : ℕ) → n ≤ b + d → d ≡ c → b ≡ q → c ≤ r → n ≤ q + r
within n b c d q r h e f g = omega arith

handed-IsFair :
    (total : ℕ) (ws : List ℕ)
    → 0 < sum ws
    → let rows = shares total (sum ws) 0 ws in
      IsFair total ws (hand_out total (sum (bases rows)) (sort by_remainder rows) (bases rows))
handed-IsFair total ws h =
    let weight = sum ws in
    let rows = shares total weight 0 ws in
    let all = shares-sum total weight 0 ws h in
    let below : sum (bases rows) ≤ total = le_of_mul-le-mul_right (omega arith) h in
    let rest : (total - sum (bases rows)) * weight ≡ remainders rows =
      left_over total (sum (bases rows)) weight (remainders rows) all below in
    let (total', count, near) =
      hand_out_lem total weight (total - sum (bases rows)) (sum (bases rows))
        (sort by_remainder rows) (bases rows) refl (omega arith)
        (All-sort (Fits total weight (bases rows)) by_remainder rows (
          shares-Fits total weight 0 ws (bases rows) h
            (omega (arith, length-bases total weight 0 ws))))
        (sort-IsSorted by_remainder by_remainder_connex by_remainder_trans rows)
        (rw (total_of-sort (λ r. r.remainder) by_remainder rows)
          (Owes-all weight _ _ h (sym rest))) in
    (
      count ∙ length-bases total weight 0 ws,
      total',
      λ j.
          let (b, c) = nth_share total weight 0 j j ws (omega arith) in
          row_near total weight (nth j ws) h _ (reached _ _ _ b (near j).0)
            (within _ _ _ _ _ _ (near j).1 (total_of-sort (credit j) by_remainder rows) b c),
    )

sum-zeros : (ws : List ℕ) → sum (zeros ws) ≡ 0
sum-zeros [] = refl
sum-zeros (w ∷ ws) = omega (arith, sum-zeros ws)

length-zeros : (ws : List ℕ) → length (zeros ws) ≡ length ws
length-zeros [] = refl
length-zeros (w ∷ ws) = ap suc (length-zeros ws)

nth-zeros : (j : ℕ) (ws : List ℕ) → nth j (zeros ws) ≡ 0
unfolding nth
nth-zeros j [] = refl
nth-zeros zero (w ∷ ws) = refl
nth-zeros (suc j) (w ∷ ws) = nth-zeros j ws

-- Where the weights are not all 0, the parts add up to the total, there is one for each weight, and
-- each is less than one unit away from its exact share total * weight / sum of the weights.
pub allocate_by_largest_remainder-IsFair :
    (total : ℕ) (weights : List ℕ)
    → 0 < sum weights
    → IsFair total weights (allocate_by_largest_remainder total weights)
unfolding allocate_by_largest_remainder
allocate_by_largest_remainder-IsFair zero ws h =
    (length-zeros ws, sum-zeros ws, λ j. rw (nth-zeros j ws) (omega arith, omega arith))
allocate_by_largest_remainder-IsFair (suc n) ws h =
    let some_weight : (sum ws == 0) ≡ false = ground arith in
    let some_total : (suc n == 0) ≡ false = ground arith in
    rw (some_total, some_weight) (handed-IsFair (suc n) ws h)

below_weight : (total weight w n : ℕ) → total ≤ weight → n * weight < total * w + weight → n ≤ w
below_weight total weight w n h k = elim (Bool-cases (leb n w)) [
  | inl e ↦ ground arith
  | inr e ↦
      let above : w + 1 ≤ n = ground arith in
      let low = mul-le-mul_right weight above in
      let high = mul-le-mul_right w h in
      let split : (w + 1) * weight ≡ weight * w + weight = grind arith in absurd (omega arith)
]

-- A part of a total that is at most the sum of the weights is at most its own weight.
pub nth-allocate :
    (total : ℕ) (weights : List ℕ) (j : ℕ)
    → total ≤ sum weights
    → nth j (allocate_by_largest_remainder total weights) ≤ nth j weights
nth-allocate total ws j h = elim (Bool-cases (sum ws == 0)) [
  | inl e ↦
      let nothing : (total == 0) ≡ true = ground arith in
      unfold allocate_by_largest_remainder in rw (nothing, nth-zeros j ws) (omega arith)
  | inr e ↦
      below_weight total (sum ws) (nth j ws) _ h
        ((allocate_by_largest_remainder-IsFair total ws (ground arith)).2 j).1
]

pub sum-allocate :
    (total : ℕ) (weights : List ℕ)
    → total ≤ sum weights
    → (length (allocate_by_largest_remainder total weights) ≡ length weights)
      × (sum (allocate_by_largest_remainder total weights) ≡ total)
sum-allocate total ws h = elim (Bool-cases (sum ws == 0)) [
  | inl e ↦
      let no_weight : sum ws ≡ 0 = ground arith in
      let nothing : (total == 0) ≡ true = ground arith in
      unfold allocate_by_largest_remainder in
      rw nothing (length-zeros ws, omega (arith, sum-zeros ws))
  | inr e ↦
      let fair = allocate_by_largest_remainder-IsFair total ws (ground arith) in (fair.0, fair.1)
]
