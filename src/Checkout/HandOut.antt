-- ===== src/Checkout/HandOut.antt =====
-- The loop of `allocateByLargestRemainder` over the sorted rows.
use lotzi.Base.{
  ℕ, zero, suc, ◌+◌, ◌*◌, ◌≤◌, ◌<◌, ◌≡◌, refl, ap, ◌∙◌, inl, inr, true, false, ◌&&◌, List, [], ◌∷◌,
  leb, ltb, ◌==◌, if◌then◌else◌, All, length, arith, Bool-cases,
}
use lotzi.Base.Sorting.{total_of, IsSorted}
use lotzi.Checkout.Allocation.{Share, sum, by_remainder, bump, hand_out}

unfoldable pub nth : ℕ → List ℕ → ℕ
nth i [] = 0
nth zero (x ∷ xs) = x
nth (suc i) (x ∷ xs) = nth i xs

length-bump : (i : ℕ) (xs : List ℕ) → length (bump i xs) ≡ length xs
unfolding bump
length-bump i [] = refl
length-bump zero (x ∷ xs) = refl
length-bump (suc i) (x ∷ xs) = ap suc (length-bump i xs)

sum-bump : (i : ℕ) (xs : List ℕ) → i < length xs → sum (bump i xs) ≡ sum xs + 1
unfolding bump
sum-bump i [] h = absurd (omega arith)
sum-bump zero (x ∷ xs) h = omega arith
sum-bump (suc i) (x ∷ xs) h = omega (arith, sum-bump i xs (omega arith))

nth-bump :
    (j i : ℕ) (xs : List ℕ)
    → (nth j xs ≤ nth j (bump i xs)) × (nth j (bump i xs) ≤ nth j xs + (if i == j then 1 else 0))
unfolding bump nth
nth-bump j i [] = ground arith
nth-bump zero zero (x ∷ xs) = ground arith
nth-bump zero (suc i) (x ∷ xs) = ground arith
nth-bump (suc j) zero (x ∷ xs) = ground arith
nth-bump (suc j) (suc i) (x ∷ xs) = ground (arith, nth-bump j i xs)

abbrev pub remainders : List Share → ℕ
remainders = total_of (λ r. r.remainder)

-- What a row may add to the amount at an index.
abbrev pub credit : ℕ → Share → ℕ
credit j r = if r.index == j && ltb 0 r.remainder then 1 else 0

-- `k` units are left to hand out, and the remainders have room for them.
pub Owes : ℕ → ℕ → ℕ → Type 0
Owes weight zero room = Unit
Owes weight (suc k) room = k * weight < room

Owes-next : (weight k r room : ℕ) → r < weight → Owes weight (suc k) (r + room) → Owes weight k room
unfolding Owes
Owes-next weight zero r room h o = tt
Owes-next weight (suc k) r room h o =
    let split : (k + 1) * weight ≡ k * weight + weight = grind arith in omega arith

no_room :
    (r : Share) (rs : List Share)
    → r.remainder ≡ 0
    → All (λ x. by_remainder r x ≡ true) rs
    → remainders rs ≡ 0
no_room r [] e h = refl
no_room r (x ∷ xs) e h = ground (arith, no_room r xs e h.1)

has_remainder :
    (weight k : ℕ) (r : Share) (rs : List Share)
    → All (λ x. by_remainder r x ≡ true) rs
    → Owes weight (suc k) (remainders (r ∷ rs))
    → 0 < r.remainder
unfolding Owes
has_remainder weight k r rs h o = elim (Bool-cases (r.remainder == 0)) [
  | inl e ↦ absurd (ground (arith, no_room r rs (ground arith) h))
  | inr e ↦ ground arith
]

module _ (total weight : ℕ) where
  abbrev pub Fits : List ℕ → Share → Type 0
  Fits out r = (r.index < length out) × (r.remainder < weight)

  Fits-bumped :
      (i : ℕ) (out : List ℕ) (rs : List Share) → All (Fits out) rs → All (Fits (bump i out)) rs
  Fits-bumped i out [] h = tt
  Fits-bumped i out (r ∷ rs) h = ((rw (length-bump i out) h.0.0, h.0.1), Fits-bumped i out rs h.1)

  pub hand_out_lem :
      (k allocated : ℕ) (rs : List Share) (out : List ℕ)
      → sum out ≡ allocated
      → total ≡ allocated + k
      → All (Fits out) rs
      → IsSorted by_remainder rs
      → Owes weight k (remainders rs)
      → (sum (hand_out total allocated rs out) ≡ total)
        × (length (hand_out total allocated rs out) ≡ length out)
        × ((j : ℕ)
            → (nth j out ≤ nth j (hand_out total allocated rs out))
              × (nth j (hand_out total allocated rs out) ≤ nth j out + total_of (credit j) rs))
  unfolding hand_out
  hand_out_lem zero allocated [] out s t f d o = (omega arith, refl, λ j. omega arith)
  hand_out_lem (suc k) allocated [] out s t f d o = absurd (unfold Owes in omega arith)
  hand_out_lem zero allocated (r ∷ rs) out s t f d o =
      let stop : leb total allocated ≡ true = ground arith in
      rw stop (omega arith, refl, λ j. omega arith)
  hand_out_lem (suc k) allocated (r ∷ rs) out s t f d o =
      let go : leb total allocated ≡ false = ground arith in
      let positive = has_remainder weight k r rs d.0 o in
      let (total', count, near) =
        hand_out_lem k (allocated + 1) rs (bump r.index out)
          (sum-bump r.index out f.0.0 ∙ ap (λ n. n + 1) s) (omega arith)
          (Fits-bumped r.index out rs f.1) d.1
          (Owes-next weight k r.remainder (remainders rs) f.0.1 o) in
      rw go (
        total',
        count ∙ length-bump r.index out,
        λ j. ground (arith, near j, nth-bump j r.index out),
      )

pub Owes-all : (weight k room : ℕ) → 0 < weight → room ≡ k * weight → Owes weight k room
unfolding Owes
Owes-all weight zero room h e = tt
Owes-all weight (suc k) room h e =
    let split : (k + 1) * weight ≡ k * weight + weight = grind arith in omega arith
