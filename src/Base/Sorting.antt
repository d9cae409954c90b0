-- ===== src/Base/Sorting.antt =====
-- What insertion sort does: its result is in order, and sums over it are those over the list.
use lotzi.Base.Tests.{Bool-cases}
use lotzi.Base.Lists.{sort, sort_insert, All, All-sort_insert}
use Prim.Native.Nat.{ℕ, ◌+◌}
use mathlib.Core.Path.{◌≡◌, refl, ap, ◌∙◌}
use mathlib.Core.Logic.{inl, inr}
use mathlib.Core.Bool.{Bool, true, false}
use mathlib.Core.List.{List, [], ◌∷◌}
use native.Mathlib.Omega.{arith}

module _ {ℓ} {A : Type ℓ} where
  -- The sum of `f` over a list.
  abbrev pub total_of : (A → ℕ) → List A → ℕ
  total_of f [] = 0
  total_of f (x ∷ xs) = f x + total_of f xs

  total_of-sort_insert :
      (f : A → ℕ) (le : A → A → Bool) (x : A) (xs : List A)
      → total_of f (sort_insert le x xs) ≡ f x + total_of f xs
  total_of-sort_insert f le x [] = refl
  total_of-sort_insert f le x (y ∷ ys) = ground (arith, total_of-sort_insert f le x ys)

  pub total_of-sort :
      (f : A → ℕ) (le : A → A → Bool) (xs : List A) → total_of f (sort le xs) ≡ total_of f xs
  unfolding sort
  total_of-sort f le [] = refl
  total_of-sort f le (x ∷ xs) =
      total_of-sort_insert f le x (sort le xs) ∙ ap (λ n. f x + n) (total_of-sort f le xs)

  abbrev pub IsSorted : (A → A → Bool) → List A → Type 0
  IsSorted le [] = Unit
  IsSorted le (x ∷ xs) = All (λ y. le x y ≡ true) xs × IsSorted le xs

module _ {ℓ} {A : Type ℓ} (le : A → A → Bool) (connex : (x y : A) → le x y ≡ false → le y x ≡ true)
    (trans : (x y z : A) → le x y ≡ true → le y z ≡ true → le x z ≡ true) where
  All-before :
      (x y : A) (ys : List A)
      → le x y ≡ true
      → All (λ z. le y z ≡ true) ys
      → All (λ z. le x z ≡ true) ys
  All-before x y [] h k = tt
  All-before x y (z ∷ zs) h k = (trans x y z h k.0, All-before x y zs h k.1)

  sort_insert-IsSorted : (x : A) (xs : List A) → IsSorted le xs → IsSorted le (sort_insert le x xs)
  sort_insert-IsSorted x [] s = (tt, tt)
  sort_insert-IsSorted x (y ∷ ys) s = elim (Bool-cases (le x y)) [
    | inl e ↦ rw e ((e, All-before x y ys e s.0), s)
    | inr e ↦ rw e (
      All-sort_insert (λ z. le y z ≡ true) le x ys (connex x y e) s.0,
      sort_insert-IsSorted x ys s.1,
    )
  ]

  pub sort-IsSorted : (xs : List A) → IsSorted le (sort le xs)
  unfolding sort
  sort-IsSorted [] = tt
  sort-IsSorted (x ∷ xs) = sort_insert-IsSorted x (sort le xs) (sort-IsSorted xs)
