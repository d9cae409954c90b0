-- ===== src/Base/Tables.antt =====
-- A table of the database: its rows, read and written by a numeric column such as the primary key.
use Prim.Native.Nat.{ℕ}
use mathlib.Core.Path.{◌≡◌, refl, sym}
use mathlib.Core.Logic.{◌≢◌, inl, inr}
use mathlib.Core.Bool.{Bool}
use mathlib.Core.List.{List, [], ◌∷◌}
use mathlib.Core.Option.{Option, none, some}
use native.Mathlib.Omega.{arith}
use lotzi.Base.Tests.{◌==◌, if◌then◌else◌, Bool-cases}
use lotzi.Base.Lists.{All, All-select, All-sort, All-sort_insert, select, sort, sort_insert}

module _ {A : Type 0} (key : A → ℕ) where
  -- `findUnique({ where: { key: k } })`.
  unfoldable pub find_by : ℕ → List A → Option A
  find_by k [] = none
  find_by k (x ∷ xs) = if key x == k then some x else find_by k xs

  -- `UPDATE … WHERE key = k`.
  unfoldable pub update_by : ℕ → (A → A) → List A → List A
  update_by k f [] = []
  update_by k f (x ∷ xs) = (if key x == k then f x else x) ∷ update_by k f xs

  -- No two rows have the same key.
  abbrev pub IsUnique : List A → Type 0
  IsUnique [] = Unit
  IsUnique (x ∷ xs) = All (λ y. key y ≢ key x) xs × IsUnique xs

  pub find_by-update_by_self :
      (k : ℕ) (f : A → A) (xs : List A) {x : A}
      → key (f x) ≡ k
      → find_by k xs ≡ some x
      → find_by k (update_by k f xs) ≡ some (f x)
  unfolding find_by update_by
  find_by-update_by_self k f [] hk h = cc
  find_by-update_by_self k f (y ∷ ys) hk h = ground (arith, find_by-update_by_self k f ys hk)

  pub find_by-update_by_ne :
      (k j : ℕ) (f : A → A) (xs : List A)
      → ((x : A) → key (f x) ≡ key x)
      → j ≢ k
      → find_by j (update_by k f xs) ≡ find_by j xs
  unfolding find_by update_by
  find_by-update_by_ne k j f [] hk h = refl
  find_by-update_by_ne k j f (y ∷ ys) hk h = ground (arith, hk y, find_by-update_by_ne k j f ys hk)

  pub find_by-key : (k : ℕ) (xs : List A) {x : A} → find_by k xs ≡ some x → key x ≡ k
  unfolding find_by
  find_by-key k [] h = cc
  find_by-key k (y ∷ ys) {x} h = ground (arith, find_by-key k ys {x = x})

  pub update_by-none :
      (k : ℕ) (f : A → A) (xs : List A) → find_by k xs ≡ none → update_by k f xs ≡ xs
  unfolding find_by update_by
  update_by-none k f [] h = refl
  update_by-none k f (y ∷ ys) h = ground (arith, update_by-none k f ys)

  pub update_by-absent :
      (k : ℕ) (f : A → A) (xs : List A) → All (λ y. key y ≢ k) xs → update_by k f xs ≡ xs
  unfolding update_by
  update_by-absent k f [] h = refl
  update_by-absent k f (y ∷ ys) h = ground (arith, update_by-absent k f ys h.1)

  same_key_updated :
      (k : ℕ) (f : A → A) (y : A)
      → ((z : A) → key (f z) ≡ key z)
      → key (if key y == k then f y else y) ≡ key y
  same_key_updated k f y e = elim (Bool-cases (key y == k)) [ inl h ↦ rw h (e y) | inr h ↦ rw h ]

  All-update_by :
      (k j : ℕ) (f : A → A) (xs : List A)
      → ((y : A) → key (f y) ≡ key y)
      → All (λ y. key y ≢ j) xs
      → All (λ y. key y ≢ j) (update_by k f xs)
  unfolding update_by
  All-update_by k j f [] e h = tt
  All-update_by k j f (y ∷ ys) e h =
      (rw (same_key_updated k f y e) h.0, All-update_by k j f ys e h.1)

  pub update_by-IsUnique :
      (k : ℕ) (f : A → A) (xs : List A)
      → ((y : A) → key (f y) ≡ key y)
      → IsUnique xs
      → IsUnique (update_by k f xs)
  unfolding update_by
  update_by-IsUnique k f [] e h = tt
  update_by-IsUnique k f (y ∷ ys) e h = (
    rw (same_key_updated k f y e) (All-update_by k (key y) f ys e h.0),
    update_by-IsUnique k f ys e h.1,
  )

  find_by_later :
      (x : A) (xs ys : List A)
      → All (λ y. key y ≢ key x) ys
      → All (λ y. find_by (key y) xs ≡ some y) ys
      → All (λ y. find_by (key y) (x ∷ xs) ≡ some y) ys
  unfolding find_by
  find_by_later x xs [] a h = tt
  find_by_later x xs (y ∷ ys) a h = ground (arith, find_by_later x xs ys a.1 h.1)

  -- In a table with unique keys every row is found by its own.
  pub find_by-own : (xs : List A) → IsUnique xs → All (λ y. find_by (key y) xs ≡ some y) xs
  unfolding find_by
  find_by-own [] u = tt
  find_by-own (x ∷ xs) u = (ground arith, find_by_later x xs xs u.0 (find_by-own xs u.1))

  pub select-IsUnique : (p : A → Bool) (xs : List A) → IsUnique xs → IsUnique (select p xs)
  select-IsUnique p [] u = tt
  select-IsUnique p (x ∷ xs) u = elim (Bool-cases (p x)) [
    | inl e ↦ rw e (All-select (λ y. key y ≢ key x) p xs u.0, select-IsUnique p xs u.1)
    | inr e ↦ rw e (select-IsUnique p xs u.1)
  ]

  sort_insert-IsUnique :
      (le : A → A → Bool) (x : A) (xs : List A)
      → All (λ y. key y ≢ key x) xs
      → IsUnique xs
      → IsUnique (sort_insert le x xs)
  sort_insert-IsUnique le x [] a u = (tt, tt)
  sort_insert-IsUnique le x (y ∷ ys) a u = elim (Bool-cases (le x y)) [
    | inl e ↦ rw e (a, u)
    | inr e ↦ rw e (
      All-sort_insert (λ z. key z ≢ key y) le x ys (λ p. a.0 (sym p)) u.0,
      sort_insert-IsUnique le x ys a.1 u.1,
    )
  ]

  pub sort-IsUnique : (le : A → A → Bool) (xs : List A) → IsUnique xs → IsUnique (sort le xs)
  unfolding sort
  sort-IsUnique le [] u = tt
  sort-IsUnique le (x ∷ xs) u =
      sort_insert-IsUnique le x (sort le xs) (All-sort (λ y. key y ≢ key x) le xs u.0)
        (sort-IsUnique le xs u.1)
