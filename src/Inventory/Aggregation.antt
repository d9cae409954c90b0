-- ===== src/Inventory/Aggregation.antt =====
-- `aggregateItems`: one line for a variant, in the order of the variants, with the quantities added.
use lotzi.Base.{
  ℕ, ◌+◌, ◌<◌, ◌≡◌, ◌≢◌, refl, sym, ◌∙◌, ap, subst, inl, inr, List, [], ◌∷◌, Option, none, some,
  All, All-sort, if◌then◌else◌, arith, Bool-cases, Option-cases, sort, sort_insert, leb, ◌==◌,
}
use mathlib.Core.Option.{some-injective}
use lotzi.Base.Tables.{IsUnique}
use lotzi.Inventory.Types.{Line}
use lotzi.Inventory.Lines.{
  RawLine, positive, add_line, collect, line_le, sorted_lines, aggregate_items,
}
use lotzi.Inventory.Loops.{line_variant}

-- The variants rise from line to line.
abbrev pub Rises : List Line → Type 0
Rises [] = Unit
Rises (l ∷ ls) = All (λ k. l.product_variant_id < k.product_variant_id) ls × Rises ls

-- How much of a variant the lines ask for.
pub asked : ℕ → List Line → ℕ
asked v [] = 0
asked v (l ∷ ls) = (if l.product_variant_id == v then l.quantity else 0) + asked v ls

pub asked_raw : ℕ → List RawLine → ℕ
asked_raw v [] = 0
asked_raw v (x ∷ xs) =
    (if x.product_variant_id == v then elim (positive x.quantity) [ none ↦ 0 | some q ↦ q ] else 0)
    + asked_raw v xs

asked-add_line :
    (v k q : ℕ) (ls : List Line)
    → asked v (add_line k q ls) ≡ asked v ls + (if k == v then q else 0)
unfolding asked add_line
asked-add_line v k q [] = ground arith
asked-add_line v k q (l ∷ ls) = ground (arith, asked-add_line v k q ls)

asked-collect :
    (v : ℕ) (acc : List Line) (xs : List RawLine) {ls : List Line}
    → collect acc xs ≡ some ls
    → asked v ls ≡ asked v acc + asked_raw v xs
unfolding collect asked_raw
asked-collect v acc [] h = omega (arith, ap (asked v) (some-injective _ _ h))
asked-collect v acc (x ∷ xs) {ls} h = elim (Option-cases (positive x.quantity)) [
  | inl e ↦ cc (rw (e, collect) at h)
  | inr (q, e) ↦ rw e (
      omega (
        arith,
        asked-add_line v x.product_variant_id q acc,
        asked-collect v (add_line x.product_variant_id q acc) xs (rw (e, collect) at h),
      ))
]

asked-sort_insert :
    (v : ℕ) (l : Line) (ls : List Line) → asked v (sort_insert line_le l ls) ≡ asked v (l ∷ ls)
unfolding asked
asked-sort_insert v l [] = refl
asked-sort_insert v l (k ∷ ks) = ground (arith, asked-sort_insert v l ks)

asked-sort : (v : ℕ) (ls : List Line) → asked v (sort line_le ls) ≡ asked v ls
unfolding sort asked
asked-sort v [] = refl
asked-sort v (l ∷ ls) = omega (arith, asked-sort_insert v l (sort line_le ls), asked-sort v ls)

All-apart-add_line :
    (j k q : ℕ) (ls : List Line)
    → k ≢ j
    → All (λ l. line_variant l ≢ j) ls
    → All (λ l. line_variant l ≢ j) (add_line k q ls)
unfolding add_line
All-apart-add_line j k q [] ne h = (ne, tt)
All-apart-add_line j k q (l ∷ ls) ne h = ground (arith, All-apart-add_line j k q ls ne h.1)

add_line-IsUnique :
    (k q : ℕ) (ls : List Line) → IsUnique line_variant ls → IsUnique line_variant (add_line k q ls)
unfolding add_line
add_line-IsUnique k q [] u = (tt, tt)
add_line-IsUnique k q (l ∷ ls) u = elim (Bool-cases (l.product_variant_id == k)) [
  | inl e ↦ rw e u
  | inr e ↦ rw e (
    All-apart-add_line l.product_variant_id k q ls (ground arith) u.0,
    add_line-IsUnique k q ls u.1,
  )
]

collect-IsUnique :
    (acc : List Line) (xs : List RawLine) {ls : List Line}
    → IsUnique line_variant acc
    → collect acc xs ≡ some ls
    → IsUnique line_variant ls
unfolding collect
collect-IsUnique acc [] u h = subst (IsUnique line_variant) (some-injective _ _ h) u
collect-IsUnique acc (x ∷ xs) u h = elim (Option-cases (positive x.quantity)) [
  | inl e ↦ cc (rw (e, collect) at h)
  | inr (q, e) ↦
      collect-IsUnique (add_line x.product_variant_id q acc) xs
        (add_line-IsUnique x.product_variant_id q acc u) (rw (e, collect) at h)
]

All-above-sort_insert :
    (j : ℕ) (l : Line) (ls : List Line)
    → j < l.product_variant_id
    → All (λ k. j < k.product_variant_id) ls
    → All (λ k. j < k.product_variant_id) (sort_insert line_le l ls)
All-above-sort_insert j l [] h hs = (h, tt)
All-above-sort_insert j l (k ∷ ks) h hs = ground (arith, All-above-sort_insert j l ks h hs.1)

All-above_trans :
    (i j : ℕ) (ls : List Line)
    → i < j
    → All (λ k. j < k.product_variant_id) ls
    → All (λ k. i < k.product_variant_id) ls
All-above_trans i j [] h hs = tt
All-above_trans i j (l ∷ ls) h hs = (omega arith, All-above_trans i j ls h hs.1)

sort_insert-Rises :
    (l : Line) (ls : List Line)
    → All (λ k. line_variant k ≢ l.product_variant_id) ls
    → Rises ls
    → Rises (sort_insert line_le l ls)
sort_insert-Rises l [] apart r = (tt, tt)
sort_insert-Rises l (k ∷ ks) apart r =
    elim (Bool-cases (leb l.product_variant_id k.product_variant_id)) [
      | inl e ↦
          let below : l.product_variant_id < k.product_variant_id = ground arith in
          rw e ((below, All-above_trans l.product_variant_id k.product_variant_id ks below r.0), r)
      | inr e ↦ rw e (
        All-above-sort_insert k.product_variant_id l ks (ground arith) r.0,
        sort_insert-Rises l ks apart.1 r.1,
      )
    ]

above_apart :
    (j : ℕ) (ls : List Line)
    → All (λ k. j < k.product_variant_id) ls
    → All (λ k. line_variant k ≢ j) ls
above_apart j [] h = tt
above_apart j (l ∷ ls) h = (omega arith, above_apart j ls h.1)

asked_nil : (v n : ℕ) → asked v [] + n ≡ n
unfolding asked
asked_nil v n = omega arith

All-apart-sort :
    (j : ℕ) (ls : List Line)
    → All (λ l. line_variant l ≢ j) ls
    → All (λ l. line_variant l ≢ j) (sort line_le ls)
All-apart-sort j ls h = All-sort (λ l. line_variant l ≢ j) line_le ls h

sort-Rises : (ls : List Line) → IsUnique line_variant ls → Rises (sort line_le ls)
unfolding sort
sort-Rises [] u = tt
sort-Rises (l ∷ ls) u =
    sort_insert-Rises l (sort line_le ls) (All-apart-sort l.product_variant_id ls u.0)
      (sort-Rises ls u.1)

Rises-IsUnique : (ls : List Line) → Rises ls → IsUnique line_variant ls
Rises-IsUnique [] r = tt
Rises-IsUnique (l ∷ ls) r = (above_apart l.product_variant_id ls r.0, Rises-IsUnique ls r.1)

sorted_lines-eq-some :
    (o : Option (List Line)) {ls : List Line}
    → sorted_lines o ≡ some ls
    → (acc : List Line) × (o ≡ some acc) × (sort line_le acc ≡ ls)
sorted_lines-eq-some none h = cc
sorted_lines-eq-some (some acc) h = (acc, refl, some-injective _ _ h)

-- If no quantity is refused, the lines have rising variants, and ask for as much of each variant as
-- all given lines of that variant together.
pub aggregate_items_lem :
    (xs : List RawLine) {ls : List Line}
    → aggregate_items xs ≡ some ls
    → Rises ls × ((v : ℕ) → asked v ls ≡ asked_raw v xs)
unfolding aggregate_items
aggregate_items_lem xs h =
    let (acc, collected, sorted) = sorted_lines-eq-some (collect [] xs) h in
    (
      subst Rises sorted (sort-Rises acc (collect-IsUnique [] xs tt collected)),
      λ v.
          sym (ap (asked v) sorted)
          ∙ asked-sort v acc
          ∙ asked-collect v [] xs collected
          ∙ asked_nil v (asked_raw v xs),
    )

pub aggregate_items-IsUnique :
    (xs : List RawLine) {ls : List Line} → aggregate_items xs ≡ some ls → IsUnique line_variant ls
aggregate_items-IsUnique xs {ls} h = Rises-IsUnique ls (aggregate_items_lem xs h).0
