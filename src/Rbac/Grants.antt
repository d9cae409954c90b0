-- ===== src/Rbac/Grants.antt =====
-- What an authorization grants, in terms of the rows alone: order and repetition do not matter.
use text.Mathlib.Text.{◌==◌ as str_eq}
use text.Mathlib.TextEquality.{eq_iff}
use lotzi.Base.{
  ◌≡◌, refl, ap, ◌∙◌, Bool, true, false, not, ◌&&◌, ◌||◌, Option, none, some, List, [], ◌∷◌, map,
  any, every, sort, sort_insert, if◌then◌else◌, String, arith,
}
use lotzi.Rbac.Engine.{
  PlatformRow, StoreRow, has, given_codes, distinct, sorted_codes, str_le, super_admin,
  platform_authorization, member_authorization, store_authorization, has_permissions,
}

any-sort_insert :
    {A : Type 0} (p : A → Bool) (le : A → A → Bool) (x : A) (xs : List A)
    → any p (sort_insert le x xs) ≡ (p x || any p xs)
any-sort_insert p le x [] = refl
any-sort_insert p le x (y ∷ ys) = ground (arith, any-sort_insert p le x ys)

any-sort :
    {A : Type 0} (p : A → Bool) (le : A → A → Bool) (xs : List A) → any p (sort le xs) ≡ any p xs
unfolding sort
any-sort p le [] = refl
any-sort p le (x ∷ xs) = any-sort_insert p le x (sort le xs) ∙ ap (λ b. p x || b) (any-sort p le xs)

has_same : (x y : String) (xs : List String) → str_eq y x ≡ true → has y xs ≡ has x xs
has_same x y xs h = ap (λ z. has z xs) ((eq_iff y x).0 h)

has-distinct : (x : String) (xs : List String) → has x (distinct xs) ≡ has x xs
unfolding distinct
has-distinct x [] = refl
has-distinct x (y ∷ ys) = ground (arith, has-distinct x ys, has_same x y (distinct ys))

has-sorted_codes : (x : String) (xs : List String) → has x (sorted_codes xs) ≡ has x xs
unfolding sorted_codes
has-sorted_codes x xs = any-sort (λ y. str_eq y x) str_le (distinct xs) ∙ has-distinct x xs

-- Whether what a row gives for a code is this one; an empty code names nothing.
abbrev pub names : String → Option String → Bool
names x none = false
names x (some y) = not (str_eq y "") && str_eq y x

has_cons :
    (x : String) (o : Option String) (os : List (Option String))
    → has x (given_codes (o ∷ os)) ≡ (names x o || has x (given_codes os))
unfolding given_codes
has_cons x none os = refl
has_cons x (some y) os = ground arith

has-given_codes :
    {R : Type 0} (code : R → Option String) (x : String) (rows : List R)
    → has x (given_codes (map code rows)) ≡ any (λ r. names x (code r)) rows
unfolding given_codes
has-given_codes code x [] = refl
has-given_codes code x (r ∷ rows) =
    has_cons x (code r) (map code rows)
    ∙ ap (λ b. names x (code r) || b) (has-given_codes code x rows)

every_same :
    {A : Type 0} (p q : A → Bool) (xs : List A) → ((x : A) → p x ≡ q x) → every p xs ≡ every q xs
every_same p q [] h = refl
every_same p q (x ∷ xs) h = ground (arith, h x, every_same p q xs h)

has-codes :
    {R : Type 0} (code : R → Option String) (x : String) (rows : List R)
    → has x (sorted_codes (given_codes (map code rows))) ≡ any (λ r. names x (code r)) rows
has-codes code x rows =
    has-sorted_codes x (given_codes (map code rows)) ∙ has-given_codes code x rows

any-map :
    {A B : Type 0} (p : B → Bool) (f : A → B) (xs : List A)
    → any p (map f xs) ≡ any (λ x. p (f x)) xs
any-map p f [] = refl
any-map p f (x ∷ xs) = ap (λ b. p (f x) || b) (any-map p f xs)

member-grants :
    (x : String) (rows : List StoreRow)
    → has x (member_authorization rows).permissions ≡ any (λ r. names x r.permission_code) rows
unfolding member_authorization
member-grants x [] = refl
member-grants x (first ∷ rows) = has-codes (λ r. r.permission_code) x (first ∷ rows)

platform-admin :
    (rows : List PlatformRow)
    → (platform_authorization rows).is_platform_admin
      ≡ any (λ r. str_eq r.role_code super_admin) rows
unfolding platform_authorization
platform-admin rows =
    has-sorted_codes super_admin (map (λ r. r.role_code) rows)
    ∙ any-map (λ c. str_eq c super_admin) (λ r. r.role_code) rows

-- Which permissions a store's authorization has, read off the rows.
abbrev pub granted : List PlatformRow → List String → List StoreRow → String → Bool
granted platform_rows store_permissions rows p =
    if any (λ r. str_eq r.role_code super_admin) platform_rows
    then has p store_permissions
    else any (λ r. names p r.permission_code) rows

store-grants :
    (platform_rows : List PlatformRow) (store_permissions : List String) (rows : List StoreRow)
    (p : String)
    → has p (store_authorization platform_rows store_permissions rows).permissions
      ≡ granted platform_rows store_permissions rows p
unfolding store_authorization
store-grants platform_rows store_permissions rows p = ground (
  arith,
  platform-admin platform_rows,
  member-grants p rows,
  any-sort (λ y. str_eq y p) str_le store_permissions,
)

-- A user has the permissions that are required in a store just when each of them is one of the store
-- permissions, for a platform super administrator, and else when some row of the user in the store
-- names it. Order and repetition of the rows do not matter, and roles alone grant nothing.
pub has_permissions-store_authorization :
    (platform_rows : List PlatformRow) (store_permissions : List String) (rows : List StoreRow)
    (required : List String)
    → has_permissions
        (store_authorization platform_rows store_permissions rows).permissions
        required
      ≡ every (granted platform_rows store_permissions rows) required
unfolding has_permissions
has_permissions-store_authorization platform_rows store_permissions rows required =
    every_same (λ p. has p (store_authorization platform_rows store_permissions rows).permissions)
      (granted platform_rows store_permissions rows) required
      (store-grants platform_rows store_permissions rows)

-- A user has the permissions that are required on the platform just when for each of them some row
-- of the user names it.
pub has_permissions-platform_authorization :
    (rows : List PlatformRow) (required : List String)
    → has_permissions (platform_authorization rows).permissions required
      ≡ every (λ p. any (λ r. names p r.permission_code) rows) required
unfolding has_permissions platform_authorization
has_permissions-platform_authorization rows required =
    every_same (λ p. has p (platform_authorization rows).permissions)
      (λ p. any (λ r. names p r.permission_code) rows) required
      (λ p. has-codes (λ r. r.permission_code) p rows)
