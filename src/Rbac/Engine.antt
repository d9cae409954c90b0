-- ===== src/Rbac/Engine.antt =====
-- RbacEngine: the authorization that the rows of a user make up, and `hasPermissions`. The two queries
-- are arguments; the caches in front of them are left out.
use Prim.Native.String.{compare as str_compare}
use text.Mathlib.Text.{is_le, ◌==◌ as str_eq}
use lotzi.Base.{
  Bool, true, false, Option, none, some, List, [], ◌∷◌, map, any, every, sort, if◌then◌else◌,
  String,
}

pub record PlatformRow : Type 0 where
  pub role_code : String
  pub permission_code : Option String

pub record StoreRow : Type 0 where
  pub role_code : Option String
  pub permission_code : Option String
  pub member_id : Option String
  pub store_status : String
  pub store_deleted_at : Option String

-- `AuthorizationContext`.
pub record Authorization : Type 0 where
  pub role_codes : List String
  pub permissions : List String
  pub is_platform_admin : Bool

-- `StoreAuthorizationContext`.
pub record StoreAuthorization : Type 0 where
  pub role_codes : List String
  pub permissions : List String
  pub is_platform_admin : Bool
  pub member_id : Option String
  pub store_deleted_at : Option String
  pub store_exists : Option Bool
  pub store_status : Option String

abbrev pub str_le : String → String → Bool
str_le a b = is_le (str_compare a b)

abbrev pub has : String → List String → Bool
has x = any (λ y. str_eq y x)

-- `filter(Boolean)`: a code that is missing or empty is left out.
unfoldable pub given_codes : List (Option String) → List String
given_codes [] = []
given_codes (none ∷ xs) = given_codes xs
given_codes (some x ∷ xs) = let rest = given_codes xs in if str_eq x "" then rest else x ∷ rest

-- `new Set`.
unfoldable pub distinct : List String → List String
distinct [] = []
distinct (x ∷ xs) = let rest = distinct xs in if has x rest then rest else x ∷ rest

-- `Array.from(new Set(…)).sort()`. The codes are ASCII, where the order of JavaScript is this one.
unfoldable pub sorted_codes : List String → List String
sorted_codes xs = sort str_le (distinct xs)

abbrev pub super_admin : String
super_admin = "PLATFORM_SUPER_ADMIN"

unfoldable pub platform_authorization : List PlatformRow → Authorization
platform_authorization rows = record {
  role_codes = sorted_codes (map (λ r. r.role_code) rows);
  permissions = sorted_codes (given_codes (map (λ r. r.permission_code) rows));
  is_platform_admin = any (λ c. str_eq c super_admin) (sorted_codes (map (λ r. r.role_code) rows));
}

-- Where the platform makes no administrator: by the rows of the store.
unfoldable pub member_authorization : List StoreRow → StoreAuthorization
member_authorization [] = record {
  role_codes = [];
  permissions = [];
  is_platform_admin = false;
  member_id = none;
  store_deleted_at = none;
  store_exists = some false;
  store_status = none;
}
member_authorization (first ∷ rows) = record {
  role_codes = sorted_codes (given_codes (map (λ r. r.role_code) (first ∷ rows)));
  permissions = sorted_codes (given_codes (map (λ r. r.permission_code) (first ∷ rows)));
  is_platform_admin = false;
  store_exists = some true;
  member_id = first.member_id;
  store_status = some first.store_status;
  store_deleted_at = first.store_deleted_at;
}

-- `store_permissions` are the codes that `listPermissions(RoleScope.STORE)` gives.
unfoldable pub store_authorization :
    List PlatformRow → List String → List StoreRow → StoreAuthorization
store_authorization platform_rows store_permissions rows =
    let platform = platform_authorization platform_rows in
    if platform.is_platform_admin
    then record {
      role_codes = platform.role_codes;
      permissions = sort str_le store_permissions;
      is_platform_admin = true;
      store_exists = none;
      member_id = none;
      store_status = none;
      store_deleted_at = none;
    }
    else member_authorization rows

unfoldable pub has_permissions : List String → List String → Bool
has_permissions actual required = every (λ p. has p actual) required
