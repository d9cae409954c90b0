-- ===== src/Rbac/Examples.antt =====
-- A manager of a store.
use lotzi.Base.{◌≡◌, List, [], ◌∷◌, none, some, String, any, every}
use lotzi.Rbac.Engine.{
  PlatformRow, StoreRow, store_authorization, platform_authorization, has_permissions,
}
use lotzi.Rbac.Grants.{
  names, granted, has_permissions-store_authorization, has_permissions-platform_authorization,
}

abbrev customer_rows : List PlatformRow
customer_rows =
    record { role_code = "CUSTOMER"; permission_code = some "cart:write" }
    ∷ record { role_code = "CUSTOMER"; permission_code = none }
    ∷ []

abbrev manager_row : String → StoreRow
manager_row permission = record {
  role_code = some "STORE_MANAGER";
  permission_code = some permission;
  member_id = some "member";
  store_status = "APPROVED";
  store_deleted_at = none;
}

abbrev manager_rows : List StoreRow
manager_rows =
    manager_row "store:read" ∷ manager_row "product:manage" ∷ manager_row "store:read" ∷ []

abbrev wanted : List String
wanted = "store:read" ∷ "store:manage" ∷ []

store_authorization_example :
    has_permissions (store_authorization customer_rows wanted manager_rows).permissions wanted
    ≡ every (granted customer_rows wanted manager_rows) wanted
store_authorization_example =
    has_permissions-store_authorization customer_rows wanted manager_rows wanted

platform_authorization_example :
    has_permissions (platform_authorization customer_rows).permissions wanted
    ≡ every (λ p. any (λ r. names p r.permission_code) customer_rows) wanted
platform_authorization_example = has_permissions-platform_authorization customer_rows wanted
