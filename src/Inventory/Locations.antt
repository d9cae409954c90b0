-- ===== src/Inventory/Locations.antt =====
-- The default location of a store, and the process's cache of it: `getCached`, `setCached` and
-- `ensureDefaultLocation`, with `configureTx`.
use lotzi.Base.{
  ℕ, ◌+◌, true, false, ◌&&◌, Option, none, some, List, [], ◌∷◌, leb, ◌==◌, if◌then◌else◌,
  find_first,
}
use lotzi.Inventory.Types.{Location, CacheEntry, Db, Error}
use lotzi.Inventory.Tx.{Tx, ok, pure, throw, ◌>>=◌, ◌>>◌}

abbrev default_location_cache_ttl_ms : ℕ
default_location_cache_ttl_ms = 60000

unfoldable pub find_entry : ℕ → List CacheEntry → Option CacheEntry
find_entry k [] = none
find_entry k (e ∷ es) = if e.store_id == k then some e else find_entry k es

-- `Map.delete`.
unfoldable pub delete_entry : ℕ → List CacheEntry → List CacheEntry
delete_entry k [] = []
delete_entry k (e ∷ es) = let rest = delete_entry k es in if e.store_id == k then rest else e ∷ rest

unfoldable pub get_cached : ℕ → Tx (Option ℕ)
get_cached store_id env s = elim (find_entry store_id s.location_cache) [
  | none ↦ (ok none, s)
  | some entry ↦
      if leb entry.expires_at env.now
      then (ok none, record s { location_cache = delete_entry store_id s.location_cache })
      else (ok (some entry.location_id), s)
]

unfoldable pub set_cached : ℕ → ℕ → Tx (Unit {0})
set_cached store_id location_id env s = (
  ok tt,
  record s {
    location_cache =
        record {
          expires_at = env.now + default_location_cache_ttl_ms;
          store_id = store_id;
          location_id = location_id;
        }
        ∷ delete_entry store_id s.location_cache;
  },
)

-- `findFirst({ where: { storeId, isDefault: true } })`.
unfoldable pub default_location : ℕ → List Location → Option Location
default_location store_id = find_first (λ l. l.store_id == store_id && l.is_default)

-- `createMany` with `skipDuplicates`: a store has one default location.
unfoldable pub insert_default : ℕ → ℕ → Db → Db
unfolding default_location
insert_default id store_id db = elim (default_location store_id db.locations) [
  | none ↦ record db {
    locations = record { id = id; store_id = store_id; is_default = true } ∷ db.locations;
  }
  | some _ ↦ db
]

-- Creates the location where there is none, and reads it back.
unfoldable pub create_default_location : ℕ → Tx ℕ
unfolding insert_default
create_default_location store_id env s =
    let db = insert_default (env.uuid s.drawn) store_id s.db in
    let t = record s { db = db; drawn = s.drawn + 1 } in
    elim (default_location store_id db.locations) [
      | none ↦ throw Error.record_not_found env t
      | some l ↦ pure l.id env t
    ]

-- After a miss in the cache.
unfoldable pub load_default_location : ℕ → Tx ℕ
load_default_location store_id env s = elim (default_location store_id s.db.locations) [
  | some l ↦ (do set_cached store_id l.id; pure l.id) env s
  | none ↦ (do id ← create_default_location store_id; set_cached store_id id; pure id) env s
]

abbrev cached_or : ℕ → Option ℕ → Tx ℕ
cached_or store_id (some id) = pure id
cached_or store_id none = load_default_location store_id

unfoldable pub ensure_default_location : ℕ → Tx ℕ
ensure_default_location store_id = do cached ← get_cached store_id; cached_or store_id cached

unfoldable pub configure_tx : ℕ → Tx (Unit {0})
configure_tx store_id env s = (
  ok tt,
  record s { settings = record { current_store_id = some store_id; is_platform_admin = false } },
)

unfoldable pub configure_platform_tx : Tx (Unit {0})
configure_platform_tx env s =
    (ok tt, record s { settings = record { current_store_id = none; is_platform_admin = true } })
