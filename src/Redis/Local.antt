-- ===== src/Redis/Local.antt =====
-- `localCache` of RedisService, a map in the order of insertion. Keys are numbers, instants are in
-- milliseconds.
use lotzi.Base.{
  ℕ, ◌+◌, ◌-◌, ◌*◌, Bool, true, false, not, ◌||◌, Option, none, some, List, [], ◌∷◌, ltb, leb, ◌==◌,
  if◌then◌else◌, select, length, String,
}
use lotzi.Base.Tables.{find_by}

pub record LocalCacheEntry : Type 0 where
  pub key : ℕ
  pub value : String
  pub expires_at : ℕ

abbrev pub local_cache_max_keys : ℕ
local_cache_max_keys = 2000

abbrev pub LocalCache : Type 0
LocalCache = List LocalCacheEntry

-- `localCache.delete`.
abbrev pub delete : ℕ → LocalCache → LocalCache
delete k = select (λ e. not (e.key == k))

-- The loop of `delByPrefix` over the keys.
abbrev pub delete_by_prefix : (ℕ → Bool) → LocalCache → LocalCache
delete_by_prefix starts = select (λ e. not (starts e.key))

-- `localCache.set`: an entry keeps its place, and a new one is the last.
unfoldable pub map_set : LocalCacheEntry → LocalCache → LocalCache
map_set e [] = e ∷ []
map_set e (x ∷ xs) = if x.key == e.key then e ∷ xs else x ∷ map_set e xs

abbrev pub lookup : ℕ → LocalCache → Option LocalCacheEntry
lookup = find_by (λ e. e.key)

-- `getLocal`, for what `localCache.get` finds.
abbrev read_entry : ℕ → ℕ → LocalCache → Option LocalCacheEntry → Option String × LocalCache
read_entry now k cache none = (none, cache)
read_entry now k cache (some e) =
    if leb e.expires_at now then (none, delete k cache) else (some e.value, cache)

unfoldable pub get_local : ℕ → ℕ → LocalCache → Option String × LocalCache
get_local now k cache = read_entry now k cache (lookup k cache)

-- The loop of `pruneLocalCache`; `size` is that of the whole map.
unfoldable pub prune_from : ℕ → ℕ → LocalCache → LocalCache
prune_from now size [] = []
prune_from now size (e ∷ es) =
    let dropped = leb e.expires_at now || leb local_cache_max_keys size in
    let size' = if dropped then size - 1 else size in
    let rest = if ltb size' local_cache_max_keys then es else prune_from now size' es in
    if dropped then rest else e ∷ rest

unfoldable pub prune_local_cache : ℕ → LocalCache → LocalCache
unfolding prune_from
prune_local_cache now cache = prune_from now (length cache) cache

unfoldable pub set_local : ℕ → ℕ → ℕ → String → LocalCache → LocalCache
unfolding prune_local_cache map_set
set_local now k seconds value cache =
    if seconds == 0
    then delete k cache
    else let room =
        if leb local_cache_max_keys (length cache) then prune_local_cache now cache else cache in
      map_set (record { key = k; value = value; expires_at = now + seconds * 1000 }) room

abbrev pub set_unless_read : ℕ → ℕ → ℕ → String → Option String × LocalCache → Bool × LocalCache
set_unless_read now k seconds value (some v, cache) = (false, cache)
set_unless_read now k seconds value (none, cache) = (true, set_local now k seconds value cache)

-- `setLocalNx`.
unfoldable pub set_local_nx : ℕ → ℕ → ℕ → String → LocalCache → Bool × LocalCache
unfolding get_local set_local
set_local_nx now k seconds value cache = set_unless_read now k seconds value (get_local now k cache)
