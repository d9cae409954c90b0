-- ===== src/Redis/Service.antt =====
-- The commands of RedisService. For each, `configured` tells whether there is a client, and `reply` is
-- what the client returns, none where it throws.
use lotzi.Base.{
  ℕ, ◌+◌, ◌-◌, ◌==◌, List, [], ◌∷◌, length, Bool, true, false, not, ◌||◌, Option, none, some, ltb,
  if◌then◌else◌, String,
}
use lotzi.Redis.Local.{LocalCache, delete, delete_by_prefix, get_local, set_local, set_local_nx}

pub record State : Type 0 where
  pub local_cache : LocalCache
  pub circuit_open_until : ℕ

abbrev pub redis_circuit_open_ms : ℕ
redis_circuit_open_ms = 30000

module _ {A : Type 0} where
  abbrev pub answered : ℕ → State → Option A → Option A × State
  answered now s (some a) = (some a, s)
  answered now s none = (none, record s { circuit_open_until = now + redis_circuit_open_ms })

  -- The client is asked unless there is none or the circuit is open; a throw opens the circuit.
  unfoldable pub ask : ℕ → Bool → Option A → State → Option A × State
  ask now configured reply s =
      if not configured || ltb now s.circuit_open_until then (none, s) else answered now s reply

abbrev pub get_after : ℕ → ℕ → Option (Option String) × State → Option String × State
get_after now k (some value, s) = (value, s)
get_after now k (none, s) =
    let (value, cache) = get_local now k s.local_cache in (value, record s { local_cache = cache })

-- `get`: where Redis does not answer, the process's own cache does.
unfoldable pub get : ℕ → ℕ → Bool → Option (Option String) → State → Option String × State
unfolding ask
get now k configured reply s = get_after now k (ask now configured reply s)

abbrev value_or_none : Option (Option String) → Option String
value_or_none none = none
value_or_none (some value) = value

-- `getStrict`: where Redis does not answer, there is no value.
unfoldable pub get_strict : ℕ → Bool → Option (Option String) → State → Option String × State
unfolding ask
get_strict now configured reply s =
    let (r, s') = ask now configured reply s in (value_or_none r, s')

abbrev pub with_local : LocalCache → State → State
with_local cache s = record s { local_cache = cache }

-- `setEx`.
unfoldable pub set_ex : ℕ → ℕ → ℕ → String → Bool → Option (Unit {0}) → State → State
unfolding ask set_local
set_ex now k seconds value configured reply s =
    (ask now configured reply (with_local (set_local now k seconds value s.local_cache) s)).1

-- `setExStrict`, which does not write the process's own cache.
unfoldable pub set_ex_strict : ℕ → Bool → Option (Unit {0}) → State → Bool × State
unfolding ask
set_ex_strict now configured reply s =
    let (r, s') = ask now configured reply s in (is_answered r, s')
  where
    is_answered : Option (Unit {0}) → Bool
    is_answered none = false
    is_answered (some u) = true

-- `incr`.
unfoldable pub incr : ℕ → ℕ → Bool → Option ℕ → State → Option ℕ × State
unfolding ask
incr now k configured reply s = ask now configured reply (with_local (delete k s.local_cache) s)

-- `local_only` tells whether the process's own cache may stand in, out of production.
abbrev pub set_nx_after : ℕ → ℕ → ℕ → String → Bool → Option Bool × State → Option Bool × State
set_nx_after now k seconds value local_only (some b, s) = (some b, s)
set_nx_after now k seconds value local_only (none, s) =
    if local_only
    then (let (b, cache) = set_local_nx now k seconds value s.local_cache in
        (some b, with_local cache s))
    else (none, s)

-- `setNxEx`.
unfoldable pub set_nx_ex :
    ℕ → ℕ → ℕ → String → Bool → Bool → Option Bool → State → Option Bool × State
unfolding ask set_local_nx
set_nx_ex now k seconds value local_only configured reply s =
    set_nx_after now k seconds value local_only (ask now configured reply s)

-- `del`.
unfoldable pub del : ℕ → ℕ → Bool → Option (Unit {0}) → State → State
unfolding ask
del now k configured reply s = (ask now configured reply (with_local (delete k s.local_cache) s)).1

-- The `do` loop of `delByPrefix`: for each scan the next cursor and how many keys are deleted. It has
-- ended where the cursor is "0"; where no scan is left before that, the client throws.
unfoldable pub scan_pages : ℕ → List (ℕ × ℕ) → Bool × ℕ
scan_pages deleted [] = (false, deleted)
scan_pages deleted ((cursor, n) ∷ pages) =
    let rest = scan_pages (deleted + n) pages in if cursor == 0 then (true, deleted + n) else rest

abbrev pub after_scan : ℕ → Bool × ℕ → State → ℕ × State
after_scan now (true, deleted) s = (deleted, s)
after_scan now (false, deleted) s =
    (deleted, record s { circuit_open_until = now + redis_circuit_open_ms })

-- `delByPrefix`; `starts` tells which keys have the prefix.
unfoldable pub del_by_prefix : ℕ → (ℕ → Bool) → Bool → List (ℕ × ℕ) → State → ℕ × State
unfolding scan_pages
del_by_prefix now starts configured pages s =
    let cache = delete_by_prefix starts s.local_cache in
    let deleted = length s.local_cache - length cache in
    if not configured || ltb now s.circuit_open_until
    then (deleted, with_local cache s)
    else after_scan now (scan_pages deleted pages) (with_local cache s)
