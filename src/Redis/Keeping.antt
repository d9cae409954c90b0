-- ===== src/Redis/Keeping.antt =====
-- What the process's own cache keeps under further commands of RedisService.
use lotzi.Base.{
  ℕ, suc, ◌+◌, ◌*◌, ◌≤◌, ◌<◌, ◌≡◌, ◌≢◌, refl, sym, subst, Bool, true, false, not, Option, none,
  some, List, [], ◌∷◌, leb, ◌==◌, length, String, All, arith,
}
use lotzi.Redis.Local.{
  LocalCacheEntry, LocalCache, local_cache_max_keys, delete, lookup, get_local, set_local,
  set_local_nx,
}
use lotzi.Redis.Service.{
  State, ask, get, get_after, get_strict, set_ex, set_ex_strict, incr, set_nx_after, set_nx_ex, del,
  with_local,
}
use lotzi.Redis.Bounds.{length-select, length-map_set, lookup-map_set}
use lotzi.Redis.Calls.{
  Call, call_get, call_get_strict, call_set_ex, call_set_ex_strict, call_incr, call_set_nx_ex,
  call_del, call_del_by_prefix, del_by_prefix-local_cache, after, after_all, ask-none,
  ask-local_cache,
}
use lotzi.Redis.Entries.{
  Keeps, lookup-delete_by_prefix, delete-Keeps, get_local-Keeps, set_local-Keeps,
  set_unless_read-Keeps,
}

-- The command neither writes nor deletes the key.
abbrev pub Leaves : ℕ → Call → Type 0
Leaves k (call_get j reply) = Unit
Leaves k (call_get_strict reply) = Unit
Leaves k (call_set_ex j seconds value reply) = j ≢ k
Leaves k (call_set_ex_strict reply) = Unit
Leaves k (call_incr j reply) = j ≢ k
Leaves k (call_set_nx_ex j seconds value reply) = j ≢ k
Leaves k (call_del j reply) = j ≢ k
Leaves k (call_del_by_prefix starts pages) = starts k ≡ false

module _ (e : LocalCacheEntry) (n now : ℕ) where
  fewer : (cache : LocalCache) → Keeps e (suc n) cache → Keeps e n cache
  fewer cache (at, room) = (at, omega arith)

  ask-Keeps :
      {A : Type 0} (m : ℕ) (configured : Bool) (reply : Option A) (s : State)
      → Keeps e m s.local_cache
      → Keeps e m (ask now configured reply s).1.local_cache
  ask-Keeps m configured reply s h =
      subst (Keeps e m) (sym (ask-local_cache now configured reply s)) h

  get_after-Keeps :
      (j : ℕ) (p : Option (Option String) × State)
      → now < e.expires_at
      → Keeps e n p.1.local_cache
      → Keeps e n (get_after now j p).1.local_cache
  get_after-Keeps j (some v, s) alive h = h
  get_after-Keeps j (none, s) alive h = get_local-Keeps e n now j s.local_cache alive h

  set_nx_after-Keeps :
      (j seconds : ℕ) (value : String) (local_only : Bool) (p : Option Bool × State)
      → now < e.expires_at
      → j ≢ e.key
      → Keeps e (suc n) p.1.local_cache
      → Keeps e n (set_nx_after now j seconds value local_only p).1.local_cache
  unfolding set_local_nx
  set_nx_after-Keeps j seconds value local_only (some b, s) alive ne h = fewer s.local_cache h
  set_nx_after-Keeps j seconds value true (none, s) alive ne h =
      set_unless_read-Keeps e n now j seconds value (get_local now j s.local_cache) ne
        (get_local-Keeps e (suc n) now j s.local_cache alive h)
  set_nx_after-Keeps j seconds value false (none, s) alive ne h = fewer s.local_cache h

  after-Keeps :
      (configured local_only : Bool) (c : Call) (s : State)
      → now < e.expires_at
      → Leaves e.key c
      → Keeps e (suc n) s.local_cache
      → Keeps e n (after configured local_only now c s).local_cache
  unfolding after get get_strict set_ex set_ex_strict incr set_nx_ex del
  after-Keeps configured local_only (call_get j reply) s alive l h =
      get_after-Keeps j (ask now configured reply s) alive
        (ask-Keeps n configured reply s (fewer s.local_cache h))
  after-Keeps configured local_only (call_get_strict reply) s alive l h =
      ask-Keeps n configured reply s (fewer s.local_cache h)
  after-Keeps configured local_only (call_set_ex j seconds value reply) s alive l h =
      ask-Keeps n configured reply (with_local (set_local now j seconds value s.local_cache) s)
        (set_local-Keeps e n now j seconds value s.local_cache l h)
  after-Keeps configured local_only (call_set_ex_strict reply) s alive l h =
      ask-Keeps n configured reply s (fewer s.local_cache h)
  after-Keeps configured local_only (call_incr j reply) s alive l h =
      ask-Keeps n configured reply (with_local (delete j s.local_cache) s)
        (delete-Keeps e n now j s.local_cache l (fewer s.local_cache h))
  after-Keeps configured local_only (call_set_nx_ex j seconds value reply) s alive l h =
      set_nx_after-Keeps j seconds value local_only (ask now configured reply s) alive l
        (ask-Keeps (suc n) configured reply s h)
  after-Keeps configured local_only (call_del j reply) s alive l h =
      ask-Keeps n configured reply (with_local (delete j s.local_cache) s)
        (delete-Keeps e n now j s.local_cache l (fewer s.local_cache h))
  after-Keeps configured local_only (call_del_by_prefix starts pages) s alive l h =
      subst (Keeps e n) (sym (del_by_prefix-local_cache now starts configured pages s)) (
        lookup-delete_by_prefix e starts s.local_cache l h.0,
        omega (arith, length-select (λ x. not (starts x.key)) s.local_cache),
      )

after_all-Keeps :
    (e : LocalCacheEntry) (configured local_only : Bool) (calls : List (ℕ × Call)) (s : State)
    → All (λ c. (c.0 < e.expires_at) × Leaves e.key c.1) calls
    → Keeps e (length calls) s.local_cache
    → Keeps e 0 (after_all configured local_only calls s).local_cache
unfolding after_all
after_all-Keeps e configured local_only [] s a h = h
after_all-Keeps e configured local_only ((now, c) ∷ calls) s a h =
    after_all-Keeps e configured local_only calls (after configured local_only now c s) a.1
      (after-Keeps e (length calls) now configured local_only c s a.0.0 a.0.1 (h.0, omega arith))

abbrev entry : ℕ → ℕ → ℕ → String → LocalCacheEntry
entry now k seconds value = record { key = k; value = value; expires_at = now + seconds * 1000 }

set_ex-Keeps :
    (now k seconds n : ℕ) (value : String) (configured : Bool) (reply : Option (Unit {0}))
    (s : State)
    → (seconds == 0) ≡ false
    → length s.local_cache + n < local_cache_max_keys
    → Keeps
        (entry now k seconds value)
        n
        (set_ex now k seconds value configured reply s).local_cache
unfolding set_ex set_local
set_ex-Keeps now k seconds n value configured reply s life room =
    let free : leb local_cache_max_keys (length s.local_cache) ≡ false = ground arith in
    let e = entry now k seconds value in
    ask-Keeps e n now n configured reply
      (with_local (set_local now k seconds value s.local_cache) s)
      (rw (life, free)
        (lookup-map_set e s.local_cache, omega (arith, length-map_set e s.local_cache)))

get-alive :
    (e : LocalCacheEntry) (now : ℕ) (configured : Bool) (s : State)
    → now < e.expires_at
    → lookup e.key s.local_cache ≡ some e
    → (get now e.key configured none s).0 ≡ some e.value
unfolding get get_local
get-alive e now configured s alive at =
    let (t, asked, same) = ask-none {A = Option String} now configured s in
    let kept : leb e.expires_at now ≡ false = ground arith in rw (asked, same, at, kept) refl

-- A value is set, whether Redis takes it or not. Further commands follow, with any answers of Redis,
-- that neither write nor delete the key, before the end of the life of the value; they and the entries
-- held before the value was set are fewer than 2000 together, so nothing is pruned. Then the value is
-- read back while Redis is away, up to the end of its life.
pub set_ex-get :
    (now later k seconds : ℕ) (value : String) (configured local_only : Bool)
    (reply : Option (Unit {0})) (calls : List (ℕ × Call)) (s : State)
    → now ≤ later
    → later < now + seconds * 1000
    → All (λ c. (c.0 < now + seconds * 1000) × Leaves k c.1) calls
    → length s.local_cache + length calls < local_cache_max_keys
    → (get later k configured none
        (after_all configured local_only calls (set_ex now k seconds value configured reply s))).0
      ≡ some value
set_ex-get now later k seconds value configured local_only reply calls s b h a room =
    let life : (seconds == 0) ≡ false = ground arith in
    let (at, fits) =
      after_all-Keeps (entry now k seconds value) configured local_only calls
        (set_ex now k seconds value configured reply s) a
        (set_ex-Keeps now k seconds (length calls) value configured reply s life room) in
    get-alive (entry now k seconds value) later configured _ h at
