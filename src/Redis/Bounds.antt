-- ===== src/Redis/Bounds.antt =====
-- The process's own cache stays within its bound, and gives back what was put into it.
use lotzi.Base.{
  ℕ, ◌+◌, ◌-◌, ◌*◌, ◌≤◌, ◌<◌, ◌≡◌, inl, inr, Bool, true, not, Option, none, some, List, [], ◌∷◌,
  ltb, leb, ◌==◌, select, length, String, arith, Bool-cases, Option-cases,
}
use lotzi.Base.Tables.{find_by}
use lotzi.Redis.Local.{
  LocalCacheEntry, LocalCache, local_cache_max_keys, map_set, lookup, get_local, prune_from,
  prune_local_cache, set_local, set_local_nx, set_unless_read,
}

pub length-select : {A : Type 0} (p : A → Bool) (xs : List A) → length (select p xs) ≤ length xs
length-select p [] = omega arith
length-select p (x ∷ xs) = ground (arith, length-select p xs)

pub length-map_set : (e : LocalCacheEntry) (xs : LocalCache) → length (map_set e xs) ≤ length xs + 1
unfolding map_set
length-map_set e [] = omega arith
length-map_set e (x ∷ xs) = ground (arith, length-map_set e xs)

-- One turn of the loop is enough.
length-prune :
    (now : ℕ) (cache : LocalCache)
    → length cache ≤ local_cache_max_keys
    → length (prune_local_cache now cache) < local_cache_max_keys
unfolding prune_local_cache prune_from
length-prune now [] h = omega arith
length-prune now (x ∷ xs) h = elim (Bool-cases (leb local_cache_max_keys (length (x ∷ xs)))) [
  | inl full ↦
      let after : ltb (length (x ∷ xs) - 1) local_cache_max_keys ≡ true = ground arith in
      elim (Bool-cases (leb x.expires_at now)) [
        | inl e ↦ rw (e, after) (ground arith)
        | inr e ↦ rw (e, full, after) (ground arith)
      ]
  | inr room ↦
      let after : ltb (length (x ∷ xs) - 1) local_cache_max_keys ≡ true = ground arith in
      let before : ltb (length (x ∷ xs)) local_cache_max_keys ≡ true = ground arith in
      elim (Bool-cases (leb x.expires_at now)) [
        | inl e ↦ rw (e, after) (ground arith)
        | inr e ↦ rw (e, room, before) (ground arith)
      ]
]

-- Writing an entry leaves the cache within its bound.
pub length-set_local :
    (now k seconds : ℕ) (value : String) (cache : LocalCache)
    → length cache ≤ local_cache_max_keys
    → length (set_local now k seconds value cache) ≤ local_cache_max_keys
unfolding set_local
length-set_local now k seconds value cache h = elim (Bool-cases (seconds == 0)) [
  | inl e ↦ rw e (omega (arith, length-select (λ e. not (e.key == k)) cache))
  | inr e ↦ elim (Bool-cases (leb local_cache_max_keys (length cache))) [
    | inl full ↦
        rw (e, full)
          (omega (
            arith,
            length-prune now cache h,
            length-map_set (record { key = k; value = value; expires_at = now + seconds * 1000 })
                (prune_local_cache now cache),
          ))
    | inr room ↦
        rw (e, room)
          (ground (
            arith,
            length-map_set (record { key = k; value = value; expires_at = now + seconds * 1000 })
                cache,
          ))
  ]
]

pub lookup-map_set : (e : LocalCacheEntry) (xs : LocalCache) → lookup e.key (map_set e xs) ≡ some e
unfolding map_set find_by
lookup-map_set e [] = ground arith
lookup-map_set e (x ∷ xs) = ground (arith, lookup-map_set e xs)

pub length-get_local :
    (now k : ℕ) (cache : LocalCache) → length (get_local now k cache).1 ≤ length cache
unfolding get_local
length-get_local now k cache = elim (Option-cases (lookup k cache)) [
  | inl e ↦ rw e (omega arith)
  | inr (x, e) ↦ elim (Bool-cases (leb x.expires_at now)) [
    | inl gone ↦ rw (e, gone) (length-select (λ e. not (e.key == k)) cache)
    | inr kept ↦ rw (e, kept) (omega arith)
  ]
]

length-set_unless_read :
    (now k seconds : ℕ) (value : String) (p : Option String × LocalCache)
    → length p.1 ≤ local_cache_max_keys
    → length (set_unless_read now k seconds value p).1 ≤ local_cache_max_keys
length-set_unless_read now k seconds value (some v, cache) h = h
length-set_unless_read now k seconds value (none, cache) h =
    length-set_local now k seconds value cache h

pub length-set_local_nx :
    (now k seconds : ℕ) (value : String) (cache : LocalCache)
    → length cache ≤ local_cache_max_keys
    → length (set_local_nx now k seconds value cache).1 ≤ local_cache_max_keys
unfolding set_local_nx
length-set_local_nx now k seconds value cache h =
    length-set_unless_read now k seconds value (get_local now k cache)
      (omega (arith, length-get_local now k cache))
