-- ===== src/Redis/Entries.antt =====
-- What one read, write or deletion of another key leaves in the process's own cache.
use lotzi.Base.{
  ℕ, suc, ◌+◌, ◌*◌, ◌≤◌, ◌<◌, ◌≡◌, ◌≢◌, sym, ◌∙◌, subst, inl, inr, Bool, false, not, Option, none,
  some, [], ◌∷◌, leb, ◌==◌, length, String, arith, Bool-cases, Option-cases,
}
use lotzi.Base.Tables.{find_by}
use lotzi.Redis.Local.{
  LocalCacheEntry, LocalCache, local_cache_max_keys, delete, delete_by_prefix, map_set, lookup,
  get_local, set_local, set_unless_read,
}
use lotzi.Redis.Bounds.{length-select, length-map_set}

-- The entry is in the cache, and `n` more entries have room.
abbrev pub Keeps : LocalCacheEntry → ℕ → LocalCache → Type 0
Keeps e n cache = (lookup e.key cache ≡ some e) × (length cache + n ≤ local_cache_max_keys)

lookup-delete_ne :
    (e : LocalCacheEntry) (j : ℕ) (xs : LocalCache)
    → j ≢ e.key
    → lookup e.key xs ≡ some e
    → lookup e.key (delete j xs) ≡ some e
unfolding find_by
lookup-delete_ne e j [] ne h = h
lookup-delete_ne e j (x ∷ xs) ne h = ground (arith, lookup-delete_ne e j xs ne)

pub lookup-delete_by_prefix :
    (e : LocalCacheEntry) (starts : ℕ → Bool) (xs : LocalCache)
    → starts e.key ≡ false
    → lookup e.key xs ≡ some e
    → lookup e.key (delete_by_prefix starts xs) ≡ some e
unfolding find_by
lookup-delete_by_prefix e starts [] other h = h
lookup-delete_by_prefix e starts (x ∷ xs) other h = elim (Bool-cases (x.key == e.key)) [
  | inl same ↦
      let found : some x ≡ some e = rw same at h in
      let key : x.key ≡ e.key = ground arith in
      let kept : starts x.key ≡ false = subst (λ k. starts k ≡ false) (sym key) other in
      rw (kept, same) found
  | inr distinct ↦
      let rest = lookup-delete_by_prefix e starts xs other (rw distinct at h) in
      elim (Bool-cases (starts x.key)) [
        | inl gone ↦ rw gone rest
        | inr kept ↦ rw (kept, distinct) rest
      ]
]

lookup-map_set_ne :
    (e x : LocalCacheEntry) (xs : LocalCache)
    → x.key ≢ e.key
    → lookup e.key xs ≡ some e
    → lookup e.key (map_set x xs) ≡ some e
unfolding find_by map_set
lookup-map_set_ne e x [] ne h = cc
lookup-map_set_ne e x (y ∷ ys) ne h = ground (arith, lookup-map_set_ne e x ys ne)

module _ (e : LocalCacheEntry) (n now j : ℕ) where
  pub delete-Keeps : (cache : LocalCache) → j ≢ e.key → Keeps e n cache → Keeps e n (delete j cache)
  delete-Keeps cache ne (at, room) =
      (lookup-delete_ne e j cache ne at, omega (arith, length-select (λ x. not (x.key == j)) cache))

  -- A read removes no entry that is alive.
  pub get_local-Keeps :
      (cache : LocalCache)
      → now < e.expires_at
      → Keeps e n cache
      → Keeps e n (get_local now j cache).1
  unfolding get_local
  get_local-Keeps cache alive h = elim (Option-cases (lookup j cache)) [
    | inl missing ↦ rw missing h
    | inr (x, found) ↦ elim (Bool-cases (leb x.expires_at now)) [
      | inr kept ↦ rw (found, kept) h
      | inl gone ↦
          rw (found, gone)
            (delete-Keeps cache
              (λ same.
                let one : some x ≡ some e =
                  sym found ∙ subst (λ k. lookup k cache ≡ some e) (sym same) h.0 in
                ground arith)
              h)
    ]
  ]

  -- A write of another key finds room, so nothing is pruned.
  pub set_local-Keeps :
      (seconds : ℕ) (value : String) (cache : LocalCache)
      → j ≢ e.key
      → Keeps e (suc n) cache
      → Keeps e n (set_local now j seconds value cache)
  unfolding set_local
  set_local-Keeps seconds value cache ne (at, room) = elim (Bool-cases (seconds == 0)) [
    | inl zero_life ↦ rw zero_life (delete-Keeps cache ne (at, omega arith))
    | inr life ↦
        let x : LocalCacheEntry = record {
          key = j;
          value = value;
          expires_at = now + seconds * 1000;
        } in
        let free : leb local_cache_max_keys (length cache) ≡ false = ground arith in
        rw (life, free) (lookup-map_set_ne e x cache ne at, omega (arith, length-map_set x cache))
  ]

  pub set_unless_read-Keeps :
      (seconds : ℕ) (value : String) (p : Option String × LocalCache)
      → j ≢ e.key
      → Keeps e (suc n) p.1
      → Keeps e n (set_unless_read now j seconds value p).1
  set_unless_read-Keeps seconds value (some v, cache) ne h = (h.0, omega arith)
  set_unless_read-Keeps seconds value (none, cache) ne h = set_local-Keeps seconds value cache ne h
