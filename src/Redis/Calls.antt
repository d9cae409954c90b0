-- ===== src/Redis/Calls.antt =====
-- Any sequence of commands, with any answers of Redis.
use lotzi.Base.{
  ℕ, ◌+◌, ◌≤◌, ◌≡◌, refl, inl, inr, Bool, true, false, not, ◌||◌, ◌==◌, Option, none, some, List,
  [], ◌∷◌, ltb, length, String, arith, Bool-cases, subst, sym,
}
use lotzi.Redis.Local.{local_cache_max_keys, delete, delete_by_prefix, set_local}
use lotzi.Redis.Service.{
  State, ask, get, set_nx_after, get_after, get_strict, set_ex, set_ex_strict, incr, set_nx_ex, del,
  del_by_prefix, after_scan, with_local, redis_circuit_open_ms,
}
use lotzi.Redis.Bounds.{length-select, length-set_local, length-get_local, length-set_local_nx}

pub data Call : Type 0 where
  call_get : ℕ → Option (Option String) → Call
  call_get_strict : Option (Option String) → Call
  call_set_ex : ℕ → ℕ → String → Option (Unit {0}) → Call
  call_set_ex_strict : Option (Unit {0}) → Call
  call_incr : ℕ → Option ℕ → Call
  call_set_nx_ex : ℕ → ℕ → String → Option Bool → Call
  call_del : ℕ → Option (Unit {0}) → Call
  call_del_by_prefix : (ℕ → Bool) → List (ℕ × ℕ) → Call

unfoldable pub after : Bool → Bool → ℕ → Call → State → State
after configured local_only now (call_get k reply) s = (get now k configured reply s).1
after configured local_only now (call_get_strict reply) s = (get_strict now configured reply s).1
after configured local_only now (call_set_ex k seconds value reply) s =
    set_ex now k seconds value configured reply s
after configured local_only now (call_set_ex_strict reply) s =
    (set_ex_strict now configured reply s).1
after configured local_only now (call_incr k reply) s = (incr now k configured reply s).1
after configured local_only now (call_set_nx_ex k seconds value reply) s =
    (set_nx_ex now k seconds value local_only configured reply s).1
after configured local_only now (call_del k reply) s = del now k configured reply s
after configured local_only now (call_del_by_prefix starts pages) s =
    (del_by_prefix now starts configured pages s).1

-- Calls with the instants at which they are made.
unfoldable pub after_all : Bool → Bool → List (ℕ × Call) → State → State
unfolding after
after_all configured local_only [] s = s
after_all configured local_only ((now, c) ∷ calls) s =
    after_all configured local_only calls (after configured local_only now c s)

pub ask-local_cache :
    {A : Type 0} (now : ℕ) (configured : Bool) (reply : Option A) (s : State)
    → (ask now configured reply s).1.local_cache ≡ s.local_cache
unfolding ask
ask-local_cache now configured none s =
    elim (Bool-cases (not configured || ltb now s.circuit_open_until)) [
      | inl e ↦ rw e refl
      | inr e ↦ rw e refl
    ]
ask-local_cache now configured (some a) s =
    elim (Bool-cases (not configured || ltb now s.circuit_open_until)) [
      | inl e ↦ rw e refl
      | inr e ↦ rw e refl
    ]

after_scan-local_cache :
    (now : ℕ) (p : Bool × ℕ) (s : State) → (after_scan now p s).1.local_cache ≡ s.local_cache
after_scan-local_cache now (true, n) s = refl
after_scan-local_cache now (false, n) s = refl

pub del_by_prefix-local_cache :
    (now : ℕ) (starts : ℕ → Bool) (configured : Bool) (pages : List (ℕ × ℕ)) (s : State)
    → (del_by_prefix now starts configured pages s).1.local_cache
      ≡ delete_by_prefix starts s.local_cache
unfolding del_by_prefix
del_by_prefix-local_cache now starts configured pages s =
    elim (Bool-cases (not configured || ltb now s.circuit_open_until)) [
      | inl e ↦ rw e refl
      | inr e ↦ rw e (after_scan-local_cache now _ _)
    ]

abbrev pub Fits : State → Type 0
Fits s = length s.local_cache ≤ local_cache_max_keys

module _ (now k : ℕ) where
  get_after-Fits : (p : Option (Option String) × State) → Fits p.1 → Fits (get_after now k p).1
  get_after-Fits (some v, s) h = h
  get_after-Fits (none, s) h = omega (arith, length-get_local now k s.local_cache)

  set_nx_after-Fits :
      (seconds : ℕ) (value : String) (local_only : Bool) (p : Option Bool × State)
      → Fits p.1
      → Fits (set_nx_after now k seconds value local_only p).1
  set_nx_after-Fits seconds value local_only (some b, s) h = h
  set_nx_after-Fits seconds value true (none, s) h =
      length-set_local_nx now k seconds value s.local_cache h
  set_nx_after-Fits seconds value false (none, s) h = h

  delete-Fits : (s : State) → Fits s → Fits (with_local (delete k s.local_cache) s)
  delete-Fits s h = omega (arith, length-select (λ e. not (e.key == k)) s.local_cache)

ask-Fits :
    {A : Type 0} (now : ℕ) (configured : Bool) (reply : Option A) (s : State)
    → Fits s
    → Fits (ask now configured reply s).1
ask-Fits now configured reply s h =
    subst (λ c. length c ≤ local_cache_max_keys) (sym (ask-local_cache now configured reply s)) h

after-Fits :
    (configured local_only : Bool) (now : ℕ) (c : Call) (s : State)
    → Fits s
    → Fits (after configured local_only now c s)
unfolding after get get_strict set_ex set_ex_strict incr set_nx_ex del
after-Fits configured local_only now (call_get k reply) s h =
    get_after-Fits now k (ask now configured reply s) (ask-Fits now configured reply s h)
after-Fits configured local_only now (call_get_strict reply) s h = ask-Fits now configured reply s h
after-Fits configured local_only now (call_set_ex k seconds value reply) s h =
    ask-Fits now configured reply (with_local (set_local now k seconds value s.local_cache) s)
      (length-set_local now k seconds value s.local_cache h)
after-Fits configured local_only now (call_set_ex_strict reply) s h =
    ask-Fits now configured reply s h
after-Fits configured local_only now (call_incr k reply) s h =
    ask-Fits now configured reply (with_local (delete k s.local_cache) s) (delete-Fits now k s h)
after-Fits configured local_only now (call_set_nx_ex k seconds value reply) s h =
    set_nx_after-Fits now k seconds value local_only (ask now configured reply s)
      (ask-Fits now configured reply s h)
after-Fits configured local_only now (call_del k reply) s h =
    ask-Fits now configured reply (with_local (delete k s.local_cache) s) (delete-Fits now k s h)
after-Fits configured local_only now (call_del_by_prefix starts pages) s h =
    subst (λ c. length c ≤ local_cache_max_keys)
      (sym (del_by_prefix-local_cache now starts configured pages s))
      (omega (arith, length-select (λ e. not (starts e.key)) s.local_cache))

-- Whatever Redis answers, the process's own cache has at most 2000 entries after any commands, if it
-- had before.
pub after_all-Fits :
    (configured local_only : Bool) (calls : List (ℕ × Call)) (s : State)
    → Fits s
    → Fits (after_all configured local_only calls s)
unfolding after_all
after_all-Fits configured local_only [] s h = h
after_all-Fits configured local_only ((now, c) ∷ calls) s h =
    after_all-Fits configured local_only calls (after configured local_only now c s)
      (after-Fits configured local_only now c s h)

pub ask-none :
    {A : Type 0} (now : ℕ) (configured : Bool) (s : State)
    → (s' : State) × (ask {A = A} now configured none s ≡ (none, s'))
      × (s'.local_cache ≡ s.local_cache)
unfolding ask
ask-none now configured s = elim (Bool-cases (not configured || ltb now s.circuit_open_until)) [
  | inl e ↦ (s, rw e refl, refl)
  | inr e ↦ (record s { circuit_open_until = now + redis_circuit_open_ms }, rw e refl, refl)
]
