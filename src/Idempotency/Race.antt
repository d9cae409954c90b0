-- ===== src/Idempotency/Race.antt =====
-- Calls of `reserve` for one key whose commands interleave, in Redis.
use lotzi.Base.{
  ℕ, zero, suc, ◌+◌, ◌*◌, ◌≤◌, ◌<◌, ◌≡◌, refl, sym, ap, subst, length, ◌∙◌, inl, inr, Bool-cases,
  Bool, true, false, Option, none, some, List, [], ◌∷◌, leb, ltb, All, arith,
}
use lotzi.Base.Sorting.{total_of}
use lotzi.Base.Outcome.{returned}
use lotzi.Idempotency.Types.{
  IdempotencyStatus, ReserveInput, IdempotencyRecord, CacheValue, State, reserved,
}
use lotzi.Idempotency.Service.{
  Phase, set_nx, get, del, create, find, upsert, ended, ttl_seconds, new_record, live,
  cached_record, is_stale, is_failed, answer, answer_status, same_request, step, grant_redis,
  decide,
}
use lotzi.Idempotency.Commands.{step-set_nx_free, step-set_nx_taken, step-get, step-ended}
use lotzi.Idempotency.Contract.{==_refl, ttl_seconds-cover}

-- A call and where it stands.
abbrev pub Call : Type 0
Call = ReserveInput × Phase

-- The call at an index takes its next command; `up` tells whether Redis answers.
unfoldable pub advance : Bool → ℕ → ℕ → List Call → State → List Call × State
advance up i t [] s = ([], s)
advance up zero t ((input, phase) ∷ calls) s =
    let (phase', s') = step t up input phase s in ((input, phase') ∷ calls, s')
advance up (suc i) t (call ∷ calls) s =
    let (calls', s') = advance up i t calls s in (call ∷ calls', s')

-- A schedule: which call is next, and when.
unfoldable pub run : Bool → List (ℕ × ℕ) → List Call × State → List Call × State
unfolding advance
run up [] w = w
run up ((i, t) ∷ schedule) (calls, s) = run up schedule (advance up i t calls s)

abbrev won : Phase → ℕ
won (ended (returned (reserved r))) = 1
won _ = 0

abbrev pub winners : List Call → ℕ
winners = total_of (λ c. won c.1)

-- An answer from a record is no new reservation.
answer-won : (r : IdempotencyRecord) (input : ReserveInput) → won (ended (answer r input)) ≡ 0
unfolding answer
answer-won r input = elim (Bool-cases (same_request r input)) [
  | inl e ↦ rw e (by_status r.status)
  | inr e ↦ rw e refl
]
  where
    by_status : (status : IdempotencyStatus) → won (ended (answer_status r status)) ≡ 0
    by_status IdempotencyStatus.in_progress = refl
    by_status IdempotencyStatus.completed = refl
    by_status IdempotencyStatus.failed = refl

module _ (k start until : ℕ) where
  -- What Redis holds stays what it is up to `until`.
  abbrev Lasting : CacheValue → Type 0
  Lasting v =
      (until ≤ v.evicted_at)
      × (r : IdempotencyRecord) × (v.text ≡ some r)
      × (until ≤ r.expires_at)
      × (is_failed r.status ≡ false)

  abbrev Calm : Option CacheValue → Type 0
  Calm none = Unit
  Calm (some v) = Lasting v

  -- A call of the key whose record would outlast `until`, before its first command.
  abbrev Starting : Call → Type 0
  Starting (input, phase) = (input.key ≡ k) × (until ≤ start + input.ttl_ms) × (phase ≡ set_nx)

  abbrev Running : Phase → Type 0
  Running set_nx = Unit
  Running (get now) = now < until
  Running (ended o) = Unit
  Running _ = ⊥

  abbrev Started : Call → Type 0
  Started (input, phase) = (input.key ≡ k) × Running phase

  Lasting-live : (t : ℕ) (v : CacheValue) → t < until → Lasting v → live t (some v) ≡ some v
  unfolding live
  Lasting-live t v h l = let kept : ltb t v.evicted_at ≡ true = ground arith in rw kept refl

  Lasting-record :
      (t : ℕ) (v : CacheValue) → t < until → (l : Lasting v) → cached_record t (some v) ≡ some l.1
  unfolding cached_record live
  Lasting-record t v h l = let kept : ltb t v.evicted_at ≡ true = ground arith in rw kept l.2

  Lasting-fresh :
      (now : ℕ) (v : CacheValue) → now < until → (l : Lasting v) → is_stale now (some l.1) ≡ false
  unfolding is_stale
  Lasting-fresh now v h l =
      let later : leb l.1.expires_at now ≡ false = ground arith in rw later l.4

  -- With a lasting record, a command changes nothing and wins nothing.
  Lasting-step :
      (t : ℕ) (input : ReserveInput) (phase : Phase) (s : State) (v : CacheValue)
      → t < until
      → input.key ≡ k
      → Running phase
      → s.cache k ≡ some v
      → Lasting v
      → (phase' : Phase) × (step t true input phase s ≡ (phase', s))
        × Running phase'
        × (won phase' ≡ won phase)
  Lasting-step t input set_nx s v h e r c l = (
    get t,
    step-set_nx_taken t input s v (ap (live t) (ap s.cache e ∙ c) ∙ Lasting-live t v h l),
    h,
    refl,
  )
  Lasting-step t input (get now) s v h e r c l = (
    ended (answer l.1 input),
    step-get t true input s now
        ∙ ap (λ o. (decide del now o input, s))
            (ap (cached_record t) (ap s.cache e ∙ c) ∙ Lasting-record t v h l)
        ∙ rw (Lasting-fresh now v r l) refl,
    tt,
    answer-won l.1 input,
  )
  Lasting-step t input (ended o) s v h e r c l = (ended o, step-ended t true input s o, tt, refl)
  Lasting-step t input (del _) s v h e r c l = elim r [ ]
  Lasting-step t input (create _) s v h e r c l = elim r [ ]
  Lasting-step t input (find _) s v h e r c l = elim r [ ]
  Lasting-step t input (upsert _) s v h e r c l = elim r [ ]

  Lasting-advance :
      (i t : ℕ) (calls : List Call) (s : State) (v : CacheValue)
      → t < until
      → All Started calls
      → s.cache k ≡ some v
      → Lasting v
      → (calls' : List Call) × (advance true i t calls s ≡ (calls', s))
        × All Started calls'
        × (winners calls' ≡ winners calls)
  unfolding advance
  Lasting-advance i t [] s v h a c l = ([], refl, tt, refl)
  Lasting-advance zero t ((input, phase) ∷ calls) s v h a c l =
      let (phase', e, r, w) = Lasting-step t input phase s v h a.0.0 a.0.1 c l in
      ((input, phase') ∷ calls, rw e refl, ((a.0.0, r), a.1), ap (λ n. n + winners calls) w)
  Lasting-advance (suc i) t (call ∷ calls) s v h a c l =
      let (calls', e, r, w) = Lasting-advance i t calls s v h a.1 c l in
      (call ∷ calls', rw e refl, (a.0, r), ap (λ n. won call.1 + n) w)

  Lasting-run :
      (schedule : List (ℕ × ℕ)) (calls : List Call) (s : State) (v : CacheValue)
      → All (λ e. e.1 < until) schedule
      → All Started calls
      → s.cache k ≡ some v
      → Lasting v
      → winners (run true schedule (calls, s)).0 ≡ winners calls
  unfolding run
  Lasting-run [] calls s v h a c l = refl
  Lasting-run ((i, t) ∷ schedule) calls s v h a c l =
      let (calls', e, r, w) = Lasting-advance i t calls s v h.0 a c l in
      rw (e, run) (Lasting-run schedule calls' s v h.1 r c l ∙ w)

  Starting-none :
      (calls : List Call) → All Starting calls → (All Started calls) × (winners calls ≡ 0)
  Starting-none [] a = (tt, refl)
  Starting-none ((input, phase) ∷ calls) a =
      let (b, w) = Starting-none calls a.1 in
      (((a.0.0, subst Running (sym a.0.2) tt), b), rw a.0.2 (omega arith))

  abbrev held_value : ℕ → ReserveInput → CacheValue
  held_value t input = record {
    text = some (new_record input (t + input.ttl_ms));
    evicted_at = t + ttl_seconds input.ttl_ms * 1000;
  }

  free-step :
      (t : ℕ) (input : ReserveInput) (phase : Phase) (s : State)
      → start ≤ t
      → Starting (input, phase)
      → s.cache k ≡ none
      → (step t true input phase s ≡ grant_redis t input s)
        × ((grant_redis t input s).1.cache k ≡ some (held_value t input))
        × Lasting (held_value t input)
  unfolding live
  free-step t input phase s h a c =
      let cover = ttl_seconds-cover input.ttl_ms in
      (
        rw a.2 (step-set_nx_free t input s (ap (live t) (ap s.cache a.0 ∙ c))),
        rw (a.0, ==_refl k) refl,
        (omega arith, new_record input (t + input.ttl_ms), refl, omega arith, refl),
      )

  free-advance :
      (i t : ℕ) (calls : List Call) (s : State)
      → start ≤ t
      → i < length calls
      → All Starting calls
      → s.cache k ≡ none
      → (calls' : List Call) × (s' : State) × (v : CacheValue) × (advance true i t calls s
          ≡ (calls', s'))
        × (s'.cache k ≡ some v)
        × Lasting v
        × All Started calls'
        × (winners calls' ≡ 1)
  unfolding advance
  free-advance i t [] s h b a c = absurd (omega arith)
  free-advance zero t ((input, phase) ∷ calls) s h b a c =
      let (e, c', l) = free-step t input phase s h a.0 c in
      let (b', w) = Starting-none calls a.1 in
      (
        (input, (grant_redis t input s).0) ∷ calls,
        (grant_redis t input s).1,
        held_value t input,
        rw e refl,
        c',
        l,
        ((a.0.0, tt), b'),
        omega arith,
      )
  free-advance (suc i) t ((input, phase) ∷ calls) s h b a c =
      let (calls', s', v, e, c', l, r, w) = free-advance i t calls s h (omega arith) a.1 c in
      (
        (input, phase) ∷ calls',
        s',
        v,
        rw e refl,
        c',
        l,
        ((a.0.0, subst Running (sym a.0.2) tt), r),
        rw a.0.2 (omega arith),
      )

-- How many of the calls can be given a key, by what Redis holds of it.
abbrev pub vacancies : Option CacheValue → ℕ
vacancies none = 1
vacancies (some v) = 0

-- Calls of `reserve` for one key interleave in any order, at instants before the end of the life of
-- each of their records. Redis holds nothing of the key, or a record that has not failed and outlasts
-- these instants. Once one of the calls has begun, exactly one has been given the key in the first
-- case, and none in the second.
pub run-winners :
    (k start until i t : ℕ) (schedule : List (ℕ × ℕ)) (calls : List Call) (s : State)
    → All (Starting k start until) calls
    → Calm k start until (s.cache k)
    → i < length calls
    → start ≤ t
    → All (λ e. e.1 < until) ((i, t) ∷ schedule)
    → winners (run true ((i, t) ∷ schedule) (calls, s)).0 ≡ vacancies (s.cache k)
unfolding run
run-winners k start until i t schedule calls s a calm b h d = by_cache (s.cache k) refl calm
  where
    by_cache :
        (o : Option CacheValue)
        → s.cache k ≡ o
        → Calm k start until o
        → winners (run true ((i, t) ∷ schedule) (calls, s)).0 ≡ vacancies o
    by_cache none c l =
        let (calls', s', v, e, c', l', r, w) = free-advance k start until i t calls s h b a c in
        rw (e, run) (Lasting-run k start until schedule calls' s' v d.1 r c' l' ∙ w)
    by_cache (some v) c l =
        let (started, w) = Starting-none k start until calls a in
        Lasting-run k start until ((i, t) ∷ schedule) calls s v d started c l ∙ w
