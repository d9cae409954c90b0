-- ===== src/Idempotency/Refinement.antt =====
-- `reserve` keeps the contract of its key.
use lotzi.Base.{
  ℕ, ◌⊎◌, ◌+◌, ◌*◌, ◌<◌, ◌≡◌, ◌≢◌, refl, ap, ◌∙◌, inl, inr, Bool, true, false, Option, none, some,
  ltb, arith, Bool-cases, Option-cases,
}
use lotzi.Base.Outcome.{returned}
use lotzi.Idempotency.Types.{ReserveInput, IdempotencyRecord, CacheValue, State}
use lotzi.Idempotency.Service.{
  Phase, del, upsert, ended, put, ttl_seconds, new_reservation, live, cached_record, is_stale,
  answer, grant_redis, grant_table, steps, reserve,
}
use lotzi.Idempotency.Commands.{
  decide-stale, decide-fresh, step-get, step-del, step-create_free, step-create_taken, step-find,
  step-upsert, step-ended, step-set_nx_away, step-set_nx_free, step-set_nx_taken,
}
use lotzi.Idempotency.Contract.{
  free, held, view, view_at, granted, Refines, ==_refl, ==_ne, ttl_seconds-cover, stale-view,
  answer-view, new_record-view,
}

abbrev pub grant : Bool → ℕ → ReserveInput → State → Phase × State
grant true = grant_redis
grant false = grant_table

abbrev SameElsewhere : ReserveInput → State → State → Type 0
SameElsewhere input s s' =
    (j : ℕ) → j ≢ input.key → (s'.cache j ≡ s.cache j) × (s'.table j ≡ s.table j)

grant-view :
    (up : Bool) (t : ℕ) (input : ReserveInput) (s : State)
    → 0 < input.ttl_ms
    → view_at up t input.key (grant up t input s).1
      ≡ held (input.user_id, input.operation, input.request_hash)
unfolding cached_record
grant-view true t input s h =
    let cover = ttl_seconds-cover input.ttl_ms in
    let kept : ltb t (t + ttl_seconds input.ttl_ms * 1000) ≡ true = ground arith in
    rw (==_refl input.key, kept) (new_record-view t input h)
grant-view false t input s h = rw (==_refl input.key) (new_record-view t input h)

grant-SameElsewhere :
    (up : Bool) (t : ℕ) (input : ReserveInput) (s : State)
    → SameElsewhere input s (grant up t input s).1
grant-SameElsewhere true t input s j n = rw (==_ne j input.key n) (refl, refl)
grant-SameElsewhere false t input s j n = rw (==_ne j input.key n) (refl, refl)

grant-shape :
    (up : Bool) (t : ℕ) (input : ReserveInput) (s : State)
    → grant up t input s
      ≡ (ended (returned (new_reservation input (t + input.ttl_ms) up)), (grant up t input s).1)
grant-shape true t input s = refl
grant-shape false t input s = refl

-- What `reserve` does: it takes a key that is free, or answers from a record that is not stale.
abbrev Cases : Bool → ℕ → ReserveInput → State → Type 0
Cases up t input s =
    ((s0 : State) × SameElsewhere input s s0
      × (view_at up t input.key s ≡ free)
      × (reserve t up input s ≡ grant up t input s0))
    ⊎ ((r : IdempotencyRecord) × (is_stale t (some r) ≡ false)
        × (view_at up t input.key s ≡ view t (some r))
        × (reserve t up input s ≡ (ended (answer r input), s)))

granted-Refines :
    (up : Bool) (t : ℕ) (input : ReserveInput) (s s0 : State)
    → 0 < input.ttl_ms
    → SameElsewhere input s s0
    → view_at up t input.key s ≡ free
    → reserve t up input s ≡ grant up t input s0
    → Refines up t input s
granted-Refines up t input s s0 h k v e = (
  returned (new_reservation input (t + input.ttl_ms) up),
  (grant up t input s0).1,
  e ∙ grant-shape up t input s0,
  rw v (ap (λ x. (granted, x)) (grant-view up t input s0 h)),
  λ j n.
      let (c, d) = grant-SameElsewhere up t input s0 j n in
      let (c', d') = k j n in (c ∙ c', d ∙ d'),
)

-- A call that is answered from a record.
answered-Refines :
    (up : Bool) (t : ℕ) (input : ReserveInput) (s : State) (r : IdempotencyRecord)
    → is_stale t (some r) ≡ false
    → view_at up t input.key s ≡ view t (some r)
    → reserve t up input s ≡ (ended (answer r input), s)
    → Refines up t input s
answered-Refines up t input s r h v e =
    (answer r input, s, e, rw v (answer-view t r input h), λ j n. (refl, refl))

table-Cases : (t : ℕ) (input : ReserveInput) (s : State) → Cases false t input s
unfolding reserve steps
table-Cases t input s = elim (Option-cases (s.table input.key)) [
  | inl e ↦ inl (
    s,
    (λ j n. (refl, refl)),
    rw e refl,
    rw (step-set_nx_away t input s, step-create_free t false input s t e, step-ended, step-ended)
        refl,
  )
  | inr (r, e) ↦ elim (Bool-cases (is_stale t (s.table input.key))) [
    | inl stale ↦ inl (
      s,
      (λ j n. (refl, refl)),
      stale-view t (s.table input.key) stale,
      rw
          (
            step-set_nx_away t input s,
            step-create_taken t false input s t r e,
            step-find t false input s t,
            decide-stale upsert t input (s.table input.key) stale,
            step-upsert t false input s t,
          )
          refl,
    )
    | inr fresh ↦
        let (r', e', ended') = decide-fresh upsert t input (s.table input.key) fresh in
        inr (
          r',
          rw e' at fresh,
          ap (view t) e',
          rw
              (
                step-set_nx_away t input s,
                step-create_taken t false input s t r e,
                step-find t false input s t,
                ended',
                step-ended t false input s (answer r' input),
              )
              refl,
        )
  ]
]

abbrev dropped : ReserveInput → State → State
dropped input s = record s { cache = put input.key none s.cache }

live-dropped :
    (t : ℕ) (input : ReserveInput) (s : State) → live t ((dropped input s).cache input.key) ≡ none
unfolding live
live-dropped t input s = rw (==_refl input.key) refl

dropped-SameElsewhere : (input : ReserveInput) (s : State) → SameElsewhere input s (dropped input s)
dropped-SameElsewhere input s j n = rw (==_ne j input.key n) (refl, refl)

cached_record-none : (t : ℕ) (v : Option CacheValue) → live t v ≡ none → cached_record t v ≡ none
unfolding cached_record
cached_record-none t v e = rw e refl

redis-Cases : (t : ℕ) (input : ReserveInput) (s : State) → Cases true t input s
unfolding reserve steps
redis-Cases t input s = elim (Option-cases (live t (s.cache input.key))) [
  | inl e ↦ inl (
    s,
    (λ j n. (refl, refl)),
    ap (view t) (cached_record-none t (s.cache input.key) e),
    rw (step-set_nx_free t input s e, step-ended, step-ended, step-ended) refl,
  )
  | inr (v, e) ↦ elim (Bool-cases (is_stale t (cached_record t (s.cache input.key)))) [
    | inl stale ↦ inl (
      dropped input s,
      dropped-SameElsewhere input s,
      stale-view t (cached_record t (s.cache input.key)) stale,
      rw
          (
            step-set_nx_taken t input s v e,
            step-get t true input s t,
            decide-stale del t input (cached_record t (s.cache input.key)) stale,
            step-del t true input s t,
            step-set_nx_free t input (dropped input s) (live-dropped t input s),
          )
          refl,
    )
    | inr fresh ↦
        let (r, e', ended') =
          decide-fresh del t input (cached_record t (s.cache input.key)) fresh in
        inr (
          r,
          rw e' at fresh,
          ap (view t) e',
          rw
              (
                step-set_nx_taken t input s v e,
                step-get t true input s t,
                ended',
                step-ended t true input s (answer r input),
                step-ended t true input s (answer r input),
              )
              refl,
        )
  ]
]

pub reserve-Cases : (up : Bool) (t : ℕ) (input : ReserveInput) (s : State) → Cases up t input s
reserve-Cases true = redis-Cases
reserve-Cases false = table-Cases

-- `reserve` of a request with a positive life, run on its own, has ended after four commands, whether
-- Redis answers or not. Its answer and the new state of its key are those of the contract, and no
-- other key is touched.
pub reserve-Refines :
    (up : Bool) (t : ℕ) (input : ReserveInput) (s : State) → 0 < input.ttl_ms → Refines up t input s
reserve-Refines up t input s h = elim (reserve-Cases up t input s) [
  | inl (s0, k, v, e) ↦ granted-Refines up t input s s0 h k v e
  | inr (r, f, v, e) ↦ answered-Refines up t input s r f v e
]
