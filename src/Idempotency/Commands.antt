-- ===== src/Idempotency/Commands.antt =====
-- What each command of `reserve` does.
use lotzi.Base.{ℕ, ◌≡◌, refl, sym, Bool, true, false, Option, none, some}
use mathlib.Core.Bool.{false≢true}
use lotzi.Base.Outcome.{Outcome}
use lotzi.Idempotency.Types.{
  ReserveInput, IdempotencyRecord, CacheValue, IdempotencyReservation, IdempotencyError, State,
}
use lotzi.Idempotency.Service.{
  Phase, set_nx, get, del, create, find, upsert, ended, put, live, cached_record, is_stale, answer,
  decide, grant_redis, grant_table, step_set_nx, step,
}

-- The two ways through `decide`.
module _ (take_over : ℕ → Phase) (now : ℕ) (input : ReserveInput) where
  pub decide-stale :
      (o : Option IdempotencyRecord)
      → is_stale now o ≡ true
      → decide take_over now o input ≡ take_over now
  decide-stale none h = refl
  decide-stale (some r) h = rw h refl

  pub decide-fresh :
      (o : Option IdempotencyRecord)
      → is_stale now o ≡ false
      → (r : IdempotencyRecord) × (o ≡ some r)
        × (decide take_over now o input ≡ ended (answer r input))
  decide-fresh none h = absurd (unfold is_stale in false≢true (sym h))
  decide-fresh (some r) h = (r, refl, rw h refl)

-- What each command leads to.
pub step-set_nx_away :
    (t : ℕ) (input : ReserveInput) (s : State) → step t false input set_nx s ≡ (create t, s)
unfolding step step_set_nx
step-set_nx_away t input s = refl

pub step-set_nx_free :
    (t : ℕ) (input : ReserveInput) (s : State)
    → live t (s.cache input.key) ≡ none
    → step t true input set_nx s ≡ grant_redis t input s
unfolding step
step-set_nx_free t input s e = rw (e, step_set_nx) refl

pub step-set_nx_taken :
    (t : ℕ) (input : ReserveInput) (s : State) (v : CacheValue)
    → live t (s.cache input.key) ≡ some v
    → step t true input set_nx s ≡ (get t, s)
unfolding step
step-set_nx_taken t input s v e = rw (e, step_set_nx) refl

module _ (t : ℕ) (up : Bool) (input : ReserveInput) (s : State) where
  pub step-get :
      (now : ℕ)
      → step t up input (get now) s
        ≡ (decide del now (cached_record t (s.cache input.key)) input, s)
  unfolding step
  step-get now = refl

  pub step-del :
      (now : ℕ)
      → step t up input (del now) s ≡ (set_nx, record s { cache = put input.key none s.cache })
  unfolding step
  step-del now = refl

  pub step-create_free :
      (now : ℕ)
      → s.table input.key ≡ none
      → step t up input (create now) s ≡ grant_table now input s
  unfolding step
  step-create_free now e = rw (e, step) refl

  pub step-create_taken :
      (now : ℕ) (r : IdempotencyRecord)
      → s.table input.key ≡ some r
      → step t up input (create now) s ≡ (find now, s)
  unfolding step
  step-create_taken now r e = rw (e, step) refl

  pub step-find :
      (now : ℕ) → step t up input (find now) s ≡ (decide upsert now (s.table input.key) input, s)
  unfolding step
  step-find now = refl

  pub step-upsert : (now : ℕ) → step t up input (upsert now) s ≡ grant_table now input s
  unfolding step
  step-upsert now = refl

  pub step-ended :
      (o : Outcome IdempotencyError IdempotencyReservation)
      → step t up input (ended o) s ≡ (ended o, s)
  unfolding step
  step-ended o = refl
