-- ===== src/Inventory/Soundness.antt =====
-- Steps of a transaction that keep the invariant and the units, and how they are put together.
use lotzi.Base.{ℕ, ◌≡◌, refl, subst, Bool, Option, none, some, arith}
use lotzi.Inventory.Types.{Response, OperationKey, State, Env, Error}
use lotzi.Inventory.Tx.{Tx, ok, or_throw, throw_if, pure, ◌>>=◌, ◌>>◌, >>=-eq-ok}
use lotzi.Inventory.Claims.{
  Claim, ClaimInput, reserved_claim, replayed, claim_operation, claim_existing, complete_operation,
  finish, replay_or,
}
use lotzi.Inventory.Locations.{configure_tx}
use lotzi.Inventory.Invariant.{Inv, Conserves, Conserves-trans}
use lotzi.Inventory.Creation.{Inv-same, Conserves-same}

-- A step that ends well keeps the invariant, and the units of every item.
pub record Sound {A : Type 0} (m : Tx A) : Type 0 where
  pub keeps :
      (env : Env) (s : State) (a : A) (t : State)
      → Inv s.db
      → m env s ≡ (ok a, t)
      → Inv t.db × Conserves s.db t.db

pub Sound-bind :
    {A B : Type 0} (m : Tx A) (f : A → Tx B) → Sound m → ((a : A) → Sound (f a)) → Sound (m >>= f)
Sound-bind m f hm hf = record {
  keeps = λ env s b t inv h.
      let (a, u, first, second) = >>=-eq-ok (m env s) f env h in
      let (inv', c) = hm.keeps env s a u inv first in
      let (inv'', c') = (hf a).keeps env u b t inv' second in
      (inv'', Conserves-trans s.db u.db t.db c c');
}

-- A step that leaves the items and the reservations alone, however it ends.
pub Sound-frame :
    {A : Type 0} (m : Tx A)
    → ((env : Env) (s : State)
        → ((m env s).1.db.items ≡ s.db.items) × ((m env s).1.db.reservations ≡ s.db.reservations))
    → Sound m
Sound-frame m frame = record {
  keeps = λ env s a t inv h.
      let (is, rs) =
        subst (λ x. (x.1.db.items ≡ s.db.items) × (x.1.db.reservations ≡ s.db.reservations)) h
          (frame env s) in
      (Inv-same s.db t.db is rs inv, Conserves-same s.db t.db is);
}

pub Sound-pure : {A : Type 0} (a : A) → Sound (pure a)
Sound-pure a = Sound-frame (pure a) (λ env s. (refl, refl))

or_throw-Sound : {A : Type 0} (o : Option A) (e : Error) → Sound (or_throw o e)
or_throw-Sound none e = Sound-frame _ (λ env s. (refl, refl))
or_throw-Sound (some a) e = Sound-frame _ (λ env s. (refl, refl))

pub throw_if-Sound : (c : Bool) (e : Error) → Sound (throw_if c e)
throw_if-Sound c e = Sound-frame _ (λ env s. (refl, refl))

configure_tx-Sound : (store_id : ℕ) → Sound (configure_tx store_id)
unfolding configure_tx
configure_tx-Sound store_id = Sound-frame _ (λ env s. (refl, refl))

claim_operation-frame :
    (input : ClaimInput) (env : Env) (s : State)
    → ((claim_operation input env s).1.db.items ≡ s.db.items)
      × ((claim_operation input env s).1.db.reservations ≡ s.db.reservations)
unfolding claim_operation claim_existing
claim_operation-frame input env s = ground arith

claim_operation-Sound : (input : ClaimInput) → Sound (claim_operation input)
claim_operation-Sound input = Sound-frame _ (claim_operation-frame input)

finish-frame :
    (key : OperationKey) (response : Response) (env : Env) (s : State)
    → ((finish key response env s).1.db.items ≡ s.db.items)
      × ((finish key response env s).1.db.reservations ≡ s.db.reservations)
unfolding finish complete_operation
finish-frame key response env s = ground arith

pub finish-Sound : (key : OperationKey) (response : Response) → Sound (finish key response)
finish-Sound key response = Sound-frame _ (finish-frame key response)

replay_or-Sound : (work : Tx Response) (claim : Claim) → Sound work → Sound (replay_or work claim)
unfolding replay_or
replay_or-Sound work (replayed response) h = Sound-frame _ (λ env s. (refl, refl))
replay_or-Sound work reserved_claim h =
    Sound-bind work (λ response. pure (some response)) h (λ response. Sound-pure (some response))

-- A step that looks at the environment first.
pub Sound-env : {A : Type 0} (k : Env → Tx A) → ((e : Env) → Sound (k e)) → Sound (λ env. k env env)
Sound-env k h = record { keeps = λ env. (h env).keeps env }

-- The frame of the calls of an order: the settings, the claim, and the work that it guards.
abbrev pub guarded : ℕ → ClaimInput → Tx Response → Tx (Option Response)
guarded store_id input work = configure_tx store_id >> (claim_operation input >>= replay_or work)

pub guarded-Sound :
    (store_id : ℕ) (input : ClaimInput) (work : Tx Response)
    → Sound work
    → Sound (guarded store_id input work)
guarded-Sound store_id input work h =
    Sound-bind (configure_tx store_id) (λ _. claim_operation input >>= replay_or work)
      (configure_tx-Sound store_id)
      (λ _.
        Sound-bind (claim_operation input) (replay_or work) (claim_operation-Sound input)
          (λ claim. replay_or-Sound work claim h))
