-- ===== src/Inventory/Replay.antt =====
-- A call of the engine that is made again: it is answered from the stored response.
use text.Mathlib.TextPositions.{eq_refl}
use lotzi.Base.{
  ℕ, ◌≡◌, refl, ◌∙◌, ap, subst, true, ◌==◌, List, [], ◌∷◌, Option, some, arith, Bool-cases,
  if◌then◌else◌, Option-cases, inl, inr,
}
use mathlib.Core.Option.{some-injective}
use lotzi.Inventory.Types.{
  OperationKey, reserve_op, cod_authorize_op, confirm_op, release_op, adjust_op, Operation,
  OperationType, ReservationStatus, Response, State, Env, Error,
}
use lotzi.Inventory.Tx.{Tx, Result, ok, err, pure, ◌>>=◌, >>=-eq-ok}
use lotzi.Inventory.Claims.{
  ClaimInput, Claim, reserved_claim, replayed, key_eq, type_eq, find_operation, update_operation,
  new_operation, is_completed, reclaim, complete, claim_existing, claim_operation,
  complete_operation, finish, replay_or,
}
use lotzi.Inventory.Locations.{configure_tx}
use lotzi.Inventory.Soundness.{guarded}
use lotzi.Inventory.Untouched.{Untouched}

key_eq_refl : (k : OperationKey) → key_eq k k ≡ true
unfolding key_eq
key_eq_refl (reserve_op a) = ground arith
key_eq_refl (cod_authorize_op a) = ground arith
key_eq_refl (confirm_op a) = ground arith
key_eq_refl (release_op a ReservationStatus.active x) = ground (arith, eq_refl x)
key_eq_refl (release_op a ReservationStatus.confirmed x) = ground (arith, eq_refl x)
key_eq_refl (release_op a ReservationStatus.released x) = ground (arith, eq_refl x)
key_eq_refl (release_op a ReservationStatus.expired x) = ground (arith, eq_refl x)
key_eq_refl (adjust_op x) = eq_refl x

type_eq_refl : (x : OperationType) → type_eq x x ≡ true
type_eq_refl OperationType.reserve_order = refl
type_eq_refl OperationType.cod_authorize_order = refl
type_eq_refl OperationType.confirm_order = refl
type_eq_refl OperationType.release_order = refl
type_eq_refl OperationType.adjustment = refl

pub find-update_operation :
    (k : OperationKey) (f : Operation → Operation) (os : List Operation) {o : Operation}
    → ((x : Operation) → (f x).operation_key ≡ x.operation_key)
    → find_operation k os ≡ some o
    → find_operation k (update_operation k f os) ≡ some (f o)
unfolding find_operation update_operation
find-update_operation k f [] keeps h = cc
find-update_operation k f (x ∷ xs) {o} keeps h = elim (Bool-cases (key_eq x.operation_key k)) [
  | inl e ↦
      let e' = ap (λ y. key_eq y k) (keeps x) ∙ e in
      rw (e, e') (ap (λ y. some (f y)) (some-injective x o (rw e at h)))
  | inr e ↦ rw (e, e) (find-update_operation k f xs keeps (rw e at h))
]

-- The operation of a request is there.
abbrev Claimed : ClaimInput → Operation → List Operation → Type 0
Claimed input o os =
    (find_operation input.operation_key os ≡ some o)
    × ((o.request_hash == input.request_hash) ≡ true)
    × (type_eq o.operation_type input.operation_type ≡ true)

-- It is there, and has been answered.
abbrev Answered : ClaimInput → Option Response → List Operation → Type 0
Answered input r os =
    (o : Operation) × Claimed input o os × (is_completed o.status ≡ true) × (o.response ≡ r)

claim_operation-Answered :
    (input : ClaimInput) (r : Option Response) (env : Env) (s : State)
    → Answered input r s.db.operations
    → claim_operation input env s
      ≡ (if env.resumes then ok (replayed r) else err Error.transaction_aborted, s)
unfolding claim_operation claim_existing
claim_operation-Answered input r env s (o, (found, hash, type), done, response) = ground arith

-- A claim of a key that is there goes on only in a transaction that has not been aborted.
claim_operation-conflict :
    (input : ClaimInput) (env : Env) (s : State) {o : Operation} {c : Claim} {t : State}
    → find_operation input.operation_key s.db.operations ≡ some o
    → claim_operation input env s ≡ (ok c, t)
    → claim_existing input o env s ≡ (ok c, t)
unfolding claim_operation claim_existing
claim_operation-conflict input env s found h = elim (Bool-cases env.resumes) [
  | inl e ↦ rw (found, e, claim_operation) at h
  | inr e ↦ cc (rw (found, e, claim_operation) at h)
]

claim_existing-reserved :
    (input : ClaimInput) (o : Operation) (env : Env) (s : State) {t : State}
    → claim_existing input o env s ≡ (ok reserved_claim, t)
    → ((o.request_hash == input.request_hash) ≡ true)
      × (type_eq o.operation_type input.operation_type ≡ true)
      × (t.db.operations
          ≡ update_operation input.operation_key (reclaim input env.now) s.db.operations)
unfolding claim_existing
claim_existing-reserved input o env s h = ground arith

claim_existing-replayed :
    (input : ClaimInput) (o : Operation) (env : Env) (s : State) {r : Option Response} {t : State}
    → claim_existing input o env s ≡ (ok (replayed r), t)
    → ((o.request_hash == input.request_hash) ≡ true)
      × (type_eq o.operation_type input.operation_type ≡ true)
      × (is_completed o.status ≡ true)
      × (o.response ≡ r)
      × (t ≡ s)
unfolding claim_existing
claim_existing-replayed input o env s h = ground arith

claim_operation-reserved :
    (input : ClaimInput) (env : Env) (s : State) {t : State}
    → claim_operation input env s ≡ (ok reserved_claim, t)
    → (o : Operation) × Claimed input o t.db.operations
unfolding claim_operation reclaim find_operation
claim_operation-reserved input env s {t} h =
    elim (Option-cases (find_operation input.operation_key s.db.operations)) [
      | inl e ↦
          let os = ap (λ x. x.1.db.operations) (rw (e, claim_operation) at h) in
          (
            new_operation input env.now,
            (
              subst (λ x. find_operation input.operation_key x ≡ some (new_operation input env.now))
                  os (rw (key_eq_refl input.operation_key) refl),
              ground arith,
              type_eq_refl input.operation_type,
            ),
          )
      | inr (o, e) ↦
          let (hash, type, os) =
            claim_existing-reserved input o env s (claim_operation-conflict input env s e h) in
          (
            reclaim input env.now o,
            (
              rw os (
                  find-update_operation input.operation_key (reclaim input env.now) s.db.operations
                    (λ x. refl) e),
              hash,
              type,
            ),
          )
    ]

claim_operation-replayed :
    (input : ClaimInput) (env : Env) (s : State) {r : Option Response} {t : State}
    → claim_operation input env s ≡ (ok (replayed r), t)
    → Answered input r t.db.operations
unfolding claim_operation
claim_operation-replayed input env s {r} {t} h =
    elim (Option-cases (find_operation input.operation_key s.db.operations)) [
      | inl e ↦ cc (rw (e, claim_operation) at h)
      | inr (o, e) ↦
          let (hash, type, done, response, same) =
            claim_existing-replayed input o env s (claim_operation-conflict input env s e h) in
          (o, (rw same e, hash, type), done, response)
    ]

-- Work that ends by storing its response under the key.
pub record Completes (key : OperationKey) (work : Tx Response) : Type 0 where
  pub stores :
      (env : Env) (s : State) (r : Response) (t : State) (o : Operation)
      → find_operation key s.db.operations ≡ some o
      → work env s ≡ (ok r, t)
      → find_operation key t.db.operations ≡ some (complete r env.now o)

pub finish-Completes : (key : OperationKey) (r : Response) → Completes key (finish key r)
unfolding finish complete_operation
finish-Completes key r = record {
  stores = λ env s r' t o found h.
      ground
        (arith, find-update_operation key (complete r env.now) s.db.operations (λ x. refl) found);
}

pub bind-Completes :
    {A : Type 0} (key : OperationKey) (m : Tx A) (f : A → Tx Response)
    → Untouched m
    → ((a : A) → Completes key (f a))
    → Completes key (m >>= f)
bind-Completes key m f h k = record {
  stores = λ env s r t o found e.
      let (a, u, first, second) = >>=-eq-ok (m env s) f env e in
      (k a).stores env u r t o (rw (h.same env s a u first) found) second;
}

same_outcome :
    (input : ClaimInput) (q r : Option Response) (u t : State)
    → ◌≡◌ {A = Result (Option Response) × State} (ok q, u) (ok r, t)
    → Answered input q u.db.operations
    → Answered input r t.db.operations
same_outcome input q r u t h answered =
    let os = ap (λ x. x.1.db.operations) h in
    let value : q ≡ r = ground arith in
    subst (Answered input r) os (subst (λ x. Answered input x u.db.operations) value answered)

replay_or-Answered :
    (input : ClaimInput) (work : Tx Response) (env : Env) (s u : State) (claim : Claim)
    {r : Option Response} {t : State}
    → Completes input.operation_key work
    → claim_operation input env s ≡ (ok claim, u)
    → replay_or work claim env u ≡ (ok r, t)
    → Answered input r t.db.operations
unfolding replay_or complete
replay_or-Answered input work env s u (replayed response) {r} {t} c claimed h =
    same_outcome input response r u t h (claim_operation-replayed input env s claimed)
replay_or-Answered input work env s u reserved_claim {r} {t} c claimed h =
    let (o, there) = claim_operation-reserved input env s claimed in
    let (response, v, worked, rest) =
      >>=-eq-ok (work env u) (λ response. pure (some response)) env h in
    let stored = c.stores env u response v o there.0 worked in
    same_outcome input (some response) r v t rest
      (complete response env.now o, (stored, there.1, there.2), refl, refl)

pub guarded-Answered :
    (store_id : ℕ) (input : ClaimInput) (work : Tx Response) (env : Env) (s : State)
    {r : Option Response} {t : State}
    → Completes input.operation_key work
    → guarded store_id input work env s ≡ (ok r, t)
    → Answered input r t.db.operations
unfolding configure_tx
guarded-Answered store_id input work env s {r} {t} c h =
    let (claim, u, claimed, rest) =
      >>=-eq-ok (claim_operation input env (configure_tx store_id env s).1) (replay_or work) env
        h in
    replay_or-Answered input work env _ u claim c claimed rest

-- What a call answers whose key has been answered with `r`.
abbrev pub again : Env → Option Response → Result (Option Response)
again env r = if env.resumes then ok r else err Error.transaction_aborted

-- A guarded call that is answered already changes no table.
pub guarded-replay :
    (store_id : ℕ) (input : ClaimInput) (work : Tx Response) (env : Env) (s : State)
    {r : Option Response}
    → Answered input r s.db.operations
    → guarded store_id input work env s ≡ (again env r, (configure_tx store_id env s).1)
unfolding configure_tx replay_or
guarded-replay store_id input work env s {r} h =
    rw (claim_operation-Answered input r env (configure_tx store_id env s).1 h)
      (elim (Bool-cases env.resumes) [ inl e ↦ rw e refl | inr e ↦ rw e refl ])
