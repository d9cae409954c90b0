-- ===== src/Inventory/History.antt =====
-- Sequences of calls of the engine, each in a transaction of its own.
use lotzi.Base.{ℕ, ◌≡◌, refl, false, List, [], ◌∷◌, some, All}
use lotzi.Inventory.Types.{InventoryItem, State, Env, is_active}
use lotzi.Inventory.Tx.{Tx, Result, ok, err, settle, transaction}
use lotzi.Inventory.Reserve.{OrderInput, reserve_order_stock, authorize_cod_order_stock}
use lotzi.Inventory.Confirm.{ConfirmInput, confirm_order_stock}
use lotzi.Inventory.Release.{ReleaseInput, release_order_stock, expire_reservations, target_status}
use lotzi.Inventory.Invariant.{Inv, Conserves, Conserves-refl, Conserves-trans, find_item, units}
use lotzi.Inventory.Soundness.{Sound}
use lotzi.Inventory.Reserving.{reserve_order_stock-Sound, authorize_cod_order_stock-Sound}
use lotzi.Inventory.Confirming.{confirm_order_stock-Sound}
use lotzi.Inventory.Releasing.{release_order_stock-Sound, expire_due-Sound}

pub data Call : Type 0 where
  reserve_call authorize_cod_call : OrderInput → Call
  confirm_call : ConfirmInput → Call
  release_call : ReleaseInput → Call
  expire_call : ℕ → Call

-- The state behind a call, whether or not it succeeds. The calls of an order run in the transaction
-- of their caller, which an error rolls back.
pub step : State → Env × Call → State
unfolding expire_reservations
step s (env, reserve_call input) = (transaction (reserve_order_stock input) env s).1
step s (env, authorize_cod_call input) = (transaction (authorize_cod_order_stock input) env s).1
step s (env, confirm_call input) = (transaction (confirm_order_stock input) env s).1
step s (env, release_call input) = (transaction (release_order_stock input) env s).1
step s (env, expire_call limit) = (expire_reservations limit env s).1

pub run : State → List (Env × Call) → State
run s [] = s
run s (c ∷ cs) = run (step s c) cs

-- A release asks for a status that ends the reservation.
abbrev IsProper : Env × Call → Type 0
IsProper (env, release_call input) = is_active (target_status input.status) ≡ false
IsProper (env, reserve_call input) = Unit
IsProper (env, authorize_cod_call input) = Unit
IsProper (env, confirm_call input) = Unit
IsProper (env, expire_call limit) = Unit

abbrev Held : State → State → Type 0
Held s t = Inv t.db × Conserves s.db t.db

settle-Held :
    {A : Type 0} (s : State) (x : Result A × State)
    → Inv s.db
    → ((a : A) (t : State) → x ≡ (ok a, t) → Held s t)
    → Held s (settle s x).1
settle-Held s (ok a, t) inv keeps = keeps a t refl
settle-Held s (err e, t) inv keeps = (inv, Conserves-refl s.db)

transaction-Sound :
    {A : Type 0} (m : Tx A) (env : Env) (s : State)
    → Sound m
    → Inv s.db
    → Held s (transaction m env s).1
unfolding transaction
transaction-Sound m env s h inv = settle-Held s (m env s) inv (λ a t e. h.keeps env s a t inv e)

step-Held : (s : State) (c : Env × Call) → IsProper c → Inv s.db → Held s (step s c)
unfolding step
step-Held s (env, reserve_call input) p inv =
    transaction-Sound _ env s (reserve_order_stock-Sound input) inv
step-Held s (env, authorize_cod_call input) p inv =
    transaction-Sound _ env s (authorize_cod_order_stock-Sound input) inv
step-Held s (env, confirm_call input) p inv =
    transaction-Sound _ env s (confirm_order_stock-Sound input) inv
step-Held s (env, release_call input) p inv =
    transaction-Sound _ env s (release_order_stock-Sound input p) inv
step-Held s (env, expire_call limit) p inv = transaction-Sound _ env s (expire_due-Sound limit) inv

run-Held : (s : State) (cs : List (Env × Call)) → All IsProper cs → Inv s.db → Held s (run s cs)
unfolding run
run-Held s [] p inv = (inv, Conserves-refl s.db)
run-Held s (c ∷ cs) p inv =
    let (inv', kept) = step-Held s c p.0 inv in
    let (inv'', kept') = run-Held (step s c) cs p.1 inv' in
    (inv'', Conserves-trans s.db (step s c).db (run s (c ∷ cs)).db kept kept')

-- After any sequence of reservations, authorizations on delivery, confirmations, releases to an ended
-- status and expiries, whether they succeed or fail, the tables satisfy the invariant if they did
-- before: the reserved counter of each item covers its active reservations, no two items have the
-- same store, variant and location, and no two active reservations of an order the same stock.
pub run-Inv : (s : State) (cs : List (Env × Call)) → All IsProper cs → Inv s.db → Inv (run s cs).db
run-Inv s cs p inv = (run-Held s cs p inv).0

-- No such sequence makes or loses stock: each item that was there is still there, with as many units
-- available, reserved and sold together as before.
pub run-units :
    (s : State) (cs : List (Env × Call)) (i : ℕ) (r : InventoryItem)
    → All IsProper cs
    → Inv s.db
    → find_item i s.db ≡ some r
    → (r' : InventoryItem) × (find_item i (run s cs).db ≡ some r') × (units r' ≡ units r)
run-units s cs i r p inv h =
    let (r', found, same, _) = (run-Held s cs p inv).1 i r h in (r', found, same)
