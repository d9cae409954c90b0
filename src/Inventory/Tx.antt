-- ===== src/Inventory/Tx.antt =====
-- A method of the service inside a transaction: state and thrown errors. What was written before an
-- error stays visible until `transaction` rolls it back.
use lotzi.Base.{ℕ, ◌+◌, Bool, Option, none, some, if◌then◌else◌, ◌≡◌, refl}
use lotzi.Inventory.Types.{State, Env, Error, Db}

pub data Result {ℓ} (A : Type ℓ) : Type ℓ where
  ok : A → Result A
  err : Error → Result A

abbrev pub Tx : Type 0 → Type 0
Tx A = Env → State → Result A × State

module _ {A : Type 0} where
  abbrev pub pure : A → Tx A
  pure a env s = (ok a, s)

  abbrev pub throw : Error → Tx A
  throw e env s = (err e, s)

  abbrev pub or_throw : Option A → Error → Tx A
  or_throw none e = throw e
  or_throw (some a) e = pure a

  -- A query reads the tables and the environment.
  abbrev pub query : (Env → Db → A) → Tx A
  query f env s = (ok (f env s.db), s)

abbrev pub continue_with : {A B : Type 0} → (A → Tx B) → Env → Result A × State → Result B × State
continue_with f env (ok a, s) = f a env s
continue_with f env (err e, s) = (err e, s)

infixl 5 ◌>>=◌ ◌>>◌
abbrev pub ◌>>=◌ : {A B : Type 0} → Tx A → (A → Tx B) → Tx B
◌>>=◌ m f env s = continue_with f env (m env s)

abbrev pub ◌>>◌ : {A B : Type 0} → Tx A → Tx B → Tx B
m >> k = m >>= λ _. k

abbrev pub throw_if : Bool → Error → Tx (Unit {0})
throw_if c e env s = (if c then err e else ok tt, s)

-- A statement that writes the tables.
abbrev pub write : (Env → Db → Db) → Tx (Unit {0})
write f env s = (ok tt, record s { db = f env s.db })

-- `gen_random_uuid()`.
abbrev draw : Tx ℕ
draw env s = (ok (env.uuid s.drawn), record s { drawn = s.drawn + 1 })

abbrev rolled_back : State → State → State
rolled_back before after = record after { db = before.db; settings = before.settings }

-- What the end of a transaction makes of its outcome.
abbrev pub settle : {A : Type 0} → State → Result A × State → Result A × State
settle s (ok a, t) = (ok a, record t { settings = s.settings })
settle s (err e, t) = (err e, rolled_back s t)

-- `prisma.$transaction`: a thrown error undoes what was written to the tables, and nothing else. The
-- settings are local to the transaction.
unfoldable pub transaction : {A : Type 0} → Tx A → Tx A
transaction m env s = settle s (m env s)

-- A chain that ends well has gone well step by step.
pub >>=-eq-ok :
    {A B : Type 0} (x : Result A × State) (f : A → Tx B) (env : Env) {b : B} {t : State}
    → continue_with f env x ≡ (ok b, t)
    → (a : A) × (u : State) × (x ≡ (ok a, u)) × (f a env u ≡ (ok b, t))
>>=-eq-ok (ok a, u) f env h = (a, u, refl, h)
>>=-eq-ok (err x, u) f env h = cc
