-- ===== src/Base/Outcome.antt =====
-- What a method that may throw ends with.
use mathlib.Core.Path.{◌≡◌, refl, ap}
use mathlib.Core.Option.{Option, none, some}
use mathlib.Core.Bool.{Bool, true, false}
use lotzi.Base.Tests.{if◌then◌else◌}

pub data Outcome (E A : Type 0) : Type 0 where
  returned : A → Outcome E A
  thrown : E → Outcome E A

infixl 5 ◌>>=◌ ◌>>◌
abbrev pub ◌>>=◌ : {E A B : Type 0} → Outcome E A → (A → Outcome E B) → Outcome E B
returned a >>= f = f a
thrown e >>= f = thrown e

abbrev pub ◌>>◌ : {E A B : Type 0} → Outcome E A → Outcome E B → Outcome E B
m >> k = m >>= λ _. k

module _ {E : Type 0} where
  abbrev pub throw_if : Bool → E → Outcome E (Unit {0})
  throw_if c e = if c then thrown e else returned tt

  abbrev pub or_throw : {A : Type 0} → Option A → E → Outcome E A
  or_throw none e = thrown e
  or_throw (some a) e = returned a

module _ {E A : Type 0} where
  abbrev value_or : A → Outcome E A → A
  value_or a (returned b) = b
  value_or a (thrown e) = a

  pub returned-injective : {a b : A} → Path (Outcome E A) (returned a) (returned b) → a ≡ b
  returned-injective {a = a} h = ap (value_or a) h

-- What returns has returned at each of its steps.
pub >>=-returned :
    {E A B : Type 0} (m : Outcome E A) (f : A → Outcome E B) {b : B}
    → (m >>= f) ≡ returned b
    → (a : A) × (m ≡ returned a) × (f a ≡ returned b)
>>=-returned (returned a) f h = (a, refl, h)
>>=-returned (thrown e) f h = cc

pub thrown≢returned : {E A : Type 0} {e : E} {a : A} → ¬ Path (Outcome E A) (thrown e) (returned a)
thrown≢returned h = cc

pub throw_if-returned :
    {E : Type 0} (c : Bool) (e : E) {u : Unit {0}} → throw_if c e ≡ returned u → c ≡ false
throw_if-returned true e h = cc
throw_if-returned false e h = refl

pub or_throw-returned :
    {E A : Type 0} (o : Option A) (e : E) {a : A} → or_throw o e ≡ returned a → o ≡ some a
or_throw-returned none e h = cc
or_throw-returned (some b) e h = cc

-- What returns has passed a guard.
pub passed :
    {E A : Type 0} (c : Bool) (e : E) (rest : Outcome E A) {a : A}
    → (throw_if c e >> rest) ≡ returned a
    → (c ≡ false) × (rest ≡ returned a)
passed true e rest h = cc
passed false e rest h = (refl, h)
