-- ===== src/Payments/Transition.antt =====
-- payment-transition.service.ts: the one place that changes the status of a payment or an order. Each
-- change of status is written beside a row of history.
use lotzi.Base.{ℕ, Option, none, some, List, ◌∷◌, ◌==◌, if◌then◌else◌, String}
use lotzi.Payments.Status.{
  PaymentStatus, OrderStatus, TransitionError, payment_index, order_index,
  assert_payment_transition, assert_order_transition,
}

pub record PaymentEvent : Type 0 where
  pub from_status : PaymentStatus
  pub to_status : PaymentStatus
  pub reason : String

pub record OrderStateTransition : Type 0 where
  pub from_status : OrderStatus
  pub to_status : OrderStatus
  pub reason : String

-- The row of a payment, with its history, newest first.
pub record Payment : Type 0 where
  pub status : PaymentStatus
  pub verified_at : Option ℕ
  pub failed_at : Option ℕ
  pub history : List PaymentEvent

pub record Order : Type 0 where
  pub status : OrderStatus
  pub confirmed_at : Option ℕ
  pub cancelled_at : Option ℕ
  pub history : List OrderStateTransition

pub data Result (A : Type 0) : Type 0 where
  ok : A → Result A
  err : TransitionError → Result A

abbrev when_paid : PaymentStatus → ℕ → Option ℕ → Option ℕ
when_paid PaymentStatus.paid now old = some now
when_paid _ now old = old

abbrev when_failed : PaymentStatus → ℕ → Option ℕ → Option ℕ
when_failed PaymentStatus.failed now old = some now
when_failed _ now old = old

abbrev when_confirmed : OrderStatus → ℕ → Option ℕ → Option ℕ
when_confirmed OrderStatus.payment_confirmed now old = some now
when_confirmed _ now old = old

abbrev when_cancelled : OrderStatus → ℕ → Option ℕ → Option ℕ
when_cancelled OrderStatus.cancelled now old = some now
when_cancelled _ now old = old

unfoldable pub move_payment : PaymentStatus → PaymentStatus → String → ℕ → Payment → Payment
move_payment from to reason now p = record p {
  status = to;
  verified_at = when_paid to now p.verified_at;
  failed_at = when_failed to now p.failed_at;
  history = record { from_status = from; to_status = to; reason = reason } ∷ p.history;
}

-- `transitionPayment`. The caller says which status it has read.
unfoldable pub transition_payment :
    PaymentStatus → PaymentStatus → String → ℕ → Payment → Result Payment
unfolding move_payment assert_payment_transition
transition_payment from to reason now p = elim (assert_payment_transition from to) [
  | some e ↦ err e
  | none ↦
      if payment_index from == payment_index to
      then ok p
      else ok (move_payment from to reason now p)
]

unfoldable move_order : OrderStatus → OrderStatus → String → ℕ → Order → Order
move_order from to reason now o = record o {
  status = to;
  confirmed_at = when_confirmed to now o.confirmed_at;
  cancelled_at = when_cancelled to now o.cancelled_at;
  history = record { from_status = from; to_status = to; reason = reason } ∷ o.history;
}

-- `transitionOrder`.
unfoldable transition_order : OrderStatus → OrderStatus → String → ℕ → Order → Result Order
unfolding move_order assert_order_transition
transition_order from to reason now o = elim (assert_order_transition from to) [
  | some e ↦ err e
  | none ↦ if order_index from == order_index to then ok o else ok (move_order from to reason now o)
]
