-- ===== src/Payments/Status.antt =====
-- payment-state.machine.ts: which changes of status a payment and an order may make.
use lotzi.Base.{
  ℕ, Bool, true, false, List, [], ◌∷◌, Option, none, some, any, if◌then◌else◌, ◌==◌, ◌||◌,
}

pub data PaymentStatus : Type 0 where
  pending initiated session_created pending_gateway authorized paid failed : PaymentStatus
  user_dropped expired unknown_gateway refund_pending partially_refunded : PaymentStatus
  refunded chargeback_opened duplicate_success_requires_refund : PaymentStatus
  inventory_confirmation_requires_review : PaymentStatus

pub data OrderStatus : Type 0 where
  pending pending_payment payment_confirmed payment_failed : OrderStatus
  inventory_confirmation_requires_review fulfillment_ready accepted rejected : OrderStatus
  packing out_for_delivery delivered cancelled expired refund_pending : OrderStatus
  return_requested : OrderStatus

pub data TransitionError : Type 0 where
  payment_state_transition_invalid order_state_transition_invalid : TransitionError

-- `PAYMENT_TRANSITIONS`.
unfoldable payment_transitions : PaymentStatus → List PaymentStatus
payment_transitions PaymentStatus.pending =
    PaymentStatus.initiated ∷ PaymentStatus.session_created ∷ PaymentStatus.pending_gateway
    ∷ PaymentStatus.failed ∷ PaymentStatus.inventory_confirmation_requires_review ∷ []
payment_transitions PaymentStatus.initiated =
    PaymentStatus.session_created ∷ PaymentStatus.authorized ∷ PaymentStatus.failed
    ∷ PaymentStatus.expired ∷ PaymentStatus.unknown_gateway
    ∷ PaymentStatus.inventory_confirmation_requires_review ∷ []
payment_transitions PaymentStatus.session_created =
    PaymentStatus.pending_gateway ∷ PaymentStatus.failed ∷ PaymentStatus.expired
    ∷ PaymentStatus.unknown_gateway ∷ PaymentStatus.inventory_confirmation_requires_review ∷ []
payment_transitions PaymentStatus.pending_gateway =
    PaymentStatus.authorized ∷ PaymentStatus.paid ∷ PaymentStatus.failed
    ∷ PaymentStatus.user_dropped ∷ PaymentStatus.expired ∷ PaymentStatus.unknown_gateway
    ∷ PaymentStatus.inventory_confirmation_requires_review ∷ []
payment_transitions PaymentStatus.authorized =
    PaymentStatus.paid ∷ PaymentStatus.failed ∷ PaymentStatus.expired
    ∷ PaymentStatus.inventory_confirmation_requires_review ∷ []
payment_transitions PaymentStatus.paid =
    PaymentStatus.refund_pending ∷ PaymentStatus.partially_refunded ∷ PaymentStatus.refunded
    ∷ PaymentStatus.chargeback_opened ∷ PaymentStatus.duplicate_success_requires_refund ∷ []
payment_transitions PaymentStatus.failed = PaymentStatus.duplicate_success_requires_refund ∷ []
payment_transitions PaymentStatus.user_dropped =
    PaymentStatus.initiated ∷ PaymentStatus.session_created ∷ PaymentStatus.pending_gateway
    ∷ PaymentStatus.paid ∷ PaymentStatus.inventory_confirmation_requires_review
    ∷ PaymentStatus.expired ∷ []
payment_transitions PaymentStatus.expired = PaymentStatus.duplicate_success_requires_refund ∷ []
payment_transitions PaymentStatus.unknown_gateway =
    PaymentStatus.pending_gateway ∷ PaymentStatus.paid ∷ PaymentStatus.failed
    ∷ PaymentStatus.expired ∷ PaymentStatus.inventory_confirmation_requires_review ∷ []
payment_transitions PaymentStatus.refund_pending =
    PaymentStatus.partially_refunded ∷ PaymentStatus.refunded ∷ PaymentStatus.paid
    ∷ PaymentStatus.failed ∷ []
payment_transitions PaymentStatus.partially_refunded =
    PaymentStatus.refund_pending ∷ PaymentStatus.refunded ∷ []
payment_transitions PaymentStatus.refunded = []
payment_transitions PaymentStatus.chargeback_opened =
    PaymentStatus.refund_pending ∷ PaymentStatus.refunded ∷ []
payment_transitions PaymentStatus.duplicate_success_requires_refund =
    PaymentStatus.refund_pending ∷ PaymentStatus.refunded ∷ []
payment_transitions PaymentStatus.inventory_confirmation_requires_review =
    PaymentStatus.duplicate_success_requires_refund ∷ PaymentStatus.refund_pending
    ∷ PaymentStatus.refunded ∷ []

-- `ORDER_TRANSITIONS`.
unfoldable order_transitions : OrderStatus → List OrderStatus
order_transitions OrderStatus.pending =
    OrderStatus.pending_payment ∷ OrderStatus.payment_confirmed ∷ OrderStatus.payment_failed
    ∷ OrderStatus.cancelled ∷ []
order_transitions OrderStatus.pending_payment =
    OrderStatus.payment_confirmed ∷ OrderStatus.payment_failed
    ∷ OrderStatus.inventory_confirmation_requires_review ∷ OrderStatus.expired
    ∷ OrderStatus.cancelled ∷ []
order_transitions OrderStatus.payment_confirmed =
    OrderStatus.fulfillment_ready ∷ OrderStatus.inventory_confirmation_requires_review
    ∷ OrderStatus.refund_pending ∷ []
order_transitions OrderStatus.payment_failed = []
order_transitions OrderStatus.inventory_confirmation_requires_review =
    OrderStatus.refund_pending ∷ OrderStatus.cancelled ∷ []
order_transitions OrderStatus.fulfillment_ready =
    OrderStatus.accepted ∷ OrderStatus.cancelled ∷ OrderStatus.refund_pending ∷ []
order_transitions OrderStatus.accepted = OrderStatus.packing ∷ OrderStatus.cancelled ∷ []
order_transitions OrderStatus.rejected = []
order_transitions OrderStatus.packing = OrderStatus.out_for_delivery ∷ OrderStatus.cancelled ∷ []
order_transitions OrderStatus.out_for_delivery =
    OrderStatus.delivered ∷ OrderStatus.return_requested ∷ []
order_transitions OrderStatus.delivered =
    OrderStatus.return_requested ∷ OrderStatus.refund_pending ∷ []
order_transitions OrderStatus.cancelled = []
order_transitions OrderStatus.expired = []
order_transitions OrderStatus.refund_pending = OrderStatus.cancelled ∷ []
order_transitions OrderStatus.return_requested = OrderStatus.refund_pending ∷ []

-- The place of a status in its enumeration, by which two statuses are compared.
abbrev pub payment_index : PaymentStatus → ℕ
payment_index PaymentStatus.pending = 0
payment_index PaymentStatus.initiated = 1
payment_index PaymentStatus.session_created = 2
payment_index PaymentStatus.pending_gateway = 3
payment_index PaymentStatus.authorized = 4
payment_index PaymentStatus.paid = 5
payment_index PaymentStatus.failed = 6
payment_index PaymentStatus.user_dropped = 7
payment_index PaymentStatus.expired = 8
payment_index PaymentStatus.unknown_gateway = 9
payment_index PaymentStatus.refund_pending = 10
payment_index PaymentStatus.partially_refunded = 11
payment_index PaymentStatus.refunded = 12
payment_index PaymentStatus.chargeback_opened = 13
payment_index PaymentStatus.duplicate_success_requires_refund = 14
payment_index PaymentStatus.inventory_confirmation_requires_review = 15

-- The place of a status in its enumeration, by which two statuses are compared.
abbrev pub order_index : OrderStatus → ℕ
order_index OrderStatus.pending = 0
order_index OrderStatus.pending_payment = 1
order_index OrderStatus.payment_confirmed = 2
order_index OrderStatus.payment_failed = 3
order_index OrderStatus.inventory_confirmation_requires_review = 4
order_index OrderStatus.fulfillment_ready = 5
order_index OrderStatus.accepted = 6
order_index OrderStatus.rejected = 7
order_index OrderStatus.packing = 8
order_index OrderStatus.out_for_delivery = 9
order_index OrderStatus.delivered = 10
order_index OrderStatus.cancelled = 11
order_index OrderStatus.expired = 12
order_index OrderStatus.refund_pending = 13
order_index OrderStatus.return_requested = 14

-- `from === to || TRANSITIONS[from].includes(to)`, the tests of `assertPaymentTransition`.
unfoldable payment_includes : PaymentStatus → List PaymentStatus → Bool
payment_includes to = any (λ x. payment_index x == payment_index to)

unfoldable pub payment_allowed : PaymentStatus → PaymentStatus → Bool
unfolding payment_transitions payment_includes
payment_allowed from to =
    payment_index from == payment_index to || payment_includes to (payment_transitions from)

-- `none` is a return, `some` a thrown error.
unfoldable pub assert_payment_transition : PaymentStatus → PaymentStatus → Option TransitionError
unfolding payment_allowed
assert_payment_transition from to =
    if payment_allowed from to then none else some payment_state_transition_invalid

-- `from === to || TRANSITIONS[from].includes(to)`, the tests of `assertOrderTransition`.
unfoldable order_includes : OrderStatus → List OrderStatus → Bool
order_includes to = any (λ x. order_index x == order_index to)

unfoldable pub order_allowed : OrderStatus → OrderStatus → Bool
unfolding order_transitions order_includes
order_allowed from to =
    order_index from == order_index to || order_includes to (order_transitions from)

-- `none` is a return, `some` a thrown error.
unfoldable pub assert_order_transition : OrderStatus → OrderStatus → Option TransitionError
unfolding order_allowed
assert_order_transition from to =
    if order_allowed from to then none else some order_state_transition_invalid

is_empty : List PaymentStatus → Bool
is_empty [] = true
is_empty (x ∷ xs) = false

-- `isTerminalPaymentStatus`.
unfoldable is_terminal_payment_status : PaymentStatus → Bool
unfolding is_empty payment_transitions
is_terminal_payment_status status = is_empty (payment_transitions status)
