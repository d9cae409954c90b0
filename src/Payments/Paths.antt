-- ===== src/Payments/Paths.antt =====
-- Where a payment and an order can get to by the changes of status that payment-state.machine.ts
-- lets through.
use lotzi.Base.{Bool, true, false, not, ◌&&◌, ◌||◌, ◌==◌, ◌≡◌, refl, ◌⊎◌, inl, inr, arith}
use lotzi.Payments.Status.{
  PaymentStatus, OrderStatus, payment_index, order_index, payment_allowed, order_allowed,
}
use lotzi.Payments.Enumeration.{
  every_payment, every_payment_sound, every_payment_pair, every_order, every_order_sound,
  every_order_pair,
}

pub data PaymentPath (a : PaymentStatus) : PaymentStatus → Type 0 where
  here : PaymentPath a a
  next : {b c : PaymentStatus} → PaymentPath a b → payment_allowed b c ≡ true → PaymentPath a c

pub data OrderPath (a : OrderStatus) : OrderStatus → Type 0 where
  here : OrderPath a a
  next : {b c : OrderStatus} → OrderPath a b → order_allowed b c ≡ true → OrderPath a c

abbrev implies : Bool → Bool → Bool
implies true b = b
implies false b = true

-- The payment has not been paid yet, or will not be.
abbrev pub is_unpaid : PaymentStatus → Bool
is_unpaid PaymentStatus.pending = true
is_unpaid PaymentStatus.initiated = true
is_unpaid PaymentStatus.session_created = true
is_unpaid PaymentStatus.pending_gateway = true
is_unpaid PaymentStatus.authorized = true
is_unpaid PaymentStatus.user_dropped = true
is_unpaid PaymentStatus.unknown_gateway = true
is_unpaid PaymentStatus.expired = true
is_unpaid PaymentStatus.inventory_confirmation_requires_review = true
is_unpaid _ = false

-- `retryableStatuses.has` of `retry`.
unfoldable pub retry_allowed : PaymentStatus → Bool
retry_allowed PaymentStatus.pending_gateway = true
retry_allowed PaymentStatus.user_dropped = true
retry_allowed PaymentStatus.unknown_gateway = true
retry_allowed _ = false

-- The statuses that a path of a payment has gone through, the last one included.
pub passes : {a b : PaymentStatus} → PaymentStatus → PaymentPath a b → Bool
passes {a} s here = payment_index a == payment_index s
passes s (next {c} p e) = payment_index c == payment_index s || passes s p

abbrev is_failed : PaymentStatus → Bool
is_failed b = payment_index b == payment_index PaymentStatus.failed

abbrev is_refund_pending : PaymentStatus → Bool
is_refund_pending b = payment_index b == payment_index PaymentStatus.refund_pending

-- A status that is neither unpaid nor FAILED is followed by such a one, or it is REFUND_PENDING.
abbrev kept_step : PaymentStatus → PaymentStatus → Bool
kept_step a b = implies (not (is_unpaid a)) (
    implies (payment_allowed a b)
      (not (is_unpaid b) && (not (is_failed b) || (is_failed a || is_refund_pending a))))

kept_table : every_payment (λ a. every_payment (kept_step a)) ≡ true
unfolding payment_allowed
kept_table = refl

kept_next :
    (a b : PaymentStatus)
    → is_unpaid a ≡ false
    → payment_allowed a b ≡ true
    → (is_unpaid b ≡ false) × ((not (is_failed b) || (is_failed a || is_refund_pending a)) ≡ true)
kept_next a b h k = ground (arith, every_payment_pair kept_step kept_table a b)

retry_table : every_payment (λ a. implies (not (is_unpaid a)) (not (retry_allowed a))) ≡ true
unfolding retry_allowed
retry_table = refl

no_retry : (a : PaymentStatus) → is_unpaid a ≡ false → retry_allowed a ≡ false
no_retry a h = ground (
  arith,
  every_payment_sound (λ x. implies (not (is_unpaid x)) (not (retry_allowed x))) retry_table a,
)

passes_last :
    {a b : PaymentStatus} (p : PaymentPath a b)
    → is_refund_pending b ≡ true
    → passes PaymentStatus.refund_pending p ≡ true
unfolding passes
passes_last here h = h
passes_last (next {b} {c} p e) h = ground arith

-- Along a path from PAID.
path-kept :
    {b : PaymentStatus} (p : PaymentPath PaymentStatus.paid b)
    → (is_unpaid b ≡ false) × ((not (is_failed b) || passes PaymentStatus.refund_pending p) ≡ true)
unfolding passes
path-kept here = (refl, refl)
path-kept (next {b} {c} p e) =
    let (kept, refunded) = path-kept p in
    let (kept', step) = kept_next b c kept e in (kept', ground (arith, passes_last p))

-- Allowed changes from PAID never lead back to a status of a payment that is not paid, so a payment
-- that was paid cannot be retried, and they lead to FAILED only through REFUND_PENDING.
pub paid_path :
    {b : PaymentStatus} (p : PaymentPath PaymentStatus.paid b)
    → (is_unpaid b ≡ false)
      × (retry_allowed b ≡ false)
      × ((not (is_failed b) || passes PaymentStatus.refund_pending p) ≡ true)
paid_path {b} p = let (kept, refunded) = path-kept p in (kept, no_retry b kept, refunded)

abbrev one : {a b : PaymentStatus} → payment_allowed a b ≡ true → PaymentPath a b
one e = next here e

append_path : {a b c : PaymentStatus} → PaymentPath a b → PaymentPath b c → PaymentPath a c
append_path p here = p
append_path p (next q e) = next (append_path p q) e

-- Every payment can still be brought to REFUNDED.
pub path-refunded : (a : PaymentStatus) → PaymentPath a PaymentStatus.refunded
unfolding payment_allowed
path-refunded PaymentStatus.refunded = here
path-refunded PaymentStatus.paid = one refl
path-refunded PaymentStatus.refund_pending = one refl
path-refunded PaymentStatus.partially_refunded = one refl
path-refunded PaymentStatus.chargeback_opened = one refl
path-refunded PaymentStatus.duplicate_success_requires_refund = one refl
path-refunded PaymentStatus.inventory_confirmation_requires_review = one refl
path-refunded PaymentStatus.failed =
    next {b = PaymentStatus.duplicate_success_requires_refund} (one refl) refl
path-refunded PaymentStatus.expired =
    next {b = PaymentStatus.duplicate_success_requires_refund} (one refl) refl
path-refunded PaymentStatus.pending =
    next {b = PaymentStatus.inventory_confirmation_requires_review} (one refl) refl
path-refunded PaymentStatus.initiated =
    next {b = PaymentStatus.inventory_confirmation_requires_review} (one refl) refl
path-refunded PaymentStatus.session_created =
    next {b = PaymentStatus.inventory_confirmation_requires_review} (one refl) refl
path-refunded PaymentStatus.pending_gateway =
    next {b = PaymentStatus.inventory_confirmation_requires_review} (one refl) refl
path-refunded PaymentStatus.authorized =
    next {b = PaymentStatus.inventory_confirmation_requires_review} (one refl) refl
path-refunded PaymentStatus.user_dropped =
    next {b = PaymentStatus.inventory_confirmation_requires_review} (one refl) refl
path-refunded PaymentStatus.unknown_gateway =
    next {b = PaymentStatus.inventory_confirmation_requires_review} (one refl) refl

-- The statuses that a path of an order has gone through, the last one included.
pub visits : {a b : OrderStatus} → OrderStatus → OrderPath a b → Bool
visits {a} s here = order_index a == order_index s
visits s (next {c} p e) = order_index c == order_index s || visits s p

-- The statuses that an order can be in only after it has been in `s`.
unfoldable pub needs : OrderStatus → OrderStatus → Bool
needs OrderStatus.accepted OrderStatus.packing = true
needs OrderStatus.accepted OrderStatus.out_for_delivery = true
needs OrderStatus.accepted OrderStatus.delivered = true
needs OrderStatus.accepted OrderStatus.return_requested = true
needs OrderStatus.packing OrderStatus.out_for_delivery = true
needs OrderStatus.packing OrderStatus.delivered = true
needs OrderStatus.packing OrderStatus.return_requested = true
needs OrderStatus.out_for_delivery OrderStatus.delivered = true
needs OrderStatus.out_for_delivery OrderStatus.return_requested = true
needs OrderStatus.fulfillment_ready OrderStatus.accepted = true
needs OrderStatus.fulfillment_ready OrderStatus.packing = true
needs OrderStatus.fulfillment_ready OrderStatus.out_for_delivery = true
needs OrderStatus.fulfillment_ready OrderStatus.delivered = true
needs OrderStatus.fulfillment_ready OrderStatus.return_requested = true
needs OrderStatus.payment_confirmed OrderStatus.fulfillment_ready = true
needs OrderStatus.payment_confirmed OrderStatus.accepted = true
needs OrderStatus.payment_confirmed OrderStatus.packing = true
needs OrderStatus.payment_confirmed OrderStatus.out_for_delivery = true
needs OrderStatus.payment_confirmed OrderStatus.delivered = true
needs OrderStatus.payment_confirmed OrderStatus.return_requested = true
needs _ _ = false

-- A status that needs `s` is entered from one that needs `s`, or from `s` itself.
abbrev needs_step : OrderStatus → OrderStatus → OrderStatus → Bool
needs_step s b c =
    implies (needs s c) (implies (order_allowed b c) (order_index b == order_index s || needs s b))

abbrev every_triple : (OrderStatus → OrderStatus → OrderStatus → Bool) → Bool
every_triple p = every_order (λ s. every_order (λ b. every_order (p s b)))

needs_table : every_triple needs_step ≡ true
unfolding order_allowed needs
needs_table = refl

needs_next :
    (s b c : OrderStatus)
    → needs s c ≡ true
    → order_allowed b c ≡ true
    → (order_index b == order_index s || needs s b) ≡ true
needs_next s b c h k = ground (
  arith,
  every_order_pair (needs_step s)
      (every_order_sound (λ t. every_order (λ x. every_order (needs_step t x))) needs_table s) b c,
)

visits_last :
    {a b : OrderStatus} (s : OrderStatus) (p : OrderPath a b)
    → (order_index b == order_index s) ≡ true
    → visits s p ≡ true
unfolding visits
visits_last s here h = h
visits_last s (next {c} p e) h = ground arith

pending_needs_nothing : (s : OrderStatus) → needs s OrderStatus.pending ≡ true → ⊥
unfolding needs
pending_needs_nothing s h =
    ground (arith, every_order_sound (λ t. not (needs t OrderStatus.pending)) refl s)

visits_next :
    {a b : OrderStatus} (s c : OrderStatus) (p : OrderPath a b) (e : order_allowed b c ≡ true)
    → visits s p ≡ true
    → visits s (next p e) ≡ true
unfolding visits
visits_next s c p e h = ground arith

or_true : {x y : Bool} → (x || y) ≡ true → (x ≡ true) ⊎ (y ≡ true)
or_true h = ground arith

-- An order that begins as PENDING and gets to a status `c` has been in each status that `c` needs:
-- it is delivered only after it was paid, made ready, accepted, packed and sent out, in any case.
pub pending-visits :
    {c : OrderStatus} (s : OrderStatus) (p : OrderPath OrderStatus.pending c)
    → needs s c ≡ true
    → visits s p ≡ true
pending-visits s here h = absurd (pending_needs_nothing s h)
pending-visits s (next {b} {c} p e) h = visits_next s c p e (elim (or_true (needs_next s b c h e)) [
  | inl at ↦ visits_last s p at
  | inr earlier ↦ pending-visits s p earlier
])

abbrev enters_rejected : OrderStatus → OrderStatus → Bool
enters_rejected a b = implies (order_allowed a b) (
    implies (order_index b == order_index OrderStatus.rejected)
      (order_index a == order_index OrderStatus.rejected))

rejected_table : every_order (λ a. every_order (enters_rejected a)) ≡ true
unfolding order_allowed
rejected_table = refl

rejected_next :
    (a b : OrderStatus)
    → order_allowed a b ≡ true
    → order_index b ≡ order_index OrderStatus.rejected
    → order_index a ≡ order_index OrderStatus.rejected
rejected_next a b e h = ground (arith, every_order_pair enters_rejected rejected_table a b)

-- No change of status makes an order REJECTED: every order on a path to it was REJECTED before.
pub path-rejected :
    {a b : OrderStatus}
    → order_index b ≡ order_index OrderStatus.rejected
    → OrderPath a b
    → order_index a ≡ order_index OrderStatus.rejected
path-rejected h here = h
path-rejected h (next {b} {c} p e) = path-rejected (rejected_next b c e h) p
