-- ===== src/Payments/Examples.antt =====
-- A payment and an order that run through.
use lotzi.Base.{
  ℕ, ◌*◌, ◌+◌, ◌≤◌, ◌<◌, ◌≡◌, refl, List, [], ◌∷◌, none, some, true, false, not, ◌||◌, ◌&&◌, arith,
}
use lotzi.Payments.Status.{
  PaymentStatus, OrderStatus, payment_allowed, assert_payment_transition, order_allowed,
  order_index,
}
use lotzi.Payments.Money.{round_half_up}
use lotzi.Payments.Transition.{Payment, transition_payment, move_payment}
use lotzi.Payments.Rounding.{round_half_up_nearest}
use lotzi.Payments.Paths.{
  PaymentPath, OrderPath, is_unpaid, retry_allowed, passes, visits, needs, path-refunded, paid_path,
  pending-visits, path-rejected,
}
use lotzi.Payments.History.{Request, IsReached, linked, all_changes, fresh, run, run-linked}

round_half_up_nearest_example :
    (r : ℕ) × (round_half_up 7 2 ≡ some r) × (2 * (r * 2) ≤ 2 * 7 + 2) × (2 * 7 < 2 * (r * 2) + 2)
round_half_up_nearest_example = round_half_up_nearest 7 2 (omega arith)

path-refunded_example : PaymentPath PaymentStatus.unknown_gateway PaymentStatus.refunded
path-refunded_example = path-refunded PaymentStatus.unknown_gateway

refund_failed : PaymentPath PaymentStatus.paid PaymentStatus.failed
unfolding payment_allowed
refund_failed =
    PaymentPath.next {b = PaymentStatus.refund_pending} (PaymentPath.next PaymentPath.here refl)
      refl

paid_path_example :
    (is_unpaid PaymentStatus.failed ≡ false)
    × (retry_allowed PaymentStatus.failed ≡ false)
    × ((not true || passes PaymentStatus.refund_pending refund_failed) ≡ true)
paid_path_example = paid_path refund_failed

confirmed_path : OrderPath OrderStatus.pending OrderStatus.fulfillment_ready
unfolding order_allowed
confirmed_path =
    OrderPath.next {b = OrderStatus.payment_confirmed} (OrderPath.next OrderPath.here refl) refl

needed : needs OrderStatus.payment_confirmed OrderStatus.fulfillment_ready ≡ true
unfolding needs
needed = refl

pending-visits_example : visits OrderStatus.payment_confirmed confirmed_path ≡ true
pending-visits_example = pending-visits OrderStatus.payment_confirmed confirmed_path needed

rejected_path : OrderPath OrderStatus.rejected OrderStatus.rejected
rejected_path = OrderPath.here

path-rejected_example : order_index OrderStatus.rejected ≡ order_index OrderStatus.rejected
path-rejected_example = path-rejected refl rejected_path

abbrev fresh_payment : Payment
fresh_payment = record {
  status = PaymentStatus.pending;
  verified_at = none;
  failed_at = none;
  history = [];
}

-- The last of these calls changes the status from one that the row has no longer.
abbrev requests : List Request
requests =
    (PaymentStatus.pending, PaymentStatus.pending_gateway, "session", 10)
    ∷ (PaymentStatus.pending_gateway, PaymentStatus.refunded, "too early", 11)
    ∷ (PaymentStatus.pending_gateway, PaymentStatus.paid, "webhook", 12)
    ∷ (PaymentStatus.pending_gateway, PaymentStatus.failed, "create failed", 13)
    ∷ []

run-linked_example :
    IsReached PaymentStatus.pending (run fresh_payment requests)
    × (all_changes (run fresh_payment requests).history ≡ true)
    × (linked PaymentStatus.pending (run fresh_payment requests).history
        ≡ (fresh fresh_payment requests && true))
unfolding linked
run-linked_example = run-linked PaymentStatus.pending fresh_payment requests refl

-- A status that was read too early breaks the link.
requests_stale : fresh fresh_payment requests ≡ false
unfolding fresh transition_payment move_payment assert_payment_transition payment_allowed
requests_stale = refl
