-- ===== src/Payments/Enumeration.antt =====
-- Statements about every status, by evaluation over the enumerations.
use lotzi.Base.{Bool, true, ◌&&◌, ◌≡◌, arith}
use lotzi.Payments.Status.{PaymentStatus, OrderStatus}

abbrev pub every_payment : (PaymentStatus → Bool) → Bool
every_payment p =
    (p PaymentStatus.pending
      && (p PaymentStatus.initiated
          && (p PaymentStatus.session_created
              && (p PaymentStatus.pending_gateway
                  && (p PaymentStatus.authorized
                      && (p PaymentStatus.paid
                          && (p PaymentStatus.failed
                              && (p PaymentStatus.user_dropped
                                  && (p PaymentStatus.expired
                                      && (p PaymentStatus.unknown_gateway
                                          && (p PaymentStatus.refund_pending
                                              && (p PaymentStatus.partially_refunded
                                                  && (p PaymentStatus.refunded
                                                      && (p PaymentStatus.chargeback_opened
                                                          && (p
                                                            PaymentStatus.duplicate_success_requires_refund
                                                            && p
                                                            PaymentStatus.inventory_confirmation_requires_review)))))))))))))))

pub every_payment_sound :
    (p : PaymentStatus → Bool) → every_payment p ≡ true → (s : PaymentStatus) → p s ≡ true
every_payment_sound p h PaymentStatus.pending = ground arith
every_payment_sound p h PaymentStatus.initiated = ground arith
every_payment_sound p h PaymentStatus.session_created = ground arith
every_payment_sound p h PaymentStatus.pending_gateway = ground arith
every_payment_sound p h PaymentStatus.authorized = ground arith
every_payment_sound p h PaymentStatus.paid = ground arith
every_payment_sound p h PaymentStatus.failed = ground arith
every_payment_sound p h PaymentStatus.user_dropped = ground arith
every_payment_sound p h PaymentStatus.expired = ground arith
every_payment_sound p h PaymentStatus.unknown_gateway = ground arith
every_payment_sound p h PaymentStatus.refund_pending = ground arith
every_payment_sound p h PaymentStatus.partially_refunded = ground arith
every_payment_sound p h PaymentStatus.refunded = ground arith
every_payment_sound p h PaymentStatus.chargeback_opened = ground arith
every_payment_sound p h PaymentStatus.duplicate_success_requires_refund = ground arith
every_payment_sound p h PaymentStatus.inventory_confirmation_requires_review = ground arith

abbrev pub every_order : (OrderStatus → Bool) → Bool
every_order p =
    (p OrderStatus.pending
      && (p OrderStatus.pending_payment
          && (p OrderStatus.payment_confirmed
              && (p OrderStatus.payment_failed
                  && (p OrderStatus.inventory_confirmation_requires_review
                      && (p OrderStatus.fulfillment_ready
                          && (p OrderStatus.accepted
                              && (p OrderStatus.rejected
                                  && (p OrderStatus.packing
                                      && (p OrderStatus.out_for_delivery
                                          && (p OrderStatus.delivered
                                              && (p OrderStatus.cancelled
                                                  && (p OrderStatus.expired
                                                      && (p OrderStatus.refund_pending
                                                          && p
                                                            OrderStatus.return_requested))))))))))))))

pub every_order_sound :
    (p : OrderStatus → Bool) → every_order p ≡ true → (s : OrderStatus) → p s ≡ true
every_order_sound p h OrderStatus.pending = ground arith
every_order_sound p h OrderStatus.pending_payment = ground arith
every_order_sound p h OrderStatus.payment_confirmed = ground arith
every_order_sound p h OrderStatus.payment_failed = ground arith
every_order_sound p h OrderStatus.inventory_confirmation_requires_review = ground arith
every_order_sound p h OrderStatus.fulfillment_ready = ground arith
every_order_sound p h OrderStatus.accepted = ground arith
every_order_sound p h OrderStatus.rejected = ground arith
every_order_sound p h OrderStatus.packing = ground arith
every_order_sound p h OrderStatus.out_for_delivery = ground arith
every_order_sound p h OrderStatus.delivered = ground arith
every_order_sound p h OrderStatus.cancelled = ground arith
every_order_sound p h OrderStatus.expired = ground arith
every_order_sound p h OrderStatus.refund_pending = ground arith
every_order_sound p h OrderStatus.return_requested = ground arith

pub every_payment_pair :
    (p : PaymentStatus → PaymentStatus → Bool)
    → every_payment (λ a. every_payment (p a)) ≡ true
    → (a b : PaymentStatus) → p a b ≡ true
every_payment_pair p h a b =
    every_payment_sound (p a) (every_payment_sound (λ x. every_payment (p x)) h a) b

pub every_order_pair :
    (p : OrderStatus → OrderStatus → Bool)
    → every_order (λ a. every_order (p a)) ≡ true
    → (a b : OrderStatus) → p a b ≡ true
every_order_pair p h a b =
    every_order_sound (p a) (every_order_sound (λ x. every_order (p x)) h a) b
