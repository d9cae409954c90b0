-- ===== src/Payments/History.antt =====
-- The history that payment-transition.service.ts writes.
use lotzi.Base.{
  ℕ, Bool, true, false, not, ◌&&◌, ◌||◌, ◌==◌, ◌≡◌, refl, ◌∙◌, ap, inl, inr, List, [], ◌∷◌, String,
  every, arith, Bool-cases,
}
use lotzi.Payments.Status.{PaymentStatus, payment_index, payment_allowed, assert_payment_transition}
use lotzi.Payments.Transition.{
  Payment, PaymentEvent, Result, ok, err, transition_payment, move_payment,
}

abbrev pub same_status : PaymentStatus → PaymentStatus → Bool
same_status a b = payment_index a == payment_index b

-- Where the history leads to from `first`.
abbrev pub reached : PaymentStatus → List PaymentEvent → PaymentStatus
reached first [] = first
reached first (e ∷ es) = e.to_status

-- Each row of the history begins where the row before it has ended.
unfoldable pub linked : PaymentStatus → List PaymentEvent → Bool
linked first [] = true
linked first (e ∷ es) = same_status (reached first es) e.from_status && linked first es

-- A real change of status that the machine allows.
abbrev pub is_change : PaymentStatus → PaymentStatus → Bool
is_change from to = payment_allowed from to && not (same_status from to)

abbrev pub all_changes : List PaymentEvent → Bool
all_changes = every (λ e. is_change e.from_status e.to_status)

-- What a call is given: the status that its caller has read, the target, the reason and the time.
abbrev pub Request : Type 0
Request = PaymentStatus × PaymentStatus × String × ℕ

abbrev pub after : Payment → Result Payment → Payment
after p (ok q) = q
after p (err e) = p

-- Calls one behind the other; a refused one leaves the row as it is.
pub run : Payment → List Request → Payment
run p [] = p
run p ((from, to, reason, now) ∷ rs) = run (after p (transition_payment from to reason now p)) rs

-- Each call that changes the status was given the status that the row has at the time.
unfoldable pub fresh : Payment → List Request → Bool
fresh p [] = true
fresh p ((from, to, reason, now) ∷ rs) =
    (not (is_change from to) || same_status p.status from)
    && fresh (after p (transition_payment from to reason now p)) rs

-- The row has the status that its history leads to.
abbrev pub IsReached : PaymentStatus → Payment → Type 0
IsReached first p = payment_index (reached first p.history) ≡ payment_index p.status

module _ (from to : PaymentStatus) (reason : String) (now : ℕ) (p : Payment) where
  transition_still :
      is_change from to ≡ false → after p (transition_payment from to reason now p) ≡ p
  unfolding transition_payment assert_payment_transition
  transition_still h = elim (Bool-cases (payment_allowed from to)) [
    | inl allowed ↦ let same : payment_index from ≡ payment_index to = ground arith in ground arith
    | inr refused ↦ ground arith
  ]

  transition_moved :
      is_change from to ≡ true
      → after p (transition_payment from to reason now p) ≡ move_payment from to reason now p
  unfolding transition_payment assert_payment_transition
  transition_moved h = ground arith

  abbrev called : Payment
  called = after p (transition_payment from to reason now p)

  -- A call adds at most one row.
  transition-linked :
      (first : PaymentStatus)
      → IsReached first p
      → IsReached first called
        × (all_changes called.history ≡ all_changes p.history)
        × (linked first called.history
            ≡ ((not (is_change from to) || same_status p.status from) && linked first p.history))
  unfolding linked move_payment
  transition-linked first h = elim (Bool-cases (is_change from to)) [
    | inr still ↦ rw (still, transition_still still) (h, refl, refl)
    | inl change ↦ rw (transition_moved change) (
      refl,
      ground arith,
      rw change (ap (λ n. (n == payment_index from) && linked first p.history) h),
    )
  ]

and_swap : (a b c : Bool) → (a && (b && c)) ≡ ((b && a) && c)
and_swap a b c = ground arith

-- After any calls, whatever status their callers have read, the row has the status that its history
-- leads to, if it had before. The history holds only real and allowed changes exactly when it did
-- before, and it is linked exactly when it was before and each call that changed the status was given
-- the status of the row.
pub run-linked :
    (first : PaymentStatus) (p : Payment) (rs : List Request)
    → IsReached first p
    → IsReached first (run p rs)
      × (all_changes (run p rs).history ≡ all_changes p.history)
      × (linked first (run p rs).history ≡ (fresh p rs && linked first p.history))
unfolding run fresh
run-linked first p [] h = (h, refl, refl)
run-linked first p ((from, to, reason, now) ∷ rs) h =
    let q = called from to reason now p in
    let (at, changes, links) = transition-linked from to reason now p first h in
    let (a, b, c) = run-linked first q rs at in
    (a, b ∙ changes, c ∙ ap (λ x. fresh q rs && x) links ∙ and_swap (fresh q rs) _ _)
