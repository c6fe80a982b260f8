-- ===== src/Payment/Settlement.antt =====
-- payment-status.machine.ts: what a payment goes through.
use farzin.Prelude.{
  ◌≡◌, ◌⊎◌, ◌↔◌, inl, inr, arith, List, [], ◌∷◌, ok, true, Bool, false, Bool-cases,
}
use farzin.Payment.{
  PaymentStatus, created, paid, refund_requested, refunded, assert_payment_transition,
  assert_refund_path, includes_status,
}

-- Moves that `assertPaymentTransition` lets pass lead from `source` to `target`, by way of the states
-- `passed`, the last first.
pub data Moves (source : PaymentStatus) : List PaymentStatus → PaymentStatus → Type 0 where
  stay : Moves source [] source
  move :
      {passed : List PaymentStatus} {s : PaymentStatus} (t : PaymentStatus)
      → Moves source passed s
      → assert_payment_transition s t ≡ ok tt
      → Moves source (s ∷ passed) t

-- The payment has been received, whether or not it is given back.
abbrev pub is_settled : PaymentStatus → Bool
is_settled paid = true
is_settled refund_requested = true
is_settled refunded = true
is_settled _ = false

settle_step :
    (s t : PaymentStatus)
    → assert_payment_transition s t ≡ ok tt
    → ((is_settled s ≡ true) → is_settled t ≡ true)
      × (is_settled s ≡ false → is_settled t ≡ true → t ≡ paid)
unfolding assert_payment_transition
settle_step s t h = (ground arith, ground arith)

-- A payment that was received is never again open or failed: from a settled state moves lead only to
-- settled states.
Moves-settled :
    {s t : PaymentStatus} {passed : List PaymentStatus}
    → Moves s passed t
    → is_settled s ≡ true
    → is_settled t ≡ true
Moves-settled stay h = h
Moves-settled (move {s = u} t before e) h = (settle_step u t e).0 (Moves-settled before h)

passes :
    (u : PaymentStatus) (passed : List PaymentStatus)
    → (u ≡ paid) ⊎ (includes_status passed paid ≡ true)
    → includes_status (u ∷ passed) paid ≡ true
passes u passed h = ground arith

-- No money is given back that was not received: a payment gets from its creation to a settled state
-- other than `PAID` only by way of `PAID`.
pub Moves-paid :
    {t : PaymentStatus} {passed : List PaymentStatus}
    → Moves created passed t
    → is_settled t ≡ true
    → (t ≡ paid) ⊎ (includes_status passed paid ≡ true)
Moves-paid stay h = cc
Moves-paid (move {passed = passed} {s = u} t before e) h = elim (Bool-cases (is_settled u)) [
  | inl settled ↦ inr (passes u passed (Moves-paid before settled))
  | inr unsettled ↦ inl ((settle_step u t e).1 unsettled h)
]

-- The refund path is open from `PAID` and from no other state.
assert_refund_path_iff : (s : PaymentStatus) → (assert_refund_path s ≡ ok tt) ↔ (s ≡ paid)
unfolding assert_refund_path assert_payment_transition
assert_refund_path_iff s = ground arith
