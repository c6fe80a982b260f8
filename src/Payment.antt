-- ===== src/Payment.antt =====
-- The states of a payment, src/modules/billing/payment-status.machine.ts.
pub mod Settlement
use farzin.Prelude.{
  Bool, true, false, not, ◌||◌, List, [], ◌∷◌, Result, ok, err, ◌>>=◌, ◌>>◌, throw_if,
}

pub data PaymentStatus : Type 0 where
  created pending paid refund_requested failed expired cancelled refunded : PaymentStatus

abbrev pub status_eq : PaymentStatus → PaymentStatus → Bool
status_eq created created = true
status_eq pending pending = true
status_eq paid paid = true
status_eq refund_requested refund_requested = true
status_eq failed failed = true
status_eq expired expired = true
status_eq cancelled cancelled = true
status_eq refunded refunded = true
status_eq _ _ = false

-- `TRANSITIONS`.
abbrev pub transitions : PaymentStatus → List PaymentStatus
transitions created = pending ∷ paid ∷ cancelled ∷ expired ∷ []
transitions pending = paid ∷ failed ∷ expired ∷ cancelled ∷ []
transitions paid = refund_requested ∷ []
transitions refund_requested = refunded ∷ paid ∷ []
transitions _ = []

abbrev pub includes_status : List PaymentStatus → PaymentStatus → Bool
includes_status [] s = false
includes_status (t ∷ ts) s = status_eq t s || includes_status ts s

abbrev pub can_transition_payment : PaymentStatus → PaymentStatus → Bool
can_transition_payment source target = includes_status (transitions source) target

-- `BusinessRuleError('ILLEGAL_PAYMENT_TRANSITION')`, with the two states.
pub record IllegalPaymentTransition : Type 0 where
  pub source : PaymentStatus
  pub target : PaymentStatus

unfoldable pub assert_payment_transition :
    PaymentStatus → PaymentStatus → Result IllegalPaymentTransition (Unit {0})
assert_payment_transition source target =
    throw_if (not (can_transition_payment source target))
      (record { source = source; target = target })

unfoldable pub assert_refund_path : PaymentStatus → Result IllegalPaymentTransition (Unit {0})
assert_refund_path source =
    assert_payment_transition source refund_requested
    >> assert_payment_transition refund_requested refunded
