-- ===== src/Tests/Statuses.antt =====
-- A payment that is refunded, and a tournament that is cancelled.
use farzin.Prelude.{◌≡◌, refl, ◌⊎◌, [], ◌∷◌, true}
use farzin.Payment.{
  created, paid, refund_requested, refunded, assert_payment_transition, includes_status,
}
use farzin.Payment.Settlement.{Moves, stay, move, Moves-paid}
use farzin.Tournament.{draft, registration_open, cancelled, assert_transition}
use farzin.Tournament.Progress.{Steps, start, step}

bought : Moves created (created ∷ []) paid
unfolding assert_payment_transition
bought = move paid stay refl

given_back : Moves created (refund_requested ∷ paid ∷ created ∷ []) refunded
unfolding assert_payment_transition
given_back = move refunded (move refund_requested bought refl) refl

asked_back : Moves paid (paid ∷ []) refund_requested
unfolding assert_payment_transition
asked_back = move refund_requested stay refl

Moves-paid_example :
    (refunded ≡ paid) ⊎ (includes_status (refund_requested ∷ paid ∷ created ∷ []) paid ≡ true)
Moves-paid_example = Moves-paid given_back refl

called_off : Steps draft 2 cancelled
unfolding assert_transition
called_off = step cancelled (step registration_open start refl) refl
