-- ===== src/Clock/Deadline.antt =====
-- chess-clock.ts: a clock that runs falls.
use farzin.Prelude.{◌≡◌, ◌≢◌, refl, arith, ok, err, true, false}
use farzin.Prelude.Int.{ℤ, pos, ◌+ℤ◌, ◌-ℤ◌, ltb_ℤ, +ℤ_parts, -ℤ_parts}
use farzin.Clock.{
  ClockConfig, ClockState, ChessClockType, sudden_death, fischer_increment, bronstein_delay,
  simple_delay, multi_stage, assert_supported, remaining_of, elapsed_since, chargeable_ms,
  chargeable_of, is_flagged, max_zero, clock_type_not_implemented,
}

elapsed_exceeds :
    (last stored increment now : ℤ)
    → ltb_ℤ increment (pos 0) ≡ false
    → ltb_ℤ (last +ℤ stored +ℤ increment) now ≡ true
    → (ltb_ℤ stored (max_zero (now -ℤ last)) ≡ true)
      × (ltb_ℤ stored (max_zero (max_zero (now -ℤ last) -ℤ increment)) ≡ true)
elapsed_exceeds last stored increment now i late =
    let sum = +ℤ_parts last stored in
    let sum' = +ℤ_parts (last +ℤ stored) increment in
    let gap = -ℤ_parts now last in
    let net = -ℤ_parts (max_zero (now -ℤ last)) increment in
    (ground (arith, sum, sum', gap, net), ground (arith, sum, sum', gap, net))

charge_exceeds :
    (kind : ChessClockType) (last stored increment now : ℤ)
    → chargeable_of kind increment (pos 0) ≢ err clock_type_not_implemented
    → ltb_ℤ increment (pos 0) ≡ false
    → ltb_ℤ (last +ℤ stored +ℤ increment) now ≡ true
    → (charge : ℤ) × (chargeable_of kind increment (max_zero (now -ℤ last)) ≡ ok charge)
      × (ltb_ℤ stored charge ≡ true)
unfolding chargeable_of
charge_exceeds sudden_death last stored increment now s i late =
    (_, refl, (elapsed_exceeds last stored increment now i late).0)
charge_exceeds fischer_increment last stored increment now s i late =
    (_, refl, (elapsed_exceeds last stored increment now i late).0)
charge_exceeds bronstein_delay last stored increment now s i late =
    (_, refl, (elapsed_exceeds last stored increment now i late).1)
charge_exceeds simple_delay last stored increment now s i late =
    (_, refl, (elapsed_exceeds last stored increment now i late).1)
charge_exceeds multi_stage last stored increment now s i late = absurd (s refl)

-- A clock that runs falls in the end: with a supported configuration, once the time is past the last
-- event by more than the remaining time of the side to move and one increment, its flag has fallen.
pub is_flagged_after :
    (config : ClockConfig) (state : ClockState) (now : ℤ)
    → assert_supported config ≡ ok tt
    → ltb_ℤ (state.last_event_at_ms +ℤ remaining_of state state.turn +ℤ config.increment_ms) now
      ≡ true
    → is_flagged config state now ≡ ok true
unfolding is_flagged assert_supported elapsed_since chargeable_ms chargeable_of
is_flagged_after config state now s late =
    let (charge, e, over) =
      charge_exceeds config.clock_type state.last_event_at_ms (remaining_of state state.turn)
        config.increment_ms now (λ bad. ground arith) (ground arith) late in
    ground (arith, e, over)
