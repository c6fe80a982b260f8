-- ===== src/Play/Timers/Flag.antt =====
-- game-timers.ts and chess-clock.ts together: the flag's timer fires when the flag has fallen.
use farzin.Prelude.{◌≡◌, ◌⊎◌, inl, inr, refl, some, ℕ, ok, true, arith}
use farzin.Prelude.Int.{ℤ, pos, ◌+ℤ◌, ◌-ℤ◌, +ℤ_parts, -ℤ_parts}
use farzin.Clock.{
  ClockConfig, ClockState, ChessClockType, sudden_death, fischer_increment, is_flagged,
  remaining_of, elapsed_since, chargeable_ms, chargeable_of, max_zero,
}
use farzin.Play.Timers.{ClockPayload, flag_delay_ms}

-- The payload of a running clock, as it stands at the last event.
abbrev pub payload_of : ClockState → ClockPayload
payload_of state = record {
  white_ms = state.white_remaining_ms;
  black_ms = state.black_remaining_ms;
  running = some state.turn;
}

charges_all :
    (kind : ChessClockType) (elapsed i : ℤ)
    → (kind ≡ sudden_death) ⊎ (kind ≡ fischer_increment)
    → chargeable_of kind i elapsed ≡ ok elapsed
unfolding chargeable_of
charges_all kind elapsed i h = elim h [ inl e ↦ rw e refl | inr e ↦ rw e refl ]

-- The timer that `flagDelayMs` sets for a running clock fires after the flag has fallen: without a
-- delay (sudden death or Fischer), at the last event plus the delay the side to move is flagged.
flag_delay_ms-is_flagged :
    (config : ClockConfig) (state : ClockState) (delay : ℕ)
    → (config.clock_type ≡ sudden_death) ⊎ (config.clock_type ≡ fischer_increment)
    → flag_delay_ms (payload_of state) ≡ some delay
    → is_flagged config state (state.last_event_at_ms +ℤ pos delay) ≡ ok true
unfolding flag_delay_ms is_flagged elapsed_since chargeable_ms remaining_of
flag_delay_ms-is_flagged config state delay all set =
    let at = state.last_event_at_ms +ℤ pos delay in
    let later = +ℤ_parts state.last_event_at_ms (pos delay) in
    let gap = -ℤ_parts at state.last_event_at_ms in
    let elapsed = max_zero (at -ℤ state.last_event_at_ms) in
    let charge = charges_all config.clock_type elapsed config.increment_ms all in
    ground (arith, later, gap, charge)
