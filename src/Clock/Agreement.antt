-- ===== src/Clock/Agreement.antt =====
-- chess-clock.ts: what `remaining`, `isFlagged` and `applyMove` say of one another.
use farzin.Prelude.{◌≡◌, false, ok, map_ok, >>=-eq-ok, arith}
use farzin.Prelude.Int.{ℤ, ◌+ℤ◌, ◌-ℤ◌, ltb_ℤ}
use farzin.Clock.{
  ClockConfig, ClockState, ApplyMoveResult, chargeable_ms, elapsed_since, remaining_of, remaining,
  is_flagged, apply_move, settle, assert_supported, max_zero, opposite, increment_after,
}

-- A call of `applyMove` that returns has passed `assertSupported`, and settles the charge.
pub apply_move_cases :
    (c : ClockConfig) (s : ClockState) (now : ℤ) {r : ApplyMoveResult}
    → apply_move c s now ≡ ok r
    → (assert_supported c ≡ ok tt)
      × ((charge : ℤ) × (chargeable_ms c (elapsed_since s now) ≡ ok charge)
          × (r ≡ settle c s now (elapsed_since s now) charge))
unfolding apply_move
apply_move_cases c s now h =
    let (_, valid, h') = >>=-eq-ok (assert_supported c) _ h in
    let (charge, charged, h'') = >>=-eq-ok (chargeable_ms c (elapsed_since s now)) _ h' in
    (valid, (charge, charged, ground arith))

max_zero-sub : (a b : ℤ) → ltb_ℤ a b ≡ false → max_zero (a -ℤ b) ≡ a -ℤ b
unfolding ◌-ℤ◌
max_zero-sub a b h = ground arith

settle-remaining :
    (c : ClockConfig) (s : ClockState) (now elapsed charge : ℤ)
    → (settle c s now elapsed charge).flagged ≡ false
    → let t = (settle c s now elapsed charge).state in
      (remaining_of t s.turn
        ≡ max_zero (remaining_of s s.turn -ℤ charge) +ℤ increment_after c.clock_type c.increment_ms)
      × (remaining_of t (opposite s.turn) ≡ remaining_of s (opposite s.turn))
      × (t.turn ≡ opposite s.turn)
      × (t.last_event_at_ms ≡ now)
unfolding settle
settle-remaining c s now elapsed charge f =
    ground (arith, max_zero-sub (remaining_of s s.turn) charge)

-- On a configuration that `assertSupported` accepts, `isFlagged` and `applyMove` give the same
-- verdict.
pub is_flagged-apply_move :
    (c : ClockConfig) (s : ClockState) (now : ℤ)
    → assert_supported c ≡ ok tt
    → is_flagged c s now ≡ map_ok (λ r. r.flagged) (apply_move c s now)
unfolding is_flagged apply_move settle
is_flagged-apply_move c s now h = ground arith

-- When `applyMove` accepts the move, the mover is left with what `remaining` showed at that moment
-- plus the Fischer increment, the opponent's time is untouched, it is the opponent's turn, and the
-- opponent's clock starts now.
pub apply_move-remaining :
    (c : ClockConfig) (s : ClockState) (now : ℤ) {r : ApplyMoveResult}
    → apply_move c s now ≡ ok r
    → r.flagged ≡ false
    → (map_ok
          (λ left. left +ℤ increment_after c.clock_type c.increment_ms)
          (remaining c s s.turn now)
        ≡ ok (remaining_of r.state s.turn))
      × (remaining_of r.state (opposite s.turn) ≡ remaining_of s (opposite s.turn))
      × (r.state.turn ≡ opposite s.turn)
      × (r.state.last_event_at_ms ≡ now)
unfolding remaining
apply_move-remaining c s now h f =
    let (_, (charge, charged, e)) = apply_move_cases c s now h in
    ground (arith, settle-remaining c s now (elapsed_since s now) charge)
