-- ===== src/Tests/Clocks.antt =====
-- A game on a chess clock with 3 minutes and 2 seconds a move.
use farzin.Prelude.{◌≡◌, refl, inr, false, ok, map_ok, arith}
use farzin.Prelude.Int.{pos, ◌+ℤ◌, ◌-ℤ◌}
use farzin.Clock.{
  ClockConfig, ClockState, ApplyMoveResult, white, black, fischer_increment, is_flagged, apply_move,
  assert_supported, remaining, remaining_of, create_clock, settle, elapsed_since, chargeable_ms,
  with_remaining,
}
use farzin.Clock.Agreement.{is_flagged-apply_move}
use farzin.Clock.Accounting.{Played, start, move, increments, gain, total, IsValid, Played-total}

abbrev blitz : ClockConfig
blitz = record { clock_type = fischer_increment; base_ms = pos 180_000; increment_ms = pos 2_000 }

abbrev at_start : ClockState
at_start = record {
  white_remaining_ms = pos 180_000;
  black_remaining_ms = pos 180_000;
  turn = white;
  last_event_at_ms = pos 0;
}

-- White moves after 5 seconds.
abbrev first_move : ApplyMoveResult
first_move = record {
  flagged = false;
  elapsed_ms = pos 5_000;
  state = record {
    white_remaining_ms = pos 177_000;
    black_remaining_ms = pos 180_000;
    turn = black;
    last_event_at_ms = pos 5_000;
  };
}

first_move_lem : apply_move blitz at_start (pos 5_000) ≡ ok first_move
unfolding apply_move assert_supported settle elapsed_since chargeable_ms remaining_of with_remaining
    ◌+ℤ◌ ◌-ℤ◌
first_move_lem = refl

blitz_supported : assert_supported blitz ≡ ok tt
unfolding assert_supported
blitz_supported = refl

at_start_lem : create_clock blitz white (pos 0) ≡ ok at_start
unfolding create_clock assert_supported
at_start_lem = refl

at_start-IsValid : IsValid at_start
at_start-IsValid = record { white_left = omega arith; black_left = omega arith }

first_move-IsValid : IsValid first_move.state
first_move-IsValid = record { white_left = omega arith; black_left = omega arith }

one_move : Played blitz at_start 1 (pos 0 +ℤ pos 5_000) first_move.state
one_move = move (pos 5_000) first_move start first_move_lem refl

is_flagged-apply_move_example :
    is_flagged blitz at_start (pos 5_000)
    ≡ map_ok (λ r. r.flagged) (apply_move blitz at_start (pos 5_000))
is_flagged-apply_move_example = is_flagged-apply_move blitz at_start (pos 5_000) blitz_supported

Played-total_example :
    total first_move.state +ℤ (pos 0 +ℤ pos 5_000) ≡ total at_start +ℤ increments 1 (gain blitz)
Played-total_example = Played-total blitz (inr refl) one_move

shown_at_5 : remaining blitz at_start white (pos 5_000) ≡ ok (pos 175_000)
unfolding remaining remaining_of elapsed_since chargeable_ms ◌-ℤ◌
shown_at_5 = refl

shown_at_7 : remaining blitz at_start white (pos 7_000) ≡ ok (pos 173_000)
unfolding remaining remaining_of elapsed_since chargeable_ms ◌-ℤ◌
shown_at_7 = refl
