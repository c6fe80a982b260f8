-- ===== src/Clock.antt =====
-- The chess clock, src/core/clock/chess-clock.ts. Times and durations are whole milliseconds, so
-- every number is an integer and `Number.isFinite` holds of it.
pub mod Agreement
pub mod Accounting
pub mod Deadline
use farzin.Prelude.{
  ◌≡◌, refl, Bool, true, false, Result, ok, err, ◌>>=◌, ◌>>◌, throw_if, if◌then◌else◌,
}
use farzin.Prelude.Int.{ℤ, pos, negsuc, ◌+ℤ◌, ◌-ℤ◌, ltb_ℤ, leb_ℤ}

pub data ClockSide : Type 0 where
  white black : ClockSide

pub data ChessClockType : Type 0 where
  sudden_death fischer_increment bronstein_delay simple_delay multi_stage : ChessClockType

pub record ClockConfig : Type 0 where
  pub clock_type : ChessClockType
  pub base_ms : ℤ
  pub increment_ms : ℤ

pub record ClockState : Type 0 where
  pub white_remaining_ms : ℤ
  pub black_remaining_ms : ℤ
  pub turn : ClockSide
  pub last_event_at_ms : ℤ

pub data ClockError : Type 0 where
  clock_type_not_implemented clock_invalid_base clock_invalid_increment : ClockError

pub record ApplyMoveResult : Type 0 where
  pub flagged : Bool
  pub state : ClockState
  pub elapsed_ms : ℤ

-- `Math.max(0, x)`
abbrev pub max_zero : ℤ → ℤ
max_zero (pos n) = pos n
max_zero (negsuc n) = pos 0

abbrev pub side_eq : ClockSide → ClockSide → Bool
side_eq white white = true
side_eq black black = true
side_eq _ _ = false

abbrev pub opposite : ClockSide → ClockSide
opposite white = black
opposite black = white

abbrev is_multi_stage : ChessClockType → Bool
is_multi_stage multi_stage = true
is_multi_stage _ = false

unfoldable pub assert_supported : ClockConfig → Result ClockError (Unit {0})
assert_supported config = do
  throw_if (is_multi_stage config.clock_type) clock_type_not_implemented
  throw_if (leb_ℤ config.base_ms (pos 0)) clock_invalid_base
  throw_if (ltb_ℤ config.increment_ms (pos 0)) clock_invalid_increment

unfoldable pub create_clock : ClockConfig → ClockSide → ℤ → Result ClockError ClockState
unfolding assert_supported
create_clock config turn now_ms = do
  assert_supported config
  ok (record {
    white_remaining_ms = config.base_ms;
    black_remaining_ms = config.base_ms;
    turn = turn;
    last_event_at_ms = now_ms;
  })

unfoldable pub elapsed_since : ClockState → ℤ → ℤ
elapsed_since state now_ms = max_zero (now_ms -ℤ state.last_event_at_ms)

unfoldable pub chargeable_of : ChessClockType → ℤ → ℤ → Result ClockError ℤ
chargeable_of sudden_death increment elapsed = ok elapsed
chargeable_of fischer_increment increment elapsed = ok elapsed
chargeable_of bronstein_delay increment elapsed = ok (max_zero (elapsed -ℤ increment))
chargeable_of simple_delay increment elapsed = ok (max_zero (elapsed -ℤ increment))
chargeable_of multi_stage increment elapsed = err clock_type_not_implemented

unfoldable pub chargeable_ms : ClockConfig → ℤ → Result ClockError ℤ
unfolding chargeable_of
chargeable_ms config elapsed = chargeable_of config.clock_type config.increment_ms elapsed

unfoldable pub remaining_of : ClockState → ClockSide → ℤ
remaining_of state white = state.white_remaining_ms
remaining_of state black = state.black_remaining_ms

unfoldable pub remaining : ClockConfig → ClockState → ClockSide → ℤ → Result ClockError ℤ
unfolding remaining_of elapsed_since chargeable_ms
remaining config state side now_ms =
    let stored = remaining_of state side in
    let running = do
      charge ← chargeable_ms config (elapsed_since state now_ms)
      ok (max_zero (stored -ℤ charge))
    in if side_eq side state.turn then running else ok stored

unfoldable pub is_flagged : ClockConfig → ClockState → ℤ → Result ClockError Bool
unfolding remaining_of elapsed_since chargeable_ms
is_flagged config state now_ms = do
  let stored = remaining_of state state.turn
  charge ← chargeable_ms config (elapsed_since state now_ms)
  ok (ltb_ℤ stored charge)

unfoldable pub with_remaining : ClockState → ClockSide → ℤ → ℤ → ClockState
with_remaining state white value at = record state {
  white_remaining_ms = value;
  last_event_at_ms = at;
}
with_remaining state black value at = record state {
  black_remaining_ms = value;
  last_event_at_ms = at;
}

-- The increment that `applyMove` adds after the move.
abbrev pub increment_after : ChessClockType → ℤ → ℤ
increment_after fischer_increment increment = increment
increment_after _ increment = pos 0

-- The end of `applyMove`, once the charge is known: the flag falls, or the move stands.
unfoldable pub settle : ClockConfig → ClockState → ℤ → ℤ → ℤ → ApplyMoveResult
unfolding remaining_of with_remaining
settle config state now_ms elapsed charge =
    let mover = state.turn in
    let stored = remaining_of state mover in
    let increment = increment_after config.clock_type config.increment_ms in
    let next = with_remaining state mover (stored -ℤ charge +ℤ increment) now_ms in
    if ltb_ℤ stored charge
    then record {
      flagged = true;
      elapsed_ms = elapsed;
      state = with_remaining state mover (pos 0) state.last_event_at_ms;
    }
    else record {
      flagged = false;
      elapsed_ms = elapsed;
      state = record next { turn = opposite mover };
    }

unfoldable pub apply_move : ClockConfig → ClockState → ℤ → Result ClockError ApplyMoveResult
unfolding elapsed_since
apply_move config state now_ms = do
  assert_supported config
  let elapsed = elapsed_since state now_ms
  charge ← chargeable_ms config elapsed
  ok (settle config state now_ms elapsed charge)
