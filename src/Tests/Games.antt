-- ===== src/Tests/Games.antt =====
-- A game with its timers, and a blitz clock of three minutes with two seconds for each move.
use farzin.Prelude.{ℕ, ◌≡◌, ◌≤◌, refl, none, some, ok, true}
use farzin.Prelude.Int.{pos, ◌+ℤ◌}
use farzin.Prelude.Maps.{map_get}
use farzin.Clock.{
  ClockSide, white, black, ClockConfig, ClockState, fischer_increment, assert_supported, is_flagged,
  remaining_of,
}
use farzin.Clock.Deadline.{is_flagged_after}
use farzin.Play.Timers.{
  GameTimers, game_key, grace_key, grace_at, no_timers, schedule_flag, start_tick, schedule_grace,
  fire, clear_game, flag_delay_ms,
}
use farzin.Play.Timers.Handles.{
  Steps, begin, flag_set, tick_started, grace_set, fired, live_count, entry_count, Steps-clear_game,
}
use farzin.Play.Timers.Flag.{payload_of}

-- Game 4 has all its timers, game 5 a flag; the first timer has fired.
abbrev game_timers : GameTimers
game_timers =
    fire 0 (schedule_flag 5 (schedule_grace 4 black (start_tick 4 (schedule_flag 4 no_timers))))

running : Steps game_timers
running = fired 0 (flag_set 5 (grace_set 4 black (tick_started 4 (flag_set 4 begin))))

Steps-clear_game_example :
    (map_get 4 (clear_game 4 game_timers).flags ≡ none)
    × (map_get 4 (clear_game 4 game_timers).ticks ≡ none)
    × ((s : ClockSide) → map_get (grace_at 4 s) (clear_game 4 game_timers).graces ≡ none)
    × ((h : ℕ)
        → live_count h (clear_game 4 game_timers).live ≤ entry_count h (clear_game 4 game_timers))
Steps-clear_game_example = Steps-clear_game 4 running

abbrev blitz_config : ClockConfig
blitz_config = record {
  clock_type = fischer_increment;
  base_ms = pos 180000;
  increment_ms = pos 2000;
}

abbrev short_clock : ClockState
short_clock = record {
  white_remaining_ms = pos 4000;
  black_remaining_ms = pos 90000;
  turn = white;
  last_event_at_ms = pos 1000;
}

blitz_supported : assert_supported blitz_config ≡ ok tt
unfolding assert_supported
blitz_supported = refl

is_flagged_after_example : is_flagged blitz_config short_clock (pos 8000) ≡ ok true
unfolding remaining_of ◌+ℤ◌
is_flagged_after_example = is_flagged_after blitz_config short_clock (pos 8000) blitz_supported refl

short_delay : flag_delay_ms (payload_of short_clock) ≡ some 4100
unfolding flag_delay_ms
short_delay = refl
