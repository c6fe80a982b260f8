-- ===== src/Play/Actions.antt =====
-- The other operations of src/modules/play/play.service.ts: resigning, draws, aborting, the two ways to
-- claim the time, the end after a disconnection, and the clock that is shown.
use farzin.Prelude.{
  ℕ, ◌+◌, Bool, false, not, Option, none, some, if◌then◌else◌, leb, ◌==◌, Result, ok, err, ◌>>=◌,
  ◌>>◌, throw_if,
}
use farzin.Prelude.Int.{ℤ, pos, ltb_ℤ, ◌-ℤ◌}
use farzin.Clock.{ClockSide, white, black, opposite, side_eq, ClockState, remaining}
use farzin.Chess.{ChessJs}
use farzin.Play.Timers.{grace_ms_for}
use farzin.Play.Rows.{
  GameRow, resignation, draw_agreed, abandoned, aborted, ClockPayload, GameEnded, PlayError,
  not_found, not_active, no_draw_offer, abort_window_closed,
}
use farzin.Play.Store.{World, is_active, find_game, set_draw_offer, is_present, clear_gone}
use farzin.Play.Service.{
  clock_config, clocked, load_state, require_finished, finish_by_timeout, finish_no_move,
  ClaimTimeoutResult, refused_claim, accepted_claim, FlagCheckResult, ended, wait, stop,
}
use farzin.Play.Moves.{side_of}

-- `requireActivePlayer`
unfoldable pub require_active_player : World → Option ℕ → Result PlayError (GameRow × ClockSide)
require_active_player w me = elim (find_game w) [
  | none ↦ err not_found
  | some g ↦
      if not (is_active g.game.status)
      then err not_active
      else elim (side_of me g.game) [ none ↦ err not_found | some side ↦ ok (g, side) ]
]

unfoldable pub offer_draw : World → Option ℕ → Result PlayError (World × ClockSide)
unfolding require_active_player
offer_draw w me = do (g, side) ← require_active_player w me; ok (set_draw_offer w side, side)

-- An offer that the side may accept: there is one, and it is not its own.
abbrev pub is_offered : Option ClockSide → ClockSide → Bool
is_offered none side = false
is_offered (some from) side = not (side_eq from side)

-- The clock with the time of a side run out.
abbrev pub out_of_time : ClockState → ClockSide → ℤ → ℤ → ClockState
out_of_time state white white_ms black_ms = record state {
  white_remaining_ms = pos 0;
  black_remaining_ms = black_ms;
}
out_of_time state black white_ms black_ms = record state {
  white_remaining_ms = white_ms;
  black_remaining_ms = pos 0;
}

abbrev pub claim_answer : World × Option GameEnded → World × ClaimTimeoutResult
claim_answer (w, none) = (w, refused_claim none)
claim_answer (w, some e) = (w, accepted_claim e)

abbrev pub check_answer : World × Option GameEnded → World × FlagCheckResult
check_answer (w, none) = (w, stop)
check_answer (w, some e) = (w, ended e)

-- `left ?? base`
abbrev pub or_base : ℤ → Option ℤ → ℤ
or_base base none = base
or_base base (some left) = left

abbrev pub grace_sweep_slack_ms : ℕ
grace_sweep_slack_ms = 5000

module _ (js : ChessJs) where
  unfoldable pub resign : World → ℕ → Option ℕ → ℤ → Result PlayError (World × GameEnded)
  unfolding require_active_player finish_no_move
  resign w user_id me now_ms = do
    (g, side) ← require_active_player w me
    r ← finish_no_move js w g resignation (some (opposite side)) (some user_id) now_ms
    require_finished r

  unfoldable pub accept_draw : World → ℕ → Option ℕ → ℤ → Result PlayError (World × GameEnded)
  unfolding require_active_player finish_no_move
  accept_draw w user_id me now_ms = do
    (g, side) ← require_active_player w me
    throw_if (not (is_offered w.draw_offer side)) no_draw_offer
    r ← finish_no_move js w g draw_agreed none (some user_id) now_ms
    require_finished r

  unfoldable pub abort : World → ℕ → Option ℕ → ℤ → Result PlayError (World × GameEnded)
  unfolding require_active_player finish_no_move
  abort w user_id me now_ms = do
    (g, side) ← require_active_player w me
    throw_if (leb 2 g.ply_count) abort_window_closed
    r ← finish_no_move js w g aborted none (some user_id) now_ms
    require_finished r

  -- Once the opponent's clock is read.
  abbrev pub claim_against :
      World → GameRow → ClockSide → ClockState → ℤ → ℕ → ℤ → World × ClaimTimeoutResult
  claim_against w g opponent state rem user_id now_ms =
      let flagged_state =
        out_of_time state opponent state.white_remaining_ms state.black_remaining_ms in
      if ltb_ℤ (pos 0) rem
      then (w, refused_claim (some rem))
      else claim_answer (finish_by_timeout js w g opponent flagged_state (some user_id) now_ms)

  abbrev pub claim_active :
      World → GameRow → ClockSide → ℕ → ℤ → Result PlayError (World × ClaimTimeoutResult)
  claim_active w g side user_id now_ms =
      let config = clock_config g.game in
      let state = load_state js w g now_ms in
      let claimed : Result PlayError (World × ClaimTimeoutResult) = do
        rem ← clocked (remaining config state (opposite side) now_ms)
        ok (claim_against w g (opposite side) state rem user_id now_ms)
      in if g.ply_count == 0 then ok (w, refused_claim (some config.base_ms)) else claimed

  unfoldable pub claim_timeout :
      World → ℕ → Option ℕ → ℤ → Result PlayError (World × ClaimTimeoutResult)
  unfolding require_active_player remaining finish_by_timeout
  claim_timeout w user_id me now_ms = do
    (g, side) ← require_active_player w me
    claim_active w g side user_id now_ms

  -- The proactive check, once the three readings of the clock are there.
  abbrev pub check_mover : World → GameRow → ClockState → ℤ → ℤ → ℤ → ℤ → World × FlagCheckResult
  check_mover w g state rem white_ms black_ms now_ms =
      if ltb_ℤ (pos 0) rem
      then (w, wait rem)
      else check_answer (
          finish_by_timeout js w g state.turn (out_of_time state state.turn white_ms black_ms) none
            now_ms)

  unfoldable pub check_active_flag :
      World → GameRow → ℤ → Result PlayError (World × FlagCheckResult)
  unfolding remaining finish_by_timeout
  check_active_flag w g now_ms = do
    let config = clock_config g.game
    let state = load_state js w g now_ms
    rem ← clocked (remaining config state state.turn now_ms)
    white_ms ← clocked (remaining config state white now_ms)
    black_ms ← clocked (remaining config state black now_ms)
    ok (check_mover w g state rem white_ms black_ms now_ms)

  abbrev pub check_found : World → ℤ → Option GameRow → Result PlayError (World × FlagCheckResult)
  check_found w now_ms none = ok (w, stop)
  check_found w now_ms (some g) =
      if not (is_active g.game.status)
      then ok (w, stop)
      else if g.ply_count == 0
      then ok (w, stop)
      else check_active_flag w g now_ms

  unfoldable pub check_flag : World → ℤ → Result PlayError (World × FlagCheckResult)
  unfolding check_active_flag
  check_flag w now_ms = check_found w now_ms (find_game w)

  abbrev pub abandon_found :
      World → ClockSide → Bool → ℤ → Option GameRow → Result PlayError (World × Option GameEnded)
  abandon_found w gone_side opponent_connected now_ms none = ok (w, none)
  abandon_found w gone_side opponent_connected now_ms (some g) =
      if not (is_active g.game.status)
      then ok (w, none)
      else finish_no_move js w g abandoned
          (if opponent_connected then some (opposite gone_side) else none) none now_ms

  unfoldable pub abandon_after_disconnect :
      World → ClockSide → Bool → ℤ → Result PlayError (World × Option GameEnded)
  unfolding finish_no_move
  abandon_after_disconnect w gone_side opponent_connected now_ms =
      abandon_found w gone_side opponent_connected now_ms (find_game w)

  -- The side has been away for the grace of the category and the slack.
  abbrev pub sweep_away : World → ClockSide → ℤ → Result PlayError (World × Option GameEnded)
  sweep_away w side now_ms = do
    r ← abandon_after_disconnect w side (is_present w (opposite side)) now_ms
    ok (clear_gone r.0 side, r.1)

  abbrev pub sweep_found :
      World
      → ClockSide
      → ℤ
      → Option ℕ
      → ℤ
      → Option GameRow
      → Result PlayError (World × Option GameEnded)
  sweep_found w side at_ms grace_override now_ms none = ok (clear_gone w side, none)
  sweep_found w side at_ms grace_override now_ms (some g) =
      if not (is_active g.game.status)
      then ok (clear_gone w side, none)
      else if ltb_ℤ (now_ms -ℤ at_ms)
          (pos (grace_ms_for g.game.time_category grace_override + grace_sweep_slack_ms))
      then ok (w, none)
      else if is_present w side
      then ok (clear_gone w side, none)
      else sweep_away w side now_ms

  -- The body of the loop of `sweepAbandonedGames`, for a side that is marked as gone. The answer is the
  -- end that it reports.
  unfoldable pub sweep_gone :
      World → ClockSide → ℤ → Option ℕ → ℤ → Result PlayError (World × Option GameEnded)
  unfolding abandon_after_disconnect grace_ms_for
  sweep_gone w side at_ms grace_override now_ms =
      sweep_found w side at_ms grace_override now_ms (find_game w)

  -- The times that a live game shows.
  unfoldable pub live_clock : World → GameRow → ℤ → Result PlayError ClockPayload
  unfolding remaining
  live_clock w g now_ms =
      let config = clock_config g.game in
      let state = load_state js w g now_ms in
      let running : Result PlayError ClockPayload = do
        white_ms ← clocked (remaining config state white now_ms)
        black_ms ← clocked (remaining config state black now_ms)
        ok (record {
          white_ms = white_ms;
          black_ms = black_ms;
          running = some state.turn;
          server_sent_at_ms = now_ms;
        })
      in if g.ply_count == 0
        then ok (record {
          white_ms = config.base_ms;
          black_ms = config.base_ms;
          running = none;
          server_sent_at_ms = now_ms;
        })
        else running

  -- `clockPayloadFor`: a game that is over shows the times of its row.
  unfoldable pub clock_payload_for : World → GameRow → ℤ → Result PlayError ClockPayload
  unfolding live_clock
  clock_payload_for w g now_ms =
      let base = (clock_config g.game).base_ms in
      if is_active g.game.status
      then live_clock w g now_ms
      else ok (record {
        white_ms = or_base base g.game.white_time_left_ms;
        black_ms = or_base base g.game.black_time_left_ms;
        running = none;
        server_sent_at_ms = now_ms;
      })

  unfoldable pub live_clock_payload : World → ℤ → Result PlayError (Option ClockPayload)
  unfolding live_clock
  live_clock_payload w now_ms = elim (find_game w) [
    | none ↦ ok none
    | some g ↦
        if not (is_active g.game.status)
        then ok none
        else (do p ← live_clock w g now_ms; ok (some p))
  ]
