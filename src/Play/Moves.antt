-- ===== src/Play/Moves.antt =====
-- `makeMove` of src/modules/play/play.service.ts: what it reads and decides (`plan_move`), and what it then
-- writes (`commit_move`). Between the two other requests may write. What `commit_move` writes is first the
-- transaction of the database (`append_move`), and then the keys and the event (`after_append`), which the
-- code awaits one after the other: `commit_move` is the run in which no other request comes between these
-- and no call to Redis fails. Play/History has the transaction as a change of its own, with anything
-- before and after it.
use farzin.Prelude.{
  ℕ, ◌+◌, Bool, not, ◌&&◌, Option, none, some, [], if◌then◌else◌, leb, ◌==◌, Result, ok, err, ◌>>=◌,
  map_ok,
}
use farzin.Prelude.Int.{ℤ, pos}
use farzin.Clock.{ClockSide, black, side_eq, ClockError, ApplyMoveResult, apply_move}
use farzin.Chess.{
  ChessJs, Uci, ValidatedMove, PositionEnd, key_count, validate_move, game_end_from_position,
}
use farzin.Play.Rows.{
  OnlineGame, GameRow, ClockEntry, OnlineGameStatus, threefold_repetition, MoveResult, rejected,
  PlayError, conflict, not_your_turn, illegal_move, game_not_active, not_a_player, stale_seq,
  clock_expired,
}
use farzin.Play.Store.{World, is_active, find_game, occurrences, append_move}
use farzin.Play.Service.{
  clock_config, clocked, status_of, sans_of, load_state, PlannedMove, MovePlan, refuse, flag_fall,
  persist, MoveClock, flagged, runs, finish_of, row_of, after_append, made_of, finish_by_timeout,
}

-- `sideOf`, from the player's profile of the user (`findSummaryByUserId`).
abbrev pub side_of : Option ℕ → OnlineGame → Option ClockSide
side_of none g = none
side_of (some me) g =
    if me == g.white_player_id
    then some ClockSide.white
    else if me == g.black_player_id
    then some black
    else none

-- `entry?.version ?? null`
abbrev pub version_of : Option ClockEntry → Option ℕ
version_of none = none
version_of (some e) = some e.version

abbrev pub move_clock : Option ℕ → ApplyMoveResult → MoveClock
move_clock version applied =
    if applied.flagged then flagged applied.state else runs applied.state version applied.elapsed_ms

-- The end by the position, else by the third occurrence where there is one.
abbrev pub or_threefold : Bool → Option PositionEnd → Option OnlineGameStatus
or_threefold repeated (some e) = some (status_of e)
or_threefold repeated none = if repeated then some threefold_repetition else none

module _ (js : ChessJs) where
  -- The clock of step 4: the first move of white is free.
  unfoldable pub clock_after : World → GameRow → ℤ → Result ClockError MoveClock
  unfolding apply_move
  clock_after w g now_ms =
      let config = clock_config g.game in
      let free : MoveClock =
        runs
          (record {
            white_remaining_ms = config.base_ms;
            black_remaining_ms = config.base_ms;
            turn = black;
            last_event_at_ms = now_ms;
          })
          none (pos 0) in
      let charged =
        map_ok (move_clock (version_of w.clock))
          (apply_move config (load_state js w g now_ms) now_ms) in
      if g.ply_count + 1 == 1 then ok free else charged

  -- Step 6: the end by the position, or by the third occurrence. The start counts as one.
  unfoldable pub end_status_of : World → ValidatedMove → Option OnlineGameStatus
  unfolding game_end_from_position
  end_status_of w m =
      let key = js.position_key m.fen_after in
      let in_history = key_count js.position_key key (occurrences m.position_hash w.moves) in
      let start_bonus = if js.position_key js.starting_fen == key then 1 else 0 in
      or_threefold (not m.irreversible && leb 3 (in_history + start_bonus + 1))
        (game_end_from_position js m.fen_after [])

  -- Steps 4 to 7, before the write.
  abbrev pub plan_from : World → GameRow → ClockSide → Uci → MoveClock → MovePlan
  plan_from w g side uci (flagged state) = flag_fall g side state
  plan_from w g side uci (runs state version elapsed_ms) = elim (validate_move js g.game.fen uci) [
    | none ↦ refuse illegal_move (some g.game.fen)
    | some m ↦ persist (record {
      row = g;
      side = side;
      validated = m;
      new_clock = state;
      entry_version = version;
      elapsed_ms = elapsed_ms;
      end_status = end_status_of w m;
      prior_sans = sans_of w.moves;
    })
  ]

  abbrev pub plan_turn : World → GameRow → ClockSide → Uci → ℤ → Result PlayError MovePlan
  plan_turn w g side uci now_ms =
      if not (side_eq (js.side_to_move g.game.fen) side)
      then ok (refuse not_your_turn (some g.game.fen))
      else (do clock ← clocked (clock_after w g now_ms); ok (plan_from w g side uci clock))

  abbrev pub plan_as : World → GameRow → Uci → ℤ → Option ClockSide → Result PlayError MovePlan
  plan_as w g uci now_ms none = ok (refuse not_a_player none)
  plan_as w g uci now_ms (some side) = plan_turn w g side uci now_ms

  abbrev pub plan_for : World → Option ℕ → Uci → ℤ → Option GameRow → Result PlayError MovePlan
  plan_for w me uci now_ms none = ok (refuse game_not_active none)
  plan_for w me uci now_ms (some g) =
      if not (is_active g.game.status)
      then ok (refuse game_not_active none)
      else plan_as w g uci now_ms (side_of me g.game)

  -- `me` is the player of the user, if there is one.
  unfoldable pub plan_move : World → Option ℕ → Uci → ℤ → Result PlayError MovePlan
  unfolding clock_after validate_move end_status_of
  plan_move w me uci now_ms = plan_for w me uci now_ms (find_game w)

  -- A `ConflictError` of the append is answered, another error is thrown on.
  abbrev pub after_try :
      World → PlannedMove → ℤ → Result PlayError World → Result PlayError (World × MoveResult)
  after_try w p now_ms (ok appended) = ok (after_append p appended, made_of p now_ms)
  after_try w p now_ms (err conflict) = ok (w, rejected stale_seq (some p.row.game.fen) none)
  after_try w p now_ms (err e) = err e

  -- The run in which nothing comes between the writes and no call to Redis fails.
  unfoldable pub commit_move : World → MovePlan → ℕ → ℤ → Result PlayError (World × MoveResult)
  unfolding finish_by_timeout append_move after_append
  commit_move w (refuse code fen) user_id now_ms = ok (w, rejected code fen none)
  commit_move w (flag_fall g side state) user_id now_ms =
      let (w', e) = finish_by_timeout js w g side state (some user_id) now_ms in
      ok (w', rejected clock_expired (some g.game.fen) e)
  commit_move w (persist p) user_id now_ms =
      after_try w p now_ms (append_move w (row_of p) (finish_of p user_id))

  unfoldable pub make_move : World → ℕ → Option ℕ → Uci → ℤ → Result PlayError (World × MoveResult)
  unfolding plan_move commit_move
  make_move w user_id me uci now_ms = do
    plan ← plan_move w me uci now_ms
    commit_move w plan user_id now_ms
