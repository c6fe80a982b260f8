-- ===== src/Play/Service.antt =====
-- The life of a game, src/modules/play/play.service.ts, on what is kept of one game. `now_ms` is the time
-- that an operation reads from the clock of the server. What an operation throws before it has
-- written leaves the world as it was: it is an error here. Log lines and metrics are left out.
use farzin.Prelude.{
  ℕ, ◌+◌, ◌*◌, ◌%◌, Bool, true, false, Option, none, some, List, [], ◌∷◌, ◌++◌, if◌then◌else◌, ◌==◌,
  Result, ok, err, ◌>>=◌,
}
use farzin.Prelude.Int.{ℤ, pos}
use farzin.Clock.{
  ClockSide, white, black, opposite, ClockConfig, ClockState, ClockError, create_clock, remaining,
}
use farzin.Chess.{
  ChessJs, Fen, San, ValidatedMove, PositionEnd, PgnResult, white_wins, black_wins, draw,
  unfinished, has_mating_material, build_pgn,
}
use farzin.Play.Rows.{
  OnlineGameStatus, pending, active, checkmate, stalemate, timeout, threefold_repetition,
  fifty_move_rule, insufficient_material, timeout_vs_insufficient_material, aborted, OnlineGame,
  GameRow, MoveRow, CreateGameInput, FinishGameInput, ClockEntry, ClockPayload, GameEnded,
  GameErrorCode, MoveResult, made, FinishedEvent, PlayError, not_active, clock_error,
}
use farzin.Play.Store.{
  World, create_game, new_game, finish_game, init_clock, update_clock, clear_keys, clear_draw_offer,
}

abbrev pub clock_config : OnlineGame → ClockConfig
clock_config g = record {
  clock_type = g.clock_type;
  base_ms = pos (g.base_time_seconds * 1000);
  increment_ms = pos (g.increment_seconds * 1000);
}

-- An error of the clock, thrown on.
abbrev pub clocked : {A : Type 0} → Result ClockError A → Result PlayError A
clocked (err e) = err (clock_error e)
clocked (ok a) = ok a

abbrev pub to_clock_payload : ClockState → Bool → ℤ → ClockPayload
to_clock_payload state stopped now_ms = record {
  white_ms = state.white_remaining_ms;
  black_ms = state.black_remaining_ms;
  running = if stopped then none else some state.turn;
  server_sent_at_ms = now_ms;
}

abbrev pub is_unfinished : OnlineGameStatus → Bool
is_unfinished aborted = true
is_unfinished pending = true
is_unfinished active = true
is_unfinished _ = false

unfoldable pub pgn_result : OnlineGameStatus → Option ClockSide → PgnResult
pgn_result status winner =
    if is_unfinished status
    then unfinished
    else elim winner [ none ↦ draw | some white ↦ white_wins | some black ↦ black_wins ]

abbrev pub status_of : PositionEnd → OnlineGameStatus
status_of PositionEnd.checkmate = checkmate
status_of PositionEnd.stalemate = stalemate
status_of PositionEnd.threefold_repetition = threefold_repetition
status_of PositionEnd.fifty_move_rule = fifty_move_rule
status_of PositionEnd.insufficient_material = insufficient_material

abbrev pub sans_of : List MoveRow → List San
sans_of [] = []
sans_of (m ∷ ms) = m.san ∷ sans_of ms

-- The body of the loop of `reconstructClock`, and the loop.
abbrev pub log_time : ℤ × ℤ → MoveRow → ℤ × ℤ
log_time t m = elim m.clock_after_ms [
  | none ↦ t
  | some left ↦ if m.ply % 2 == 1 then (left, t.1) else (t.0, left)
]

abbrev pub logged_times : ℤ × ℤ → List MoveRow → ℤ × ℤ
logged_times t [] = t
logged_times t (m ∷ ms) = logged_times (log_time t m) ms

abbrev pub finished_event : GameRow → OnlineGameStatus → FinishedEvent
finished_event g status = record {
  game_id = g.game.id;
  white_player_id = g.game.white_player_id;
  black_player_id = g.game.black_player_id;
  is_rated = g.game.is_rated;
  time_category = g.game.time_category;
  status = status;
}

abbrev pub emit_finished : GameRow → OnlineGameStatus → World → World
emit_finished g status w = record w { events = finished_event g status ∷ w.events }

-- What `makeMove` has found out when it writes: a refusal, a flag that has fallen, or a move to append.
pub record PlannedMove : Type 0 where
  pub row : GameRow
  pub side : ClockSide
  pub validated : ValidatedMove
  pub new_clock : ClockState
  pub entry_version : Option ℕ
  pub elapsed_ms : ℤ
  pub end_status : Option OnlineGameStatus
  pub prior_sans : List San

pub data MovePlan : Type 0 where
  refuse : GameErrorCode → Option Fen → MovePlan
  flag_fall : GameRow → ClockSide → ClockState → MovePlan
  persist : PlannedMove → MovePlan

-- The clock after a move, the version of the entry that was read, and the time it took; or the flag.
pub data MoveClock : Type 0 where
  flagged : ClockState → MoveClock
  runs : ClockState → Option ℕ → ℤ → MoveClock

abbrev pub is_checkmate : Option OnlineGameStatus → Bool
is_checkmate (some checkmate) = true
is_checkmate _ = false

abbrev pub winner_of : PlannedMove → Option ClockSide
winner_of p = if is_checkmate p.end_status then some p.side else none

abbrev pub ply_of : PlannedMove → ℕ
ply_of p = p.row.ply_count + 1

-- The finish that goes with the move in one transaction.
abbrev pub finish_input_of : PlannedMove → ℕ → OnlineGameStatus → FinishGameInput
finish_input_of p user_id status = record {
  status = status;
  winner_color = winner_of p;
  white_time_left_ms = p.new_clock.white_remaining_ms;
  black_time_left_ms = p.new_clock.black_remaining_ms;
  pgn = build_pgn (p.prior_sans ++ (p.validated.san ∷ [])) (pgn_result status (winner_of p));
  actor_user_id = some user_id;
}

abbrev pub finish_with : PlannedMove → ℕ → Option OnlineGameStatus → Option FinishGameInput
finish_with p user_id none = none
finish_with p user_id (some status) = some (finish_input_of p user_id status)

abbrev pub finish_of : PlannedMove → ℕ → Option FinishGameInput
finish_of p user_id = finish_with p user_id p.end_status

abbrev pub mover_ms : ClockSide → ClockState → ℤ
mover_ms white state = state.white_remaining_ms
mover_ms black state = state.black_remaining_ms

abbrev pub row_of : PlannedMove → MoveRow
row_of p = record {
  ply = ply_of p;
  san = p.validated.san;
  uci = p.validated.uci;
  fen_after = p.validated.fen_after;
  position_hash = p.validated.position_hash;
  think_time_ms = if ply_of p == 1 then none else some p.elapsed_ms;
  clock_after_ms = some (mover_ms p.side p.new_clock);
}

-- What `update` gives, cleared on a conflict.
abbrev pub or_clear : World × Bool → World
or_clear (w, true) = w
or_clear (w, false) = clear_keys w

unfoldable pub update_or_clear : World → ℕ → ClockState → World
unfolding update_clock
update_or_clear w version state = or_clear (update_clock w version state)

abbrev pub set_clock : ClockState → World → Option ℕ → World
set_clock state w none = init_clock w state
set_clock state w (some version) = update_or_clear w version state

-- Redis after the database: step 8, by the end that the move gives.
abbrev pub after_append_as : PlannedMove → World → Option OnlineGameStatus → World
after_append_as p w (some status) = emit_finished p.row status (clear_keys w)
after_append_as p w none =
    clear_draw_offer
      (if ply_of p == 1 then init_clock w p.new_clock else set_clock p.new_clock w p.entry_version)

unfoldable pub after_append : PlannedMove → World → World
unfolding update_or_clear
after_append p w = after_append_as p w p.end_status

abbrev pub made_of : PlannedMove → ℤ → MoveResult
made_of p now_ms =
    let clock =
      to_clock_payload p.new_clock (elim p.end_status [ none ↦ false | some _ ↦ true ]) now_ms in
    made
      (record {
        game_id = p.row.game.id;
        ply = ply_of p;
        san = p.validated.san;
        uci = p.validated.uci;
        fen = p.validated.fen_after;
        clock = clock;
        ms_spent = if ply_of p == 1 then pos 0 else p.elapsed_ms;
      })
      (elim p.end_status [
        | none ↦ none
        | some status ↦ some (record {
          game_id = p.row.game.id;
          status = status;
          winner_color = winner_of p;
          final_fen = p.validated.fen_after;
          clock = clock;
        })
      ])

pub data ClaimTimeoutResult : Type 0 where
  refused_claim : Option ℤ → ClaimTimeoutResult
  accepted_claim : GameEnded → ClaimTimeoutResult

pub data FlagCheckResult : Type 0 where
  ended : GameEnded → FlagCheckResult
  wait : ℤ → FlagCheckResult
  stop : FlagCheckResult

abbrev pub require_finished : World × Option GameEnded → Result PlayError (World × GameEnded)
require_finished (w, none) = err not_active
require_finished (w, some e) = ok (w, e)

abbrev pub start_clock : World → Result ClockError ClockState → World × Result PlayError (Unit {0})
start_clock w (err e) = (w, err (clock_error e))
start_clock w (ok state) = (init_clock w state, ok tt)

module _ (js : ChessJs) where
  -- `createGameWithClock`: the row is there also when the clock is refused.
  unfoldable pub create_game_with_clock :
      CreateGameInput → ℤ → World → World × Result PlayError (Unit {0})
  unfolding create_game create_clock
  create_game_with_clock input now_ms w =
      start_clock (create_game js.starting_fen input w)
        (create_clock (clock_config (new_game js.starting_fen input)) white now_ms)

  abbrev pub reconstruct_clock : GameRow → List MoveRow → ℤ → ClockState
  reconstruct_clock g moves now_ms =
      let base = (clock_config g.game).base_ms in
      let times = logged_times (base, base) moves in
      record {
        white_remaining_ms = times.0;
        black_remaining_ms = times.1;
        turn = js.side_to_move g.game.fen;
        last_event_at_ms = now_ms;
      }

  -- `entry?.state ?? this.reconstructClock(...)`
  abbrev pub load_from : Option ClockEntry → World → GameRow → ℤ → ClockState
  load_from none w g now_ms = reconstruct_clock g w.moves now_ms
  load_from (some e) w g now_ms = e.state

  abbrev pub load_state : World → GameRow → ℤ → ClockState
  load_state w g now_ms = load_from w.clock w g now_ms

  -- FIDE 6.9 where the flag of `loser` has fallen.
  abbrev pub timeout_status : GameRow → ClockSide → OnlineGameStatus
  timeout_status g loser =
      if has_mating_material js g.game.fen (opposite loser)
      then timeout
      else timeout_vs_insufficient_material

  abbrev pub timeout_winner : GameRow → ClockSide → Option ClockSide
  timeout_winner g loser =
      if has_mating_material js g.game.fen (opposite loser) then some (opposite loser) else none

  -- After `repo.finishGame`: nothing where the game was over, else the keys, the event and the answer.
  abbrev pub after_finish :
      GameRow
      → OnlineGameStatus
      → Option ClockSide
      → ClockState
      → ℤ
      → World
      → Option World
      → World × Option GameEnded
  after_finish g status winner final_clock now_ms before none = (before, none)
  after_finish g status winner final_clock now_ms before (some w) = (
    emit_finished g status (clear_keys w),
    some (record {
      game_id = g.game.id;
      status = status;
      winner_color = winner;
      final_fen = g.game.fen;
      clock = to_clock_payload final_clock true now_ms;
    }),
  )

  abbrev pub finish_input :
      World → OnlineGameStatus → Option ClockSide → ClockState → Option ℕ → FinishGameInput
  finish_input w status winner final_clock actor_user_id = record {
    status = status;
    winner_color = winner;
    white_time_left_ms = final_clock.white_remaining_ms;
    black_time_left_ms = final_clock.black_remaining_ms;
    pgn = build_pgn (sans_of w.moves) (pgn_result status winner);
    actor_user_id = actor_user_id;
  }

  -- The run in which nothing comes between the transaction (`finish_game`), the clearing of the keys and the
  -- event, and no call to Redis fails.
  abbrev pub end_game :
      World
      → GameRow
      → OnlineGameStatus
      → Option ClockSide
      → ClockState
      → Option ℕ
      → ℤ
      → World × Option GameEnded
  end_game w g status winner final_clock actor_user_id now_ms =
      after_finish g status winner final_clock now_ms w
        (finish_game w (finish_input w status winner final_clock actor_user_id))

  unfoldable pub finish_by_timeout :
      World → GameRow → ClockSide → ClockState → Option ℕ → ℤ → World × Option GameEnded
  unfolding finish_game has_mating_material pgn_result build_pgn
  finish_by_timeout w g loser final_clock actor_user_id now_ms =
      end_game w g (timeout_status g loser) (timeout_winner g loser) final_clock actor_user_id
        now_ms

  -- What is left of a side now, before the clock has started all of the base time.
  abbrev pub final_ms : GameRow → ClockState → ClockSide → ℤ → Result ClockError ℤ
  final_ms g state side now_ms =
      if g.ply_count == 0
      then ok (clock_config g.game).base_ms
      else remaining (clock_config g.game) state side now_ms

  unfoldable pub finish_no_move :
      World
      → GameRow
      → OnlineGameStatus
      → Option ClockSide
      → Option ℕ
      → ℤ
      → Result PlayError (World × Option GameEnded)
  unfolding remaining finish_game pgn_result build_pgn
  finish_no_move w g status winner actor_user_id now_ms = do
    let state = load_state w g now_ms
    white_ms ← clocked (final_ms g state white now_ms)
    black_ms ← clocked (final_ms g state black now_ms)
    let final_state : ClockState = record {
      white_remaining_ms = white_ms;
      black_remaining_ms = black_ms;
      turn = state.turn;
      last_event_at_ms = now_ms;
    }
    ok (end_game w g status winner final_state actor_user_id now_ms)
