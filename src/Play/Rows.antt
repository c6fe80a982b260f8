-- ===== src/Play/Rows.antt =====
-- The rows of a game, src/modules/play/play.types.ts and play.repository.ts. A side of the clock is also
-- the value of a colour. The times of the rows (`startedAt`, `endedAt`, `createdAt`, `updatedAt`) are
-- left out: no operation on a game reads them.
use farzin.Prelude.{ℕ, Bool, Option}
use farzin.Prelude.Int.{ℤ}
use farzin.Clock.{ClockSide, ChessClockType, ClockState, ClockError}
use farzin.TimeCategory.{TimeCategory}
use farzin.Chess.{Fen, San, Uci, Pgn}

pub data OnlineGameStatus : Type 0 where
  pending active checkmate stalemate resignation timeout draw_agreed : OnlineGameStatus
  threefold_repetition fifty_move_rule insufficient_material : OnlineGameStatus
  timeout_vs_insufficient_material abandoned aborted : OnlineGameStatus

-- The row of the table of games.
pub record OnlineGame : Type 0 where
  pub id : ℕ
  pub white_player_id : ℕ
  pub black_player_id : ℕ
  pub status : OnlineGameStatus
  pub time_category : TimeCategory
  pub clock_type : ChessClockType
  pub base_time_seconds : ℕ
  pub increment_seconds : ℕ
  pub fen : Fen
  pub pgn : Option Pgn
  pub winner_color : Option ClockSide
  pub white_time_left_ms : Option ℤ
  pub black_time_left_ms : Option ℤ
  pub is_rated : Bool

-- The row as the service sees it, with the number of its moves.
pub record GameRow : Type 0 where
  pub game : OnlineGame
  pub ply_count : ℕ

pub record MoveRow : Type 0 where
  pub ply : ℕ
  pub san : San
  pub uci : Uci
  pub fen_after : Fen
  pub position_hash : ℕ
  pub think_time_ms : Option ℤ
  pub clock_after_ms : Option ℤ

pub record CreateGameInput : Type 0 where
  pub id : ℕ
  pub white_player_id : ℕ
  pub black_player_id : ℕ
  pub time_category : TimeCategory
  pub clock_type : ChessClockType
  pub base_time_seconds : ℕ
  pub increment_seconds : ℕ
  pub is_rated : Bool

pub record FinishGameInput : Type 0 where
  pub status : OnlineGameStatus
  pub winner_color : Option ClockSide
  pub white_time_left_ms : ℤ
  pub black_time_left_ms : ℤ
  pub pgn : Pgn
  pub actor_user_id : Option ℕ

-- The entry of the audit log for `game.finished`.
pub record FinishAudit : Type 0 where
  pub status : OnlineGameStatus
  pub winner_color : Option ClockSide
  pub white_time_left_ms : ℤ
  pub black_time_left_ms : ℤ
  pub end_ply : Option ℕ
  pub actor_user_id : Option ℕ

pub record ClockEntry : Type 0 where
  pub version : ℕ
  pub state : ClockState

pub record ClockPayload : Type 0 where
  pub white_ms : ℤ
  pub black_ms : ℤ
  pub running : Option ClockSide
  pub server_sent_at_ms : ℤ

pub record GameEnded : Type 0 where
  pub game_id : ℕ
  pub status : OnlineGameStatus
  pub winner_color : Option ClockSide
  pub final_fen : Fen
  pub clock : ClockPayload

pub record MoveMade : Type 0 where
  pub game_id : ℕ
  pub ply : ℕ
  pub san : San
  pub uci : Uci
  pub fen : Fen
  pub clock : ClockPayload
  pub ms_spent : ℤ

pub data GameErrorCode : Type 0 where
  not_your_turn illegal_move game_not_active not_a_player stale_seq clock_expired : GameErrorCode

-- What `makeMove` answers.
pub data MoveResult : Type 0 where
  made : MoveMade → Option GameEnded → MoveResult
  rejected : GameErrorCode → Option Fen → Option GameEnded → MoveResult

pub record FinishedEvent : Type 0 where
  pub game_id : ℕ
  pub white_player_id : ℕ
  pub black_player_id : ℕ
  pub is_rated : Bool
  pub time_category : TimeCategory
  pub status : OnlineGameStatus

-- What the service throws.
pub data PlayError : Type 0 where
  not_found not_active no_draw_offer abort_window_closed conflict unknown_game : PlayError
  clock_error : ClockError → PlayError
