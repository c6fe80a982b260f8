-- ===== src/Play/Store.antt =====
-- What is kept of one game: the rows of src/modules/play/play.repository.ts in the database and the keys
-- of src/modules/play/clock.store.ts in Redis, with the audit log and the events that were emitted.
-- Every query and every key names the game, so the state of one game is modelled. A transaction that
-- throws changes nothing. The keys' time to live, 24 hours, is left out.
use farzin.Prelude.{
  ℕ, ◌+◌, Bool, true, false, ◌||◌, Option, none, some, List, [], ◌∷◌, if◌then◌else◌, leb, ◌==◌,
  length, Result, ok, err,
}
use farzin.Prelude.Int.{ℤ}
use farzin.Clock.{ClockSide, white, black, ClockState}
use farzin.Chess.{Fen}
use farzin.Play.Rows.{
  OnlineGameStatus, active, OnlineGame, GameRow, MoveRow, CreateGameInput, FinishGameInput,
  FinishAudit, ClockEntry, FinishedEvent, PlayError, conflict, unknown_game,
}

pub record World : Type 0 where
  pub game : Option OnlineGame
  pub moves : List MoveRow
  pub audits : List FinishAudit
  pub events : List FinishedEvent
  pub clock : Option ClockEntry
  pub draw_offer : Option ClockSide
  pub white_present : Bool
  pub black_present : Bool
  pub white_gone : Option ℤ
  pub black_gone : Option ℤ

abbrev pub is_active : OnlineGameStatus → Bool
is_active active = true
is_active _ = false

-- The database.

abbrev pub new_game : Fen → CreateGameInput → OnlineGame
new_game starting_fen input = record {
  id = input.id;
  white_player_id = input.white_player_id;
  black_player_id = input.black_player_id;
  status = active;
  time_category = input.time_category;
  clock_type = input.clock_type;
  base_time_seconds = input.base_time_seconds;
  increment_seconds = input.increment_seconds;
  fen = starting_fen;
  pgn = none;
  winner_color = none;
  white_time_left_ms = none;
  black_time_left_ms = none;
  is_rated = input.is_rated;
}

unfoldable pub create_game : Fen → CreateGameInput → World → World
create_game starting_fen input w = record w { game = some (new_game starting_fen input) }

abbrev pub to_game_row : ℕ → OnlineGame → GameRow
to_game_row ply_count g = record { game = g; ply_count = ply_count }

abbrev pub find_game : World → Option GameRow
find_game w = elim w.game [ none ↦ none | some g ↦ some (to_game_row (length w.moves) g) ]

-- The rows stand in the order of `ply`, by which `listMoves` asks for them.
abbrev pub insert_move : MoveRow → List MoveRow → List MoveRow
insert_move m [] = m ∷ []
insert_move m (x ∷ xs) = if leb m.ply x.ply then m ∷ x ∷ xs else x ∷ insert_move m xs

abbrev pub has_ply : ℕ → List MoveRow → Bool
has_ply ply [] = false
has_ply ply (m ∷ ms) = m.ply == ply || has_ply ply ms

abbrev pub occurrences : ℕ → List MoveRow → List Fen
occurrences hash [] = []
occurrences hash (m ∷ ms) =
    let rest = occurrences hash ms in if m.position_hash == hash then m.fen_after ∷ rest else rest

abbrev pub with_finish : FinishGameInput → OnlineGame → OnlineGame
with_finish f g = record g {
  status = f.status;
  winner_color = f.winner_color;
  white_time_left_ms = some f.white_time_left_ms;
  black_time_left_ms = some f.black_time_left_ms;
  pgn = some f.pgn;
}

abbrev pub audit_of : Option ℕ → FinishGameInput → FinishAudit
audit_of end_ply f = record {
  status = f.status;
  winner_color = f.winner_color;
  white_time_left_ms = f.white_time_left_ms;
  black_time_left_ms = f.black_time_left_ms;
  end_ply = end_ply;
  actor_user_id = f.actor_user_id;
}

abbrev pub write_move : MoveRow → Option FinishGameInput → OnlineGame → World → World
write_move m none g w = record w {
  game = some (record g { fen = m.fen_after });
  moves = insert_move m w.moves;
}
write_move m (some f) g w = record w {
  game = some (with_finish f (record g { fen = m.fen_after }));
  moves = insert_move m w.moves;
  audits = audit_of (some m.ply) f ∷ w.audits;
}

-- The row of the move is refused where there is no such game (a foreign key) and where the ply is
-- taken (a unique index); then the game's row is written if it is active.
abbrev pub append_to :
    Option OnlineGame → World → MoveRow → Option FinishGameInput → Result PlayError World
append_to none w m finish = err unknown_game
append_to (some g) w m finish =
    if has_ply m.ply w.moves
    then err conflict
    else if is_active g.status
    then ok (write_move m finish g w)
    else err conflict

unfoldable pub append_move : World → MoveRow → Option FinishGameInput → Result PlayError World
append_move w m finish = append_to w.game w m finish

-- `none` where no row was active.
unfoldable pub finish_game : World → FinishGameInput → Option World
finish_game w f = elim w.game [
  | none ↦ none
  | some g ↦
      if is_active g.status
      then some (record w { game = some (with_finish f g); audits = audit_of none f ∷ w.audits })
      else none
]

-- Redis.

abbrev pub init_version : World → ℕ → ClockState → World
init_version w version state = record w {
  clock = some (record { version = version; state = state });
}

abbrev pub init_clock : World → ClockState → World
init_clock w state = init_version w 1 state

-- `update`: the compare-and-set script, and whether it wrote.
abbrev pub update_from : Option ClockEntry → World → ℕ → ClockState → World × Bool
update_from none w expected_version state = (w, false)
update_from (some e) w expected_version state =
    if e.version == expected_version
    then (init_version w (expected_version + 1) state, true)
    else (w, false)

unfoldable pub update_clock : World → ℕ → ClockState → World × Bool
update_clock w expected_version state = update_from w.clock w expected_version state

abbrev pub clear_keys : World → World
clear_keys w = record w {
  clock = none;
  draw_offer = none;
  white_present = false;
  black_present = false;
  white_gone = none;
  black_gone = none;
}

abbrev pub set_draw_offer : World → ClockSide → World
set_draw_offer w side = record w { draw_offer = some side }

abbrev pub clear_draw_offer : World → World
clear_draw_offer w = record w { draw_offer = none }

abbrev pub set_presence : World → ClockSide → World
set_presence w white = record w { white_present = true }
set_presence w black = record w { black_present = true }

abbrev pub clear_presence : World → ClockSide → World
clear_presence w white = record w { white_present = false }
clear_presence w black = record w { black_present = false }

abbrev pub is_present : World → ClockSide → Bool
is_present w white = w.white_present
is_present w black = w.black_present

abbrev pub mark_gone : World → ClockSide → ℤ → World
mark_gone w white at_ms = record w { white_gone = some at_ms }
mark_gone w black at_ms = record w { black_gone = some at_ms }

abbrev pub clear_gone : World → ClockSide → World
clear_gone w white = record w { white_gone = none }
clear_gone w black = record w { black_gone = none }

abbrev pub gone_at : World → ClockSide → Option ℤ
gone_at w white = w.white_gone
gone_at w black = w.black_gone
