-- ===== src/Tests/Online.antt =====
-- An online game of two moves, by rules in which every move is legal and the fourth mates.
use farzin.Prelude.{
  ℕ, ◌+◌, ◌%◌, ◌≡◌, ◌≢◌, refl, arith, true, false, Option, none, some, [], ◌==◌, if◌then◌else◌,
  Result, ok,
}
use farzin.Prelude.Int.{ℤ, pos, ◌+ℤ◌, ◌-ℤ◌}
use farzin.Clock.{
  ClockSide, white, black, opposite, fischer_increment, remaining, chargeable_ms, settle,
  elapsed_since,
}
use farzin.TimeCategory.{blitz}
use farzin.Chess.{ChessJs, TakesTurns, SidePieces, is_dead_position, has_mating_material}
use farzin.Chess.Material.{is_dead_position-unmatable}
use farzin.Play.Rows.{
  resignation, CreateGameInput, GameRow, MoveResult, MoveMade, GameEnded, made, OnlineGame,
  illegal_move,
}
use farzin.Play.Store.{World, to_game_row, new_game, set_draw_offer}
use farzin.Play.Service.{create_game_with_clock, MovePlan, refuse}
use farzin.Play.Moves.{make_move, plan_move, commit_move}
use farzin.Play.History.{Later, Step, Change, nothing, write, elsewhere}
use farzin.Play.History.Grain.{Later-Change}
use farzin.Play.History.Requests.{moving, Serves-Later}
use farzin.Play.History.Final.{IsOver, IsBooked, Written-final, Later-IsBooked}
use farzin.Play.History.Transactions.{SameRows}
use farzin.Play.History.Log.{IsGame, Extends, Later-IsGame}
use farzin.Play.History.Cache.{IsMirrored, Later-IsMirrored}
use farzin.Play.History.Start.{IsUnused, IsWellFormed, create_game_with_clock-IsWellFormed}
use farzin.Play.Ends.{resign-EndsBy, EndsBy, IsWonAgainst}
use farzin.Play.Claims.{accept_draw-offered}
use farzin.Play.Actions.{resign, accept_draw, require_active_player}

-- White moves at even positions. There are two queens; at position 9 there are none.
abbrev queens : ℕ → SidePieces
queens n = record { p = 0; n = 0; b = 0; r = 0; q = n; bishop_squares = [] }

abbrev rules : ChessJs
rules = record {
  starting_fen = 0;
  play = λ fen uci.
      some (record { san = uci; fen_after = fen + 1; is_capture = false; is_pawn = true });
  is_checkmate = λ fen. fen == 4;
  is_stalemate = λ fen. false;
  pieces = λ fen.
      if fen == 9
      then record { w = queens 0; b = queens 0 }
      else record { w = queens 1; b = queens 1 };
  side_to_move = λ fen. if fen % 2 == 0 then white else black;
  halfmove_clock = λ fen. 0;
  position_key = λ fen. fen;
  zobrist_hash = λ fen. fen;
}

rules-TakesTurns : TakesTurns rules
rules-TakesTurns = record { starts = refl; passes = λ fen uci h. ground arith }

abbrev unused : World
unused = record {
  game = none;
  moves = [];
  audits = [];
  events = [];
  clock = none;
  draw_offer = none;
  white_present = false;
  black_present = false;
  white_gone = none;
  black_gone = none;
}

abbrev input : CreateGameInput
input = record {
  id = 5;
  white_player_id = 11;
  black_player_id = 12;
  time_category = blitz;
  clock_type = fischer_increment;
  base_time_seconds = 180;
  increment_seconds = 2;
  is_rated = true;
}

abbrev created : World
created = (create_game_with_clock rules input (pos 1000) unused).0

abbrev state_of : {A : Type 0} → World → Result A (World × MoveResult) → World
state_of w (Result.err e) = w
state_of w (ok r) = r.0

-- White moves after 2 seconds, black after 5 more.
abbrev moved : World
moved = state_of created (make_move rules created 1 (some 11) 7 (pos 3000))

abbrev answered : World
answered = state_of moved (make_move rules moved 2 (some 12) 8 (pos 8000))

-- Each step, as the service takes it.
moved_lem : (r : MoveResult) × (make_move rules created 1 (some 11) 7 (pos 3000) ≡ ok (moved, r))
unfolding make_move create_game_with_clock
moved_lem = (_, refl)

answered_lem :
    (r : MoveResult) × (make_move rules moved 2 (some 12) 8 (pos 8000) ≡ ok (answered, r))
unfolding make_move create_game_with_clock elapsed_since ◌-ℤ◌ ◌+ℤ◌ chargeable_ms settle
answered_lem = (_, refl)

abbrev resigned : World
resigned = elim (resign rules answered 1 (some 11) (pos 9000)) [
  | Result.err e ↦ answered
  | ok r ↦ r.0
]

resigned_lem : (e : GameEnded) × (resign rules answered 1 (some 11) (pos 9000) ≡ ok (resigned, e))
unfolding resign make_move create_game_with_clock elapsed_since ◌-ℤ◌ ◌+ℤ◌ settle chargeable_ms
resigned_lem = (_, refl)

-- From the creation to the answer, and the resignation.
first_move : Later (Step rules) created moved
first_move = Serves-Later rules created moved (moving 1 (some 11) 7 (pos 3000) moved_lem.1)

changes : Later (Change rules) created moved
changes = Later-Change rules first_move

unused-IsUnused : IsUnused unused
unused-IsUnused = record { moves = refl; audits = refl; clock = refl }

create_game_with_clock-IsWellFormed_example : IsWellFormed rules created
create_game_with_clock-IsWellFormed_example =
    create_game_with_clock-IsWellFormed rules rules-TakesTurns input (pos 1000) unused
      unused-IsUnused

start : IsWellFormed rules created
start =
    create_game_with_clock-IsWellFormed rules rules-TakesTurns input (pos 1000) unused
      unused-IsUnused

Later-IsGame_example : IsGame rules moved × Extends created moved
Later-IsGame_example = Later-IsGame rules changes start.is_game

Later-IsMirrored_example : IsMirrored rules moved
Later-IsMirrored_example =
    Later-IsMirrored rules rules-TakesTurns first_move start.is_game start.is_mirrored

Later-IsBooked_example : IsBooked moved
Later-IsBooked_example = Later-IsBooked rules changes start.is_booked

abbrev resigned_row : OnlineGame
resigned_row = elim resigned.game [ none ↦ new_game 0 input | some g ↦ g ]

-- A move that was planned before the resignation is written after it, and changes nothing.
abbrev planned : MovePlan
planned = elim (plan_move rules answered (some 11) 9 (pos 8500)) [
  | Result.err e ↦ refuse illegal_move none
  | ok plan ↦ plan
]

resigned-IsOver : IsOver resigned
unfolding resign make_move create_game_with_clock elapsed_since ◌-ℤ◌ ◌+ℤ◌ settle chargeable_ms
resigned-IsOver = record { game = resigned_row; row = refl; over = refl }

planned_lem : plan_move rules answered (some 11) 9 (pos 8500) ≡ ok planned
unfolding plan_move make_move create_game_with_clock elapsed_since ◌-ℤ◌ ◌+ℤ◌ settle chargeable_ms
planned_lem = refl

refused_lem :
    (r : MoveResult) × (commit_move rules resigned planned 1 (pos 9500) ≡ ok (resigned, r))
unfolding commit_move plan_move resign make_move create_game_with_clock elapsed_since ◌-ℤ◌ ◌+ℤ◌
    settle chargeable_ms
refused_lem = (_, refl)

-- An offer that comes to Redis late.
Written-final_example : SameRows resigned (set_draw_offer resigned white)
Written-final_example =
    Written-final rules (write {v = answered} nothing (elsewhere refl refl refl)) resigned-IsOver

-- The sides have three minutes; black does not move for an hour.
abbrev an_hour : ℤ
an_hour = pos 3600000

abbrev moved_row : GameRow
moved_row = to_game_row 1 (record (new_game 0 input) { fen = 1 })

-- White offers a draw, and black accepts it.
abbrev offered : World
offered = set_draw_offer moved white

accepted_lem :
    (t : World) × (e : GameEnded) × (accept_draw rules offered 2 (some 12) (pos 9000) ≡ ok (t, e))
unfolding accept_draw make_move create_game_with_clock remaining elapsed_since ◌-ℤ◌ ◌+ℤ◌ settle
    chargeable_ms
accepted_lem = (_, _, refl)

accept_draw-offered_example :
    ((g : GameRow) × (side : ClockSide) × (require_active_player offered (some 12) ≡ ok (g, side))
      × (offered.draw_offer ≡ some (opposite side)))
    × ((v : World) (mover : ℕ) (player : Option ℕ) (uci : ℕ) (at_ms : ℤ) (m : MoveMade)
          (end : Option GameEnded)
        → make_move rules v mover player uci at_ms ≢ ok (offered, made m end))
accept_draw-offered_example =
    accept_draw-offered rules offered accepted_lem.0 2 (some 12) (pos 9000) accepted_lem.2

bare_kings : is_dead_position rules 9 ≡ true
unfolding is_dead_position
bare_kings = refl

is_dead_position-unmatable_example :
    (has_mating_material rules 9 white ≡ false) × (has_mating_material rules 9 black ≡ false)
is_dead_position-unmatable_example = is_dead_position-unmatable rules 9 white bare_kings

resign-EndsBy_example :
    (g : GameRow) × (side : ClockSide) × (winner : Option ClockSide) × (require_active_player
        answered
        (some 11)
      ≡ ok (g, side))
    × IsWonAgainst side winner
    × EndsBy answered resigned resignation winner resigned_lem.0
resign-EndsBy_example = resign-EndsBy rules answered resigned 1 (some 11) (pos 9000) resigned_lem.1
