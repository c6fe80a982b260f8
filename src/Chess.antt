-- ===== src/Chess.antt =====
-- The rules of chess, src/core/chess/rules.ts, over the package chess.js. The texts of positions (FEN)
-- and moves (UCI, SAN) and the hashes are only handed on and compared, so they are numbers. What the
-- package and the reading of the texts give is the record `ChessJs`.
pub mod Material
pub mod Notation
use farzin.Prelude.{
  ℕ, ◌+◌, ◌≡◌, Bool, true, false, ◌&&◌, ◌||◌, Option, none, some, List, [], ◌∷◌, if◌then◌else◌, ltb,
  leb, ◌==◌,
}
use farzin.Clock.{ClockSide, white, black, opposite}

abbrev pub Fen : Type 0
Fen = ℕ

abbrev pub San : Type 0
San = ℕ

abbrev pub Uci : Type 0
Uci = ℕ

pub data SquareColor : Type 0 where
  light dark : SquareColor

pub record SidePieces : Type 0 where
  pub p : ℕ
  pub n : ℕ
  pub b : ℕ
  pub r : ℕ
  pub q : ℕ
  pub bishop_squares : List SquareColor

pub record PieceCounts : Type 0 where
  pub w : SidePieces
  pub b : SidePieces

-- What `chess.move` tells of a move, with the position after it.
pub record Played : Type 0 where
  pub san : San
  pub fen_after : Fen
  pub is_capture : Bool
  pub is_pawn : Bool

-- `play` gives nothing for a text that is no UCI move, and where chess.js throws. `pieces` is
-- `countPieces`, which adds up the package's board; `side_to_move`, `halfmove_clock` and
-- `position_key` read fields of the text.
pub record ChessJs : Type 0 where
  pub starting_fen : Fen
  pub play : Fen → Uci → Option Played
  pub is_checkmate : Fen → Bool
  pub is_stalemate : Fen → Bool
  pub pieces : Fen → PieceCounts
  pub side_to_move : Fen → ClockSide
  pub halfmove_clock : Fen → ℕ
  pub position_key : Fen → ℕ
  pub zobrist_hash : Fen → ℕ

pub data PositionEnd : Type 0 where
  checkmate stalemate threefold_repetition fifty_move_rule insufficient_material : PositionEnd

pub record ValidatedMove : Type 0 where
  pub san : San
  pub uci : Uci
  pub fen_after : Fen
  pub position_hash : ℕ
  pub irreversible : Bool

abbrev pub side_pieces : PieceCounts → ClockSide → SidePieces
side_pieces c white = c.w
side_pieces c black = c.b

abbrev pub same_color : SquareColor → SquareColor → Bool
same_color light light = true
same_color dark dark = true
same_color _ _ = false

-- `w.bishopSquares[0] === b.bishopSquares[0]`, where `undefined` equals itself.
abbrev pub same_first : List SquareColor → List SquareColor → Bool
same_first [] [] = true
same_first (c ∷ cs) (d ∷ ds) = same_color c d
same_first _ _ = false

unfoldable pub is_dead_count : PieceCounts → Bool
is_dead_count c =
    let w = c.w in
    let b = c.b in
    let minors_w = w.n + w.b in
    let minors_b = b.n + b.b in
    if ltb 0 (w.p + b.p) || ltb 0 (w.r + b.r) || ltb 0 (w.q + b.q)
    then false
    else if minors_w == 0 && minors_b == 0
    then true
    else if minors_w == 1 && minors_b == 0 || minors_w == 0 && minors_b == 1
    then true
    else if w.b == 1 && b.b == 1 && minors_w == 1 && minors_b == 1
    then same_first w.bishop_squares b.bishop_squares
    else false

unfoldable pub can_mate : SidePieces → Bool
can_mate c = if ltb 0 c.p || ltb 0 c.r || ltb 0 c.q then true else leb 2 (c.n + c.b)

-- The fens before with the key of the position.
abbrev pub key_count : (Fen → ℕ) → ℕ → List Fen → ℕ
key_count key k [] = 0
key_count key k (f ∷ fs) = (if key f == k then 1 else 0) + key_count key k fs

module _ (js : ChessJs) where
  unfoldable pub validate_move : Fen → Uci → Option ValidatedMove
  validate_move fen uci = elim (js.play fen uci) [
    | none ↦ none
    | some m ↦ some (record {
      san = m.san;
      uci = uci;
      fen_after = m.fen_after;
      position_hash = js.zobrist_hash m.fen_after;
      irreversible = m.is_capture || m.is_pawn;
    })
  ]

  unfoldable pub is_dead_position : Fen → Bool
  unfolding is_dead_count
  is_dead_position fen = is_dead_count (js.pieces fen)

  unfoldable pub has_mating_material : Fen → ClockSide → Bool
  unfolding can_mate
  has_mating_material fen side = can_mate (side_pieces (js.pieces fen) side)

  unfoldable pub game_end_from_position : Fen → List Fen → Option PositionEnd
  unfolding is_dead_position
  game_end_from_position fen prior_fens =
      if js.is_checkmate fen
      then some checkmate
      else if js.is_stalemate fen
      then some stalemate
      else if is_dead_position fen
      then some insufficient_material
      else if leb 100 (js.halfmove_clock fen)
      then some fifty_move_rule
      else if leb 3 (1 + key_count js.position_key (js.position_key fen) prior_fens)
      then some threefold_repetition
      else none

-- Each move of chess.js passes the turn, and white begins.
pub record TakesTurns (js : ChessJs) : Type 0 where
  pub starts : js.side_to_move js.starting_fen ≡ white
  pub passes :
      (fen : Fen) (uci : Uci) {m : Played}
      → js.play fen uci ≡ some m
      → js.side_to_move m.fen_after ≡ opposite (js.side_to_move fen)

pub data PgnResult : Type 0 where
  white_wins black_wins draw unfinished : PgnResult

-- A numbered move of white, with the answer if there is one.
pub record PgnPart : Type 0 where
  pub move_no : ℕ
  pub white_san : San
  pub black_san : Option San

pub record Pgn : Type 0 where
  pub parts : List PgnPart
  pub result : PgnResult

-- The loop over pairs of moves, from a move number on.
unfoldable pub pgn_parts : ℕ → List San → List PgnPart
pgn_parts move_no [] = []
pgn_parts move_no (w ∷ []) = record { move_no = move_no; white_san = w; black_san = none } ∷ []
pgn_parts move_no (w ∷ b ∷ sans) =
    record { move_no = move_no; white_san = w; black_san = some b } ∷ pgn_parts (move_no + 1) sans

unfoldable pub build_pgn : List San → PgnResult → Pgn
unfolding pgn_parts
build_pgn sans result = record { parts = pgn_parts 1 sans; result = result }
