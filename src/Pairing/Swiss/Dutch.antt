-- ===== src/Pairing/Swiss/Dutch.antt =====
-- The Dutch engine, src/core/pairing/swiss-dutch.engine.ts, over a matching as in the brackets. The
-- round numbers are whole, as the type of the request says. The diagnostics
-- of the result, which nothing depends on, are left out.
pub mod Complete
use farzin.Prelude.{
  ℕ, zero, suc, ◌+◌, ◌-◌, ◌*◌, ◌/◌, ◌%◌, Bool, true, false, not, ◌&&◌, ◌||◌, Option, none, some,
  List, [], ◌∷◌, if◌then◌else◌, ltb, leb, ◌==◌, length, map, Result, ok, err, ◌>>=◌, ◌>>◌, throw_if,
}
use farzin.Pairing.{
  PlayerId, Color, white, PlayerPairingState, PairingRequest, Pairing, ByeAssignment, PairingResult,
  pairing_allocated, is_active,
}
use farzin.Pairing.Swiss.Colors.{allocate_colors}
use farzin.Pairing.Swiss.Players.{
  SwissPlayer, prepare_swiss_players, score_x2_of, to_allocation_side, contains,
}
use farzin.Pairing.Swiss.Verify.{ColoredPair, PairingCriterion, verify_absolute_criteria}
use farzin.Pairing.Swiss.Weights.{
  BracketError, WeightSchemeParams, weight_scheme, color_penalties_for, is_down, is_up,
}
use farzin.Pairing.Swiss.Brackets.{Matching, RankedPair, BracketsOutcome, pair_all_brackets}

-- What `compute` throws.
pub data DutchError : Type 0 where
  bad_round_number bad_total_rounds repeated_number no_active_player : DutchError
  bracket_error : BracketError → DutchError
  integrity_error : PairingCriterion → DutchError

-- An error of a part, as the engine's.
abbrev pub map_err : {E F A : Type 0} → (E → F) → Result E A → Result F A
map_err f (err e) = err (f e)
map_err f (ok a) = ok a

-- The comparison of the sort is not above 0: more points first, then the lower number.
unfoldable pub comes_first : PlayerPairingState → PlayerPairingState → Bool
comes_first a b =
    let sa = score_x2_of a.points in
    let sb = score_x2_of b.points in
    if sa == sb then leb a.pairing_number b.pairing_number else ltb sb sa

unfoldable pub insert_by_rank :
    PlayerPairingState → List PlayerPairingState → List PlayerPairingState
unfolding comes_first
insert_by_rank p [] = p ∷ []
insert_by_rank p (q ∷ qs) = if comes_first p q then p ∷ q ∷ qs else q ∷ insert_by_rank p qs

unfoldable pub sort_by_rank : List PlayerPairingState → List PlayerPairingState
unfolding insert_by_rank
sort_by_rank [] = []
sort_by_rank (p ∷ ps) = insert_by_rank p (sort_by_rank ps)

-- The loop over `seenNumbers`.
unfoldable pub check_numbers : List PlayerPairingState → List ℕ → Result DutchError (Unit {0})
unfolding contains
check_numbers [] seen = ok tt
check_numbers (p ∷ ps) seen = do
  throw_if (contains p.pairing_number seen) repeated_number
  check_numbers ps (p.pairing_number ∷ seen)

unfoldable pub active_players : List PlayerPairingState → ℕ → List PlayerPairingState
unfolding is_active
active_players [] round_number = []
active_players (p ∷ ps) round_number =
    let rest = active_players ps round_number in if is_active p round_number then p ∷ rest else rest

-- `Math.min(...scores)` and `Math.max(...scores)`, of at least one score.
abbrev pub min_score : SwissPlayer → List SwissPlayer → ℕ
min_score p [] = p.score_x2
min_score p (q ∷ qs) = let rest = min_score q qs in if leb p.score_x2 rest then p.score_x2 else rest

abbrev pub max_score : SwissPlayer → List SwissPlayer → ℕ
max_score p [] = p.score_x2
max_score p (q ∷ qs) = let rest = max_score q qs in if leb rest p.score_x2 then p.score_x2 else rest

unfoldable pub color_pair : Color → RankedPair → ColoredPair
color_pair initial_color pair =
    let alloc =
      allocate_colors (to_allocation_side pair.higher) (to_allocation_side pair.lower)
        initial_color in
    if alloc.first_is_white
    then record { white_player = pair.higher; black_player = pair.lower }
    else record { white_player = pair.lower; black_player = pair.higher }

abbrev pub top_rank : ColoredPair → ℕ
top_rank p =
    if leb p.white_player.rank_index p.black_player.rank_index
    then p.white_player.rank_index
    else p.black_player.rank_index

unfoldable pub insert_board : ColoredPair → List ColoredPair → List ColoredPair
insert_board p [] = p ∷ []
insert_board p (q ∷ qs) =
    if leb (top_rank p) (top_rank q) then p ∷ q ∷ qs else q ∷ insert_board p qs

unfoldable pub sort_boards : List ColoredPair → List ColoredPair
unfolding insert_board
sort_boards [] = []
sort_boards (p ∷ ps) = insert_board p (sort_boards ps)

unfoldable pub number_boards : List ColoredPair → ℕ → List Pairing
number_boards [] board = []
number_boards (p ∷ ps) board =
    record {
      board_number = board;
      white_player_id = p.white_player.state.player_id;
      black_player_id = p.black_player.state.player_id;
    }
    ∷ number_boards ps (board + 1)

-- 1 point, in tenths.
unfoldable pub byes_of : Option SwissPlayer → List ByeAssignment
byes_of none = []
byes_of (some p) =
    record { player_id = p.state.player_id; type = pairing_allocated; points = 10 } ∷ []

abbrev pub initial_color_of : Option Color → Color
initial_color_of none = white
initial_color_of (some c) = c

-- The round that the engine has found: the players, the pairs with colours in the order of the boards
-- and the player with the bye.
pub record DutchRound : Type 0 where
  pub players : List SwissPlayer
  pub boards : List ColoredPair
  pub pab : Option SwissPlayer

abbrev pub params_of : SwissPlayer → List SwissPlayer → ℕ → Color → WeightSchemeParams
params_of p ps round_number initial_color = record {
  n = length (p ∷ ps);
  min_score_x2 = min_score p ps;
  max_score_x2 = max_score p ps;
  max_unplayed = round_number - 1;
  initial_color = initial_color;
}

abbrev pub boards_of : Color → List RankedPair → List ColoredPair
boards_of initial_color pairs = sort_boards (map (color_pair initial_color) pairs)

-- The part of `compute` after the brackets.
unfoldable pub finish_round :
    List SwissPlayer → Color → BracketsOutcome → Result DutchError DutchRound
unfolding color_pair sort_boards verify_absolute_criteria
finish_round players initial_color outcome = do
  let colored = boards_of initial_color outcome.pairs
  map_err integrity_error (verify_absolute_criteria players colored outcome.pab)
  ok (record { players = players; boards = colored; pab = outcome.pab })

module _ (matching : Matching) where
  -- From the players on, of whom there is at least one.
  unfoldable pub pair_players :
      SwissPlayer → List SwissPlayer → ℕ → Color → Result DutchError DutchRound
  unfolding weight_scheme pair_all_brackets finish_round
  pair_players p ps round_number initial_color = do
    let players = p ∷ ps
    let scheme = weight_scheme (params_of p ps round_number initial_color)
    outcome ←
        map_err bracket_error (pair_all_brackets matching players scheme (length players % 2 == 1))
    finish_round players initial_color outcome

  unfoldable pub compute_round : PairingRequest → Result DutchError DutchRound
  unfolding sort_by_rank check_numbers active_players prepare_swiss_players pair_players
  compute_round request = do
    let round_number = request.round_number
    throw_if (ltb round_number 1) bad_round_number
    throw_if (ltb request.total_rounds round_number) bad_total_rounds
    let sorted = sort_by_rank request.players
    check_numbers sorted []
    let active = active_players sorted round_number
    elim (prepare_swiss_players active round_number request.total_rounds) [
      | [] ↦ err no_active_player
      | p ∷ ps ↦ pair_players p ps round_number (initial_color_of request.initial_color)
    ]

  unfoldable pub compute : PairingRequest → Result DutchError PairingResult
  unfolding compute_round number_boards byes_of
  compute request = do
    round ← compute_round request
    ok (record {
      pairings = number_boards round.boards 1;
      byes = byes_of round.pab;
      engine_version = "1.0.0";
    })
