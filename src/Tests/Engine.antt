-- ===== src/Tests/Engine.antt =====
-- The Dutch engine with a matching of one edge, on two players who both had white in the first round.
use farzin.Prelude.{
  ℕ, ◌<◌, ◌≡◌, refl, arith, true, false, Option, none, some, List, [], ◌∷◌, ◌≤◌, set, replicate, ok,
  ◌+◌,
}
use farzin.Prelude.Int.{pos, ◌+ℤ◌}
use farzin.Pairing.{PlayerPairingState, PairingRequest, PairingResult, white, is_active}
use farzin.Pairing.Swiss.Players.{
  SwissPlayer, prepare_player, prepare_swiss_players, contains, can_meet, color_outcome_flags,
}
use farzin.Pairing.Swiss.Colors.{color_preference_of, allocate_colors}
use farzin.Pairing.Swiss.Weights.{BracketSlot, WeightSchemeParams, weight_scheme, real_edge_weight}
use farzin.Pairing.Swiss.Weights.Bounds.{IsPlaced, real_edge_weight-positive}
use farzin.Pairing.Swiss.Brackets.{WeightedEdge, Matching, BracketsOutcome, pair_all_brackets}
use farzin.Pairing.Swiss.Dutch.{
  compute, compute_round, sort_by_rank, check_numbers, active_players, pair_players,
}
use farzin.Pairing.Swiss.Dutch.Complete.{compute_complete, active_count, pairing_count, bye_count}

abbrev one_pair : ℕ → WeightedEdge → List (Option ℕ)
one_pair n e = set (set (replicate n none) e.u (some e.v)) e.v (some e.u)

-- The matching of the first edge.
first_edge : Matching
first_edge n [] = ok (replicate n none)
first_edge n (e ∷ es) = ok (one_pair n e)

abbrev state_of : ℕ → ℕ → PlayerPairingState
state_of n opponent = record {
  player_id = n;
  pairing_number = n;
  rating = 1500;
  points = 10;
  opponent_ids = opponent ∷ [];
  color_history = white ∷ [];
  float_history = [];
  has_received_bye = false;
  is_withdrawn = false;
  joined_at_round = 1;
}

-- The second player stands first in the request, and a third has withdrawn.
abbrev request : PairingRequest
request = record {
  round_id = 5;
  round_number = 2;
  total_rounds = 7;
  players = state_of 2 9 ∷ record (state_of 3 8) { is_withdrawn = true } ∷ state_of 1 8 ∷ [];
  seed = none;
  initial_color = none;
}

abbrev one_board : PairingResult
one_board = record {
  pairings = record { board_number = 1; white_player_id = 2; black_player_id = 1 } ∷ [];
  byes = [];
  engine_version = "1.0.0";
}

compute_lem : compute first_edge request ≡ ok one_board
unfolding first_edge compute compute_round sort_by_rank check_numbers active_players
    prepare_swiss_players pair_players can_meet color_preference_of ◌+ℤ◌ color_outcome_flags
    allocate_colors
compute_lem = refl

request_once : (id : ℕ) → active_count id request.players request.round_number ≤ 1
unfolding is_active
request_once id = ground arith

compute_complete_example :
    pairing_count 2 one_board.pairings + bye_count 2 one_board.byes
    ≡ active_count 2 request.players request.round_number
compute_complete_example = compute_complete first_edge request request_once compute_lem 2

abbrev params : WeightSchemeParams
params = record {
  n = 2;
  min_score_x2 = 2;
  max_score_x2 = 3;
  max_unplayed = 1;
  initial_color = white;
}

abbrev upper_player : SwissPlayer
upper_player = record (prepare_player 2 7 0 (state_of 1 8)) { score_x2 = 3 }

abbrev lower_player : SwissPlayer
lower_player = prepare_player 2 7 1 (state_of 2 9)

upper_in_range : (2 ≤ upper_player.score_x2) × (upper_player.score_x2 ≤ 3)
unfolding prepare_player
upper_in_range = (omega arith, omega arith)

lower_in_range : (2 ≤ lower_player.score_x2) × (lower_player.score_x2 ≤ 3)
unfolding prepare_player
lower_in_range = (omega arith, omega arith)

abbrev slot : SwissPlayer → ℕ → BracketSlot
slot p i = record { player = p; bsn = i; carried = false }

placed :
    (p : SwissPlayer) (i : ℕ)
    → (2 ≤ p.score_x2) × (p.score_x2 ≤ 3)
    → i < 2
    → IsPlaced params (slot p i)
placed p i h k = record { above = h.0; below = h.1; place = k }

real_edge_weight-positive_example :
    (w : ℕ) × (real_edge_weight (weight_scheme params) (slot upper_player 0) (slot lower_player 1) 1
      ≡ ok (pos w))
    × (0 < w)
real_edge_weight-positive_example =
    real_edge_weight-positive params (slot upper_player 0) (slot lower_player 1) 1 (omega arith)
      (placed upper_player 0 upper_in_range (omega arith))
      (placed lower_player 1 lower_in_range (omega arith))

abbrev two_players : List SwissPlayer
two_players = upper_player ∷ lower_player ∷ []

-- The player of the upper group floats down to the lower.
abbrev floated : BracketsOutcome
floated = record {
  pairs = record { higher = upper_player; lower = lower_player } ∷ [];
  pab = none;
  merge_count = 0;
}

two_players_lem : pair_all_brackets first_edge two_players (weight_scheme params) false ≡ ok floated
unfolding first_edge pair_all_brackets can_meet color_preference_of ◌+ℤ◌ color_outcome_flags
    allocate_colors prepare_player contains weight_scheme
two_players_lem = refl
