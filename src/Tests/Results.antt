-- ===== src/Tests/Results.antt =====
-- Two players, a drawn game and a bye.
use farzin.Prelude.{refl, ℕ, ok, none, some, List, [], ◌∷◌, ◌≡◌, true}
use farzin.Tiebreak.{
  white, half, halves, PlayerTieBreakInput, TieBreakContext, build_context, enter_players,
  check_players, check_games, to_half_points,
}
use farzin.Scores.{PairingHistoryEntry, drawn, bye_full, build_score_views}
use farzin.Scores.Totals.{build_score_views-AllConsistent, AllConsistent}

abbrev past : List PairingHistoryEntry
past =
    record {
      round_number = 2;
      white_registration_id = 1;
      black_registration_id = none;
      result = bye_full;
    }
    ∷ record {
      round_number = 1;
      white_registration_id = 1;
      black_registration_id = some 2;
      result = drawn;
    }
    ∷ []

build_score_views-AllConsistent_example : AllConsistent (build_score_views (1 ∷ 2 ∷ []) past)
build_score_views-AllConsistent_example = build_score_views-AllConsistent (1 ∷ 2 ∷ []) past

-- The two players of the drawn game.
abbrev entrant_of : ℕ → ℕ → PlayerTieBreakInput
entrant_of id opponent = record {
  player_id = id;
  points = halves 1;
  rating = none;
  games =
      record {
        opponent_id = some opponent;
        color = some white;
        result = half;
        played_over_board = true;
      }
      ∷ [];
}

abbrev pair_context : TieBreakContext
pair_context = record {
  players = entrant_of 1 2 ∷ entrant_of 2 1 ∷ [];
  points2 = (1, 1) ∷ (2, 1) ∷ [];
  total_rounds = 1;
}

pair_context_lem : build_context (entrant_of 1 2 ∷ entrant_of 2 1 ∷ []) ≡ ok pair_context
unfolding build_context enter_players check_players check_games to_half_points
pair_context_lem = refl
