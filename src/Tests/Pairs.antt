-- ===== src/Tests/Pairs.antt =====
-- Two players after two rounds of a Swiss tournament, and a third who gets the bye.
use farzin.Prelude.{ℕ, some, List, [], ◌∷◌, ok, ◌≡◌, ◌+◌, refl, true, false, not, arith}
use farzin.Prelude.Int.{◌+ℤ◌}
use farzin.Pairing.{PlayerPairingState, Color, white, black}
use farzin.Pairing.Swiss.Colors.{
  allocate_colors, color_difference, color_preference_of, preference_of,
}
use farzin.Pairing.Swiss.Colors.Symmetry.{allocate_colors_swap}
use farzin.Pairing.Swiss.Players.{
  SwissPlayer, prepare_player, can_meet, to_allocation_side, contains, color_outcome_flags,
}
use farzin.Pairing.Swiss.Players.Safety.{
  allocate_colors-IsSafe, IsPrepared, IsSafe, first_color, second_color,
}
use farzin.Pairing.Swiss.Verify.{
  ColoredPair, verify_absolute_criteria, verify_pairs, verify_pair, verify_pab, verify_seen,
  take_player, have_met, check_color,
}
use farzin.Pairing.Swiss.Verify.Coverage.{
  verify_absolute_criteria-coverage, HasDistinctIds, pair_count, pab_count, player_count, AllPass,
  IsEligible,
}

abbrev state_of : ℕ → List ℕ → List Color → PlayerPairingState
state_of n opponents colors = record {
  player_id = n;
  pairing_number = n;
  rating = 1500;
  points = 10;
  opponent_ids = opponents;
  color_history = colors;
  float_history = [];
  has_received_bye = false;
  is_withdrawn = false;
  joined_at_round = 1;
}

-- The first had white twice, so it must have black.
abbrev first_player : SwissPlayer
first_player = prepare_player 3 7 0 (state_of 1 (8 ∷ 9 ∷ []) (white ∷ white ∷ []))

abbrev second_player : SwissPlayer
second_player = prepare_player 3 7 1 (state_of 2 (9 ∷ 8 ∷ []) (white ∷ black ∷ []))

abbrev third_player : SwissPlayer
third_player = prepare_player 3 7 2 (state_of 3 (8 ∷ 7 ∷ []) (black ∷ white ∷ []))

allocate_colors_swap_example :
    ((allocate_colors
        (to_allocation_side second_player)
        (to_allocation_side first_player)
        white).first_is_white
      ≡ not
          (allocate_colors
            (to_allocation_side first_player)
            (to_allocation_side second_player)
            white).first_is_white)
    × ((allocate_colors
          (to_allocation_side second_player)
          (to_allocation_side first_player)
          white).rule
        ≡ (allocate_colors
            (to_allocation_side first_player)
            (to_allocation_side second_player)
            white).rule)
unfolding prepare_player
allocate_colors_swap_example =
    allocate_colors_swap (to_allocation_side first_player) (to_allocation_side second_player) white
      (λ h. omega arith)

first-IsPrepared : IsPrepared first_player
unfolding prepare_player ◌+ℤ◌
first-IsPrepared = record {
  diff = refl;
  pref = refl;
  legal = (omega arith, refl, (omega arith, refl, tt));
}

second-IsPrepared : IsPrepared second_player
unfolding prepare_player ◌+ℤ◌
second-IsPrepared = record {
  diff = refl;
  pref = refl;
  legal = (omega arith, refl, (omega arith, refl, tt));
}

they_meet : can_meet first_player second_player ≡ true
unfolding can_meet prepare_player contains color_preference_of color_difference preference_of ◌+ℤ◌
they_meet = refl

no_topscorer : (first_player.is_topscorer ≡ false) × (second_player.is_topscorer ≡ false)
unfolding prepare_player
no_topscorer = (refl, refl)

allocate_colors-IsSafe_example :
    IsSafe first_player (first_color first_player second_player white)
    × IsSafe second_player (second_color first_player second_player white)
allocate_colors-IsSafe_example =
    allocate_colors-IsSafe first_player second_player white first-IsPrepared second-IsPrepared
      no_topscorer.0 no_topscorer.1 they_meet

abbrev field : List SwissPlayer
field = first_player ∷ second_player ∷ third_player ∷ []

abbrev round_pairs : List ColoredPair
round_pairs = record { white_player = second_player; black_player = first_player } ∷ []

field-HasDistinctIds : HasDistinctIds field
unfolding prepare_player contains
field-HasDistinctIds = (refl, (refl, (refl, tt)))

round_lem : verify_absolute_criteria field round_pairs (some third_player) ≡ ok tt
unfolding verify_absolute_criteria verify_pairs verify_pair take_player have_met check_color
    color_outcome_flags verify_pab verify_seen prepare_player contains color_difference ◌+ℤ◌
round_lem = refl

verify_absolute_criteria-coverage_example :
    ((id : ℕ)
      → pair_count id round_pairs + pab_count id (some third_player) ≡ player_count id field)
    × AllPass round_pairs
    × IsEligible (some third_player)
verify_absolute_criteria-coverage_example =
    verify_absolute_criteria-coverage field round_pairs (some third_player) field-HasDistinctIds
      round_lem
