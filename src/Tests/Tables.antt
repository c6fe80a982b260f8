-- ===== src/Tests/Tables.antt =====
-- A round-robin of five players, of whom the fifth has withdrawn.
use farzin.Prelude.{ℕ, none, [], ◌∷◌, ok, ◌≡◌, ◌+◌, ◌==◌, ◌<◌, ◌≤◌, refl, Bool, true, false, arith}
use farzin.Pairing.{PlayerPairingState, PairingRequest, PairingResult, pairing_allocated}
use farzin.Pairing.RoundRobin.{
  berger_round, compute, wrap_seat, ring_boards, seating_order, sort_players, has_repeat,
  count_active, fill_boards,
}
use farzin.Pairing.RoundRobin.Table.{
  meeting_round, seat_count-berger_round, meeting_count-berger_round,
}
use farzin.Pairing.RoundRobin.Schedule.{seat_count, meeting_count, bit}
use farzin.Pairing.RoundRobin.Coverage.{compute-coverage, pairing_count, bye_count, active_count}

seat_count-berger_round_example : seat_count 3 (berger_round 6 2) ≡ 1
seat_count-berger_round_example =
    seat_count-berger_round 6 2 3 refl (omega arith) (omega arith) (omega arith) (omega arith)

meeting_count-berger_round_example :
    (meeting_count 1 4 (berger_round 6 2) ≡ bit (2 == meeting_round 6 1 4))
    × (1 ≤ meeting_round 6 1 4)
    × (meeting_round 6 1 4 < 6)
meeting_count-berger_round_example =
    meeting_count-berger_round 6 2 1 4 refl (omega arith) (omega arith) (omega arith, omega arith)
      (omega arith, omega arith) (λ h. omega arith)

-- A player with this number, as id and as pairing number.
abbrev entrant : ℕ → Bool → PlayerPairingState
entrant n withdrawn = record {
  player_id = n;
  pairing_number = n;
  rating = 1500;
  points = 0;
  opponent_ids = [];
  color_history = [];
  float_history = [];
  has_received_bye = false;
  is_withdrawn = withdrawn;
  joined_at_round = 1;
}

abbrev second_round : PairingRequest
second_round = record {
  round_id = 7;
  round_number = 2;
  total_rounds = 5;
  players =
      entrant 3 false ∷ entrant 1 false ∷ entrant 2 false ∷ entrant 5 true ∷ entrant 4 false ∷ [];
  seed = none;
  initial_color = none;
}

abbrev second_result : PairingResult
second_result = record {
  pairings = record { board_number = 1; white_player_id = 1; black_player_id = 2 } ∷ [];
  byes =
      record { player_id = 4; type = pairing_allocated; points = 10 }
      ∷ record { player_id = 3; type = pairing_allocated; points = 10 }
      ∷ [];
  engine_version = "1.0.0";
}

second_round_lem : compute 1 second_round ≡ ok second_result
unfolding compute seating_order sort_players has_repeat count_active fill_boards berger_round
    wrap_seat ring_boards
second_round_lem = refl

compute-coverage_example :
    pairing_count 2 second_result.pairings + bye_count 2 second_result.byes
    ≡ active_count 2 2 second_round.players
compute-coverage_example = compute-coverage 1 second_round second_result 2 second_round_lem
