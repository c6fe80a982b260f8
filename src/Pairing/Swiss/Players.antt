-- ===== src/Pairing/Swiss/Players.antt =====
-- The players as the Swiss engine sees them, src/core/pairing/swiss/swiss-types.ts.
pub mod Safety
use farzin.Prelude.{
  ℕ, zero, suc, ◌+◌, ◌-◌, ◌*◌, ◌/◌, Bool, true, false, not, ◌&&◌, ◌||◌, Option, none, some, List,
  [], ◌∷◌, if◌then◌else◌, ltb, leb, ◌==◌, length, get_elem?,
}
use farzin.Prelude.Int.{ℤ, pos, negsuc, ◌+ℤ◌, magnitude}
use farzin.Pairing.{
  PlayerId, Color, white, black, ColorPreference, PlayerPairingState, FloatDirection, no_float,
}
use farzin.Pairing.Swiss.Colors.{
  color_difference, color_preference_of, ColorAllocationSide, color_eq, color_weight, from_end,
  is_some_color, is_absolute,
}

pub record SwissPlayer : Type 0 where
  pub state : PlayerPairingState
  pub rank_index : ℕ
  pub score_x2 : ℕ
  pub color_diff : ℤ
  pub pref : ColorPreference
  pub is_topscorer : Bool
  pub unplayed_count : ℕ
  pub float_prev : FloatDirection
  pub float_prev_prev : FloatDirection
  pub pab_eligible : Bool

-- `Math.round(points * 2)` for points in tenths.
abbrev pub score_x2_of : ℕ → ℕ
score_x2_of points = (2 * points + 5) / 10

-- `floatHistory[floatLen - back] ?? FloatDirection.None`
abbrev float_at : List FloatDirection → ℕ → FloatDirection
float_at history back =
    elim (if leb back (length history) then get_elem? history (length history - back) else none) [
      | some f ↦ f
      | none ↦ no_float
    ]

-- The body of the `map` in `prepareSwissPlayers`. `scoreX2 > roundNumber - 1` is written without the
-- subtraction.
unfoldable pub prepare_player : ℕ → ℕ → ℕ → PlayerPairingState → SwissPlayer
prepare_player round_number total_rounds rank_index state =
    let score_x2 = score_x2_of state.points in
    record {
      state = state;
      rank_index = rank_index;
      score_x2 = score_x2;
      color_diff = color_difference state.color_history;
      pref = color_preference_of state.color_history;
      is_topscorer = round_number == total_rounds && ltb round_number (score_x2 + 1);
      unplayed_count = round_number - 1 - length state.color_history;
      float_prev = float_at state.float_history 1;
      float_prev_prev = float_at state.float_history 2;
      pab_eligible = not state.has_received_bye;
    }

unfoldable pub prepare_from : ℕ → ℕ → ℕ → List PlayerPairingState → List SwissPlayer
unfolding prepare_player
prepare_from round_number total_rounds i [] = []
prepare_from round_number total_rounds i (p ∷ ps) =
    prepare_player round_number total_rounds i p ∷ prepare_from round_number total_rounds (i + 1) ps

unfoldable pub prepare_swiss_players : List PlayerPairingState → ℕ → ℕ → List SwissPlayer
unfolding prepare_from
prepare_swiss_players sorted_active round_number total_rounds =
    prepare_from round_number total_rounds 0 sorted_active

unfoldable pub contains : PlayerId → List PlayerId → Bool
contains id [] = false
contains id (x ∷ xs) = x == id || contains id xs

abbrev pub same_color : Option Color → Option Color → Bool
same_color none none = true
same_color (some c) (some d) = color_eq c d
same_color _ _ = false

unfoldable pub can_meet : SwissPlayer → SwissPlayer → Bool
can_meet a b =
    if contains b.state.player_id a.state.opponent_ids
    then false
    else if not a.is_topscorer
        && not b.is_topscorer
        && is_absolute a.pref.strength
        && is_absolute b.pref.strength
        && same_color a.pref.color b.pref.color
    then false
    else true

abbrev pub to_allocation_side : SwissPlayer → ColorAllocationSide
to_allocation_side p = record {
  pref = p.pref;
  color_diff = p.color_diff;
  history = p.state.color_history;
  rank_index = p.rank_index;
  pairing_number = p.state.pairing_number;
}

pub record ColorOutcomeFlags : Type 0 where
  pub exceeds_color_diff : Bool
  pub three_in_a_row : Bool

unfoldable pub color_outcome_flags : SwissPlayer → Color → ColorOutcomeFlags
color_outcome_flags p received =
    let new_cd = p.color_diff +ℤ color_weight received in
    let h = p.state.color_history in
    record {
      exceeds_color_diff = ltb 2 (magnitude new_cd);
      three_in_a_row =
          is_some_color (from_end h 1) received && is_some_color (from_end h 2) received;
    }
