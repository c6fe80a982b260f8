-- ===== src/Tiebreak.antt =====
-- Tie-breaks, src/core/tiebreak: the input of the calculator (tiebreak.types.ts) and the context that it
-- builds of it (tiebreak.calculator.ts). Points are counted in halves, as the code does inside.
-- Players are given by the numbers of their ids, in the order of the ids.
pub mod Context
pub mod Formulas
use farzin.Prelude.{
  ℕ, Bool, true, false, not, ◌&&◌, ◌||◌, Option, none, some, List, [], ◌∷◌, Result, ok, err, ◌>>=◌,
  ◌>>◌, throw_if, ◌==◌, ltb, length, if◌then◌else◌,
}

pub data TieBreakKey : Type 0 where
  buchholz buchholz_cut1 median_buchholz sonneborn_berger direct_encounter : TieBreakKey
  cumulative aro koya wins black_games : TieBreakKey

pub data GameColor : Type 0 where
  white black : GameColor

-- `GameScore`: 0, 0.5 and 1.
pub data GameScore : Type 0 where
  loss half win : GameScore

pub record GameRecord : Type 0 where
  pub opponent_id : Option ℕ
  pub color : Option GameColor
  pub result : GameScore
  pub played_over_board : Bool

-- A number of points, as far as `toHalfPoints` tells numbers apart: a number of halves, or another.
pub data Points : Type 0 where
  halves : ℕ → Points
  uneven : Points

pub record PlayerTieBreakInput : Type 0 where
  pub player_id : ℕ
  pub points : Points
  pub rating : Option ℕ
  pub games : List GameRecord

-- `TieBreakDataError`, by its reason.
pub data TieBreakDataError : Type 0 where
  duplicate_player uneven_points no_opponent unknown_opponent : TieBreakDataError

unfoldable pub to_half_points : Points → Result TieBreakDataError ℕ
to_half_points (halves n) = ok n
to_half_points uneven = err uneven_points

-- `points2` is a map from the ids; here, a list of pairs. `byId` only serves to look a player up.
pub record TieBreakContext : Type 0 where
  pub players : List PlayerTieBreakInput
  pub points2 : List (ℕ × ℕ)
  pub total_rounds : ℕ

abbrev pub has_id : ℕ → List PlayerTieBreakInput → Bool
has_id id [] = false
has_id id (p ∷ ps) = p.player_id == id || has_id id ps

-- `points2.get(id) ?? 0`.
abbrev pub points_at : ℕ → List (ℕ × ℕ) → ℕ
points_at id [] = 0
points_at id ((k, v) ∷ rest) = let later = points_at id rest in if k == id then v else later

-- The first loop of `buildContext`; `seen` are the players before.
unfoldable pub enter_players :
    List PlayerTieBreakInput
    → List PlayerTieBreakInput
    → ℕ
    → Result TieBreakDataError (List (ℕ × ℕ) × ℕ)
enter_players seen [] rounds = ok ([], rounds)
enter_players seen (p ∷ ps) rounds = do
  throw_if (has_id p.player_id seen) duplicate_player
  points ← to_half_points p.points
  let longest = if ltb rounds (length p.games) then length p.games else rounds
  (rest, total) ← enter_players (p ∷ seen) ps longest
  ok ((p.player_id, points) ∷ rest, total)

abbrev pub is_known : Option ℕ → List PlayerTieBreakInput → Bool
is_known none players = true
is_known (some o) players = has_id o players

abbrev pub is_null : Option ℕ → Bool
is_null none = true
is_null (some o) = false

unfoldable pub check_games :
    List PlayerTieBreakInput → List GameRecord → Result TieBreakDataError (Unit {0})
check_games players [] = ok tt
check_games players (g ∷ gs) =
    throw_if (g.played_over_board && is_null g.opponent_id) no_opponent
    >> throw_if (not (is_known g.opponent_id players)) unknown_opponent
    >> check_games players gs

-- The second loop of `buildContext`.
unfoldable pub check_players :
    List PlayerTieBreakInput → List PlayerTieBreakInput → Result TieBreakDataError (Unit {0})
check_players players [] = ok tt
check_players players (p ∷ ps) = check_games players p.games >> check_players players ps

unfoldable pub build_context : List PlayerTieBreakInput → Result TieBreakDataError TieBreakContext
build_context players = do
  (points2, rounds) ← enter_players [] players 0
  check_players players players
  ok (record { players = players; points2 = points2; total_rounds = rounds })
