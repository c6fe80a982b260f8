-- ===== src/Tiebreak/Formulas.antt =====
-- tiebreak.calculator.ts: the formulas for one player.
pub mod Buchholz
pub mod Progressive
use farzin.Prelude.{
  ℕ, zero, suc, ◌+◌, ◌-◌, ◌*◌, Bool, true, false, not, ◌&&◌, ◌||◌, Option, none, some, List, [],
  ◌∷◌, ◌==◌, leb, ltb, length, drop, take, if◌then◌else◌,
}
use farzin.Tiebreak.{
  GameRecord, GameScore, loss, half, win, GameColor, black, PlayerTieBreakInput, TieBreakContext,
  points_at,
}

-- `result2`, of the result.
abbrev pub result2 : GameScore → ℕ
result2 loss = 0
result2 half = 1
result2 win = 2

abbrev pub opponent_points2 : ℕ → TieBreakContext → ℕ
opponent_points2 id ctx = points_at id ctx.points2

-- What a game adds to Buchholz: the points of a real opponent, or of the virtual one. `before` are
-- the points before the game and `round` is its number.
unfoldable pub buchholz_contribution : TieBreakContext → ℕ → ℕ → GameScore → Option ℕ → Bool → ℕ
buchholz_contribution ctx before round result (some o) true = opponent_points2 o ctx
buchholz_contribution ctx before round result _ _ =
    before + (2 - result2 result) + (ctx.total_rounds - round)

-- The loop, at the round after `i` and with the points `before`.
unfoldable pub contributions_from : TieBreakContext → ℕ → ℕ → List GameRecord → List ℕ
contributions_from ctx i before [] = []
contributions_from ctx i before (g ∷ gs) =
    buchholz_contribution ctx before (suc i) g.result g.opponent_id g.played_over_board
    ∷ contributions_from ctx (suc i) (before + result2 g.result) gs

unfoldable pub buchholz_contributions2 : PlayerTieBreakInput → TieBreakContext → List ℕ
buchholz_contributions2 p ctx = contributions_from ctx 0 0 p.games

abbrev pub sum : List ℕ → ℕ
sum [] = 0
sum (x ∷ xs) = x + sum xs

-- `sort((a, b) => a - b)`.
unfoldable pub insert : ℕ → List ℕ → List ℕ
insert x [] = x ∷ []
insert x (y ∷ ys) = let rest = insert x ys in if leb x y then x ∷ y ∷ ys else y ∷ rest

unfoldable pub sort_ascending : List ℕ → List ℕ
sort_ascending [] = []
sort_ascending (x ∷ xs) = insert x (sort_ascending xs)

-- The loop adds the values from `cutLow` up to `length - cutHigh`.
unfoldable pub buchholz_cut : List ℕ → ℕ → ℕ → ℕ
buchholz_cut contributions cut_low cut_high =
    if leb (length contributions) (cut_low + cut_high)
    then 0
    else sum (drop cut_low (take (length contributions - cut_high) (sort_ascending contributions)))

-- `opponentId` of a game over the board, as far as there is one.
abbrev pub board_opponent : Option ℕ → Bool → Option ℕ
board_opponent (some o) true = some o
board_opponent _ _ = none

abbrev pub scored_against : (ℕ → ℕ) → Option ℕ → ℕ
scored_against f none = 0
scored_against f (some o) = f o

unfoldable pub sonneborn_berger_from : TieBreakContext → ℕ → List GameRecord → ℕ
sonneborn_berger_from ctx total [] = total
sonneborn_berger_from ctx total (g ∷ gs) =
    sonneborn_berger_from ctx
      (total
        + scored_against (λ o. opponent_points2 o ctx * result2 g.result)
            (board_opponent g.opponent_id g.played_over_board))
      gs

unfoldable pub sonneborn_berger4 : PlayerTieBreakInput → TieBreakContext → ℕ
sonneborn_berger4 p ctx = sonneborn_berger_from ctx 0 p.games

-- The loop, with the variables `running2` and `total2`.
unfoldable pub cumulative_from : ℕ → ℕ → List GameRecord → ℕ
cumulative_from running total [] = total
cumulative_from running total (g ∷ gs) =
    cumulative_from (running + result2 g.result) (total + (running + result2 g.result)) gs

unfoldable pub cumulative2 : PlayerTieBreakInput → ℕ
cumulative2 p = cumulative_from 0 0 p.games

unfoldable pub koya_from : TieBreakContext → ℕ → List GameRecord → ℕ
koya_from ctx total [] = total
koya_from ctx total (g ∷ gs) =
    koya_from ctx
      (total
        + scored_against
            (λ o. if leb ctx.total_rounds (opponent_points2 o ctx) then result2 g.result else 0)
            (board_opponent g.opponent_id g.played_over_board))
      gs

unfoldable pub koya2 : PlayerTieBreakInput → TieBreakContext → ℕ
koya2 p ctx = koya_from ctx 0 p.games

abbrev pub is_win_against : GameScore → Option ℕ → Bool
is_win_against win (some o) = true
is_win_against _ _ = false

abbrev pub is_black : Option GameColor → Bool
is_black (some black) = true
is_black _ = false

unfoldable pub wins_from : ℕ → List GameRecord → ℕ
wins_from count [] = count
wins_from count (g ∷ gs) =
    wins_from (if is_win_against g.result g.opponent_id then suc count else count) gs

unfoldable pub wins_of : PlayerTieBreakInput → ℕ
wins_of p = wins_from 0 p.games

unfoldable pub black_games_from : ℕ → List GameRecord → ℕ
black_games_from count [] = count
black_games_from count (g ∷ gs) =
    black_games_from (if g.played_over_board && is_black g.color then suc count else count) gs

unfoldable pub black_games_of : PlayerTieBreakInput → ℕ
black_games_of p = black_games_from 0 p.games
