-- ===== src/Tiebreak/Formulas/Progressive.antt =====
-- tiebreak.calculator.ts: the cumulative score, and the bounds of the other sums by the score.
use farzin.Prelude.{
  ℕ, suc, ◌+◌, ◌*◌, ◌≤◌, ◌≡◌, arith, Option, none, some, List, [], ◌∷◌, leb, length, if◌then◌else◌,
}
use farzin.Tiebreak.{GameRecord, GameScore, loss, half, win, PlayerTieBreakInput, TieBreakContext}
use farzin.Tiebreak.Formulas.{
  result2, cumulative_from, cumulative2, koya_from, koya2, scored_against, board_opponent,
  opponent_points2, sonneborn_berger_from, sonneborn_berger4, wins_from, wins_of, is_win_against,
}

-- The half-points of the games.
abbrev pub score2 : List GameRecord → ℕ
score2 [] = 0
score2 (g ∷ gs) = result2 g.result + score2 gs

-- Each result counts once for its round and once for each later one.
abbrev pub weighted : List GameRecord → ℕ
weighted [] = 0
weighted (g ∷ gs) = result2 g.result * suc (length gs) + weighted gs

cumulative_from_lem :
    (running total : ℕ) (gs : List GameRecord)
    → cumulative_from running total gs ≡ total + running * length gs + weighted gs
unfolding cumulative_from
cumulative_from_lem running total [] = omega arith
cumulative_from_lem running total (g ∷ gs) = omega (
  arith,
  cumulative_from_lem (running + result2 g.result) (total + (running + result2 g.result)) gs,
)

-- The cumulative tie-break, the sum of the running scores, is the sum of the results, each one
-- weighted with the number of rounds from its own to the last.
cumulative2-weighted : (p : PlayerTieBreakInput) → cumulative2 p ≡ weighted p.games
unfolding cumulative2
cumulative2-weighted p = omega (arith, cumulative_from_lem 0 0 p.games)

koya_step :
    (ctx : TieBreakContext) (r : GameScore) (o : Option ℕ)
    → scored_against (λ o. if leb ctx.total_rounds (opponent_points2 o ctx) then result2 r else 0) o
      ≤ result2 r
koya_step ctx r none = omega arith
koya_step ctx r (some o) = ground arith

koya_from_le :
    (ctx : TieBreakContext) (total : ℕ) (gs : List GameRecord)
    → koya_from ctx total gs ≤ total + score2 gs
unfolding koya_from
koya_from_le ctx total [] = omega arith
koya_from_le ctx total (g ∷ gs) =
    let o = board_opponent g.opponent_id g.played_over_board in
    let gain =
      scored_against
        (λ o. if leb ctx.total_rounds (opponent_points2 o ctx) then result2 g.result else 0) o in
    omega (arith, koya_from_le ctx (total + gain) gs, koya_step ctx g.result o)

berger_step :
    (ctx : TieBreakContext) (m : ℕ) (r : GameScore) (o : Option ℕ)
    → ((id : ℕ) → opponent_points2 id ctx ≤ m)
    → scored_against (λ o. opponent_points2 o ctx * result2 r) o ≤ m * result2 r
berger_step ctx m r none known = omega arith
berger_step ctx m loss (some o) known = omega arith
berger_step ctx m half (some o) known = omega (arith, known o)
berger_step ctx m win (some o) known = omega (arith, known o)

berger_from_le :
    (ctx : TieBreakContext) (m total : ℕ) (gs : List GameRecord)
    → ((id : ℕ) → opponent_points2 id ctx ≤ m)
    → sonneborn_berger_from ctx total gs ≤ total + m * score2 gs
unfolding sonneborn_berger_from
berger_from_le ctx m total [] known = omega arith
berger_from_le ctx m total (g ∷ gs) known =
    let o = board_opponent g.opponent_id g.played_over_board in
    let gain = scored_against (λ o. opponent_points2 o ctx * result2 g.result) o in
    omega (arith, berger_from_le ctx m (total + gain) gs known, berger_step ctx m g.result o known)

wins_step :
    (r : GameScore) (o : Option ℕ) (count : ℕ)
    → 2 * (if is_win_against r o then suc count else count) ≤ 2 * count + result2 r
wins_step r o count = ground arith

wins_from_le : (count : ℕ) (gs : List GameRecord) → 2 * wins_from count gs ≤ 2 * count + score2 gs
unfolding wins_from
wins_from_le count [] = omega arith
wins_from_le count (g ∷ gs) = omega (
  arith,
  wins_from_le (if is_win_against g.result g.opponent_id then suc count else count) gs,
  wins_step g.result g.opponent_id count,
)

-- The sums over some of the games stay within the player's own score: Koya is at most the score,
-- a win counts at most two half-points of it, and where no player has more than `m` half-points,
-- Sonneborn-Berger is at most `m` times the score.
sums-score2 :
    (p : PlayerTieBreakInput) (ctx : TieBreakContext) (m : ℕ)
    → ((id : ℕ) → opponent_points2 id ctx ≤ m)
    → (koya2 p ctx ≤ score2 p.games)
      × (2 * wins_of p ≤ score2 p.games)
      × (sonneborn_berger4 p ctx ≤ m * score2 p.games)
unfolding koya2 wins_of sonneborn_berger4
sums-score2 p ctx m known = (
  omega (arith, koya_from_le ctx 0 p.games),
  omega (arith, wins_from_le 0 p.games),
  omega (arith, berger_from_le ctx m 0 p.games known),
)
