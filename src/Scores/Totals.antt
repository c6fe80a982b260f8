-- ===== src/Scores/Totals.antt =====
-- result-mapping.ts: the numbers of a score view agree with each other, and those of two opponents.
use farzin.Prelude.{
  ℕ, suc, ◌+◌, ◌*◌, ◌≤◌, ◌≡◌, refl, arith, Bool, true, false, Option, none, some, Option-cases, inl,
  inr, List, [], ◌∷◌, length, if◌then◌else◌,
}
use farzin.Tiebreak.{GameColor, white, black, GameRecord}
use farzin.Tiebreak.Formulas.{result2}
use farzin.Tiebreak.Formulas.Progressive.{score2}
use farzin.Scores.{
  PairingResultValue, PairingHistoryEntry, ParticipantScoreView, SideOutcome, build_score_views,
  views_of, sort_entries, score_view, add_entry, add_game, side_of_entry, outcome_for, opponent_of,
}

-- The games that were played over the board.
abbrev pub board_games : List GameRecord → ℕ
board_games [] = 0
board_games (g ∷ gs) = let rest = board_games gs in if g.played_over_board then suc rest else rest

-- The numbers of a view agree.
pub record IsConsistent (v : ParticipantScoreView) : Type 0 where
  pub points_of_results : v.points ≡ 2 * v.wins + v.draws
  pub points_of_games : v.points ≡ score2 v.games
  pub all_counted : v.games_played ≡ v.wins + v.draws + v.losses
  pub games_counted : v.games_played ≡ length v.games
  pub colors_of_games : length v.color_history ≡ board_games v.games

abbrev pub AllConsistent : List ParticipantScoreView → Type 0
AllConsistent [] = Unit
AllConsistent (v ∷ vs) = IsConsistent v × AllConsistent vs

add_game-IsConsistent :
    (opponent : Option ℕ) (side : GameColor) (o : SideOutcome) (v : ParticipantScoreView)
    → IsConsistent v
    → IsConsistent (add_game opponent side o v)
unfolding add_game
add_game-IsConsistent opponent side o v c = ground arith

add_entry-IsConsistent :
    (e : PairingHistoryEntry) (side : Option GameColor) (v : ParticipantScoreView)
    → IsConsistent v
    → IsConsistent (add_entry e side v)
unfolding add_entry
add_entry-IsConsistent e none v c = c
add_entry-IsConsistent e (some side) v c = elim (Option-cases (outcome_for e.result side)) [
  | inl none_yet ↦ rw (add_entry, none_yet) c
  | inr (o, found) ↦ rw (add_entry, found) (add_game-IsConsistent (opponent_of e side) side o v c)
]

score_view-IsConsistent : (id : ℕ) (es : List PairingHistoryEntry) → IsConsistent (score_view id es)
unfolding score_view
score_view-IsConsistent id [] = record {
  points_of_results = refl;
  points_of_games = refl;
  all_counted = refl;
  games_counted = refl;
  colors_of_games = refl;
}
score_view-IsConsistent id (e ∷ es) =
    add_entry-IsConsistent e (side_of_entry e id) (score_view id es) (score_view-IsConsistent id es)

views-AllConsistent :
    (ids : List ℕ) (es : List PairingHistoryEntry) → AllConsistent (views_of ids es)
unfolding views_of
views-AllConsistent [] es = tt
views-AllConsistent (id ∷ ids) es = (score_view-IsConsistent id es, views-AllConsistent ids es)

-- In every view that `buildScoreViews` gives the numbers agree: the points are two half-points for
-- each win and one for each draw, and they are the sum of the results of the view's games; wins,
-- draws and losses are all the games; and there is a colour for each game played over the board.
pub build_score_views-AllConsistent :
    (ids : List ℕ) (history : List PairingHistoryEntry)
    → AllConsistent (build_score_views ids history)
unfolding build_score_views
build_score_views-AllConsistent ids history = views-AllConsistent ids (sort_entries history)

-- The half-points that a result gives to a side.
abbrev pub points_for : PairingResultValue → GameColor → ℕ
points_for r side = elim (outcome_for r side) [ none ↦ 0 | some o ↦ result2 o.score ]

abbrev pub is_played : PairingResultValue → GameColor → Bool
is_played r side = elim (outcome_for r side) [ none ↦ false | some o ↦ o.played_over_board ]

-- The two sides of a result share at most one point, and exactly one if it was played over the board,
-- which it was for both sides or for neither.
outcome_for-shared :
    (r : PairingResultValue)
    → (points_for r white + points_for r black ≤ 2)
      × (is_played r white ≡ is_played r black)
      × (is_played r white ≡ true → points_for r white + points_for r black ≡ 2)
unfolding outcome_for
outcome_for-shared r = ground arith
