-- ===== src/Scores.antt =====
-- From the results of the pairings to the scores of the players,
-- src/modules/arbiter/result-mapping.ts. Points are counted in halves, as in the tie-breaks.
pub mod Totals
use farzin.Prelude.{
  ℕ, suc, ◌+◌, Bool, true, false, Option, none, some, List, [], ◌∷◌, ◌==◌, leb, length,
  if◌then◌else◌,
}
use farzin.Tiebreak.{GameScore, loss, half, win, GameColor, white, black, GameRecord}
use farzin.Tiebreak.Formulas.{result2}

pub data PairingResultValue : Type 0 where
  white_win black_win drawn white_win_forfeit black_win_forfeit : PairingResultValue
  double_forfeit bye_full bye_half bye_zero unplayed : PairingResultValue

-- `PairingHistoryEntry`; the black id is missing in a bye.
pub record PairingHistoryEntry : Type 0 where
  pub round_number : ℕ
  pub white_registration_id : ℕ
  pub black_registration_id : Option ℕ
  pub result : PairingResultValue

pub record SideOutcome : Type 0 where
  pub score : GameScore
  pub played_over_board : Bool

-- The outcome of a game that was played, or forfeited.
abbrev pub outcome : GameScore → Bool → Option SideOutcome
outcome score played = some (record { score = score; played_over_board = played })

unfoldable pub outcome_for : PairingResultValue → GameColor → Option SideOutcome
outcome_for white_win white = outcome win true
outcome_for white_win black = outcome loss true
outcome_for black_win white = outcome loss true
outcome_for black_win black = outcome win true
outcome_for drawn side = outcome half true
outcome_for white_win_forfeit white = outcome win false
outcome_for white_win_forfeit black = outcome loss false
outcome_for black_win_forfeit white = outcome loss false
outcome_for black_win_forfeit black = outcome win false
outcome_for double_forfeit side = outcome loss false
outcome_for bye_full white = outcome win false
outcome_for bye_half white = outcome half false
outcome_for bye_zero white = outcome loss false
outcome_for _ _ = none

abbrev pub is_id : Option ℕ → ℕ → Bool
is_id none id = false
is_id (some x) id = x == id

unfoldable pub side_of_entry : PairingHistoryEntry → ℕ → Option GameColor
side_of_entry entry id =
    if entry.white_registration_id == id
    then some white
    else if is_id entry.black_registration_id id
    then some black
    else none

-- The variables of the loop, as the view has them at its end. The lists are in the order of the
-- rounds.
pub record ParticipantScoreView : Type 0 where
  pub registration_id : ℕ
  pub points : ℕ
  pub wins : ℕ
  pub draws : ℕ
  pub losses : ℕ
  pub games_played : ℕ
  pub color_history : List GameColor
  pub games : List GameRecord

abbrev pub no_score : ℕ → ParticipantScoreView
no_score id = record {
  registration_id = id;
  points = 0;
  wins = 0;
  draws = 0;
  losses = 0;
  games_played = 0;
  color_history = [];
  games = [];
}

abbrev pub opponent_of : PairingHistoryEntry → GameColor → Option ℕ
opponent_of entry white = entry.black_registration_id
opponent_of entry black = some entry.white_registration_id

-- The end of the loop's body: the view of the later entries, with this game in front.
unfoldable pub add_game :
    Option ℕ → GameColor → SideOutcome → ParticipantScoreView → ParticipantScoreView
add_game opponent side o rest = record {
  registration_id = rest.registration_id;
  points = result2 o.score + rest.points;
  wins = elim o.score [ win ↦ suc rest.wins | _ ↦ rest.wins ];
  draws = elim o.score [ half ↦ suc rest.draws | _ ↦ rest.draws ];
  losses = elim o.score [ loss ↦ suc rest.losses | _ ↦ rest.losses ];
  games_played = suc rest.games_played;
  color_history = if o.played_over_board then side ∷ rest.color_history else rest.color_history;
  games =
      record {
        opponent_id = opponent;
        color = if o.played_over_board then some side else none;
        result = o.score;
        played_over_board = o.played_over_board;
      }
      ∷ rest.games;
}

-- The body of the loop: an entry without the player, or not yet played, is passed over.
unfoldable pub add_entry :
    PairingHistoryEntry → Option GameColor → ParticipantScoreView → ParticipantScoreView
add_entry entry none rest = rest
add_entry entry (some side) rest = elim (outcome_for entry.result side) [
  | none ↦ rest
  | some o ↦ add_game (opponent_of entry side) side o rest
]

unfoldable pub score_view : ℕ → List PairingHistoryEntry → ParticipantScoreView
score_view id [] = no_score id
score_view id (e ∷ es) = add_entry e (side_of_entry e id) (score_view id es)

-- The stable sort by the number of the round.
unfoldable pub insert_entry :
    PairingHistoryEntry → List PairingHistoryEntry → List PairingHistoryEntry
insert_entry e [] = e ∷ []
insert_entry e (f ∷ fs) =
    let rest = insert_entry e fs in
    if leb e.round_number f.round_number then e ∷ f ∷ fs else f ∷ rest

unfoldable pub sort_entries : List PairingHistoryEntry → List PairingHistoryEntry
sort_entries [] = []
sort_entries (e ∷ es) = insert_entry e (sort_entries es)

unfoldable pub views_of : List ℕ → List PairingHistoryEntry → List ParticipantScoreView
views_of [] sorted = []
views_of (id ∷ ids) sorted = score_view id sorted ∷ views_of ids sorted

unfoldable pub build_score_views : List ℕ → List PairingHistoryEntry → List ParticipantScoreView
build_score_views ids history = views_of ids (sort_entries history)
