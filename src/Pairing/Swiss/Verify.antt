-- ===== src/Pairing/Swiss/Verify.antt =====
-- The check that the engine makes of its own result, src/core/pairing/swiss/verify.ts. The set of
-- ids that were seen is a list; the text of an error is left out.
pub mod Coverage
use farzin.Prelude.{
  ℕ, ◌≡◌, Bool, true, false, not, ◌&&◌, ◌||◌, Option, none, some, List, [], ◌∷◌, if◌then◌else◌,
  ◌==◌, length, Result, ok, err, ◌>>=◌, ◌>>◌, throw_if,
}
use farzin.Pairing.{PlayerId, Color, white, black}
use farzin.Pairing.Swiss.Players.{SwissPlayer, contains, color_outcome_flags}

pub data PairingCriterion : Type 0 where
  c1_repeat c2_bye c3_color coverage : PairingCriterion

pub record ColoredPair : Type 0 where
  pub white_player : SwissPlayer
  pub black_player : SwissPlayer

-- `take`: the ids that were seen, with this one.
unfoldable pub take_player : SwissPlayer → List PlayerId → Result PairingCriterion (List PlayerId)
take_player p seen = do
  throw_if (contains p.state.player_id seen) coverage
  ok (p.state.player_id ∷ seen)

unfoldable pub have_met : SwissPlayer → SwissPlayer → Bool
have_met w b =
    contains b.state.player_id w.state.opponent_ids
    || contains w.state.player_id b.state.opponent_ids

unfoldable pub check_color : SwissPlayer → Color → Result PairingCriterion (Unit {0})
check_color p got = do
  let flags = color_outcome_flags p got
  throw_if flags.exceeds_color_diff c3_color
  throw_if flags.three_in_a_row c3_color

-- The body of the loop over the pairs.
unfoldable pub verify_pair : ColoredPair → List PlayerId → Result PairingCriterion (List PlayerId)
unfolding take_player have_met check_color
verify_pair pair seen = do
  let w = pair.white_player
  let b = pair.black_player
  seen' ← take_player w seen
  seen'' ← take_player b seen'
  throw_if (have_met w b) c1_repeat
  if w.is_topscorer || b.is_topscorer then ok tt else (do check_color w white; check_color b black)
  ok seen''

unfoldable pub verify_pairs :
    List ColoredPair → List PlayerId → Result PairingCriterion (List PlayerId)
unfolding verify_pair
verify_pairs [] seen = ok seen
verify_pairs (p ∷ ps) seen = do seen' ← verify_pair p seen; verify_pairs ps seen'

unfoldable pub verify_pab :
    Option SwissPlayer → List PlayerId → Result PairingCriterion (List PlayerId)
unfolding take_player
verify_pab none seen = ok seen
verify_pab (some p) seen = do
  seen' ← take_player p seen
  throw_if (not p.pab_eligible) c2_bye
  ok seen'

unfoldable pub verify_seen : List SwissPlayer → List PlayerId → Result PairingCriterion (Unit {0})
verify_seen [] seen = ok tt
verify_seen (p ∷ ps) seen = do
  throw_if (not (contains p.state.player_id seen)) coverage
  verify_seen ps seen

unfoldable pub verify_absolute_criteria :
    List SwissPlayer → List ColoredPair → Option SwissPlayer → Result PairingCriterion (Unit {0})
unfolding verify_pairs verify_pab verify_seen
verify_absolute_criteria active pairs pab = do
  paired ← verify_pairs pairs []
  seen ← verify_pab pab paired
  throw_if (not (length seen == length active)) coverage
  verify_seen active seen
