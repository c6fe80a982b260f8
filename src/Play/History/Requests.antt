-- ===== src/Play/History/Requests.antt =====
-- play.service.ts: the operations are made of steps of the history.
use mathlib.Core.Path.{subst}
use farzin.Prelude.{
  ℕ, ◌+◌, ◌≡◌, refl, ap, ◌∙◌, ◌⊎◌, inl, inr, arith, Bool, true, false, not, Option, none, some,
  Result, ok, throw_if, >>=-eq-ok, Bool-cases, ok-injective, if◌then◌else◌, leb, ◌==◌,
}
use farzin.Prelude.Int.{ℤ, pos, ltb_ℤ, ◌-ℤ◌}
use farzin.Clock.{ClockSide, white, black, opposite, ClockState, remaining}
use farzin.Chess.{ChessJs}
use farzin.Play.Rows.{
  OnlineGameStatus, GameRow, MoveResult, GameEnded, PlayError, no_draw_offer, abort_window_closed,
  resignation, draw_agreed, aborted, abandoned,
}
use farzin.Play.Store.{World, is_active, find_game, is_present}
use farzin.Play.Timers.{grace_ms_for}
use farzin.Play.Service.{
  require_finished, finish_no_move, finish_by_timeout, ClaimTimeoutResult, FlagCheckResult, clocked,
  load_state, clock_config,
}
use farzin.Play.Moves.{plan_move, make_move}
use farzin.Play.Actions.{
  require_active_player, offer_draw, resign, accept_draw, abort, claim_timeout, check_flag,
  abandon_after_disconnect, sweep_gone, is_offered, abandon_found, sweep_found, check_found,
  check_active_flag, claim_active, check_mover, claim_against, check_answer, claim_answer,
  out_of_time, grace_sweep_slack_ms,
}
use farzin.Play.History.{Later, Step, now, step, moves, ends, times_out, writes, offers, unmarks}

-- One request, served with no other between its reading and its writing.
pub data Serves (js : ChessJs) (w t : World) : Type 0 where
  moving :
      {r : MoveResult} (user_id : ℕ) (me : Option ℕ) (uci : ℕ) (now_ms : ℤ)
      → make_move js w user_id me uci now_ms ≡ ok (t, r)
      → Serves js w t
  offering : {from : ClockSide} (me : Option ℕ) → offer_draw w me ≡ ok (t, from) → Serves js w t
  resigning :
      {e : GameEnded} (user_id : ℕ) (me : Option ℕ) (now_ms : ℤ)
      → resign js w user_id me now_ms ≡ ok (t, e)
      → Serves js w t
  agreeing :
      {e : GameEnded} (user_id : ℕ) (me : Option ℕ) (now_ms : ℤ)
      → accept_draw js w user_id me now_ms ≡ ok (t, e)
      → Serves js w t
  aborting :
      {e : GameEnded} (user_id : ℕ) (me : Option ℕ) (now_ms : ℤ)
      → abort js w user_id me now_ms ≡ ok (t, e)
      → Serves js w t
  claiming :
      {r : ClaimTimeoutResult} (user_id : ℕ) (me : Option ℕ) (now_ms : ℤ)
      → claim_timeout js w user_id me now_ms ≡ ok (t, r)
      → Serves js w t
  checking : {r : FlagCheckResult} (now_ms : ℤ) → check_flag js w now_ms ≡ ok (t, r) → Serves js w t
  sweeping :
      {e : Option GameEnded} (side : ClockSide) (at_ms : ℤ) (grace_override : Option ℕ) (now_ms : ℤ)
      → sweep_gone js w side at_ms grace_override now_ms ≡ ok (t, e)
      → Serves js w t
  abandoning :
      {e : Option GameEnded} (gone_side : ClockSide) (opponent_connected : Bool) (now_ms : ℤ)
      → abandon_after_disconnect js w gone_side opponent_connected now_ms ≡ ok (t, e)
      → Serves js w t

require_active_player-found :
    (w : World) (me : Option ℕ) {x : GameRow × ClockSide}
    → require_active_player w me ≡ ok x
    → find_game w ≡ some x.0
unfolding require_active_player
require_active_player-found w me h = ground arith

require_finished-ok :
    (r : World × Option GameEnded) {x : World × GameEnded}
    → require_finished r ≡ ok x
    → r ≡ (x.0, some x.1)
require_finished-ok (w, none) h = absurd (ground arith)
require_finished-ok (w, some e) h = ground arith

check_answer-world : (r : World × Option GameEnded) → r.0 ≡ (check_answer r).0
check_answer-world (w, none) = refl
check_answer-world (w, some e) = refl

claim_answer-world : (r : World × Option GameEnded) → r.0 ≡ (claim_answer r).0
claim_answer-world (w, none) = refl
claim_answer-world (w, some e) = refl

-- A branch that returns at once has returned its state.
early :
    {A : Type 0} {w t : World} {y : A} {r : Result PlayError (World × A)} (x : A) (test : Bool)
    → (if test then ok (w, x) else r) ≡ ok (t, y)
    → (w ≡ t) ⊎ (r ≡ ok (t, y))
early {A = A} x true h = inl (ap (λ (z : World × A). z.0) (ok-injective h))
early x false h = inr h

module _ (js : ChessJs) where
  served_end :
      (w : World) (g : GameRow) (status : OnlineGameStatus) (winner : Option ClockSide)
      (user_id : ℕ) (now_ms : ℤ) {r : World × Option GameEnded} {t : World} {e : GameEnded}
      → find_game w ≡ some g
      → is_active status ≡ false
      → finish_no_move js w g status winner (some user_id) now_ms ≡ ok r
      → require_finished r ≡ ok (t, e)
      → Later (Step js) w t
  served_end w g status winner user_id now_ms {r = r} found over finished required = step now now (
      ends status winner (some user_id) now_ms found over
        (finished ∙ ap ok (require_finished-ok r required)))

  stays : (w t : World) → w ≡ t → Later (Step js) w t
  stays w t h = subst (Later (Step js) w) h now

  check_mover-world :
      (w : World) (g : GameRow) (state : ClockState) (rem white_ms black_ms now_ms : ℤ)
      → (if ltb_ℤ (pos 0) rem
          then w
          else (finish_by_timeout js w g state.turn
              (out_of_time state state.turn white_ms black_ms)
              none
              now_ms).0)
        ≡ (check_mover js w g state rem white_ms black_ms now_ms).0
  check_mover-world w g state rem white_ms black_ms now_ms = elim (Bool-cases (ltb_ℤ (pos 0) rem)) [
    | inl left ↦ rw left refl
    | inr out ↦ rw out (check_answer-world _)
  ]

  claim_against-world :
      (w : World) (g : GameRow) (opponent : ClockSide) (state : ClockState) (rem : ℤ) (user_id : ℕ)
      (now_ms : ℤ)
      → (if ltb_ℤ (pos 0) rem
          then w
          else (finish_by_timeout js w g opponent
              (out_of_time state opponent state.white_remaining_ms state.black_remaining_ms)
              (some user_id)
              now_ms).0)
        ≡ (claim_against js w g opponent state rem user_id now_ms).0
  claim_against-world w g opponent state rem user_id now_ms =
      elim (Bool-cases (ltb_ℤ (pos 0) rem)) [
        | inl left ↦ rw left refl
        | inr out ↦ rw out (claim_answer-world _)
      ]

  -- A claim or a check leaves the state, or ends the game by the time of a side.
  claim_answer-Later :
      (w t : World) (g : GameRow) (loser : ClockSide) (clock : ClockState) (actor : Option ℕ)
      (now_ms : ℤ) (stays : Bool)
      → find_game w ≡ some g
      → (if stays then w else (finish_by_timeout js w g loser clock actor now_ms).0) ≡ t
      → Later (Step js) w t
  claim_answer-Later w t g loser clock actor now_ms true found h = subst (Later (Step js) w) h now
  claim_answer-Later w t g loser clock actor now_ms false found h =
      subst (Later (Step js) w) h (step now now (times_out loser clock actor now_ms found refl))

  abandon_found-Later :
      (w t : World) (side : ClockSide) (connected : Bool) (now_ms : ℤ) (o : Option GameRow)
      {e : Option GameEnded}
      → find_game w ≡ o
      → abandon_found js w side connected now_ms o ≡ ok (t, e)
      → Later (Step js) w t
  abandon_found-Later w t side connected now_ms none found h =
      stays w t (ap (λ (y : World × Option GameEnded). y.0) (ok-injective h))
  abandon_found-Later w t side connected now_ms (some g) found h =
      elim (early _ (not (is_active g.game.status)) h) [
        | inl same ↦ stays w t same
        | inr finished ↦ step now now (
            ends abandoned (if connected then some (opposite side) else none) none now_ms found refl
              finished)
      ]

  abandon-Later :
      (w t : World) (side : ClockSide) (connected : Bool) (now_ms : ℤ) {e : Option GameEnded}
      → abandon_after_disconnect js w side connected now_ms ≡ ok (t, e)
      → Later (Step js) w t
  unfolding abandon_after_disconnect
  abandon-Later w t side connected now_ms h =
      abandon_found-Later w t side connected now_ms (find_game w) refl h

  -- The sweeper clears the mark of a side that is back, or of a game that is over.
  sweep_found-Later :
      (w t : World) (side : ClockSide) (at_ms : ℤ) (grace_override : Option ℕ) (now_ms : ℤ)
      (o : Option GameRow) {e : Option GameEnded}
      → sweep_found js w side at_ms grace_override now_ms o ≡ ok (t, e)
      → Later (Step js) w t
  sweep_found-Later w t side at_ms grace_override now_ms none h =
      subst (Later (Step js) w) (ap (λ (y : World × Option GameEnded). y.0) (ok-injective h))
        (step now now (writes (unmarks side)))
  sweep_found-Later w t side at_ms grace_override now_ms (some g) h =
      elim (early _ (not (is_active g.game.status)) h) [
        | inl same ↦ subst (Later (Step js) w) same (step now now (writes (unmarks side)))
        | inr h' ↦
            elim (early _
              (ltb_ℤ (now_ms -ℤ at_ms)
                (pos (grace_ms_for g.game.time_category grace_override + grace_sweep_slack_ms)))
              h') [
                | inl same ↦ stays w t same
                | inr h'' ↦ elim (early _ (is_present w side) h'') [
                  | inl same ↦ subst (Later (Step js) w) same (step now now (writes (unmarks side)))
                  | inr h3 ↦
                      let ((u, _), ended, done) =
                        >>=-eq-ok
                          (abandon_after_disconnect js w side (is_present w (opposite side)) now_ms)
                          _ h3 in
                      subst (Later (Step js) w)
                        (ap (λ (y : World × Option GameEnded). y.0) (ok-injective done))
                        (step (abandon-Later w u side (is_present w (opposite side)) now_ms ended)
                          now (writes (unmarks side)))
                ]
              ]
      ]

  check_active-Later :
      (w t : World) (g : GameRow) (now_ms : ℤ) {r : FlagCheckResult}
      → find_game w ≡ some g
      → check_active_flag js w g now_ms ≡ ok (t, r)
      → Later (Step js) w t
  unfolding check_active_flag
  check_active-Later w t g now_ms found h =
      let state = load_state js w g now_ms in
      let config = clock_config g.game in
      let (rem, _, h') = >>=-eq-ok (clocked (remaining config state state.turn now_ms)) _ h in
      let (white_ms, _, h'') = >>=-eq-ok (clocked (remaining config state white now_ms)) _ h' in
      let (black_ms, _, h3) = >>=-eq-ok (clocked (remaining config state black now_ms)) _ h'' in
      claim_answer-Later w t g state.turn (out_of_time state state.turn white_ms black_ms) none
        now_ms (ltb_ℤ (pos 0) rem) found
        (check_mover-world w g state rem white_ms black_ms now_ms
          ∙ ap (λ (y : World × FlagCheckResult). y.0) (ok-injective h3))

  check_found-Later :
      (w t : World) (now_ms : ℤ) (o : Option GameRow) {r : FlagCheckResult}
      → find_game w ≡ o
      → check_found js w now_ms o ≡ ok (t, r)
      → Later (Step js) w t
  check_found-Later w t now_ms none found h =
      stays w t (ap (λ (y : World × FlagCheckResult). y.0) (ok-injective h))
  check_found-Later w t now_ms (some g) found h = elim (early _ (not (is_active g.game.status)) h) [
    | inl same ↦ stays w t same
    | inr h' ↦ elim (early _ (g.ply_count == 0) h') [
      | inl same ↦ stays w t same
      | inr h'' ↦ check_active-Later w t g now_ms found h''
    ]
  ]

  claim-Later :
      (w t : World) (g : GameRow) (side : ClockSide) (user_id : ℕ) (now_ms : ℤ)
      {r : ClaimTimeoutResult}
      → find_game w ≡ some g
      → claim_active js w g side user_id now_ms ≡ ok (t, r)
      → Later (Step js) w t
  claim-Later w t g side user_id now_ms found h =
      let state = load_state js w g now_ms in
      let opponent = opposite side in
      elim (early _ (g.ply_count == 0) h) [
        | inl same ↦ stays w t same
        | inr h' ↦
            let (rem, _, done) =
              >>=-eq-ok (clocked (remaining (clock_config g.game) state opponent now_ms)) _ h' in
            claim_answer-Later w t g opponent
              (out_of_time state opponent state.white_remaining_ms state.black_remaining_ms)
              (some user_id) now_ms (ltb_ℤ (pos 0) rem) found
              (claim_against-world w g opponent state rem user_id now_ms
                ∙ ap (λ (y : World × ClaimTimeoutResult). y.0) (ok-injective done))
      ]

  -- An operation of the service that is served with no other request between is made of the steps of the
  -- history.
  pub Serves-Later : (w t : World) → Serves js w t → Later (Step js) w t
  unfolding make_move offer_draw resign accept_draw abort claim_timeout check_flag sweep_gone
  Serves-Later w t (moving user_id me uci now_ms h) =
      let (plan, planned, done) = >>=-eq-ok (plan_move js w me uci now_ms) _ h in
      step now now (moves me uci now_ms user_id now_ms planned done)
  Serves-Later w t (offering me h) =
      let (x, _, h') = >>=-eq-ok (require_active_player w me) _ h in
      subst (Later (Step js) w) (ap (λ (y : World × ClockSide). y.0) (ok-injective h'))
        (step now now (writes (offers x.1)))
  Serves-Later w t (resigning user_id me now_ms h) =
      let (x, found, h') = >>=-eq-ok (require_active_player w me) _ h in
      let (r, finished, h'') =
        >>=-eq-ok (finish_no_move js w x.0 resignation (some (opposite x.1)) (some user_id) now_ms)
          _ h' in
      served_end w x.0 resignation (some (opposite x.1)) user_id now_ms
        (require_active_player-found w me found) refl finished h''
  Serves-Later w t (agreeing user_id me now_ms h) =
      let (x, found, h') = >>=-eq-ok (require_active_player w me) _ h in
      let (_, _, h'') =
        >>=-eq-ok (throw_if (not (is_offered w.draw_offer x.1)) no_draw_offer) _ h' in
      let (r, finished, h3) =
        >>=-eq-ok (finish_no_move js w x.0 draw_agreed none (some user_id) now_ms) _ h'' in
      served_end w x.0 draw_agreed none user_id now_ms (require_active_player-found w me found) refl
        finished h3
  Serves-Later w t (aborting user_id me now_ms h) =
      let (x, found, h') = >>=-eq-ok (require_active_player w me) _ h in
      let (_, _, h'') = >>=-eq-ok (throw_if (leb 2 x.0.ply_count) abort_window_closed) _ h' in
      let (r, finished, h3) =
        >>=-eq-ok (finish_no_move js w x.0 aborted none (some user_id) now_ms) _ h'' in
      served_end w x.0 aborted none user_id now_ms (require_active_player-found w me found) refl
        finished h3
  Serves-Later w t (abandoning side connected now_ms h) = abandon-Later w t side connected now_ms h
  Serves-Later w t (claiming user_id me now_ms h) =
      let (x, found, h') = >>=-eq-ok (require_active_player w me) _ h in
      claim-Later w t x.0 x.1 user_id now_ms (require_active_player-found w me found) h'
  Serves-Later w t (checking now_ms h) = check_found-Later w t now_ms (find_game w) refl h
  Serves-Later w t (sweeping side at_ms grace_override now_ms h) =
      sweep_found-Later w t side at_ms grace_override now_ms (find_game w) h
