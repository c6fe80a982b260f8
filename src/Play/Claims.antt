-- ===== src/Play/Claims.antt =====
-- play.service.ts: the time that is claimed, and the draw that is accepted.
use mathlib.Core.Path.{subst}
use farzin.Prelude.{
  ℕ, ◌≡◌, ◌≢◌, refl, sym, ap, ◌⊎◌, inl, inr, arith, true, false, not, Option, none, some, Result,
  ok, err, throw_if, >>=-eq-ok, Bool-cases, Option-cases, ok-injective, ◌==◌, not_both, length,
}
use farzin.Prelude.Int.{ℤ, pos, ltb_ℤ}
use farzin.Clock.{ClockSide, white, black, opposite, ClockState, ClockError, remaining}
use farzin.Chess.{ChessJs, Fen, Uci, has_mating_material}
use farzin.Play.Rows.{
  OnlineGame, GameRow, GameEnded, MoveMade, MoveResult, made, no_draw_offer, PlayError,
  OnlineGameStatus, timeout, timeout_vs_insufficient_material,
}
use farzin.Play.Store.{
  World, is_active, find_game, append_move, finish_game, to_game_row, with_finish,
}
use farzin.Play.Service.{
  clock_config, clocked, load_state, finish_by_timeout, FlagCheckResult, ended, MovePlan, refuse,
  flag_fall, persist, PlannedMove, after_append, after_append_as, row_of, finish_of, timeout_status,
  timeout_winner, finish_input,
}
use farzin.Play.Moves.{make_move, plan_move, commit_move, after_try}
use farzin.Play.Actions.{require_active_player, accept_draw, is_offered, check_answer}

-- How the game is decided when the flag of `loser` falls: the other side wins if it has the material to
-- mate, and else the game is drawn.
abbrev pub IsLostOnTime : ChessJs → Fen → ClockSide → OnlineGameStatus → Option ClockSide → Type 0
IsLostOnTime js fen white status winner =
    ((has_mating_material js fen black ≡ true) × (status ≡ timeout) × (winner ≡ some black))
    ⊎ ((has_mating_material js fen black ≡ false)
        × (status ≡ timeout_vs_insufficient_material)
        × (winner ≡ none))
IsLostOnTime js fen black status winner =
    ((has_mating_material js fen white ≡ true) × (status ≡ timeout) × (winner ≡ some white))
    ⊎ ((has_mating_material js fen white ≡ false)
        × (status ≡ timeout_vs_insufficient_material)
        × (winner ≡ none))

-- The row of the game and the answer tell the same end, which is the loss on time of `loser`, and the
-- moves are as they were.
pub record EndsOnTime (js : ChessJs) (w t : World) (loser : ClockSide) (e : GameEnded)
    : Type 0 where
  pub before : OnlineGame
  pub after : OnlineGame
  pub was : w.game ≡ some before
  pub is : t.game ≡ some after
  pub fen : after.fen ≡ before.fen
  pub moves : t.moves ≡ w.moves
  pub status : e.status ≡ after.status
  pub winner : e.winner_color ≡ after.winner_color
  pub lost : IsLostOnTime js before.fen loser after.status after.winner_color

-- The check has found that the time of the side to move has run out, and the game has ended by that.
pub record TimeIsOver (js : ChessJs) (w t : World) (g : GameRow) (now_ms : ℤ) (e : GameEnded)
    : Type 0 where
  pub found : find_game w ≡ some g
  pub live : is_active g.game.status ≡ true
  pub started : (g.ply_count == 0) ≡ false
  pub left : ℤ
  pub reads :
      let state = load_state js w g now_ms in
      remaining (clock_config g.game) state state.turn now_ms ≡ ok left
  pub over : ltb_ℤ (pos 0) left ≡ false
  pub ending : EndsOnTime js w t (load_state js w g now_ms).turn e

pub clocked-ok : {A : Type 0} (r : Result ClockError A) {a : A} → clocked r ≡ ok a → r ≡ ok a
clocked-ok (err e) h = cc
clocked-ok (ok b) h = cc

offered-opposite :
    (o : Option ClockSide) (side : ClockSide) → is_offered o side ≡ true → o ≡ some (opposite side)
offered-opposite none side h = cc
offered-opposite (some white) white h = cc
offered-opposite (some white) black h = refl
offered-opposite (some black) white h = refl
offered-opposite (some black) black h = cc

find_game-some :
    (w : World) (g : GameRow)
    → find_game w ≡ some g
    → (x : OnlineGame) × (w.game ≡ some x) × (g ≡ to_game_row (length w.moves) x)
find_game-some w g h = elim (Option-cases w.game) [
  | inl gone ↦ absurd (ground (arith, gone))
  | inr (x, found) ↦ (x, found, ground (arith, found))
]

module _ (js : ChessJs) where
  lost_by :
      (g : GameRow) (loser : ClockSide)
      → IsLostOnTime js g.game.fen loser (timeout_status js g loser) (timeout_winner js g loser)
  lost_by g white = elim (Bool-cases (has_mating_material js g.game.fen black)) [
    | inl mates ↦ inl (mates, rw mates refl, rw mates refl)
    | inr bare ↦ inr (bare, rw bare refl, rw bare refl)
  ]
  lost_by g black = elim (Bool-cases (has_mating_material js g.game.fen white)) [
    | inl mates ↦ inl (mates, rw mates refl, rw mates refl)
    | inr bare ↦ inr (bare, rw bare refl, rw bare refl)
  ]

  pub timeout_answer :
      (w t : World) (g : GameRow) (loser : ClockSide) (clock : ClockState) (actor : Option ℕ)
      (now_ms : ℤ) {e : GameEnded}
      → find_game w ≡ some g
      → check_answer (finish_by_timeout js w g loser clock actor now_ms) ≡ (t, ended e)
      → EndsOnTime js w t loser e
  unfolding finish_by_timeout finish_game
  timeout_answer w t g loser clock actor now_ms found h =
      let (x, row, read) = find_game-some w g found in
      elim (Bool-cases (is_active x.status)) [
        | inr over ↦ absurd (ground (arith, row, over))
        | inl live ↦
            let done = rw (row, live) at h in
            let input =
              finish_input js w (timeout_status js g loser) (timeout_winner js g loser) clock
                actor in
            let world = ap (λ (y : World × FlagCheckResult). y.0) done in
            let same : g.game ≡ x = ap (λ (y : GameRow). y.game) read in
            record {
              before = x;
              after = with_finish input x;
              was = row;
              is = sym (ap (λ (y : World). y.game) world);
              fen = refl;
              moves = sym (ap (λ (y : World). y.moves) world);
              status = ground (arith, done);
              winner = ground (arith, done);
              lost =
                  subst
                    (λ (y : OnlineGame).
                      IsLostOnTime js y.fen loser (timeout_status js g loser)
                        (timeout_winner js g loser))
                    same (lost_by g loser);
            }
      ]

  append_withdraws :
      (w : World) (p : PlannedMove) (o : Option OnlineGameStatus)
      → (after_append_as p w o).draw_offer ≡ none
  append_withdraws w p none = refl
  append_withdraws w p (some status) = refl

  try_withdraws :
      (w t : World) (p : PlannedMove) (now_ms : ℤ) (tried : Result PlayError World) {m : MoveMade}
      {e : Option GameEnded}
      → after_try js w p now_ms tried ≡ ok (t, made m e)
      → t.draw_offer ≡ none
  unfolding after_append
  try_withdraws w t p now_ms (ok a) h =
      subst (λ (x : World). x.draw_offer ≡ none)
        (ap (λ (y : World × MoveResult). y.0) (ok-injective h)) (append_withdraws a p p.end_status)
  try_withdraws w t p now_ms (err e) h = absurd (ground arith)

  commit_withdraws :
      (w t : World) (plan : MovePlan) (user_id : ℕ) (now_ms : ℤ) {m : MoveMade}
      {e : Option GameEnded}
      → commit_move js w plan user_id now_ms ≡ ok (t, made m e)
      → t.draw_offer ≡ none
  unfolding commit_move
  commit_withdraws w t (refuse code fen) user_id now_ms h = absurd (ground arith)
  commit_withdraws w t (flag_fall g side state) user_id now_ms h = absurd (ground arith)
  commit_withdraws w t (persist p) user_id now_ms h =
      try_withdraws w t p now_ms (append_move w (row_of p) (finish_of p user_id)) h

  accept_offered :
      (w t : World) (user_id : ℕ) (me : Option ℕ) (now_ms : ℤ) {e : GameEnded}
      → accept_draw js w user_id me now_ms ≡ ok (t, e)
      → (g : GameRow) × (side : ClockSide) × (require_active_player w me ≡ ok (g, side))
        × (is_offered w.draw_offer side ≡ true)
  unfolding accept_draw
  accept_offered w t user_id me now_ms h =
      let ((g, side), player, h') = >>=-eq-ok (require_active_player w me) _ h in
      let (_, offered, _) =
        >>=-eq-ok (throw_if (not (is_offered w.draw_offer side)) no_draw_offer) _ h' in
      (g, side, player, ground (arith, offered))

  -- A draw is agreed by two: who accepts is a player of the active game, and the offer that stands is of the
  -- other side. A move that is made withdraws every offer: after it nobody can accept one until one is
  -- made again.
  pub accept_draw-offered :
      (w t : World) (user_id : ℕ) (me : Option ℕ) (now_ms : ℤ) {e : GameEnded}
      → accept_draw js w user_id me now_ms ≡ ok (t, e)
      → ((g : GameRow) × (side : ClockSide) × (require_active_player w me ≡ ok (g, side))
          × (w.draw_offer ≡ some (opposite side)))
        × ((v : World) (mover : ℕ) (player : Option ℕ) (uci : Uci) (at_ms : ℤ) (m : MoveMade)
              (end : Option GameEnded)
            → make_move js v mover player uci at_ms ≢ ok (w, made m end))
  unfolding make_move
  accept_draw-offered w t user_id me now_ms h =
      let (g, side, player, offered) = accept_offered w t user_id me now_ms h in
      (
        (g, side, player, offered-opposite w.draw_offer side offered),
        λ v mover who uci at_ms m end moved.
            let (plan, _, done) = >>=-eq-ok (plan_move js v who uci at_ms) _ moved in
            let withdrawn = commit_withdraws v w plan mover at_ms done in
            not_both offered (ap (λ (o : Option ClockSide). is_offered o side) withdrawn),
      )
