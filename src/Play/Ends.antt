-- ===== src/Play/Ends.antt =====
-- play.service.ts: how `resign` and `claimTimeout` end a game.
use farzin.Prelude.{
  ℕ, ◌≡◌, refl, sym, ap, ◌∙◌, inl, inr, arith, true, Option, none, some, ok, >>=-eq-ok, Bool-cases,
  Option-cases, ok-injective,
}
use farzin.Prelude.Int.{ℤ}
use farzin.Clock.{ClockSide, white, black, opposite, ClockState}
use farzin.Chess.{ChessJs}
use farzin.Play.Rows.{OnlineGame, GameRow, GameEnded, OnlineGameStatus, resignation}
use farzin.Play.Store.{World, is_active, finish_game, with_finish}
use farzin.Play.Service.{
  clocked, load_state, final_ms, end_game, finish_input, finish_no_move, require_finished,
}
use farzin.Play.Actions.{require_active_player, resign}

-- The game was active, and its row and the answer tell the end of this status and winner; the moves and the
-- position are as they were.
pub record EndsBy (w t : World) (status : OnlineGameStatus) (winner : Option ClockSide)
    (e : GameEnded) : Type 0 where
  pub before : OnlineGame
  pub after : OnlineGame
  pub was : w.game ≡ some before
  pub was_active : is_active before.status ≡ true
  pub is : t.game ≡ some after
  pub fen : after.fen ≡ before.fen
  pub moves : t.moves ≡ w.moves
  pub status_of : after.status ≡ status
  pub winner_of : after.winner_color ≡ winner
  pub told_status : e.status ≡ status
  pub told_winner : e.winner_color ≡ winner

module _ (js : ChessJs) where
  end_game-EndsBy :
      (w t : World) (g : GameRow) (status : OnlineGameStatus) (winner : Option ClockSide)
      (clock : ClockState) (actor : Option ℕ) (now_ms : ℤ) {e : GameEnded}
      → end_game js w g status winner clock actor now_ms ≡ (t, some e)
      → EndsBy w t status winner e
  unfolding finish_game
  end_game-EndsBy w t g status winner clock actor now_ms h = elim (Option-cases w.game) [
    | inl gone ↦ absurd (ground (arith, gone))
    | inr (x, row) ↦ elim (Bool-cases (is_active x.status)) [
      | inr over ↦ absurd (ground (arith, row, over))
      | inl live ↦
          let done = rw (row, live) at h in
          let world = ap (λ (y : World × Option GameEnded). y.0) done in
          record {
            before = x;
            after = with_finish (finish_input js w status winner clock actor) x;
            was = row;
            was_active = live;
            is = sym (ap (λ (y : World). y.game) world);
            fen = refl;
            moves = sym (ap (λ (y : World). y.moves) world);
            status_of = refl;
            winner_of = refl;
            told_status = ground (arith, done);
            told_winner = ground (arith, done);
          }
    ]
  ]

  finish_no_move-EndsBy :
      (w t : World) (g : GameRow) (status : OnlineGameStatus) (winner : Option ClockSide)
      (actor : Option ℕ) (now_ms : ℤ) {r : World × Option GameEnded} {e : GameEnded}
      → finish_no_move js w g status winner actor now_ms ≡ ok r
      → require_finished r ≡ ok (t, e)
      → EndsBy w t status winner e
  unfolding finish_no_move
  finish_no_move-EndsBy w t g status winner actor now_ms {r = (u, none)} h required =
      absurd (ground arith)
  finish_no_move-EndsBy w t g status winner actor now_ms {r = (u, some x)} {e = e} h required =
      let state = load_state js w g now_ms in
      let (white_ms, _, h') = >>=-eq-ok (clocked (final_ms js g state white now_ms)) _ h in
      let (black_ms, _, h'') = >>=-eq-ok (clocked (final_ms js g state black now_ms)) _ h' in
      let final_state : ClockState = record {
        white_remaining_ms = white_ms;
        black_remaining_ms = black_ms;
        turn = state.turn;
        last_event_at_ms = now_ms;
      } in
      let answer = ok-injective required in
      let same = ok-injective h'' ∙ ap (λ (y : World × GameEnded). (y.0, some y.1)) answer in
      end_game-EndsBy w t g status winner final_state actor now_ms same

-- The winner is the side that plays against this one.
abbrev pub IsWonAgainst : ClockSide → Option ClockSide → Type 0
IsWonAgainst white winner = winner ≡ some black
IsWonAgainst black winner = winner ≡ some white

opposite-IsWonAgainst : (side : ClockSide) → IsWonAgainst side (some (opposite side))
opposite-IsWonAgainst white = refl
opposite-IsWonAgainst black = refl

module _ (js : ChessJs) where
  -- Who resigns loses: if `resign` succeeds, then the caller is a player of the active game, and the row of
  -- the game, which keeps its position and its moves, and the answer tell a resignation that the other
  -- side has won.
  pub resign-EndsBy :
      (w t : World) (user_id : ℕ) (me : Option ℕ) (now_ms : ℤ) {e : GameEnded}
      → resign js w user_id me now_ms ≡ ok (t, e)
      → (g : GameRow) × (side : ClockSide) × (winner : Option ClockSide) × (require_active_player w
            me
          ≡ ok (g, side))
        × IsWonAgainst side winner
        × EndsBy w t resignation winner e
  unfolding resign
  resign-EndsBy w t user_id me now_ms h =
      let ((g, side), player, h') = >>=-eq-ok (require_active_player w me) _ h in
      let winner = some (opposite side) in
      let (r, finished, required) =
        >>=-eq-ok (finish_no_move js w g resignation winner (some user_id) now_ms) _ h' in
      (
        g,
        side,
        winner,
        player,
        opposite-IsWonAgainst side,
        finish_no_move-EndsBy js w t g resignation winner (some user_id) now_ms finished required,
      )
