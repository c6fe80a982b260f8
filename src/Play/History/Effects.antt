-- ===== src/Play/History/Effects.antt =====
-- play.service.ts: what one write does to the rows, the audit log and the events.
use mathlib.Core.Path.{subst}
use farzin.Prelude.{
  ℕ, ◌≡◌, refl, ap, ◌∙◌, ◌⊎◌, inl, inr, true, false, Option, none, some, ◌∷◌, ok, >>=-eq-ok,
  Bool-cases, Option-cases, if_both, ok-injective,
}
use farzin.Prelude.Int.{ℤ}
use farzin.Clock.{ClockSide, opposite, ClockState}
use farzin.Chess.{ChessJs, has_mating_material}
use farzin.Play.Rows.{
  OnlineGameStatus, OnlineGame, GameRow, GameEnded, FinishGameInput, FinishAudit, FinishedEvent,
}
use farzin.Play.Store.{World, is_active, with_finish, insert_move, has_ply, finish_game, audit_of}
use farzin.Play.Service.{
  PlannedMove, row_of, end_game, finish_input, finished_event, finish_no_move, finish_by_timeout,
  load_state, final_ms, clocked, timeout_status, timeout_winner,
}

-- The rows, the log and the events are as they were.
pub record Same (v w : World) : Type 0 where
  pub game : v.game ≡ w.game
  pub moves : v.moves ≡ w.moves
  pub audits : v.audits ≡ w.audits
  pub events : v.events ≡ w.events

pub Same-refl : (w : World) → Same w w
Same-refl w = record { game = refl; moves = refl; audits = refl; events = refl }

pub Same-trans : {u v w : World} → Same u v → Same v w → Same u w
Same-trans a b = record {
  game = a.game ∙ b.game;
  moves = a.moves ∙ b.moves;
  audits = a.audits ∙ b.audits;
  events = a.events ∙ b.events;
}

-- One entry of the audit log and one event are new, and tell how the game has ended.
pub record Logged (f : FinishGameInput) (w t : World) : Type 0 where
  pub audit : FinishAudit
  pub audits : t.audits ≡ audit ∷ w.audits
  pub event : FinishedEvent
  pub events : t.events ≡ event ∷ w.events
  pub audit_status : audit.status ≡ f.status
  pub audit_winner : audit.winner_color ≡ f.winner_color
  pub event_status : event.status ≡ f.status

-- The active game has ended with this write, and with no move.
pub record Finished (w t : World) : Type 0 where
  pub before : OnlineGame
  pub finish : FinishGameInput
  pub was : w.game ≡ some before
  pub was_active : is_active before.status ≡ true
  pub is : t.game ≡ some (with_finish finish before)
  pub is_over : is_active finish.status ≡ false
  pub moves : t.moves ≡ w.moves
  pub logged : Logged finish w t
  pub clock : t.clock ≡ none

-- The row after a move that may end the game.
abbrev pub row_after : PlannedMove → Option FinishGameInput → OnlineGame → OnlineGame
row_after p none g = record g { fen = p.validated.fen_after }
row_after p (some f) g = with_finish f (record g { fen = p.validated.fen_after })

-- A move is new, of a ply that was free in an active game; the game goes on, or ends with it.
pub record Appended (p : PlannedMove) (w t : World) : Type 0 where
  pub before : OnlineGame
  pub finish : Option FinishGameInput
  pub was : w.game ≡ some before
  pub was_active : is_active before.status ≡ true
  pub is : t.game ≡ some (row_after p finish before)
  pub free : has_ply (row_of p).ply w.moves ≡ false
  pub moves : t.moves ≡ insert_move (row_of p) w.moves
  pub log :
      ((finish ≡ none)
        × (t.audits ≡ w.audits)
        × (t.events ≡ w.events)
        × ((t.clock ≡ none)
            ⊎ ((n : ℕ) × (t.clock ≡ some (record { version = n; state = p.new_clock })))))
      ⊎ ((f : FinishGameInput) × (finish ≡ some f)
          × (is_active f.status ≡ false)
          × Logged f w t
          × (t.clock ≡ none))

-- A status that a move gives ends the game.
abbrev pub EndsGame : Option OnlineGameStatus → Type 0
EndsGame none = Unit
EndsGame (some status) = is_active status ≡ false

finish_game-Finished :
    (w : World) (g : GameRow) (status : OnlineGameStatus) (winner : Option ClockSide)
    (clock : ClockState) (actor : Option ℕ) (now_ms : ℤ) (js : ChessJs)
    → is_active status ≡ false
    → let t = (end_game js w g status winner clock actor now_ms).0 in (t ≡ w) ⊎ Finished w t
unfolding finish_game
finish_game-Finished w g status winner clock actor now_ms js over = elim (Option-cases w.game) [
  | inl gone ↦ rw gone (inl refl)
  | inr (x, found) ↦ elim (Bool-cases (is_active x.status)) [
    | inr over' ↦ rw (found, over') (inl refl)
    | inl live ↦
        rw (found, live)
          (inr (record {
            before = x;
            finish = finish_input js w status winner clock actor;
            was = refl;
            was_active = live;
            is = refl;
            is_over = over;
            moves = refl;
            logged = record {
              audit = audit_of none (finish_input js w status winner clock actor);
              audits = refl;
              event = finished_event g status;
              events = refl;
              audit_status = refl;
              audit_winner = refl;
              event_status = refl;
            };
            clock = refl;
          }))
  ]
]

module _ (js : ChessJs) where
  pub finish_no_move-Finished :
      (w : World) (g : GameRow) (status : OnlineGameStatus) (winner : Option ClockSide)
      (actor : Option ℕ) (now_ms : ℤ) {t : World} {r : Option GameEnded}
      → is_active status ≡ false
      → finish_no_move js w g status winner actor now_ms ≡ ok (t, r)
      → (t ≡ w) ⊎ Finished w t
  unfolding finish_no_move
  finish_no_move-Finished w g status winner actor now_ms {t = t} over h =
      let state = load_state js w g now_ms in
      let (white_ms, _, h') =
        >>=-eq-ok (clocked (final_ms js g state ClockSide.white now_ms)) _ h in
      let (black_ms, _, h'') =
        >>=-eq-ok (clocked (final_ms js g state ClockSide.black now_ms)) _ h' in
      let final_state : ClockState = record {
        white_remaining_ms = white_ms;
        black_remaining_ms = black_ms;
        turn = state.turn;
        last_event_at_ms = now_ms;
      } in
      let same : (end_game js w g status winner final_state actor now_ms).0 ≡ t =
        ap (λ x. x.0) (ok-injective h'') in
      subst (λ (x : World). (x ≡ w) ⊎ Finished w x) same
        (finish_game-Finished w g status winner final_state actor now_ms js over)

  timeout_over : (g : GameRow) (loser : ClockSide) → is_active (timeout_status js g loser) ≡ false
  timeout_over g loser =
      if_both (λ (s : OnlineGameStatus). is_active s ≡ false)
        (has_mating_material js g.game.fen (opposite loser)) refl refl

  pub finish_by_timeout-Finished :
      (w : World) (g : GameRow) (loser : ClockSide) (clock : ClockState) (actor : Option ℕ)
      (now_ms : ℤ)
      → let t = (finish_by_timeout js w g loser clock actor now_ms).0 in (t ≡ w) ⊎ Finished w t
  unfolding finish_by_timeout
  finish_by_timeout-Finished w g loser clock actor now_ms =
      finish_game-Finished w g (timeout_status js g loser) (timeout_winner js g loser) clock actor
        now_ms js (timeout_over g loser)
