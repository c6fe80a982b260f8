-- ===== src/Play/History/Grain.antt =====
-- play.service.ts: the writes of a request that run whole are changes of the finer grain.
use mathlib.Core.Path.{subst}
use farzin.Prelude.{
  ℕ, ◌≡◌, refl, sym, ap, ◌⊎◌, inl, inr, arith, false, Option, none, some, ok, Result-cases,
  Option-cases, ok-injective, >>=-eq-ok, if_both,
}
use farzin.Prelude.Int.{ℤ}
use farzin.Clock.{ClockSide, ClockState, white, black, opposite}
use farzin.Chess.{ChessJs, has_mating_material}
use farzin.Play.Rows.{OnlineGameStatus, GameRow, GameEnded, MoveResult}
use farzin.Play.Store.{World, is_active, append_move, finish_game}
use farzin.Play.Service.{
  MovePlan, refuse, flag_fall, persist, PlannedMove, row_of, finish_of, after_append,
  after_append_as, end_game, finish_input, finish_by_timeout, finish_no_move, load_state, final_ms,
  clocked, timeout_status, timeout_winner,
}
use farzin.Play.Moves.{plan_move, commit_move}
use farzin.Play.History.{
  Later, now, step, Step, moves, ends, times_out, writes, KeyWrite, offers, withdraws, arrives,
  leaves, marks, unmarks, loses_clock, Change, appending, finishing, elsewhere,
}
use farzin.Play.History.Appends.{written-HasClock}
use farzin.Play.History.Induction.{after_try-err}
use farzin.Play.History.Transactions.{SameRows, SameRows-refl}

-- At most one transaction, and then what does not change the rows.
pub record Grains (js : ChessJs) (v w t : World) : Type 0 where
  pub between : World
  pub first : (between ≡ w) ⊎ Change js v w between
  pub rest : SameRows between t

after_append_as-SameRows :
    (p : PlannedMove) (w : World) (o : Option OnlineGameStatus) → SameRows w (after_append_as p w o)
after_append_as-SameRows p w none =
    let same = (written-HasClock p w).0 in
    record { game = same.game; moves = same.moves; audits = same.audits }
after_append_as-SameRows p w (some status) = record { game = refl; moves = refl; audits = refl }

KeyWrite-SameRows : (w t : World) → KeyWrite w t → SameRows w t
KeyWrite-SameRows w t (offers side) = record { game = refl; moves = refl; audits = refl }
KeyWrite-SameRows w t withdraws = record { game = refl; moves = refl; audits = refl }
KeyWrite-SameRows w t (arrives white) = record { game = refl; moves = refl; audits = refl }
KeyWrite-SameRows w t (arrives black) = record { game = refl; moves = refl; audits = refl }
KeyWrite-SameRows w t (leaves white) = record { game = refl; moves = refl; audits = refl }
KeyWrite-SameRows w t (leaves black) = record { game = refl; moves = refl; audits = refl }
KeyWrite-SameRows w t (marks white at_ms) = record { game = refl; moves = refl; audits = refl }
KeyWrite-SameRows w t (marks black at_ms) = record { game = refl; moves = refl; audits = refl }
KeyWrite-SameRows w t (unmarks white) = record { game = refl; moves = refl; audits = refl }
KeyWrite-SameRows w t (unmarks black) = record { game = refl; moves = refl; audits = refl }
KeyWrite-SameRows w t loses_clock = record { game = refl; moves = refl; audits = refl }

Later-trans :
    {Writes : World → World → World → Type 0} {s v w : World}
    → Later Writes s v
    → Later Writes v w
    → Later Writes s w
Later-trans a now = a
Later-trans a (step b c written) = step (Later-trans a b) c written

module _ (js : ChessJs) where
  none_written : (v w t : World) → t ≡ w → Grains js v w t
  none_written v w t h =
      subst (Grains js v w) (sym h)
        (record { between = w; first = inl refl; rest = SameRows-refl w })

  end_game-Grains :
      (v w : World) (g : GameRow) (status : OnlineGameStatus) (winner : Option ClockSide)
      (clock : ClockState) (actor : Option ℕ) (now_ms : ℤ)
      → is_active status ≡ false
      → Grains js v w (end_game js w g status winner clock actor now_ms).0
  end_game-Grains v w g status winner clock actor now_ms over =
      let input = finish_input js w status winner clock actor in
      elim (Option-cases (finish_game w input)) [
        | inl was_over ↦ rw was_over (none_written v w w refl)
        | inr (u, done) ↦ rw done (record {
          between = u;
          first = inr (finishing input over done);
          rest = record { game = refl; moves = refl; audits = refl };
        })
      ]

  timeout_over : (g : GameRow) (loser : ClockSide) → is_active (timeout_status js g loser) ≡ false
  timeout_over g loser =
      if_both (λ (s : OnlineGameStatus). is_active s ≡ false)
        (has_mating_material js g.game.fen (opposite loser)) refl refl

  timeout-Grains :
      (v w : World) (g : GameRow) (loser : ClockSide) (clock : ClockState) (actor : Option ℕ)
      (now_ms : ℤ)
      → Grains js v w (finish_by_timeout js w g loser clock actor now_ms).0
  unfolding finish_by_timeout
  timeout-Grains v w g loser clock actor now_ms =
      end_game-Grains v w g (timeout_status js g loser) (timeout_winner js g loser) clock actor
        now_ms (timeout_over g loser)

  no_move-Grains :
      (v w : World) (g : GameRow) (status : OnlineGameStatus) (winner : Option ClockSide)
      (actor : Option ℕ) (now_ms : ℤ) {t : World} {r : Option GameEnded}
      → is_active status ≡ false
      → finish_no_move js w g status winner actor now_ms ≡ ok (t, r)
      → Grains js v w t
  unfolding finish_no_move
  no_move-Grains v w g status winner actor now_ms {t = t} over h =
      let state = load_state js w g now_ms in
      let (white_ms, _, h') = >>=-eq-ok (clocked (final_ms js g state white now_ms)) _ h in
      let (black_ms, _, h'') = >>=-eq-ok (clocked (final_ms js g state black now_ms)) _ h' in
      let final_state : ClockState = record {
        white_remaining_ms = white_ms;
        black_remaining_ms = black_ms;
        turn = state.turn;
        last_event_at_ms = now_ms;
      } in
      let same : (end_game js w g status winner final_state actor now_ms).0 ≡ t =
        ap (λ x. x.0) (ok-injective h'') in
      subst (Grains js v w) same (end_game-Grains v w g status winner final_state actor now_ms over)

  commit-Grains :
      (v w : World) (plan : MovePlan) (me : Option ℕ) (uci : ℕ) (read_ms : ℤ) (user_id : ℕ)
      (now_ms : ℤ) {t : World} {r : MoveResult}
      → plan_move js v me uci read_ms ≡ ok plan
      → commit_move js w plan user_id now_ms ≡ ok (t, r)
      → Grains js v w t
  unfolding commit_move after_append
  commit-Grains v w (refuse code fen) me uci read_ms user_id now_ms {t = t} planned h =
      none_written v w t (ground arith)
  commit-Grains v w (flag_fall g side state) me uci read_ms user_id now_ms {t = t} planned h =
      let same : (finish_by_timeout js w g side state (some user_id) now_ms).0 ≡ t =
        ap (λ (x : World × MoveResult). x.0) (ok-injective h) in
      subst (Grains js v w) same (timeout-Grains v w g side state (some user_id) now_ms)
  commit-Grains v w (persist p) me uci read_ms user_id now_ms {t = t} planned h =
      elim (Result-cases (append_move w (row_of p) (finish_of p user_id))) [
        | inr (e, thrown) ↦ none_written v w t (after_try-err js w p now_ms e (rw thrown at h))
        | inl (a, written) ↦
            let same : after_append p a ≡ t =
              ap (λ (x : World × MoveResult). x.0) (ok-injective (rw written at h)) in
            subst (Grains js v w) same (record {
              between = a;
              first = inr (appending me uci read_ms user_id planned written);
              rest = after_append_as-SameRows p a p.end_status;
            })
      ]

  Step-Grains : (v w t : World) → Step js v w t → Grains js v w t
  Step-Grains v w t (moves {plan} me uci read_ms user_id now_ms planned done) =
      commit-Grains v w plan me uci read_ms user_id now_ms planned done
  Step-Grains v w t (ends {g} status winner actor now_ms found over done) =
      no_move-Grains v w g status winner actor now_ms over done
  Step-Grains v w t (times_out {g} loser clock actor now_ms found done) =
      subst (Grains js v w) (ap (λ (x : World × Option GameEnded). x.0) done)
        (timeout-Grains v w g loser clock actor now_ms)
  Step-Grains v w t (writes written) = record {
    between = w;
    first = inl refl;
    rest = KeyWrite-SameRows w t written;
  }

  unrowed : {s u t : World} → Later (Change js) s u → SameRows u t → Later (Change js) s t
  unrowed later same = step later now (elsewhere same.game same.moves same.audits)

  -- What comes after by writes that run whole comes after at the finer grain.
  pub Later-Change : {s t : World} → Later (Step js) s t → Later (Change js) s t
  Later-Change now = now
  Later-Change (step {s} {v} {w} {t} a b written) =
      let g = Step-Grains v w t written in
      elim g.first [
        | inl none_new ↦
            unrowed
              (subst (Later (Change js) s) (sym none_new)
                (Later-trans (Later-Change a) (Later-Change b)))
              g.rest
        | inr change ↦ unrowed (step (Later-Change a) (Later-Change b) change) g.rest
      ]
