-- ===== src/Play/History/Induction.antt =====
-- Play: induction over what may happen to a game, by what each write does.
use mathlib.Core.Path.{subst}
use farzin.Prelude.{
  ℕ, ◌≡◌, refl, sym, ap, ◌∙◌, ◌⊎◌, inl, inr, arith, Bool, Option, none, some, ok, err, Result-cases,
  ok-injective,
}
use farzin.Prelude.Int.{ℤ}
use farzin.Clock.{ClockSide, white, black}
use farzin.Chess.{ChessJs}
use farzin.Play.Rows.{MoveResult, GameEnded, PlayError, ClockEntry}
use farzin.Play.Store.{World, append_move, append_to}
use farzin.Play.Service.{
  MovePlan, refuse, flag_fall, persist, PlannedMove, finish_of, row_of, after_append,
  finish_by_timeout,
}
use farzin.Play.Moves.{plan_move, commit_move, after_try}
use farzin.Play.History.{
  Later, now, step, Step, moves, ends, times_out, writes, KeyWrite, offers, withdraws, arrives,
  leaves, marks, unmarks, loses_clock,
}
use farzin.Play.History.Effects.{
  Same, Same-refl, Appended, Finished, finish_by_timeout-Finished, finish_no_move-Finished,
}
use farzin.Play.History.Appends.{Planned, plan_move-Planned, append_to-ok, appended}

pub after_try-err :
    (js : ChessJs) (w : World) (p : PlannedMove) (now_ms : ℤ) (e : PlayError) {t : World}
    {r : MoveResult}
    → after_try js w p now_ms (err e) ≡ ok (t, r)
    → t ≡ w
after_try-err js w p now_ms e h = ground arith

-- What a write has done: nothing to the rows and at most the loss of the clock's entry, the end of the
-- game, or a move.
pub data Effect (js : ChessJs) (v w t : World) : Type 0 where
  keeps : Same w t → (t.clock ≡ w.clock) ⊎ (t.clock ≡ none) → Effect js v w t
  finishes : Finished w t → Effect js v w t
  appends : (p : PlannedMove) → Planned js v p → Appended p w t → Effect js v w t

Same-rows :
    (w : World) {c : Option ClockEntry} {d : Option ClockSide} {a b : Bool} {x y : Option ℤ}
    → Same w (record w {
      clock = c;
      draw_offer = d;
      white_present = a;
      black_present = b;
      white_gone = x;
      black_gone = y;
    })
Same-rows w = record { game = refl; moves = refl; audits = refl; events = refl }

unchanged : (js : ChessJs) (v w t : World) → t ≡ w → Effect js v w t
unchanged js v w t h = subst (Effect js v w) (sym h) (keeps (Same-refl w) (inl refl))

ended_or_not : (js : ChessJs) (v w t : World) → (t ≡ w) ⊎ Finished w t → Effect js v w t
ended_or_not js v w t h = elim h [ inl e ↦ unchanged js v w t e | inr f ↦ finishes f ]

KeyWrite-Effect : (js : ChessJs) (v w t : World) → KeyWrite w t → Effect js v w t
KeyWrite-Effect js v w t (offers side) = keeps (Same-rows w) (inl refl)
KeyWrite-Effect js v w t withdraws = keeps (Same-rows w) (inl refl)
KeyWrite-Effect js v w t (arrives white) = keeps (Same-rows w) (inl refl)
KeyWrite-Effect js v w t (arrives black) = keeps (Same-rows w) (inl refl)
KeyWrite-Effect js v w t (leaves white) = keeps (Same-rows w) (inl refl)
KeyWrite-Effect js v w t (leaves black) = keeps (Same-rows w) (inl refl)
KeyWrite-Effect js v w t (marks white at_ms) = keeps (Same-rows w) (inl refl)
KeyWrite-Effect js v w t (marks black at_ms) = keeps (Same-rows w) (inl refl)
KeyWrite-Effect js v w t (unmarks white) = keeps (Same-rows w) (inl refl)
KeyWrite-Effect js v w t (unmarks black) = keeps (Same-rows w) (inl refl)
KeyWrite-Effect js v w t loses_clock = keeps (Same-rows w) (inr refl)

module _ (js : ChessJs) where
  try-Effect :
      (v w : World) (p : PlannedMove) (user_id : ℕ) (now_ms : ℤ) {t : World} {r : MoveResult}
      → Planned js v p
      → commit_move js w (persist p) user_id now_ms ≡ ok (t, r)
      → Effect js v w t
  unfolding commit_move append_move after_append
  try-Effect v w p user_id now_ms {t = t} planned h =
      elim (Result-cases (append_to w.game w (row_of p) (finish_of p user_id))) [
        | inr (e, thrown) ↦ unchanged js v w t (after_try-err js w p now_ms e (rw thrown at h))
        | inl (a, written) ↦
            let (g, was, live, free, done) =
              append_to-ok w.game w (row_of p) (finish_of p user_id) written in
            let same : after_append p a ≡ t =
              ap (λ (x : World × MoveResult). x.0) (ok-injective (rw written at h)) in
            appends p planned (
              subst (Appended p w) (ap (after_append p) done ∙ same)
                (appended p user_id p.end_status g w was live free planned.ending))
      ]

  commit_move-Effect :
      (v w : World) (plan : MovePlan) (me : Option ℕ) (uci : ℕ) (read_ms : ℤ) (user_id : ℕ)
      (now_ms : ℤ) {t : World} {r : MoveResult}
      → plan_move js v me uci read_ms ≡ ok plan
      → commit_move js w plan user_id now_ms ≡ ok (t, r)
      → Effect js v w t
  unfolding commit_move
  commit_move-Effect v w (refuse code fen) me uci read_ms user_id now_ms {t = t} planned h =
      unchanged js v w t (ground arith)
  commit_move-Effect v w (flag_fall g side state) me uci read_ms user_id now_ms {t = t} planned h =
      let f = finish_by_timeout-Finished js w g side state (some user_id) now_ms in
      let same : (finish_by_timeout js w g side state (some user_id) now_ms).0 ≡ t =
        ap (λ (x : World × MoveResult). x.0) (ok-injective h) in
      ended_or_not js v w t (subst (λ (x : World). (x ≡ w) ⊎ Finished w x) same f)
  commit_move-Effect v w (persist p) me uci read_ms user_id now_ms planned h =
      try-Effect v w p user_id now_ms (plan_move-Planned js v me uci read_ms planned) h

  -- What a write has done.
  pub Step-Effect : (v w t : World) → Step js v w t → Effect js v w t
  Step-Effect v w t (moves {plan} me uci read_ms user_id now_ms planned done) =
      commit_move-Effect v w plan me uci read_ms user_id now_ms planned done
  Step-Effect v w t (ends {g} status winner actor now_ms found over done) =
      ended_or_not js v w t (finish_no_move-Finished js w g status winner actor now_ms over done)
  Step-Effect v w t (times_out {g} loser clock actor now_ms found done) = ended_or_not js v w t (
      subst (λ (x : World). (x ≡ w) ⊎ Finished w x)
        (ap (λ (x : World × Option GameEnded). x.0) done)
        (finish_by_timeout-Finished js w g loser clock actor now_ms))
  Step-Effect v w t (writes written) = KeyWrite-Effect js v w t written

-- What holds of a state and itself, and is kept by each write, holds of a state and each later one.
pub Later-induction :
    {Writes : World → World → World → Type 0} (P : World → World → Type 0)
    → ((w : World) → P w w)
    → ((s v w t : World) → P s v → P v w → Writes v w t → P s t)
    → {s t : World} → Later Writes s t
    → P s t
Later-induction P start goes_on now = start _
Later-induction P start goes_on (step {s} {v} {w} {t} a b written) =
    goes_on s v w t (Later-induction P start goes_on a) (Later-induction P start goes_on b) written
