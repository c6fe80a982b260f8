-- ===== src/Play/History/Transactions.antt =====
-- play.repository.ts: what one write does to the rows and the audit log, which are in the database.
use farzin.Prelude.{
  ℕ, ◌≡◌, refl, ◌∙◌, ◌⊎◌, inl, inr, arith, true, false, Option, none, some, ◌∷◌, Bool-cases,
  Option-cases,
}
use mathlib.Core.Path.{subst}
use mathlib.Core.Option.{some-injective}
use farzin.Chess.{ChessJs}
use farzin.Play.Rows.{OnlineGame, OnlineGameStatus, FinishGameInput, FinishAudit}
use farzin.Play.Store.{
  World, is_active, append_move, finish_game, with_finish, insert_move, has_ply, audit_of,
  write_move,
}
use farzin.Play.Service.{PlannedMove, row_of, finish_of, finish_with, finish_input_of, ply_of}
use farzin.Play.History.{Change, appending, finishing, elsewhere}
use farzin.Play.History.Effects.{Logged, Appended, row_after, EndsGame}
use farzin.Play.History.Appends.{Planned, plan_move-Planned, append_to-ok}
use farzin.Play.History.Induction.{Effect, keeps, finishes, appends}

pub record SameRows (v w : World) : Type 0 where
  pub game : v.game ≡ w.game
  pub moves : v.moves ≡ w.moves
  pub audits : v.audits ≡ w.audits

pub SameRows-refl : (w : World) → SameRows w w
SameRows-refl w = record { game = refl; moves = refl; audits = refl }

pub SameRows-trans : {u v w : World} → SameRows u v → SameRows v w → SameRows u w
SameRows-trans a b = record {
  game = a.game ∙ b.game;
  moves = a.moves ∙ b.moves;
  audits = a.audits ∙ b.audits;
}

-- One entry of the audit log is new, and tells how the game has ended.
pub record Audited (f : FinishGameInput) (w t : World) : Type 0 where
  pub audit : FinishAudit
  pub audits : t.audits ≡ audit ∷ w.audits
  pub audit_status : audit.status ≡ f.status
  pub audit_winner : audit.winner_color ≡ f.winner_color

-- The active game has ended with this write, and with no move.
pub record RowFinished (w t : World) : Type 0 where
  pub before : OnlineGame
  pub finish : FinishGameInput
  pub was : w.game ≡ some before
  pub was_active : is_active before.status ≡ true
  pub is : t.game ≡ some (with_finish finish before)
  pub is_over : is_active finish.status ≡ false
  pub moves : t.moves ≡ w.moves
  pub audited : Audited finish w t

-- A move is new, of a ply that was free in an active game; the game goes on, or ends with it.
pub record RowAppended (p : PlannedMove) (w t : World) : Type 0 where
  pub before : OnlineGame
  pub finish : Option FinishGameInput
  pub was : w.game ≡ some before
  pub was_active : is_active before.status ≡ true
  pub is : t.game ≡ some (row_after p finish before)
  pub free : has_ply (row_of p).ply w.moves ≡ false
  pub moves : t.moves ≡ insert_move (row_of p) w.moves
  pub log :
      ((finish ≡ none) × (t.audits ≡ w.audits))
      ⊎ ((f : FinishGameInput) × (finish ≡ some f) × (is_active f.status ≡ false) × Audited f w t)

pub data RowEffect (js : ChessJs) (v w t : World) : Type 0 where
  row_keeps : SameRows w t → RowEffect js v w t
  row_finishes : RowFinished w t → RowEffect js v w t
  row_appends : (p : PlannedMove) → Planned js v p → RowAppended p w t → RowEffect js v w t

Logged-Audited : {f : FinishGameInput} {w t : World} → Logged f w t → Audited f w t
Logged-Audited l = record {
  audit = l.audit;
  audits = l.audits;
  audit_status = l.audit_status;
  audit_winner = l.audit_winner;
}

pub Appended-RowAppended : {p : PlannedMove} {w t : World} → Appended p w t → RowAppended p w t
Appended-RowAppended a = record {
  before = a.before;
  finish = a.finish;
  was = a.was;
  was_active = a.was_active;
  is = a.is;
  free = a.free;
  moves = a.moves;
  log = elim a.log [
    | inl (goes_on, same, _, _) ↦ inl (goes_on, same)
    | inr (f, with_end, over, logged, _) ↦ inr (f, with_end, over, Logged-Audited logged)
  ];
}

-- The writes that run whole do no more to the rows.
pub Effect-RowEffect : (js : ChessJs) (v w t : World) → Effect js v w t → RowEffect js v w t
Effect-RowEffect js v w t (keeps same clock) =
    row_keeps (record { game = same.game; moves = same.moves; audits = same.audits })
Effect-RowEffect js v w t (finishes f) = row_finishes (record {
  before = f.before;
  finish = f.finish;
  was = f.was;
  was_active = f.was_active;
  is = f.is;
  is_over = f.is_over;
  moves = f.moves;
  audited = Logged-Audited f.logged;
})
Effect-RowEffect js v w t (appends p planned a) = row_appends p planned (Appended-RowAppended a)

finish_row :
    (w t : World) (f : FinishGameInput)
    → is_active f.status ≡ false
    → finish_game w f ≡ some t
    → RowFinished w t
unfolding finish_game
finish_row w t f over h = elim (Option-cases w.game) [
  | inl gone ↦ absurd (ground (arith, gone))
  | inr (x, found) ↦ elim (Bool-cases (is_active x.status)) [
    | inr over' ↦ absurd (ground (arith, found, over'))
    | inl live ↦
        let done = some-injective _ _ (rw (found, live) at h) in
        subst (RowFinished w) done (record {
          before = x;
          finish = f;
          was = found;
          was_active = live;
          is = refl;
          is_over = over;
          moves = refl;
          audited = record {
            audit = audit_of none f;
            audits = refl;
            audit_status = refl;
            audit_winner = refl;
          };
        })
  ]
]

append_row :
    (p : PlannedMove) (user_id : ℕ) (o : Option OnlineGameStatus) (g : OnlineGame) (w : World)
    → w.game ≡ some g
    → is_active g.status ≡ true
    → has_ply (ply_of p) w.moves ≡ false
    → EndsGame o
    → RowAppended p w (write_move (row_of p) (finish_with p user_id o) g w)
append_row p user_id none g w was live free over = record {
  before = g;
  finish = none;
  was = was;
  was_active = live;
  is = refl;
  free = free;
  moves = refl;
  log = inl (refl, refl);
}
append_row p user_id (some status) g w was live free over = record {
  before = g;
  finish = finish_with p user_id (some status);
  was = was;
  was_active = live;
  is = refl;
  free = free;
  moves = refl;
  log = inr (
    finish_input_of p user_id status,
    refl,
    over,
    record {
      audit = audit_of (some (ply_of p)) (finish_input_of p user_id status);
      audits = refl;
      audit_status = refl;
      audit_winner = refl;
    },
  );
}

pub Change-RowEffect : (js : ChessJs) (v w t : World) → Change js v w t → RowEffect js v w t
unfolding append_move
Change-RowEffect js v w t (elsewhere game moves audits) =
    row_keeps (record { game = game; moves = moves; audits = audits })
Change-RowEffect js v w t (finishing finish over done) =
    row_finishes (finish_row w t finish over done)
Change-RowEffect js v w t (appending {p} me uci read_ms user_id planned done) =
    let from = plan_move-Planned js v me uci read_ms planned in
    let (g, was, live, free, same) = append_to-ok w.game w (row_of p) (finish_of p user_id) done in
    row_appends p from (
      subst (RowAppended p w) same
        (append_row p user_id p.end_status g w was live free from.ending))
