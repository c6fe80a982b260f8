-- ===== src/Play/History/Final.antt =====
-- Play: a game ends once. What is persisted of it stays, and tells one end.
use mathlib.Core.Path.{subst}
use mathlib.Core.Option.{some-injective}
use farzin.Prelude.{
  ◌≡◌, refl, sym, ap, ◌∙◌, ◌⊎◌, inl, inr, true, false, Option, none, some, List, [], ◌∷◌, not_both,
}
use farzin.Chess.{ChessJs}
use farzin.Play.Rows.{OnlineGame, FinishAudit, FinishGameInput}
use farzin.Play.Store.{World, is_active, with_finish}
use farzin.Play.Service.{PlannedMove}
use farzin.Play.History.{Later, Written, nothing, write, Change}
use farzin.Play.History.Effects.{row_after}
use farzin.Play.History.Transactions.{
  SameRows, SameRows-refl, SameRows-trans, RowAppended, Audited, RowEffect, row_keeps, row_finishes,
  row_appends, Change-RowEffect,
}
use farzin.Play.History.Induction.{Later-induction}

pub record IsOver (w : World) : Type 0 where
  pub game : OnlineGame
  pub row : w.game ≡ some game
  pub over : is_active game.status ≡ false

over_inactive :
    (w : World) (g : OnlineGame) → IsOver w → w.game ≡ some g → is_active g.status ≡ false
over_inactive w g o h =
    subst (λ (x : OnlineGame). is_active x.status ≡ false) (some-injective _ _ (sym o.row ∙ h))
      o.over

SameRows-IsOver : {v w : World} → SameRows v w → IsOver v → IsOver w
SameRows-IsOver s o = record { game = o.game; row = sym s.game ∙ o.row; over = o.over }

over_stays : (js : ChessJs) (v w t : World) → IsOver w → RowEffect js v w t → SameRows w t
over_stays js v w t o (row_keeps same) = same
over_stays js v w t o (row_finishes f) =
    absurd (not_both f.was_active (over_inactive w f.before o f.was))
over_stays js v w t o (row_appends p planned a) =
    absurd (not_both a.was_active (over_inactive w a.before o a.was))

-- A game that is over stays as it is: whatever requests, timers and sweepers write afterwards, also those
-- that have read the game before its end, and whatever happens to Redis and to the events, its row, its
-- moves and its entries in the audit log are the same.
pub Written-final : (js : ChessJs) {s t : World} → Written (Change js) s t → IsOver s → SameRows s t
Written-final js nothing over = SameRows-refl _
Written-final js (write {v} {w} {t} earlier change) over =
    let same = Written-final js earlier over in
    SameRows-trans same
      (over_stays js v w t (SameRows-IsOver same over) (Change-RowEffect js v w t change))

-- The entry of the audit log tells the status and the winner of the row.
pub record TellsEnd (g : OnlineGame) (w : World) : Type 0 where
  pub audit : FinishAudit
  pub audits : w.audits ≡ audit ∷ []
  pub audit_status : audit.status ≡ g.status
  pub audit_winner : audit.winner_color ≡ g.winner_color

-- An active game has told no end, and one that is over has told it once.
pub record IsBooked (w : World) : Type 0 where
  pub game : OnlineGame
  pub row : w.game ≡ some game
  pub booked :
      ((is_active game.status ≡ true) × (w.audits ≡ []))
      ⊎ ((is_active game.status ≡ false) × TellsEnd game w)

SameRows-IsBooked : {v w : World} → SameRows v w → IsBooked v → IsBooked w
SameRows-IsBooked s b = record {
  game = b.game;
  row = sym s.game ∙ b.row;
  booked = elim b.booked [
    | inl (live, audits) ↦ inl (live, sym s.audits ∙ audits)
    | inr (over, tells) ↦ inr (
      over,
      record {
        audit = tells.audit;
        audits = sym s.audits ∙ tells.audits;
        audit_status = tells.audit_status;
        audit_winner = tells.audit_winner;
      },
    )
  ];
}

-- A booked game that is active has nothing in the log.
unbooked :
    (w : World) (g : OnlineGame)
    → IsBooked w
    → w.game ≡ some g
    → is_active g.status ≡ true
    → w.audits ≡ []
unbooked w g b was live = elim b.booked [
  | inl (_, audits) ↦ audits
  | inr (over, _) ↦
      absurd
        (not_both live (over_inactive w g (record { game = b.game; row = b.row; over = over }) was))
]

told :
    (f : FinishGameInput) (g : OnlineGame) (w t : World)
    → Audited f w t
    → w.audits ≡ []
    → g.status ≡ f.status
    → g.winner_color ≡ f.winner_color
    → TellsEnd g t
told f g w t audited no_audits status winner = record {
  audit = audited.audit;
  audits = audited.audits ∙ ap (λ (l : List FinishAudit). audited.audit ∷ l) no_audits;
  audit_status = audited.audit_status ∙ sym status;
  audit_winner = audited.audit_winner ∙ sym winner;
}

RowAppended-IsBooked : (p : PlannedMove) (w t : World) → IsBooked w → RowAppended p w t → IsBooked t
RowAppended-IsBooked p w t b a =
    let audits = unbooked w a.before b a.was a.was_active in
    elim a.log [
      | inl (goes_on, same_audits) ↦ record {
        game = row_after p none a.before;
        row = a.is ∙ ap (λ (f : Option FinishGameInput). some (row_after p f a.before)) goes_on;
        booked = inl (a.was_active, same_audits ∙ audits);
      }
      | inr (f, with_end, over, audited) ↦ record {
        game = row_after p (some f) a.before;
        row = a.is ∙ ap (λ (x : Option FinishGameInput). some (row_after p x a.before)) with_end;
        booked = inr (over, told f (row_after p (some f) a.before) w t audited audits refl refl);
      }
    ]

RowEffect-IsBooked : (js : ChessJs) (v w t : World) → IsBooked w → RowEffect js v w t → IsBooked t
RowEffect-IsBooked js v w t b (row_keeps same) = SameRows-IsBooked same b
RowEffect-IsBooked js v w t b (row_appends p planned a) = RowAppended-IsBooked p w t b a
RowEffect-IsBooked js v w t b (row_finishes f) = record {
  game = with_finish f.finish f.before;
  row = f.is;
  booked = inr (
    f.is_over,
    told f.finish (with_finish f.finish f.before) w t f.audited
        (unbooked w f.before b f.was f.was_active) refl refl,
  );
}

-- Every end is written to the audit log once: from a game that is active with an empty log on, whatever
-- interleaves and whatever happens to Redis and to the events, an active game has no entry in the audit
-- log, and a game that is over has one, which tells the status and the winner of its row.
pub Later-IsBooked : (js : ChessJs) {s t : World} → Later (Change js) s t → IsBooked s → IsBooked t
Later-IsBooked js later =
    Later-induction (λ (s t : World). IsBooked s → IsBooked t) (λ w b. b)
      (λ s v w t first then change b.
        RowEffect-IsBooked js v w t (then (first b)) (Change-RowEffect js v w t change))
      later
