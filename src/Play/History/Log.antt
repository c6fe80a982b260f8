-- ===== src/Play/History/Log.antt =====
-- Play: the moves that are persisted are a game of chess.
use mathlib.Core.Path.{subst}
use mathlib.Core.Option.{some-injective}
use mathlib.Core.List.{append_assoc, append-nil}
use farzin.Prelude.{
  ℕ, zero, suc, ◌+◌, ◌≤◌, ◌<◌, ◌≡◌, refl, sym, ap, ◌∙◌, ◌⊎◌, inl, inr, arith, true, false, Option,
  none, some, List, [], ◌∷◌, ◌++◌, length, length-append, leb, not_both,
}
use farzin.Chess.{ChessJs, Fen, ValidatedMove, validate_move}
use farzin.Play.Rows.{OnlineGame, GameRow, MoveRow, FinishGameInput}
use farzin.Play.Store.{World, has_ply, insert_move, to_game_row, find_game, with_finish}
use farzin.Play.Service.{PlannedMove, row_of, ply_of}
use farzin.Play.History.{Later, Change}
use farzin.Play.History.Effects.{row_after}
use farzin.Play.History.Transactions.{
  SameRows, RowAppended, RowEffect, row_keeps, row_finishes, row_appends, Change-RowEffect,
}
use farzin.Play.History.Appends.{Planned}
use farzin.Play.History.Induction.{Later-induction}

abbrev pub last_fen : Fen → List MoveRow → Fen
last_fen fen [] = fen
last_fen fen (m ∷ ms) = last_fen m.fen_after ms

-- The row records a legal move of the position.
pub record IsLegalMove (js : ChessJs) (fen : Fen) (m : MoveRow) : Type 0 where
  pub validated : ValidatedMove
  pub legal : validate_move js fen m.uci ≡ some validated
  pub san : m.san ≡ validated.san
  pub fen_after : m.fen_after ≡ validated.fen_after
  pub position_hash : m.position_hash ≡ validated.position_hash

-- Numbered from `n + 1` on without a gap, each legal where the one before has led.
abbrev pub IsLine : ChessJs → ℕ → Fen → List MoveRow → Type 0
IsLine js n fen [] = Unit
IsLine js n fen (m ∷ ms) = (m.ply ≡ suc n) × IsLegalMove js fen m × IsLine js (suc n) m.fen_after ms

module _ (js : ChessJs) where
  line_has_ply :
      (n : ℕ) (fen : Fen) (ms : List MoveRow) (k : ℕ)
      → IsLine js n fen ms
      → k < length ms
      → has_ply (n + k + 1) ms ≡ true
  line_has_ply n fen [] k line h = absurd (omega arith)
  line_has_ply n fen (m ∷ ms) zero line h = let e = line.0 in ground arith
  line_has_ply n fen (m ∷ ms) (suc k) line h =
      let rest = line_has_ply (suc n) m.fen_after ms k line.2 (omega arith) in
      let same : suc n + k + 1 ≡ n + suc k + 1 = omega arith in
      let there : has_ply (n + suc k + 1) ms ≡ true =
        subst (λ (i : ℕ). has_ply i ms ≡ true) same rest in
      ground (arith, there)

  line_insert :
      (n : ℕ) (fen : Fen) (ms : List MoveRow) (m : MoveRow)
      → IsLine js n fen ms
      → m.ply ≡ n + length ms + 1
      → insert_move m ms ≡ ms ++ (m ∷ [])
  line_insert n fen [] m line h = refl
  line_insert n fen (x ∷ ms) m line h =
      let e = line.0 in
      let after : leb m.ply x.ply ≡ false = ground arith in
      rw after (
        ap (λ (l : List MoveRow). x ∷ l)
          (line_insert (suc n) x.fen_after ms m line.2 (omega arith)))

  IsLine-snoc :
      (n : ℕ) (fen : Fen) (ms : List MoveRow) (m : MoveRow)
      → IsLine js n fen ms
      → m.ply ≡ n + length ms + 1
      → IsLegalMove js (last_fen fen ms) m
      → IsLine js n fen (ms ++ (m ∷ [])) × (last_fen fen (ms ++ (m ∷ [])) ≡ m.fen_after)
  IsLine-snoc n fen [] m line h legal = ((omega arith, legal, tt), refl)
  IsLine-snoc n fen (x ∷ ms) m line h legal =
      let (rest, last) = IsLine-snoc (suc n) x.fen_after ms m line.2 (omega arith) legal in
      ((line.0, line.1, rest), last)

-- The row of the game is there, its moves are a line from the start, and its position is the last.
pub record IsGame (js : ChessJs) (w : World) : Type 0 where
  pub game : OnlineGame
  pub row : w.game ≡ some game
  pub line : IsLine js 0 js.starting_fen w.moves
  pub fen : game.fen ≡ last_fen js.starting_fen w.moves

-- The moves of the first are the first moves of the second.
abbrev pub Extends : World → World → Type 0
Extends v w = (tail : List MoveRow) × (w.moves ≡ v.moves ++ tail)

pub Extends-refl : (w : World) → Extends w w
Extends-refl w = ([], sym (append-nil w.moves))

pub Extends-trans : (u v w : World) → Extends u v → Extends v w → Extends u w
Extends-trans u v w (a, e) (b, f) =
    (a ++ b, f ∙ ap (λ (l : List MoveRow). l ++ b) e ∙ append_assoc u.moves a b)

SameRows-Extends : (v w : World) → SameRows v w → Extends v w
SameRows-Extends v w s = ([], sym s.moves ∙ sym (append-nil v.moves))

no_tail : (xs tail : List MoveRow) → length (xs ++ tail) ≤ length xs → tail ≡ []
no_tail xs [] h = refl
no_tail xs (t ∷ tail) h = absurd (omega (arith, length-append xs (t ∷ tail)))

pub find_game-row :
    (v : World) (g : OnlineGame)
    → v.game ≡ some g
    → find_game v ≡ some (to_game_row (length v.moves) g)
find_game-row v g row = ground (arith, row)

find_game_row :
    (v : World) (g : OnlineGame) (r : GameRow)
    → v.game ≡ some g
    → find_game v ≡ some r
    → (r.ply_count ≡ length v.moves) × (g ≡ r.game)
find_game_row v g r row found =
    let read : some (to_game_row (length v.moves) g) ≡ some r =
      sym (find_game-row v g row) ∙ found in
    let same = some-injective _ _ read in
    (sym (ap (λ (x : GameRow). x.ply_count) same), ap (λ (x : GameRow). x.game) same)

pub row_after-fen :
    (p : PlannedMove) (f : Option FinishGameInput) (g : OnlineGame)
    → (row_after p f g).fen ≡ p.validated.fen_after
row_after-fen p none g = refl
row_after-fen p (some f) g = refl

le_or_lt : (a b : ℕ) → (a ≤ b) ⊎ (b < a)
le_or_lt a b = omega arith

-- A move that is appended was planned where the moves were the same.
pub Planned-now :
    (js : ChessJs) (v w t : World) (p : PlannedMove)
    → IsGame js v
    → IsGame js w
    → Extends v w
    → Planned js v p
    → RowAppended p w t
    → (w.moves ≡ v.moves) × (p.row.ply_count ≡ length v.moves) × (v.game ≡ some p.row.game)
Planned-now js v w t p i j (tail, e) planned a =
    let here = find_game_row v i.game p.row i.row planned.found in
    let size = here.0 in
    let short : length w.moves ≤ length v.moves =
      elim (le_or_lt (length w.moves) (length v.moves)) [
        | inl le ↦ le
        | inr lt ↦
            let taken = line_has_ply js 0 js.starting_fen w.moves (length v.moves) j.line lt in
            absurd (
              not_both (subst (λ (n : ℕ). has_ply n w.moves ≡ true) (omega (arith, size)) taken)
                a.free)
      ] in
    let none_new =
      no_tail v.moves tail (subst (λ (l : List MoveRow). length l ≤ length v.moves) e short) in
    (
      e ∙ ap (λ (l : List MoveRow). v.moves ++ l) none_new ∙ append-nil v.moves,
      size,
      i.row ∙ ap some here.1,
    )

pub append_IsGame :
    (js : ChessJs) (v w t : World) (p : PlannedMove)
    → IsGame js v
    → IsGame js w
    → Extends v w
    → Planned js v p
    → RowAppended p w t
    → IsGame js t × (t.moves ≡ w.moves ++ (row_of p ∷ []))
append_IsGame js v w t p i j ext planned a =
    let (same, size, read) = Planned-now js v w t p i j ext planned a in
    let at_v : p.row.game.fen ≡ last_fen js.starting_fen v.moves =
      ap (λ (g : OnlineGame). g.fen) (some-injective _ _ (sym read ∙ i.row)) ∙ i.fen in
    let at_w : p.row.game.fen ≡ last_fen js.starting_fen w.moves =
      at_v ∙ ap (last_fen js.starting_fen) (sym same) in
    let legal : IsLegalMove js (last_fen js.starting_fen w.moves) (row_of p) = record {
      validated = p.validated;
      legal =
          subst (λ (f : Fen). validate_move js f p.validated.uci ≡ some p.validated) at_w
            planned.legal;
      san = refl;
      fen_after = refl;
      position_hash = refl;
    } in
    let number : ply_of p ≡ 0 + length w.moves + 1 =
      omega (arith, size, ap (length {A = MoveRow}) same) in
    let (line, last) = IsLine-snoc js 0 js.starting_fen w.moves (row_of p) j.line number legal in
    let moves = a.moves ∙ line_insert js 0 js.starting_fen w.moves (row_of p) j.line number in
    (
      record {
        game = row_after p a.finish a.before;
        row = a.is;
        line = subst (IsLine js 0 js.starting_fen) (sym moves) line;
        fen =
            row_after-fen p a.finish a.before
            ∙ sym last
            ∙ ap (last_fen js.starting_fen) (sym moves);
      },
      moves,
    )

pub RowEffect-IsGame :
    (js : ChessJs) (v w t : World)
    → IsGame js v
    → IsGame js w
    → Extends v w
    → RowEffect js v w t
    → IsGame js t × Extends w t
RowEffect-IsGame js v w t i j ext (row_keeps same) = (
  record {
    game = j.game;
    row = sym same.game ∙ j.row;
    line = subst (IsLine js 0 js.starting_fen) same.moves j.line;
    fen = j.fen ∙ ap (last_fen js.starting_fen) same.moves;
  },
  SameRows-Extends w t same,
)
RowEffect-IsGame js v w t i j ext (row_finishes f) = (
  record {
    game = with_finish f.finish f.before;
    row = f.is;
    line = subst (IsLine js 0 js.starting_fen) (sym f.moves) j.line;
    fen =
        ap (λ (g : OnlineGame). g.fen) (some-injective _ _ (sym f.was ∙ j.row))
        ∙ j.fen
        ∙ ap (last_fen js.starting_fen) (sym f.moves);
  },
  ([], f.moves ∙ sym (append-nil w.moves)),
)
RowEffect-IsGame js v w t i j ext (row_appends p planned a) =
    let (game, moves) = append_IsGame js v w t p i j ext planned a in (game, (row_of p ∷ [], moves))

-- The moves that are persisted are a game of chess, whatever interleaves and whatever happens to Redis
-- and to the events: from a game on whose moves are one, the rows are numbered from 1 on without a
-- gap, each records a move that `validateMove` allows in the position that the one before has led to,
-- the row of the game has the last position, and no row is ever changed or lost.
pub Later-IsGame :
    (js : ChessJs) {s t : World} → Later (Change js) s t → IsGame js s → IsGame js t × Extends s t
Later-IsGame js later =
    Later-induction (λ (s t : World). IsGame js s → IsGame js t × Extends s t)
      (λ w i. (i, Extends-refl w))
      (λ s v w t first second change i.
        let (j, before) = first i in
        let (k, between) = second j in
        let (l, after) = RowEffect-IsGame js v w t j k between (Change-RowEffect js v w t change) in
        (l, Extends-trans s w t (Extends-trans s v w before between) after))
      later
