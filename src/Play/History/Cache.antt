-- ===== src/Play/History/Cache.antt =====
-- Play: the clock that Redis keeps is a cache of the moves that the database keeps.
use mathlib.Core.Path.{subst}
use mathlib.Core.Option.{some-injective}
use farzin.Prelude.{
  ℕ, suc, ◌+◌, ◌%◌, ◌≡◌, refl, sym, ap, ◌∙◌, ◌⊎◌, inl, inr, arith, true, false, Option, none, some,
  List, [], ◌∷◌, ◌++◌, length, ok, ◌==◌, Bool-cases, Option-cases, Result-cases, if◌then◌else◌,
}
use farzin.Prelude.Int.{ℤ}
use farzin.Clock.{
  ClockSide, white, black, opposite, side_eq, ClockConfig, ClockState, ApplyMoveResult, apply_move,
  remaining_of,
}
use farzin.Clock.Agreement.{apply_move-remaining}
use farzin.Chess.{ChessJs, Fen, Uci, TakesTurns, ValidatedMove, validate_move}
use farzin.Play.Rows.{OnlineGame, GameRow, MoveRow, ClockEntry, FinishGameInput}
use farzin.Play.Store.{World}
use farzin.Play.Service.{
  clock_config, log_time, logged_times, load_from, load_state, PlannedMove, runs, row_of, ply_of,
  mover_ms,
}
use farzin.Play.Moves.{clock_after}
use farzin.Play.History.{Later, Step}
use farzin.Play.History.Effects.{Appended, row_after}
use farzin.Play.History.Appends.{Planned}
use farzin.Play.History.Induction.{Effect, keeps, finishes, appends, Step-Effect, Later-induction}
use farzin.Play.History.Transactions.{Appended-RowAppended, Effect-RowEffect}
use farzin.Play.History.Log.{
  IsGame, IsLine, IsLegalMove, last_fen, Extends, Extends-refl, Extends-trans, Planned-now,
  append_IsGame, RowEffect-IsGame, row_after-fen,
}

abbrev base_of : OnlineGame → ℤ × ℤ
base_of g = let base = (clock_config g).base_ms in (base, base)

-- Nothing but the time of the last event is in the clock that is not in the moves.
pub record Mirrors (js : ChessJs) (g : OnlineGame) (moves : List MoveRow) (s : ClockState)
    : Type 0 where
  pub white_left : s.white_remaining_ms ≡ (logged_times (base_of g) moves).0
  pub black_left : s.black_remaining_ms ≡ (logged_times (base_of g) moves).1
  pub turn : s.turn ≡ js.side_to_move g.fen

logged_times-snoc :
    (t : ℤ × ℤ) (ms : List MoveRow) (m : MoveRow)
    → logged_times t (ms ++ (m ∷ [])) ≡ log_time (logged_times t ms) m
logged_times-snoc t [] m = refl
logged_times-snoc t (x ∷ ms) m = logged_times-snoc (log_time t x) ms m

-- White has the odd plies.
abbrev side_at : ℕ → ClockSide
side_at n = if n % 2 == 0 then white else black

opposite-side_at : (n : ℕ) → opposite (side_at n) ≡ side_at (suc n)
opposite-side_at n = ground arith

module _ (js : ChessJs) (law : TakesTurns js) where
  validate_move-turn :
      (fen : Fen) (uci : Uci) {v : ValidatedMove}
      → validate_move js fen uci ≡ some v
      → js.side_to_move v.fen_after ≡ opposite (js.side_to_move fen)
  unfolding validate_move
  validate_move-turn fen uci h = elim (Option-cases (js.play fen uci)) [
    | inl illegal ↦ absurd (ground (arith, illegal))
    | inr (m, played) ↦ ground (arith, played, law.passes fen uci played)
  ]

  legal_turn :
      (fen : Fen) (m : MoveRow)
      → IsLegalMove js fen m
      → js.side_to_move m.fen_after ≡ opposite (js.side_to_move fen)
  legal_turn fen m legal =
      ap js.side_to_move legal.fen_after ∙ validate_move-turn fen m.uci legal.legal

  line_turn :
      (n : ℕ) (fen : Fen) (ms : List MoveRow)
      → IsLine js n fen ms
      → js.side_to_move fen ≡ side_at n
      → js.side_to_move (last_fen fen ms) ≡ side_at (n + length ms)
  line_turn n fen [] line h = h ∙ ap side_at (omega arith)
  line_turn n fen (m ∷ ms) line h =
      let next : js.side_to_move m.fen_after ≡ side_at (suc n) =
        legal_turn fen m line.1 ∙ ap opposite h ∙ opposite-side_at n in
      line_turn (suc n) m.fen_after ms line.2 next ∙ ap side_at (omega arith)

-- The entry in Redis, if there is one, mirrors the moves.
abbrev pub IsMirrored : ChessJs → World → Type 0
IsMirrored js w =
    (g : OnlineGame) (e : ClockEntry)
    → w.game ≡ some g
    → w.clock ≡ some e
    → Mirrors js g w.moves e.state

load_from-Mirrors :
    (js : ChessJs) (v : World) (r : GameRow) (now_ms : ℤ) (o : Option ClockEntry)
    → v.game ≡ some r.game
    → v.clock ≡ o
    → IsMirrored js v
    → Mirrors js r.game v.moves (load_from js o v r now_ms)
load_from-Mirrors js v r now_ms none row kept m = record {
  white_left = refl;
  black_left = refl;
  turn = refl;
}
load_from-Mirrors js v r now_ms (some e) row kept m = m r.game e row kept

-- Where the clock of a planned move comes from.
clock_after-cases :
    (js : ChessJs) (v : World) (r : GameRow) (now_ms : ℤ) {s : ClockState} {n : Option ℕ}
    {elapsed : ℤ}
    → clock_after js v r now_ms ≡ ok (runs s n elapsed)
    → ((r.ply_count ≡ 0)
        × (s ≡ record {
          white_remaining_ms = (clock_config r.game).base_ms;
          black_remaining_ms = (clock_config r.game).base_ms;
          turn = black;
          last_event_at_ms = now_ms;
        }))
      ⊎ ((a : ApplyMoveResult) × (apply_move (clock_config r.game) (load_state js v r now_ms) now_ms
            ≡ ok a)
          × (a.flagged ≡ false)
          × (a.state ≡ s))
unfolding clock_after
clock_after-cases js v r now_ms h = elim (Bool-cases (r.ply_count + 1 == 1)) [
  | inl first ↦ inl (ground (arith, first), ground (arith, first))
  | inr later ↦
      elim (Result-cases (apply_move (clock_config r.game) (load_state js v r now_ms) now_ms)) [
        | inr (e, thrown) ↦ absurd (ground (arith, later, thrown))
        | inl (a, applied) ↦
            inr (a, applied, ground (arith, later, applied), ground (arith, later, applied))
      ]
]

-- The clock of a move: the mover's time is new, the other's is as before, and the turn has passed.
record Passes (side : ClockSide) (before after : ClockState) : Type 0 where
  other : mover_ms (opposite side) after ≡ mover_ms (opposite side) before
  turn : after.turn ≡ opposite side

times_after :
    (g g' : OnlineGame) (moves : List MoveRow) (m : MoveRow)
    → clock_config g' ≡ clock_config g
    → logged_times (base_of g') (moves ++ (m ∷ [])) ≡ log_time (logged_times (base_of g) moves) m
times_after g g' moves m config =
    ap (λ (c : ClockConfig). logged_times (c.base_ms, c.base_ms) (moves ++ (m ∷ []))) config
    ∙ logged_times-snoc (base_of g) moves m

Passes-Mirrors :
    (js : ChessJs) (g : OnlineGame) (moves : List MoveRow) (side : ClockSide)
    (before after : ClockState) (m : MoveRow) (g' : OnlineGame)
    → Mirrors js g moves before
    → Passes side before after
    → m.clock_after_ms ≡ some (mover_ms side after)
    → side_at (m.ply + 1) ≡ side
    → clock_config g' ≡ clock_config g
    → js.side_to_move g'.fen ≡ opposite side
    → Mirrors js g' (moves ++ (m ∷ [])) after
Passes-Mirrors js g moves white before after m g' b p logged ply config turn =
    let t = logged_times (base_of g) moves in
    let times = times_after g g' moves m config in
    let odd : log_time t m ≡ (after.white_remaining_ms, t.1) = ground (arith, logged, ply) in
    record {
      white_left = sym (ap (λ (x : ℤ × ℤ). x.0) (times ∙ odd));
      black_left = p.other ∙ b.black_left ∙ sym (ap (λ (x : ℤ × ℤ). x.1) (times ∙ odd));
      turn = p.turn ∙ sym turn;
    }
Passes-Mirrors js g moves black before after m g' b p logged ply config turn =
    let t = logged_times (base_of g) moves in
    let times = times_after g g' moves m config in
    let even : log_time t m ≡ (t.0, after.black_remaining_ms) = ground (arith, logged, ply) in
    record {
      white_left = p.other ∙ b.white_left ∙ sym (ap (λ (x : ℤ × ℤ). x.0) (times ∙ even));
      black_left = sym (ap (λ (x : ℤ × ℤ). x.1) (times ∙ even));
      turn = p.turn ∙ sym turn;
    }

side_eq-same : (a b : ClockSide) → side_eq a b ≡ true → a ≡ b
side_eq-same a b h = ground arith

mover-remaining : (side : ClockSide) (s : ClockState) → remaining_of s side ≡ mover_ms side s
unfolding remaining_of
mover-remaining white s = refl
mover-remaining black s = refl

row_after-config :
    (p : PlannedMove) (f : Option FinishGameInput) (g : OnlineGame)
    → clock_config (row_after p f g) ≡ clock_config g
row_after-config p none g = refl
row_after-config p (some f) g = refl

applied-Passes :
    (side : ClockSide) (c : ClockConfig) (s : ClockState) (now_ms : ℤ) {a : ApplyMoveResult}
    → s.turn ≡ side
    → apply_move c s now_ms ≡ ok a
    → a.flagged ≡ false
    → Passes side s a.state
applied-Passes side c s now_ms {a = a} turn applied goes_on =
    let (_, other, passed, _) = apply_move-remaining c s now_ms applied goes_on in
    let kept : remaining_of a.state (opposite side) ≡ remaining_of s (opposite side) =
      subst (λ (x : ClockSide). remaining_of a.state (opposite x) ≡ remaining_of s (opposite x))
        turn other in
    record {
      other =
          sym (mover-remaining (opposite side) a.state) ∙ kept ∙ mover-remaining (opposite side) s;
      turn = passed ∙ ap opposite turn;
    }

pub kept_lost : {o : Option ClockEntry} {e : ClockEntry} → o ≡ none → o ≡ some e → ⊥
kept_lost lost kept = cc

Appended-clock :
    (p : PlannedMove) (w t : World) (a : Appended p w t) (e : ClockEntry)
    → t.clock ≡ some e
    → p.new_clock ≡ e.state
Appended-clock p w t a e kept = elim a.log [
  | inr (f, _, _, _, cleared) ↦ absurd (kept_lost cleared kept)
  | inl (_, _, _, clock) ↦ elim clock [
    | inl lost ↦ absurd (kept_lost lost kept)
    | inr (n, set) ↦ ap (λ (x : ClockEntry). x.state) (some-injective _ _ (sym set ∙ kept))
  ]
]

length-zero : (xs : List MoveRow) → length xs ≡ 0 → xs ≡ []
length-zero [] h = refl
length-zero (x ∷ xs) h = absurd (omega arith)

side_at-two : (n : ℕ) → side_at (n + 1 + 1) ≡ side_at n
side_at-two n = ground arith

-- The time control of the game is the same.
abbrev pub SameConfig : World → World → Type 0
SameConfig v w =
    (g h : OnlineGame) → v.game ≡ some g → w.game ≡ some h → clock_config h ≡ clock_config g

row_config :
    (w : World) {g h : OnlineGame}
    → w.game ≡ some g
    → w.game ≡ some h
    → clock_config h ≡ clock_config g
row_config w e f = ap clock_config (some-injective _ _ (sym f ∙ e))

module _ (js : ChessJs) (law : TakesTurns js) where
  -- A move planned where the entry mirrors the moves passes a clock that does.
  Planned-Passes :
      (v : World) (p : PlannedMove)
      → IsGame js v
      → IsMirrored js v
      → Planned js v p
      → v.game ≡ some p.row.game
      → p.row.ply_count ≡ length v.moves
      → p.side ≡ side_at (length v.moves)
      → (before : ClockState) × Mirrors js p.row.game v.moves before
        × Passes p.side before p.new_clock
  Planned-Passes v p i m planned row size side =
      let side_now = side_eq-same (js.side_to_move p.row.game.fen) p.side planned.turn in
      elim (clock_after-cases js v p.row planned.now_ms planned.clock) [
        | inl (first, free) ↦
            let base = (clock_config p.row.game).base_ms in
            let before : ClockState = record {
              white_remaining_ms = base;
              black_remaining_ms = base;
              turn = js.side_to_move p.row.game.fen;
              last_event_at_ms = planned.now_ms;
            } in
            let empty = length-zero v.moves (sym size ∙ first) in
            let start : p.side ≡ white = side ∙ ap side_at (sym size ∙ first) in
            (
              before,
              subst (λ (l : List MoveRow). Mirrors js p.row.game l before) (sym empty)
                  (record { white_left = refl; black_left = refl; turn = refl }),
              subst (λ (x : ClockSide). Passes x before p.new_clock) (sym start)
                  (subst (Passes white before) (sym free) (record { other = refl; turn = refl })),
            )
        | inr (a, applied, goes_on, new) ↦
            let before = load_state js v p.row planned.now_ms in
            let b = load_from-Mirrors js v p.row planned.now_ms v.clock row refl m in
            (
              before,
              b,
              subst (Passes p.side before) new (
                  applied-Passes p.side (clock_config p.row.game) before planned.now_ms
                    (b.turn ∙ side_now) applied goes_on),
            )
      ]

  -- After an append, the new clock mirrors the moves.
  Appended-Mirrors :
      (v w t : World) (p : PlannedMove) (g : OnlineGame)
      → IsGame js v
      → IsMirrored js v
      → IsGame js w
      → Extends v w
      → SameConfig v w
      → Planned js v p
      → Appended p w t
      → t.game ≡ some g
      → Mirrors js g t.moves p.new_clock
  Appended-Mirrors v w t p g i m j ext config planned a row =
      let (same, size, read) = Planned-now js v w t p i j ext planned (Appended-RowAppended a) in
      let (k, moves) = append_IsGame js v w t p i j ext planned (Appended-RowAppended a) in
      let at_v : p.row.game.fen ≡ last_fen js.starting_fen v.moves =
        ap (λ (x : OnlineGame). x.fen) (some-injective _ _ (sym read ∙ i.row)) ∙ i.fen in
      let turn_now = side_eq-same (js.side_to_move p.row.game.fen) p.side planned.turn in
      let side : p.side ≡ side_at (length v.moves) =
        sym turn_now
        ∙ ap js.side_to_move at_v
        ∙ line_turn js law 0 js.starting_fen v.moves i.line law.starts
        ∙ ap side_at (omega arith) in
      let (before, b, passes) = Planned-Passes v p i m planned read size side in
      let written : row_after p a.finish a.before ≡ g = some-injective _ _ (sym a.is ∙ row) in
      let next : js.side_to_move (row_after p a.finish a.before).fen ≡ opposite p.side =
        ap js.side_to_move (row_after-fen p a.finish a.before)
        ∙ validate_move-turn js law p.row.game.fen p.validated.uci planned.legal
        ∙ ap opposite turn_now in
      let same_config : clock_config (row_after p a.finish a.before) ≡ clock_config p.row.game =
        row_after-config p a.finish a.before ∙ config p.row.game a.before read a.was in
      let ply : side_at (ply_of p + 1) ≡ p.side =
        ap (λ (n : ℕ). side_at (n + 1 + 1)) size ∙ side_at-two (length v.moves) ∙ sym side in
      let mirrors =
        Passes-Mirrors js p.row.game v.moves p.side before p.new_clock (row_of p)
          (row_after p a.finish a.before) b passes refl ply same_config next in
      let log : v.moves ++ (row_of p ∷ []) ≡ t.moves =
        sym (moves ∙ ap (λ (l : List MoveRow). l ++ (row_of p ∷ [])) same) in
      subst (λ (l : List MoveRow). Mirrors js g l p.new_clock) log
        (subst (λ (x : OnlineGame). Mirrors js x (v.moves ++ (row_of p ∷ [])) p.new_clock) written
          mirrors)

  Effect-IsMirrored :
      (v w t : World)
      → IsGame js v
      → IsMirrored js v
      → IsGame js w
      → IsMirrored js w
      → Extends v w
      → SameConfig v w
      → Effect js v w t
      → IsMirrored js t × SameConfig w t
  Effect-IsMirrored v w t i m j n ext config (keeps same clock) = (
    λ g e row kept. elim clock [
      | inl held ↦
          subst (λ (l : List MoveRow). Mirrors js g l e.state) same.moves
            (n g e (same.game ∙ row) (sym held ∙ kept))
      | inr lost ↦ absurd (kept_lost lost kept)
    ],
    λ g h e f. row_config t (sym same.game ∙ e) f,
  )
  Effect-IsMirrored v w t i m j n ext config (finishes f) = (
    λ g e row kept. absurd (kept_lost f.clock kept),
    λ g h e k. row_config t f.is k ∙ row_config w e f.was,
  )
  Effect-IsMirrored v w t i m j n ext config (appends p planned a) = (
    λ g e row kept.
        let mirrors = Appended-Mirrors v w t p g i m j ext config planned a row in
        let new = Appended-clock p w t a e kept in subst (Mirrors js g t.moves) new mirrors,
    λ g h e k. row_config t a.is k ∙ row_after-config p a.finish a.before ∙ row_config w e a.was,
  )

  -- Redis only caches the clock: while white begins and moves take turns, and the writes of each request run
  -- whole, with no other write between them and no call to Redis that fails, an entry of the clock has the
  -- times of both sides and the turn that `reconstructClock` reads from the moves in the database. What
  -- a request has read may be of any earlier state, and the entry may be lost at any time.
  pub Later-IsMirrored :
      {s t : World} → Later (Step js) s t → IsGame js s → IsMirrored js s → IsMirrored js t
  Later-IsMirrored {s} {t} later i m =
      (Later-induction
        (λ (s t : World).
          IsGame js s × IsMirrored js s
          → IsGame js t × IsMirrored js t × Extends s t × SameConfig s t)
        (λ w (i, m). (i, m, Extends-refl w, λ g h e f. row_config w e f))
        (λ s v w t first second written at_s.
          let effect = Step-Effect js v w t written in
          let (i, m, before, c) = first at_s in
          let (j, n, between, d) = second (i, m) in
          let (k, after) =
            RowEffect-IsGame js v w t i j between (Effect-RowEffect js v w t effect) in
          let (o, e) = Effect-IsMirrored v w t i m j n between d effect in
          (
            k,
            o,
            Extends-trans s w t (Extends-trans s v w before between) after,
            λ g h row row'.
                e j.game h j.row row' ∙ d i.game j.game i.row j.row ∙ c g i.game row i.row,
          ))
        later (i, m)).1
