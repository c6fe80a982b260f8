-- ===== src/Play/History/Appends.antt =====
-- play.service.ts: what `makeMove` has found out when it writes, and what the write does.
use mathlib.Core.Path.{subst}
use farzin.Prelude.{
  ℕ, ◌+◌, ◌≡◌, refl, sym, ap, ◌∙◌, ◌⊎◌, inl, inr, arith, Bool, true, false, Option, none, some,
  Result, ok, err, >>=-eq-ok, Bool-cases, Option-cases, if◌then◌else◌, if_both, ok-injective, ◌==◌,
  [],
}
use farzin.Prelude.Int.{ℤ}
use farzin.Clock.{ClockSide, ClockState, ClockError, side_eq}
use farzin.Chess.{
  ChessJs, Fen, Uci, ValidatedMove, PositionEnd, validate_move, game_end_from_position,
}
use farzin.Play.Rows.{OnlineGameStatus, OnlineGame, GameRow, MoveRow, ClockEntry, FinishGameInput}
use farzin.Play.Store.{
  World, is_active, find_game, has_ply, append_to, write_move, update_clock, update_from,
  init_version, init_clock, clear_keys, audit_of,
}
use farzin.Play.Service.{
  persist, PlannedMove, MoveClock, flagged, runs, row_of, finish_with, finish_input_of, set_clock,
  or_clear, after_append_as, finished_event, update_or_clear, status_of, clocked, ply_of, sans_of,
}
use farzin.Play.Moves.{
  side_of, clock_after, end_status_of, plan_from, plan_turn, plan_as, plan_for, plan_move,
  or_threefold,
}
use farzin.Play.History.Effects.{Same, Appended, EndsGame}

-- A planned move is of an active game, of the side to move, legal, with the clock of step 4.
pub record Planned (js : ChessJs) (v : World) (p : PlannedMove) : Type 0 where
  pub found : find_game v ≡ some p.row
  pub live : is_active p.row.game.status ≡ true
  pub turn : side_eq (js.side_to_move p.row.game.fen) p.side ≡ true
  pub legal : validate_move js p.row.game.fen p.validated.uci ≡ some p.validated
  pub now_ms : ℤ
  pub clock : clock_after js v p.row now_ms ≡ ok (runs p.new_clock p.entry_version p.elapsed_ms)
  pub ending : EndsGame p.end_status

clocked-ok : {A : Type 0} (r : Result ClockError A) {a : A} → clocked r ≡ ok a → r ≡ ok a
clocked-ok (err e) h = cc
clocked-ok (ok b) h = cc

status_over : (e : PositionEnd) → is_active (status_of e) ≡ false
status_over e = ground arith

or_threefold-EndsGame :
    (repeated : Bool) (o : Option PositionEnd) → EndsGame (or_threefold repeated o)
or_threefold-EndsGame true none = refl
or_threefold-EndsGame false none = tt
or_threefold-EndsGame repeated (some e) = status_over e

module _ (js : ChessJs) where
  end_status_of-EndsGame : (w : World) (m : ValidatedMove) → EndsGame (end_status_of js w m)
  unfolding end_status_of
  end_status_of-EndsGame w m = or_threefold-EndsGame _ (game_end_from_position js m.fen_after [])

  pub validate_move-uci :
      (fen : Fen) (uci : Uci) {m : ValidatedMove} → validate_move js fen uci ≡ some m → m.uci ≡ uci
  unfolding validate_move
  validate_move-uci fen uci h = ground arith

  plan_from-Planned :
      (v : World) (g : GameRow) (side : ClockSide) (uci : Uci) (now_ms : ℤ) (clock : MoveClock)
      {p : PlannedMove}
      → find_game v ≡ some g
      → is_active g.game.status ≡ true
      → side_eq (js.side_to_move g.game.fen) side ≡ true
      → clock_after js v g now_ms ≡ ok clock
      → plan_from js v g side uci clock ≡ persist p
      → Planned js v p
  plan_from-Planned v g side uci now_ms (flagged state) a b c d e = cc
  plan_from-Planned v g side uci now_ms (runs state version elapsed) {p = p} a b c d e =
      elim (Option-cases (validate_move js g.game.fen uci)) [
        | inl illegal ↦ absurd (ground (arith, illegal))
        | inr (m, legal) ↦
            let planned : PlannedMove = record {
              row = g;
              side = side;
              validated = m;
              new_clock = state;
              entry_version = version;
              elapsed_ms = elapsed;
              end_status = end_status_of js v m;
              prior_sans = sans_of v.moves;
            } in
            let same : planned ≡ p = ground (arith, legal) in
            subst (Planned js v) same (record {
              found = a;
              live = b;
              turn = c;
              legal =
                  ap (validate_move js g.game.fen) (validate_move-uci g.game.fen uci legal) ∙ legal;
              now_ms = now_ms;
              clock = d;
              ending = end_status_of-EndsGame v m;
            })
      ]

  plan_turn-Planned :
      (v : World) (g : GameRow) (side : ClockSide) (uci : Uci) (now_ms : ℤ) {p : PlannedMove}
      → find_game v ≡ some g
      → is_active g.game.status ≡ true
      → plan_turn js v g side uci now_ms ≡ ok (persist p)
      → Planned js v p
  plan_turn-Planned v g side uci now_ms found live h =
      elim (Bool-cases (side_eq (js.side_to_move g.game.fen) side)) [
        | inr wait ↦ absurd (ground (arith, wait))
        | inl turn ↦
            let (clock, read, rest) =
              >>=-eq-ok (clocked (clock_after js v g now_ms)) _ (rw turn at h) in
            plan_from-Planned v g side uci now_ms clock found live turn
              (clocked-ok (clock_after js v g now_ms) read) (ok-injective rest)
      ]

  plan_as-Planned :
      (v : World) (g : GameRow) (uci : Uci) (now_ms : ℤ) (o : Option ClockSide) {p : PlannedMove}
      → find_game v ≡ some g
      → is_active g.game.status ≡ true
      → plan_as js v g uci now_ms o ≡ ok (persist p)
      → Planned js v p
  plan_as-Planned v g uci now_ms none found live h = absurd (ground arith)
  plan_as-Planned v g uci now_ms (some side) found live h =
      plan_turn-Planned v g side uci now_ms found live h

  plan_for-Planned :
      (v : World) (me : Option ℕ) (uci : Uci) (now_ms : ℤ) (o : Option GameRow) {p : PlannedMove}
      → find_game v ≡ o
      → plan_for js v me uci now_ms o ≡ ok (persist p)
      → Planned js v p
  plan_for-Planned v me uci now_ms none found h = absurd (ground arith)
  plan_for-Planned v me uci now_ms (some g) found h = elim (Bool-cases (is_active g.game.status)) [
    | inr over ↦ absurd (ground (arith, over))
    | inl live ↦ plan_as-Planned v g uci now_ms (side_of me g.game) found live (rw live at h)
  ]

  pub plan_move-Planned :
      (v : World) (me : Option ℕ) (uci : Uci) (now_ms : ℤ) {p : PlannedMove}
      → plan_move js v me uci now_ms ≡ ok (persist p)
      → Planned js v p
  unfolding plan_move
  plan_move-Planned v me uci now_ms h = plan_for-Planned v me uci now_ms (find_game v) refl h

set-Same : (w : World) (version : ℕ) (state : ClockState) → Same w (init_version w version state)
set-Same w version state = record { game = refl; moves = refl; audits = refl; events = refl }

cleared-Same : (w : World) → Same w (clear_keys w)
cleared-Same w = record { game = refl; moves = refl; audits = refl; events = refl }

-- The clock's entry is the new one, or there is none.
abbrev pub HasClock : ClockState → World → Type 0
HasClock state t =
    (t.clock ≡ none) ⊎ ((n : ℕ) × (t.clock ≡ some (record { version = n; state = state })))

update_from-HasClock :
    (o : Option ClockEntry) (w : World) (version : ℕ) (state : ClockState)
    → let t = or_clear (update_from o w version state) in Same w t × HasClock state t
update_from-HasClock none w version state = (cleared-Same w, inl refl)
update_from-HasClock (some e) w version state = elim (Bool-cases (e.version == version)) [
  | inl current ↦ rw current (set-Same w (version + 1) state, inr (version + 1, refl))
  | inr stale ↦ rw stale (cleared-Same w, inl refl)
]

set_clock-HasClock :
    (state : ClockState) (w : World) (o : Option ℕ)
    → Same w (set_clock state w o) × HasClock state (set_clock state w o)
unfolding update_or_clear update_clock
set_clock-HasClock state w none = (set-Same w 1 state, inr (1, refl))
set_clock-HasClock state w (some version) = update_from-HasClock w.clock w version state

pub written-HasClock :
    (p : PlannedMove) (w : World)
    → let t =
        if ply_of p == 1
        then init_clock w p.new_clock
        else set_clock p.new_clock w p.entry_version in
      Same w t × HasClock p.new_clock t
written-HasClock p w =
    if_both (λ (t : World). Same w t × HasClock p.new_clock t) (ply_of p == 1)
      (set-Same w 1 p.new_clock, inr (1, refl)) (set_clock-HasClock p.new_clock w p.entry_version)

pub append_to-ok :
    (o : Option OnlineGame) (w : World) (m : MoveRow) (f : Option FinishGameInput) {t : World}
    → append_to o w m f ≡ ok t
    → (g : OnlineGame) × (o ≡ some g)
      × (is_active g.status ≡ true)
      × (has_ply m.ply w.moves ≡ false)
      × (write_move m f g w ≡ t)
append_to-ok none w m f h = absurd (ground arith)
append_to-ok (some g) w m f h = elim (Bool-cases (has_ply m.ply w.moves)) [
  | inl taken ↦ absurd (ground (arith, taken))
  | inr free ↦ elim (Bool-cases (is_active g.status)) [
    | inr over ↦ absurd (ground (arith, free, over))
    | inl live ↦ (g, refl, live, free, ok-injective (rw (free, live) at h))
  ]
]

pub appended :
    (p : PlannedMove) (user_id : ℕ) (o : Option OnlineGameStatus) (g : OnlineGame) (w : World)
    → w.game ≡ some g
    → is_active g.status ≡ true
    → has_ply (ply_of p) w.moves ≡ false
    → EndsGame o
    → Appended p w (after_append_as p (write_move (row_of p) (finish_with p user_id o) g w) o)
appended p user_id none g w was live free over =
    let a = write_move (row_of p) none g w in
    let (same, clock) = written-HasClock p a in
    record {
      before = g;
      finish = none;
      was = was;
      was_active = live;
      is = sym same.game;
      free = free;
      moves = sym same.moves;
      log = inl (refl, sym same.audits, sym same.events, clock);
    }
appended p user_id (some status) g w was live free over = record {
  before = g;
  finish = finish_with p user_id (some status);
  was = was;
  was_active = live;
  is = refl;
  free = free;
  moves = refl;
  log = inr (
    finish_input_of p user_id status,
    refl,
    over,
    record {
      audit = audit_of (some (ply_of p)) (finish_input_of p user_id status);
      audits = refl;
      event = finished_event p.row status;
      events = refl;
      audit_status = refl;
      audit_winner = refl;
      event_status = refl;
    },
    refl,
  );
}
