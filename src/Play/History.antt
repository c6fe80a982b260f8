-- ===== src/Play/History.antt =====
-- Play: how the state of a game changes while the requests of several users, the timers and the sweepers
-- interleave. A request reads, and writes later: what it has read is of an earlier state.
pub mod Effects
pub mod Appends
pub mod Transactions
pub mod Induction
pub mod Grain
pub mod Final
pub mod Log
pub mod Cache
pub mod Requests
pub mod Start
use farzin.Prelude.{ℕ, ◌≡◌, Bool, true, false, Option, none, some, Result, ok}
use farzin.Prelude.Int.{ℤ}
use farzin.Clock.{ClockSide, ClockState}
use farzin.Chess.{ChessJs, Uci}
use farzin.Play.Rows.{OnlineGameStatus, GameRow, MoveResult, GameEnded, FinishGameInput}
use farzin.Play.Store.{
  World, is_active, find_game, set_draw_offer, clear_draw_offer, set_presence, clear_presence,
  mark_gone, clear_gone, append_move, finish_game,
}
use farzin.Play.Service.{
  MovePlan, PlannedMove, persist, row_of, finish_of, finish_no_move, finish_by_timeout,
}
use farzin.Play.Moves.{plan_move, commit_move}

-- A write to Redis alone; the entry of the clock may be lost there.
pub data KeyWrite (w : World) : World → Type 0 where
  offers : (side : ClockSide) → KeyWrite w (set_draw_offer w side)
  withdraws : KeyWrite w (clear_draw_offer w)
  arrives : (side : ClockSide) → KeyWrite w (set_presence w side)
  leaves : (side : ClockSide) → KeyWrite w (clear_presence w side)
  marks : (side : ClockSide) (at_ms : ℤ) → KeyWrite w (mark_gone w side at_ms)
  unmarks : (side : ClockSide) → KeyWrite w (clear_gone w side)
  loses_clock : KeyWrite w (record w { clock = none })

-- What a request writes in the state `w`, which gives `t`, when it has read the state `v`. Its writes run
-- whole here: the transaction of the database, then the keys and the event, with nothing between and
-- with no call to Redis that fails. The entry of the clock may be lost at any time.
pub data Step (js : ChessJs) (v w t : World) : Type 0 where
  moves :
      {plan : MovePlan} {r : MoveResult} (me : Option ℕ) (uci : Uci) (read_ms : ℤ) (user_id : ℕ)
      (now_ms : ℤ)
      → plan_move js v me uci read_ms ≡ ok plan
      → commit_move js w plan user_id now_ms ≡ ok (t, r)
      → Step js v w t
  ends :
      {g : GameRow} {r : Option GameEnded} (status : OnlineGameStatus) (winner : Option ClockSide)
      (actor : Option ℕ) (now_ms : ℤ)
      → find_game v ≡ some g
      → is_active status ≡ false
      → finish_no_move js w g status winner actor now_ms ≡ ok (t, r)
      → Step js v w t
  times_out :
      {g : GameRow} {r : Option GameEnded} (loser : ClockSide) (clock : ClockState)
      (actor : Option ℕ) (now_ms : ℤ)
      → find_game v ≡ some g
      → finish_by_timeout js w g loser clock actor now_ms ≡ (t, r)
      → Step js v w t
  writes : KeyWrite w t → Step js v w t

-- A write at the grain of the code, in the state `w`, by a request that has read the state `v`: one
-- transaction of the database, or anything that happens to the keys in Redis and to the events, which
-- the code writes after the transaction. There each write may come late, fail or be lost.
pub data Change (js : ChessJs) (v w t : World) : Type 0 where
  appending :
      {p : PlannedMove} (me : Option ℕ) (uci : Uci) (read_ms : ℤ) (user_id : ℕ)
      → plan_move js v me uci read_ms ≡ ok (persist p)
      → append_move w (row_of p) (finish_of p user_id) ≡ ok t
      → Change js v w t
  finishing :
      (finish : FinishGameInput)
      → is_active finish.status ≡ false
      → finish_game w finish ≡ some t
      → Change js v w t
  elsewhere : w.game ≡ t.game → w.moves ≡ t.moves → w.audits ≡ t.audits → Change js v w t

-- The second state comes after the first: each request has read a state that came before its write.
pub data Later (Writes : World → World → World → Type 0) : World → World → Type 0 where
  now : {w : World} → Later Writes w w
  step : {s v w t : World} → Later Writes s v → Later Writes v w → Writes v w t → Later Writes s t

-- Writes in a row, by requests that may have read any state at all, also one from before.
pub data Written (Writes : World → World → World → Type 0) (s : World) : World → Type 0 where
  nothing : Written Writes s s
  write : {v w t : World} → Written Writes s w → Writes v w t → Written Writes s t
