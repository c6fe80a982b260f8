-- ===== src/Play/History/Start.antt =====
-- play.service.ts: a game that is created is well-formed, so all that holds of later states holds from then on.
use mathlib.Core.Path.{subst}
use mathlib.Core.Option.{some-injective}
use farzin.Prelude.{
  ◌≡◌, refl, sym, ap, inl, none, List, [], Result, ok, err, >>=-eq-ok, ok-injective,
}
use farzin.Prelude.Int.{ℤ}
use farzin.Clock.{white, ClockState, ClockError, create_clock, assert_supported}
use farzin.Chess.{ChessJs, TakesTurns}
use farzin.Play.Rows.{CreateGameInput, OnlineGame, MoveRow, ClockEntry}
use farzin.Play.Store.{World, create_game, new_game}
use farzin.Play.Service.{create_game_with_clock, clock_config, start_clock}
use farzin.Play.History.Final.{IsBooked}
use farzin.Play.History.Log.{IsGame, IsLine, last_fen}
use farzin.Play.History.Cache.{IsMirrored, Mirrors, kept_lost}

-- Nothing is kept of the game yet.
pub record IsUnused (w : World) : Type 0 where
  pub moves : w.moves ≡ []
  pub audits : w.audits ≡ []
  pub clock : w.clock ≡ none

pub record IsWellFormed (js : ChessJs) (w : World) : Type 0 where
  pub is_game : IsGame js w
  pub is_mirrored : IsMirrored js w
  pub is_booked : IsBooked w

module _ (js : ChessJs) (law : TakesTurns js) where
  created_IsWellFormed :
      (input : CreateGameInput) (w : World)
      → IsUnused w
      → IsWellFormed js (create_game js.starting_fen input w)
  unfolding create_game
  created_IsWellFormed input w u = record {
    is_game = record {
      game = new_game js.starting_fen input;
      row = refl;
      line = subst (IsLine js 0 js.starting_fen) (sym u.moves) tt;
      fen = ap (last_fen js.starting_fen) (sym u.moves);
    };
    is_mirrored = λ g e row kept. absurd (kept_lost u.clock kept);
    is_booked = record {
      game = new_game js.starting_fen input;
      row = refl;
      booked = inl (refl, u.audits);
    };
  }

  clock_Mirrors :
      (input : CreateGameInput) (w : World) (now_ms : ℤ) {state : ClockState}
      → IsUnused w
      → create_clock (clock_config (new_game js.starting_fen input)) white now_ms ≡ ok state
      → Mirrors js (new_game js.starting_fen input) w.moves state
  unfolding create_clock
  clock_Mirrors input w now_ms {state = state} u h =
      let config = clock_config (new_game js.starting_fen input) in
      let (_, _, done) = >>=-eq-ok (assert_supported config) _ h in
      let same = ok-injective done in
      subst (λ (l : List MoveRow). Mirrors js (new_game js.starting_fen input) l state)
        (sym u.moves)
        (subst (Mirrors js (new_game js.starting_fen input) []) same
          (record { white_left = refl; black_left = refl; turn = sym law.starts }))

  started_IsWellFormed :
      (input : CreateGameInput) (w : World) (now_ms : ℤ) (r : Result ClockError ClockState)
      → IsUnused w
      → create_clock (clock_config (new_game js.starting_fen input)) white now_ms ≡ r
      → IsWellFormed js (start_clock (create_game js.starting_fen input w) r).0
  unfolding create_game
  started_IsWellFormed input w now_ms (err e) u h = created_IsWellFormed input w u
  started_IsWellFormed input w now_ms (ok state) u h =
      let c = created_IsWellFormed input w u in
      record {
        is_game = record {
          game = new_game js.starting_fen input;
          row = refl;
          line = c.is_game.line;
          fen = ap (last_fen js.starting_fen) (sym u.moves);
        };
        is_mirrored = λ g e row kept.
            let same_row = some-injective _ _ row in
            let same_clock = ap (λ (x : ClockEntry). x.state) (some-injective _ _ kept) in
            subst (λ (x : OnlineGame). Mirrors js x w.moves e.state) same_row
              (subst (Mirrors js (new_game js.starting_fen input) w.moves) same_clock
                (clock_Mirrors input w now_ms u h));
        is_booked = record {
          game = new_game js.starting_fen input;
          row = refl;
          booked = inl (refl, u.audits);
        };
      }

  -- Creating a game makes it well-formed, whether the clock is accepted or refused: its moves are a game
  -- of chess (none yet), an entry of the clock mirrors them, and no end has been told.
  pub create_game_with_clock-IsWellFormed :
      (input : CreateGameInput) (now_ms : ℤ) (w : World)
      → IsUnused w
      → IsWellFormed js (create_game_with_clock js input now_ms w).0
  unfolding create_game_with_clock
  create_game_with_clock-IsWellFormed input now_ms w u =
      started_IsWellFormed input w now_ms
        (create_clock (clock_config (new_game js.starting_fen input)) white now_ms) u refl
