-- ===== src/Chess/Material.antt =====
-- rules.ts: a dead position and the material to mate are different questions.
use farzin.Prelude.{◌+◌, ◌≤◌, ◌≡◌, true, false, arith}
use farzin.Clock.{ClockSide, opposite}
use farzin.Chess.{
  ChessJs, Fen, PieceCounts, is_dead_count, can_mate, is_dead_position, has_mating_material,
}

dead_unmatable :
    (c : PieceCounts)
    → is_dead_count c ≡ true
    → (can_mate c.w ≡ false) × (can_mate c.b ≡ false) × (c.w.n + c.w.b ≤ 1) × (c.b.n + c.b.b ≤ 1)
unfolding is_dead_count can_mate
dead_unmatable c h = (ground arith, ground arith, ground arith, ground arith)

-- In a position that `isDeadPosition` calls dead, neither side has the material to mate: a flag that
-- falls there is a draw whoever it is.
pub is_dead_position-unmatable :
    (js : ChessJs) (fen : Fen) (side : ClockSide)
    → is_dead_position js fen ≡ true
    → (has_mating_material js fen side ≡ false)
      × (has_mating_material js fen (opposite side) ≡ false)
unfolding is_dead_position has_mating_material
is_dead_position-unmatable js fen ClockSide.white h =
    let (a, b, _, _) = dead_unmatable (js.pieces fen) h in (a, b)
is_dead_position-unmatable js fen ClockSide.black h =
    let (a, b, _, _) = dead_unmatable (js.pieces fen) h in (b, a)
