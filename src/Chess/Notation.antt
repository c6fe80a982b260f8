-- ===== src/Chess/Notation.antt =====
-- rules.ts: what `buildPgn` writes can be read back.
use farzin.Prelude.{ℕ, zero, suc, ◌+◌, ◌≡◌, refl, arith, none, some, List, [], ◌∷◌, ap, get_elem?}
use farzin.Chess.{San, PgnPart, PgnResult, pgn_parts, build_pgn}

abbrev pub moves_of : List PgnPart → List San
moves_of [] = []
moves_of (p ∷ ps) = p.white_san ∷ elim p.black_san [ none ↦ moves_of ps | some b ↦ b ∷ moves_of ps ]

moves_of-pgn_parts : (n : ℕ) (sans : List San) → moves_of (pgn_parts n sans) ≡ sans
unfolding pgn_parts
moves_of-pgn_parts n [] = refl
moves_of-pgn_parts n (w ∷ []) = refl
moves_of-pgn_parts n (w ∷ b ∷ sans) =
    ap (λ (l : List San). w ∷ b ∷ l) (moves_of-pgn_parts (n + 1) sans)

pgn_parts-move_no :
    (n : ℕ) (sans : List San) (i : ℕ) {p : PgnPart}
    → get_elem? (pgn_parts n sans) i ≡ some p
    → p.move_no ≡ n + i
unfolding pgn_parts
pgn_parts-move_no n [] i h = cc
pgn_parts-move_no n (w ∷ []) zero h = ground arith
pgn_parts-move_no n (w ∷ []) (suc i) h = cc
pgn_parts-move_no n (w ∷ b ∷ sans) zero h = ground arith
pgn_parts-move_no n (w ∷ b ∷ sans) (suc i) h = omega (arith, pgn_parts-move_no (n + 1) sans i h)

-- The parts that `buildPgn` writes are the moves of the game in order, none lost, and they are numbered
-- from 1 on.
build_pgn-moves :
    (sans : List San) (result : PgnResult)
    → (moves_of (build_pgn sans result).parts ≡ sans)
      × ((i : ℕ) (p : PgnPart)
          → get_elem? (build_pgn sans result).parts i ≡ some p
          → p.move_no ≡ i + 1)
unfolding build_pgn
build_pgn-moves sans result =
    (moves_of-pgn_parts 1 sans, λ i p h. omega (arith, pgn_parts-move_no 1 sans i h))
