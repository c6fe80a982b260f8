-- ===== src/Pairing/RoundRobin.antt =====
-- The round-robin engine, src/core/pairing/round-robin.engine.ts: Berger tables and the round that
-- is made of them. Seats are numbered from 1; the last seat of an odd field is the dummy's.
pub mod Wrap
pub mod Schedule
pub mod Table
pub mod Coverage
use farzin.Prelude.{
  ℕ, zero, suc, ◌+◌, ◌-◌, ◌*◌, ◌/◌, ◌%◌, ◌≡◌, refl, Bool, true, false, not, ◌&&◌, ◌||◌, Option,
  none, some, List, [], ◌∷◌, Result, ok, err, ◌>>=◌, ◌>>◌, throw_if, if◌then◌else◌, ltb, leb, ◌==◌,
  length, get_elem?,
}
use farzin.Prelude.Int.{ℤ, pos, negsuc, ◌+ℤ◌, ◌-ℤ◌, pos_part}
use farzin.Pairing.{
  PlayerPairingState, PairingRequest, Pairing, ByeAssignment, PairingResult, Impossible,
  too_few_players, round_out_of_schedule, too_few_active, duplicate_pairing_number,
  pairing_allocated, is_active,
}

pub record SeatPair : Type 0 where
  pub white_seat : ℕ
  pub black_seat : ℕ

-- The operator `%` of the source: the remainder takes the sign of the dividend.
unfoldable pub js_rem : ℤ → ℕ → ℤ
js_rem (pos n) m = pos (n % m)
js_rem (negsuc n) m = pos 0 -ℤ pos (suc n % m)

-- The result is at least 1, so it is read as a number.
unfoldable pub wrap_seat : ℤ → ℕ → ℕ
unfolding js_rem ◌+ℤ◌ ◌-ℤ◌
wrap_seat value modulus =
    pos_part (js_rem (js_rem (value -ℤ pos 1) modulus +ℤ pos modulus) modulus) + 1

-- The loop `for (let i = ...; i < half; i += 1)`, with `n` rounds left.
unfoldable pub ring_boards : ℕ → ℕ → ℕ → ℕ → List SeatPair
ring_boards modulus leader i zero = []
ring_boards modulus leader i (suc n) =
    record {
      white_seat = wrap_seat (pos (leader + i)) modulus;
      black_seat = wrap_seat (pos leader -ℤ pos i) modulus;
    }
    ∷ ring_boards modulus leader (i + 1) n

unfoldable pub leader_of : ℕ → ℕ → ℕ
leader_of table_size round = (round - 1) * (table_size / 2) % (table_size - 1) + 1

unfoldable pub berger_round : ℕ → ℕ → List SeatPair
unfolding leader_of
berger_round table_size round =
    let half = table_size / 2 in
    let modulus = table_size - 1 in
    let leader = leader_of table_size round in
    (if round % 2 == 1
      then record { white_seat = leader; black_seat = table_size }
      else record { white_seat = table_size; black_seat = leader })
    ∷ ring_boards modulus leader 1 (half - 1)

-- `[...players].sort((a, b) => a.pairingNumber - b.pairingNumber)`: the sort is stable.
insert_player : PlayerPairingState → List PlayerPairingState → List PlayerPairingState
insert_player p [] = p ∷ []
insert_player p (q ∷ qs) =
    if leb p.pairing_number q.pairing_number then p ∷ q ∷ qs else q ∷ insert_player p qs

unfoldable pub sort_players : List PlayerPairingState → List PlayerPairingState
unfolding insert_player
sort_players [] = []
sort_players (p ∷ ps) = insert_player p (sort_players ps)

-- Some player has the same pairing number as the next.
unfoldable pub has_repeat : List PlayerPairingState → Bool
has_repeat [] = false
has_repeat (p ∷ []) = false
has_repeat (p ∷ q ∷ qs) = q.pairing_number == p.pairing_number || has_repeat (q ∷ qs)

unfoldable pub seating_order : PairingRequest → Result Impossible (List PlayerPairingState)
unfolding sort_players has_repeat
seating_order request = do
  let sorted = sort_players request.players
  throw_if (has_repeat sorted) duplicate_pairing_number
  ok sorted

-- `seats[seat - 1] ?? null`; there is no seat 0.
unfoldable pub player_at_seat : List PlayerPairingState → ℕ → Option PlayerPairingState
player_at_seat seats zero = none
player_at_seat seats (suc i) = get_elem? seats i

-- 1 point, in tenths.
abbrev pub pairing_allocated_bye_points : ℕ
pairing_allocated_bye_points = 10

unfoldable pub pairing_allocated_bye : PlayerPairingState → ByeAssignment
pairing_allocated_bye player = record {
  player_id = player.player_id;
  type = pairing_allocated;
  points = pairing_allocated_bye_points;
}

unfoldable pub count_active : ℕ → List PlayerPairingState → ℕ
unfolding is_active
count_active round_number [] = 0
count_active round_number (p ∷ ps) =
    (if is_active p round_number then 1 else 0) + count_active round_number ps

-- A player in the seat who plays in this round.
unfoldable pub active_at : List PlayerPairingState → ℕ → ℕ → Option PlayerPairingState
unfolding player_at_seat is_active
active_at seats round_number seat = elim (player_at_seat seats seat) [
  | none ↦ none
  | some p ↦ if is_active p round_number then some p else none
]

-- The lists `pairings` and `byes` that the loop fills.
pub record Boards : Type 0 where
  pub pairings : List Pairing
  pub byes : List ByeAssignment

-- One round of the loop over the table: what this seat pair adds to what the later ones give.
unfoldable pub place_pair :
    Option PlayerPairingState → Option PlayerPairingState → ℕ → (ℕ → Boards) → Boards
unfolding pairing_allocated_bye
place_pair (some white) (some black) board later =
    let rest = later (board + 1) in
    record rest {
      pairings =
          record {
            board_number = board;
            white_player_id = white.player_id;
            black_player_id = black.player_id;
          }
          ∷ rest.pairings;
    }
place_pair (some white) none board later =
    let rest = later board in record rest { byes = pairing_allocated_bye white ∷ rest.byes }
place_pair none (some black) board later =
    let rest = later board in record rest { byes = pairing_allocated_bye black ∷ rest.byes }
place_pair none none board later = later board

unfoldable pub fill_boards : List PlayerPairingState → ℕ → Bool → List SeatPair → ℕ → Boards
unfolding place_pair active_at
fill_boards seats round_number is_second_leg [] board = record { pairings = []; byes = [] }
fill_boards seats round_number is_second_leg (p ∷ ps) board =
    place_pair (active_at seats round_number (if is_second_leg then p.black_seat else p.white_seat))
      (active_at seats round_number (if is_second_leg then p.white_seat else p.black_seat)) board
      (fill_boards seats round_number is_second_leg ps)

abbrev pub table_size_of : ℕ → ℕ
table_size_of n = if n % 2 == 0 then n else n + 1

-- `compute`, with the constructor's option `legs`: 1 or 2.
unfoldable pub compute : ℕ → PairingRequest → Result Impossible PairingResult
unfolding seating_order count_active fill_boards
compute legs request = do
  seats ← seating_order request
  let n = length seats
  throw_if (ltb n 2) too_few_players
  let table_size = table_size_of n
  let rounds_per_leg = table_size - 1
  let schedule_length = legs * rounds_per_leg
  let round_number = request.round_number
  throw_if (ltb round_number 1 || ltb schedule_length round_number) round_out_of_schedule
  throw_if (ltb (count_active round_number seats) 2) too_few_active
  let leg_round = (round_number - 1) % rounds_per_leg + 1
  let boards =
      fill_boards seats round_number (ltb rounds_per_leg round_number)
        (berger_round table_size leg_round) 1
  ok (record { pairings = boards.pairings; byes = boards.byes; engine_version = "1.0.0" })
