-- ===== src/Pairing/RoundRobin/Coverage.antt =====
-- round-robin.engine.ts, `compute`: how often a player is in the round that it gives.
use farzin.Prelude.{
  ℕ, zero, suc, ◌+◌, ◌-◌, ◌*◌, ◌%◌, ◌≤◌, ◌<◌, ◌≡◌, refl, sym, ap, ◌∙◌, arith, Bool, true, false,
  ◌&&◌, List, [], ◌∷◌, Option, none, some, ltb, ◌==◌, ok, length,
}
use native.Mathlib.Decide.{ℕ_discrete}
use native.Mathlib.Nat.{mod-lt}
use farzin.Pairing.{
  PlayerId, PlayerPairingState, PairingRequest, PairingResult, Pairing, ByeAssignment, is_active,
}
use farzin.Pairing.RoundRobin.{
  SeatPair, Boards, berger_round, sort_players, insert_player, seating_order, active_at, place_pair,
  fill_boards, compute, table_size_of,
}
use farzin.Pairing.RoundRobin.Schedule.{bit, seat_count, AllSeated}
use farzin.Pairing.RoundRobin.Table.{seat_count-berger_round, berger_round-AllSeated}

-- How often an id is in the pairings and byes of a round.
abbrev pub pairing_count : PlayerId → List Pairing → ℕ
pairing_count id [] = 0
pairing_count id (p ∷ ps) =
    bit (p.white_player_id == id) + bit (p.black_player_id == id) + pairing_count id ps

abbrev pub bye_count : PlayerId → List ByeAssignment → ℕ
bye_count id [] = 0
bye_count id (b ∷ bs) = bit (b.player_id == id) + bye_count id bs

-- How many players of the round have an id and are active.
abbrev pub active_count : PlayerId → ℕ → List PlayerPairingState → ℕ
active_count id round_number [] = 0
active_count id round_number (p ∷ ps) =
    bit (p.player_id == id && is_active p round_number) + active_count id round_number ps

abbrev hit : PlayerId → Option PlayerPairingState → ℕ
hit id none = 0
hit id (some p) = bit (p.player_id == id)

abbrev seat_hit : PlayerId → List PlayerPairingState → ℕ → ℕ → ℕ
seat_hit id seats round_number s = hit id (active_at seats round_number s)

-- f(1) + ... + f(n)
sum_to : ℕ → (ℕ → ℕ) → ℕ
sum_to zero f = 0
sum_to (suc n) f = f (suc n) + sum_to n f

sum_boards : (ℕ → ℕ) → List SeatPair → ℕ
sum_boards f [] = 0
sum_boards f (p ∷ ps) = f p.white_seat + f p.black_seat + sum_boards f ps

place_pair-count :
    (id : PlayerId) (w b : Option PlayerPairingState) (board : ℕ) (later : ℕ → Boards) (n : ℕ)
    → ((k : ℕ) → pairing_count id (later k).pairings + bye_count id (later k).byes ≡ n)
    → let out = place_pair w b board later in
      pairing_count id out.pairings + bye_count id out.byes ≡ hit id w + hit id b + n
unfolding place_pair
place_pair-count id none none board later n h = ground (arith, h board)
place_pair-count id none (some b) board later n h = ground (arith, h board)
place_pair-count id (some w) none board later n h = ground (arith, h board)
place_pair-count id (some w) (some b) board later n h = ground (arith, h (board + 1))

fill_boards-count :
    (id : PlayerId) (seats : List PlayerPairingState) (r : ℕ) (second : Bool) (ps : List SeatPair)
    (board : ℕ)
    → let out = fill_boards seats r second ps board in
      pairing_count id out.pairings + bye_count id out.byes ≡ sum_boards (seat_hit id seats r) ps
unfolding fill_boards sum_boards
fill_boards-count id seats r second [] board = refl
fill_boards-count id seats r true (p ∷ ps) board = omega (
  arith,
  place_pair-count id (active_at seats r p.black_seat) (active_at seats r p.white_seat) board
      (fill_boards seats r true ps) (sum_boards (seat_hit id seats r) ps)
      (fill_boards-count id seats r true ps),
)
fill_boards-count id seats r false (p ∷ ps) board =
    place_pair-count id (active_at seats r p.white_seat) (active_at seats r p.black_seat) board
      (fill_boards seats r false ps) (sum_boards (seat_hit id seats r) ps)
      (fill_boards-count id seats r false ps)

sum_to-ext : (n : ℕ) (f g : ℕ → ℕ) → ((s : ℕ) → 1 ≤ s → s ≤ n → f s ≡ g s) → sum_to n f ≡ sum_to n g
unfolding sum_to
sum_to-ext zero f g h = refl
sum_to-ext (suc n) f g h =
    omega (
      arith,
      h (suc n) (omega arith) (omega arith),
      sum_to-ext n f g (λ s a b. h s a (omega arith)),
    )

sum_to-zero : (n : ℕ) (f : ℕ → ℕ) → sum_to n (λ s. 0 * f s) ≡ 0
unfolding sum_to
sum_to-zero zero f = refl
sum_to-zero (suc n) f = omega (arith, sum_to-zero n f)

sum_to-add :
    (n : ℕ) (a b c f : ℕ → ℕ)
    → sum_to n (λ s. (a s + b s + c s) * f s)
      ≡ sum_to n (λ s. a s * f s) + sum_to n (λ s. b s * f s) + sum_to n (λ s. c s * f s)
unfolding sum_to
sum_to-add zero a b c f = refl
sum_to-add (suc n) a b c f = omega (arith, sum_to-add n a b c f)

pick_other : (n w : ℕ) (f : ℕ → ℕ) → n < w → sum_to n (λ s. bit (w == s) * f s) ≡ 0
unfolding sum_to
pick_other zero w f h = refl
pick_other (suc n) w f h = ground (arith, pick_other n w f)

sum_to-pick : (n w : ℕ) (f : ℕ → ℕ) → 1 ≤ w → w ≤ n → sum_to n (λ s. bit (w == s) * f s) ≡ f w
unfolding sum_to
sum_to-pick zero w f a b = absurd (omega arith)
sum_to-pick (suc n) w f a b = elim (ℕ_discrete w (suc n)) [
  | yes e ↦
      let last : sum_to n (λ s. bit (w == s) * f s) ≡ 0 = pick_other n w f (omega arith) in
      ground (arith, last, ap f e)
  | no e ↦ ground (arith, sum_to-pick n w f a)
]

sum_boards-seats :
    (n : ℕ) (f : ℕ → ℕ) (ps : List SeatPair)
    → AllSeated n ps
    → sum_boards f ps ≡ sum_to n (λ s. seat_count s ps * f s)
unfolding sum_boards
sum_boards-seats n f [] h = sym (sum_to-zero n f)
sum_boards-seats n f (p ∷ ps) ((w, w'), (b, b'), h) = omega (
  arith,
  sum_to-add n (λ s. bit (p.white_seat == s)) (λ s. bit (p.black_seat == s)) (λ s. seat_count s ps)
      f,
  sum_to-pick n p.white_seat f w w',
  sum_to-pick n p.black_seat f b b',
  sum_boards-seats n f ps h,
)

sum_to-shift : (n : ℕ) (f : ℕ → ℕ) → sum_to (suc n) f ≡ f 1 + sum_to n (λ s. f (suc s))
unfolding sum_to
sum_to-shift zero f = refl
sum_to-shift (suc n) f = omega (arith, sum_to-shift n f)

seat_hit-tail :
    (id : PlayerId) (p : PlayerPairingState) (ps : List PlayerPairingState) (r s : ℕ)
    → 1 ≤ s
    → seat_hit id (p ∷ ps) r (suc s) ≡ seat_hit id ps r s
unfolding active_at
seat_hit-tail id p ps r zero h = absurd (omega arith)
seat_hit-tail id p ps r (suc s) h = refl

no_seats : (n : ℕ) (id : PlayerId) (r : ℕ) → sum_to n (seat_hit id [] r) ≡ 0
unfolding sum_to active_at
no_seats zero id r = refl
no_seats (suc n) id r = omega (arith, no_seats n id r)

sum_to-active :
    (n : ℕ) (id : PlayerId) (r : ℕ) (seats : List PlayerPairingState)
    → length seats ≤ n
    → sum_to n (seat_hit id seats r) ≡ active_count id r seats
unfolding active_at
sum_to-active n id r [] h = no_seats n id r
sum_to-active zero id r (p ∷ ps) h = absurd (omega arith)
sum_to-active (suc n) id r (p ∷ ps) h =
    let tail =
      sum_to-ext n (λ s. seat_hit id (p ∷ ps) r (suc s)) (seat_hit id ps r)
        (λ s a b. seat_hit-tail id p ps r s a) in
    ground
      (arith, sum_to-shift n (seat_hit id (p ∷ ps) r), tail, sum_to-active n id r ps (omega arith))

insert_player-count :
    (id : PlayerId) (r : ℕ) (p : PlayerPairingState) (ps : List PlayerPairingState)
    → (active_count id r (insert_player p ps) ≡ active_count id r (p ∷ ps))
      × (length (insert_player p ps) ≡ suc (length ps))
unfolding insert_player
insert_player-count id r p [] = (refl, refl)
insert_player-count id r p (q ∷ ps) = ground (arith, insert_player-count id r p ps)

sort_players-count :
    (id : PlayerId) (r : ℕ) (ps : List PlayerPairingState)
    → active_count id r (sort_players ps) ≡ active_count id r ps
unfolding sort_players
sort_players-count id r [] = refl
sort_players-count id r (p ∷ ps) =
    omega (arith, (insert_player-count id r p (sort_players ps)).0, sort_players-count id r ps)

-- The boards of the round that `compute` gives for an accepted request.
boards_of : PairingRequest → Boards
boards_of request =
    let seats = sort_players request.players in
    let table_size = table_size_of (length seats) in
    let r = request.round_number in
    fill_boards seats r (ltb (table_size - 1) r)
      (berger_round table_size ((r - 1) % (table_size - 1) + 1)) 1

compute_cases :
    (legs : ℕ) (request : PairingRequest) (result : PairingResult)
    → compute legs request ≡ ok result
    → (2 ≤ length (sort_players request.players))
      × (1 ≤ request.round_number)
      × (result.pairings ≡ (boards_of request).pairings)
      × (result.byes ≡ (boards_of request).byes)
unfolding compute seating_order boards_of
compute_cases legs request result h = ground arith

table_size-facts :
    (n : ℕ) → 2 ≤ n → (table_size_of n % 2 ≡ 0) × (n ≤ table_size_of n) × (2 ≤ table_size_of n)
table_size-facts n h = ground arith

boards_of-count :
    (id : PlayerId) (request : PairingRequest)
    → 2 ≤ length (sort_players request.players)
    → let out = boards_of request in
      pairing_count id out.pairings + bye_count id out.byes
      ≡ active_count id request.round_number request.players
unfolding boards_of
boards_of-count id request many =
    let seats = sort_players request.players in
    let r = request.round_number in
    let n = table_size_of (length seats) in
    let (even, fits, two) = table_size-facts (length seats) many in
    let leg_round = (r - 1) % (n - 1) + 1 in
    let low = mod-lt (r - 1) {m = n - 1} (omega arith) in
    let f = seat_hit id seats r in
    fill_boards-count id seats r (ltb (n - 1) r) (berger_round n leg_round) 1
    ∙ sum_boards-seats n f (berger_round n leg_round)
        (berger_round-AllSeated n leg_round even (omega arith) (omega arith))
    ∙ sum_to-ext n (λ s. seat_count s (berger_round n leg_round) * f s) f
        (λ s a b.
          let once = seat_count-berger_round n leg_round s even (omega arith) (omega arith) a b in
          rw once (omega arith))
    ∙ sum_to-active n id r seats fits
    ∙ sort_players-count id r request.players

-- The round-robin engine plays or rests every active player exactly once: when `compute` gives a
-- round, an id is in its pairings and byes together exactly as often as the request has active
-- players with that id. So who has withdrawn or has not joined is left out, and an active player is
-- never dropped.
pub compute-coverage :
    (legs : ℕ) (request : PairingRequest) (result : PairingResult) (id : PlayerId)
    → compute legs request ≡ ok result
    → pairing_count id result.pairings + bye_count id result.byes
      ≡ active_count id request.round_number request.players
compute-coverage legs request result id h =
    let (many, _, pairings, byes) = compute_cases legs request result h in
    rw (pairings, byes) (boards_of-count id request many)
