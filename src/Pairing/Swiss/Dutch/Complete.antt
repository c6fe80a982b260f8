-- ===== src/Pairing/Swiss/Dutch/Complete.antt =====
-- swiss-dutch.engine.ts: what a round is that the engine returns.
use farzin.Prelude.{
  ℕ, ◌+◌, ◌≤◌, ◌≡◌, refl, sym, ap, ◌∙◌, inl, inr, arith, true, ◌&&◌, Option, none, some, List, [],
  ◌∷◌, leb, ◌==◌, length, Result, ok, err, throw_if, ltb, ◌%◌, >>=-eq-ok, Bool-cases,
}
use farzin.Pairing.{
  PlayerId, Color, PlayerPairingState, PairingRequest, Pairing, ByeAssignment, PairingResult,
  is_active,
}
use farzin.Pairing.Swiss.Players.{
  SwissPlayer, prepare_swiss_players, prepare_from, prepare_player, contains,
}
use farzin.Pairing.Swiss.Verify.{ColoredPair, verify_absolute_criteria}
use farzin.Pairing.Swiss.Verify.Coverage.{
  bit, player_count, pair_count, pab_count, ids, AllPass, IsEligible, HasDistinctIds,
  verify_absolute_criteria-coverage,
}
use mathlib.Core.Path.{subst}
use farzin.Pairing.Swiss.Weights.{weight_scheme}
use farzin.Pairing.Swiss.Brackets.{Matching, BracketsOutcome, pair_all_brackets}
use farzin.Pairing.Swiss.Dutch.{
  insert_by_rank, sort_by_rank, active_players, insert_board, sort_boards, number_boards, byes_of,
  top_rank, comes_first, DutchRound, boards_of, finish_round, params_of, bracket_error,
  integrity_error, no_active_player, bad_round_number, bad_total_rounds, check_numbers,
  initial_color_of, pair_players, compute_round, compute, map_err,
}

-- How often an id is among the players of a request that play in the round.
abbrev pub active_count : PlayerId → List PlayerPairingState → ℕ → ℕ
active_count id [] r = 0
active_count id (p ∷ ps) r = bit (is_active p r && p.player_id == id) + active_count id ps r

-- How often an id is in the pairings, and in the byes, of a result.
abbrev pub pairing_count : PlayerId → List Pairing → ℕ
pairing_count id [] = 0
pairing_count id (p ∷ ps) =
    bit (p.white_player_id == id) + bit (p.black_player_id == id) + pairing_count id ps

abbrev pub bye_count : PlayerId → List ByeAssignment → ℕ
bye_count id [] = 0
bye_count id (b ∷ bs) = bit (b.player_id == id) + bye_count id bs

insert_by_rank-count :
    (id : PlayerId) (r : ℕ) (p : PlayerPairingState) (ps : List PlayerPairingState)
    → active_count id (insert_by_rank p ps) r ≡ active_count id (p ∷ ps) r
unfolding insert_by_rank
insert_by_rank-count id r p [] = refl
insert_by_rank-count id r p (q ∷ qs) = elim (Bool-cases (comes_first p q)) [
  | inl first ↦ rw first refl
  | inr after ↦ rw after (omega (arith, insert_by_rank-count id r p qs))
]

pub sort_by_rank-count :
    (id : PlayerId) (r : ℕ) (ps : List PlayerPairingState)
    → active_count id (sort_by_rank ps) r ≡ active_count id ps r
unfolding sort_by_rank
sort_by_rank-count id r [] = refl
sort_by_rank-count id r (p ∷ ps) =
    omega (arith, insert_by_rank-count id r p (sort_by_rank ps), sort_by_rank-count id r ps)

pub prepare_from-count :
    (id : PlayerId) (r total i : ℕ) (ps : List PlayerPairingState)
    → player_count id (prepare_from r total i (active_players ps r)) ≡ active_count id ps r
unfolding prepare_from active_players prepare_player
prepare_from-count id r total i [] = refl
prepare_from-count id r total i (p ∷ ps) = elim (Bool-cases (is_active p r)) [
  | inl plays ↦ rw plays (omega (arith, prepare_from-count id r total (i + 1) ps))
  | inr out ↦ rw out (omega (arith, prepare_from-count id r total i ps))
]

insert_board-count :
    (id : PlayerId) (p : ColoredPair) (ps : List ColoredPair)
    → pair_count id (insert_board p ps) ≡ pair_count id (p ∷ ps)
unfolding insert_board
insert_board-count id p [] = refl
insert_board-count id p (q ∷ qs) = elim (Bool-cases (leb (top_rank p) (top_rank q))) [
  | inl first ↦ rw first refl
  | inr after ↦ rw after (omega (arith, insert_board-count id p qs))
]

number_boards-count :
    (id : PlayerId) (ps : List ColoredPair) (board : ℕ)
    → pairing_count id (number_boards ps board) ≡ pair_count id ps
unfolding number_boards
number_boards-count id [] board = refl
number_boards-count id (p ∷ ps) board = omega (arith, number_boards-count id ps (board + 1))

byes_of-count :
    (id : PlayerId) (pab : Option SwissPlayer) → bye_count id (byes_of pab) ≡ pab_count id pab
unfolding byes_of
byes_of-count id none = refl
byes_of-count id (some p) = omega arith

contained_count :
    (id : PlayerId) (ps : List SwissPlayer) → contains id (ids ps) ≡ true → 1 ≤ player_count id ps
unfolding contains
contained_count id [] h = cc
contained_count id (p ∷ ps) h = ground (arith, contained_count id ps)

once-HasDistinctIds :
    (ps : List SwissPlayer) → ((id : PlayerId) → player_count id ps ≤ 1) → HasDistinctIds ps
once-HasDistinctIds [] h = tt
once-HasDistinctIds (p ∷ ps) h = (
  elim (Bool-cases (contains p.state.player_id (ids ps))) [
    | inr new ↦ new
    | inl old ↦
        absurd (ground (arith, h p.state.player_id, contained_count p.state.player_id ps old))
  ],
  once-HasDistinctIds ps (λ id. omega (arith, h id)),
)

pub sort_boards-count :
    (id : PlayerId) (ps : List ColoredPair) → pair_count id (sort_boards ps) ≡ pair_count id ps
unfolding sort_boards
sort_boards-count id [] = refl
sort_boards-count id (p ∷ ps) =
    omega (arith, insert_board-count id p (sort_boards ps), sort_boards-count id ps)

-- What a round is that has passed the checks of the engine.
record IsCompleteRound (round : DutchRound) : Type 0 where
  covered :
      (id : PlayerId)
      → pair_count id round.boards + pab_count id round.pab ≡ player_count id round.players
  lawful : AllPass round.boards
  bye : IsEligible round.pab

map_err-eq-ok :
    {E F A : Type 0} (f : E → F) (r : Result E A) {a : A} → map_err f r ≡ ok a → r ≡ ok a
map_err-eq-ok f (err e) h = cc
map_err-eq-ok f (ok b) h = cc

finish_round-IsCompleteRound :
    (players : List SwissPlayer) (c : Color) (outcome : BracketsOutcome) {round : DutchRound}
    → HasDistinctIds players
    → finish_round players c outcome ≡ ok round
    → (players ≡ round.players) × IsCompleteRound round
unfolding finish_round
finish_round-IsCompleteRound players c outcome {round = round} d h =
    let boards = boards_of c outcome.pairs in
    let check = verify_absolute_criteria players boards outcome.pab in
    let (_, e, f) = >>=-eq-ok (map_err integrity_error check) _ h in
    let (covered, lawful, bye) =
      verify_absolute_criteria-coverage players boards outcome.pab d
        (map_err-eq-ok integrity_error check e) in
    let same : record { players = players; boards = boards; pab = outcome.pab } ≡ round =
      ground arith in
    (
      ap (λ (r : DutchRound). r.players) same,
      subst IsCompleteRound same (record { covered = covered; lawful = lawful; bye = bye }),
    )

module _ (matching : Matching) where
  pair_players-IsCompleteRound :
      (p : SwissPlayer) (ps : List SwissPlayer) (r : ℕ) (c : Color) {round : DutchRound}
      → HasDistinctIds (p ∷ ps)
      → pair_players matching p ps r c ≡ ok round
      → (p ∷ ps ≡ round.players) × IsCompleteRound round
  unfolding pair_players
  pair_players-IsCompleteRound p ps r c d h =
      let scheme = weight_scheme (params_of p ps r c) in
      let bracketed = pair_all_brackets matching (p ∷ ps) scheme (length (p ∷ ps) % 2 == 1) in
      let (outcome, _, h') = >>=-eq-ok (map_err bracket_error bracketed) _ h in
      finish_round-IsCompleteRound (p ∷ ps) c outcome d h'

  pair_prepared-IsCompleteRound :
      (players : List SwissPlayer) (r : ℕ) (c : Color) {round : DutchRound}
      → HasDistinctIds players
      → elim players [ [] ↦ err no_active_player | p ∷ ps ↦ pair_players matching p ps r c ]
        ≡ ok round
      → (players ≡ round.players) × IsCompleteRound round
  pair_prepared-IsCompleteRound [] r c d h = cc
  pair_prepared-IsCompleteRound (p ∷ ps) r c d h = pair_players-IsCompleteRound p ps r c d h

  round-IsCompleteRound :
      (request : PairingRequest) {round : DutchRound}
      → ((id : PlayerId) → active_count id request.players request.round_number ≤ 1)
      → compute_round matching request ≡ ok round
      → IsCompleteRound round
        × ((id : PlayerId)
            → player_count id round.players ≡ active_count id request.players request.round_number)
  unfolding compute_round prepare_swiss_players
  round-IsCompleteRound request once e =
      let r = request.round_number in
      let c = initial_color_of request.initial_color in
      let sorted = sort_by_rank request.players in
      let players = prepare_swiss_players (active_players sorted r) r request.total_rounds in
      let same = λ (x : PlayerId).
        prepare_from-count x r request.total_rounds 0 sorted
        ∙ sort_by_rank-count x r request.players in
      let (_, _, e1) = >>=-eq-ok (throw_if (ltb r 1) bad_round_number) _ e in
      let (_, _, e2) = >>=-eq-ok (throw_if (ltb request.total_rounds r) bad_total_rounds) _ e1 in
      let (_, _, e3) = >>=-eq-ok (check_numbers sorted []) _ e2 in
      let (kept, complete) =
        pair_prepared-IsCompleteRound players r c
          (once-HasDistinctIds players (λ x. omega (arith, once x, same x))) e3 in
      (complete, λ id. sym (ap (player_count id) kept) ∙ same id)

  -- A round that the engine returns is complete, whatever the matching gives: if no id is twice
  -- among the active players of the request, then every id is in the pairings and byes of the
  -- result together as often as among those players.
  pub compute_complete :
      (request : PairingRequest) {result : PairingResult}
      → ((id : PlayerId) → active_count id request.players request.round_number ≤ 1)
      → compute matching request ≡ ok result
      → (id : PlayerId)
      → pairing_count id result.pairings + bye_count id result.byes
        ≡ active_count id request.players request.round_number
  unfolding compute
  compute_complete request {result = result} once h id =
      let (round, e, f) = >>=-eq-ok (compute_round matching request) _ h in
      let (complete, counted) = round-IsCompleteRound request once e in
      let listed : byes_of round.pab ≡ result.byes = ground (arith, f) in
      let paired : number_boards round.boards 1 ≡ result.pairings = ground (arith, f) in
      omega (
        arith,
        ap (pairing_count id) paired,
        ap (bye_count id) listed,
        number_boards-count id round.boards 1,
        byes_of-count id round.pab,
        complete.covered id,
        counted id,
      )
