-- ===== src/Tiebreak/Context.antt =====
-- tiebreak.calculator.ts, `buildContext`: what the calculator can rely on once it has its context.
use farzin.Prelude.{
  ℕ, ◌≤◌, ◌≡◌, refl, arith, Bool, false, List, [], ◌∷◌, Result, ok, >>=-eq-ok, throw_if, ltb,
  length, if◌then◌else◌,
}
use farzin.Tiebreak.{
  PlayerTieBreakInput, Points, halves, TieBreakContext, TieBreakDataError, build_context,
  enter_players, check_players, has_id, to_half_points, duplicate_player,
}

-- What holds of each player: the number is new, the points are halves, and the games fit into
-- the rounds.
abbrev pub AllEntered :
    List PlayerTieBreakInput → List PlayerTieBreakInput → ℕ → List (ℕ × ℕ) → Type 0
AllEntered seen [] rounds [] = Unit
AllEntered seen (p ∷ ps) rounds ((id, n) ∷ rest) =
    (has_id p.player_id seen ≡ false)
    × (p.player_id ≡ id)
    × (p.points ≡ halves n)
    × (length p.games ≤ rounds)
    × AllEntered (p ∷ seen) ps rounds rest
AllEntered _ _ _ _ = ⊥

longest_bounds : (r n : ℕ) → (r ≤ (if ltb r n then n else r)) × (n ≤ (if ltb r n then n else r))
longest_bounds r n = ground arith

half_points : (p : Points) {n : ℕ} → to_half_points p ≡ ok n → p ≡ halves n
unfolding to_half_points
half_points p h = ground arith

new_id : (b : Bool) → throw_if b duplicate_player ≡ ok tt → b ≡ false
new_id b h = ground arith

pair_eq :
    (id n : ℕ) (rest points2 : List (ℕ × ℕ)) (t total : ℕ)
    → ◌≡◌ {A = Result TieBreakDataError (List (ℕ × ℕ) × ℕ)}
        (ok ((id, n) ∷ rest, t))
        (ok (points2, total))
    → (points2 ≡ (id, n) ∷ rest) × (total ≡ t)
pair_eq id n rest points2 t total h = (ground arith, ground arith)

no_players :
    (rounds total : ℕ) (points2 : List (ℕ × ℕ))
    → ◌≡◌ {A = Result TieBreakDataError (List (ℕ × ℕ) × ℕ)} (ok ([], rounds)) (ok (points2, total))
    → (points2 ≡ []) × (total ≡ rounds)
no_players rounds total points2 h = (ground arith, ground arith)

enter_players-AllEntered :
    (seen ps : List PlayerTieBreakInput) (rounds : ℕ) (points2 : List (ℕ × ℕ)) (total : ℕ)
    → enter_players seen ps rounds ≡ ok (points2, total)
    → (rounds ≤ total) × AllEntered seen ps total points2
unfolding enter_players
enter_players-AllEntered seen [] rounds points2 total h =
    let (e, e') = no_players rounds total points2 h in rw (e, e') (omega arith, tt)
enter_players-AllEntered seen (p ∷ ps) rounds points2 total h =
    let longest = if ltb rounds (length p.games) then length p.games else rounds in
    let (_, new, h1) = >>=-eq-ok (throw_if (has_id p.player_id seen) duplicate_player) _ h in
    let (n, half, h2) = >>=-eq-ok (to_half_points p.points) _ h1 in
    let (r, entered, out) = >>=-eq-ok (enter_players (p ∷ seen) ps longest) _ h2 in
    let (more, all) = enter_players-AllEntered (p ∷ seen) ps longest r.0 r.1 entered in
    let (e, e') = pair_eq p.player_id n r.0 points2 r.1 total out in
    let (a, b) = longest_bounds rounds (length p.games) in
    rw (e, e')
      (
        omega (arith, a, more),
        (new_id _ new, refl, half_points p.points half, omega (arith, b, more), all),
      )

-- When `buildContext` gives a context, no id is that of two players, everybody's points are the
-- half-points that the context has in the same place under the player's id, and nobody has more games
-- than the context has rounds.
build_context-AllEntered :
    (players : List PlayerTieBreakInput) {ctx : TieBreakContext}
    → build_context players ≡ ok ctx
    → (ctx.players ≡ players) × AllEntered [] players ctx.total_rounds ctx.points2
unfolding build_context
build_context-AllEntered players {ctx} h =
    let (r, entered, h1) = >>=-eq-ok (enter_players [] players 0) _ h in
    let (_, _, out) = >>=-eq-ok (check_players players players) _ h1 in
    let (_, all) = enter_players-AllEntered [] players 0 r.0 r.1 entered in
    let same : ctx ≡ record { players = players; points2 = r.0; total_rounds = r.1 } =
      ground arith in
    rw same (refl, all)
