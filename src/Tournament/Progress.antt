-- ===== src/Tournament/Progress.antt =====
-- tournament-status.machine.ts: a tournament only moves forward.
use farzin.Prelude.{ℕ, suc, ◌≤◌, ◌≡◌, refl, ◌⊎◌, arith, ok}
use farzin.Tournament.{
  TournamentStatus, draft, registration_open, registration_closed, in_progress, completed,
  cancelled, assert_transition,
}

-- `n` moves that `assertTransition` lets pass lead from `source` to `target`.
pub data Steps (source : TournamentStatus) : ℕ → TournamentStatus → Type 0 where
  start : Steps source 0 source
  step :
      {n : ℕ} {s : TournamentStatus} (t : TournamentStatus)
      → Steps source n s
      → assert_transition s t ≡ ok tt
      → Steps source (suc n) t

-- How many moves lead to the state, of a tournament that is not cancelled.
abbrev pub stage : TournamentStatus → ℕ
stage draft = 0
stage registration_open = 1
stage registration_closed = 2
stage in_progress = 3
stage completed = 4
stage cancelled = 4

-- The number of moves fits the state.
abbrev Fits : ℕ → TournamentStatus → Type 0
Fits n cancelled = n ≤ 4
Fits n s = n ≡ stage s

step-Fits :
    (n : ℕ) (s t : TournamentStatus) → assert_transition s t ≡ ok tt → Fits n s → Fits (suc n) t
unfolding assert_transition
step-Fits n s t h f = ground arith

Steps-Fits : {n : ℕ} {t : TournamentStatus} → Steps draft n t → Fits n t
Steps-Fits start = refl
Steps-Fits (step {n} {s} t before h) = step-Fits n s t h (Steps-Fits before)

-- Every life of a tournament is short and in order: from its draft a tournament makes at most four
-- moves, and it is in a state other than `CANCELLED` exactly after as many moves as the state's place in
-- the order draft, open, closed, in progress, completed.
Steps-stage :
    {n : ℕ} {t : TournamentStatus} → Steps draft n t → (n ≤ 4) × ((t ≡ cancelled) ⊎ (n ≡ stage t))
Steps-stage {n} {t} s = let f = Steps-Fits s in ground arith
