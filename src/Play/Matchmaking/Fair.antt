-- ===== src/Play/Matchmaking/Fair.antt =====
-- Who is left waiting by the loops of `sweepBucket`, src/modules/play/matchmaking.service.ts.
use farzin.Prelude.{ℕ, zero, suc, Bool, List, [], ◌∷◌, ◌≤◌, arith, All, length}
use mathlib.Core.Path.{subst}
use farzin.Play.Matchmaking.{Waiting, Queue, sweep_waiting}
use farzin.Play.Matchmaking.Loops.{
  EachPair, IsOther, IsQueued, IsTooFar, RestEach, RestLength, RestQueued, Unmet, seek-RestEach,
  seek-RestLength, seek-Unmet, seek-RestQueued, sweep-step, sweep-All,
}

module _ {Rating : Type 0} (further : Rating → Rating → ℕ → Bool) (now : ℕ) where
  -- Nobody is left waiting who could play: if the fuel is at least the number of players who wait, these
  -- are different players and all of them are in the queue, then of every two who are left after the
  -- loops the ratings lie further apart than the wider of their windows.
  pub sweep_waiting-IsTooFar :
      (n : ℕ) (ws : List (Waiting Rating)) (queue : Queue)
      → length ws ≤ n
      → EachPair IsOther ws
      → All (IsQueued queue) ws
      → EachPair (IsTooFar further now) (sweep_waiting further now n ws queue).rest
  sweep_waiting-IsTooFar zero [] queue h k q = tt
  sweep_waiting-IsTooFar zero (w ∷ ws) queue h k q = absurd (omega arith)
  sweep_waiting-IsTooFar (suc n) [] queue h k q = tt
  sweep_waiting-IsTooFar (suc n) (a ∷ others) queue h k q =
      sweep-step further now (λ s. EachPair (IsTooFar further now) s.rest) n a others queue
        (λ e. (
          sweep-All further now (IsTooFar further now a) n others queue (
              subst (Unmet further now a others) e (seek-Unmet further now a others queue q.0 q.1)),
          sweep_waiting-IsTooFar n others queue (omega arith) k.1 q.1,
        ))
        (λ m rest after e.
          let shorter =
            subst (RestLength (length others)) e (seek-RestLength further now a others queue) in
          sweep_waiting-IsTooFar n rest after (omega arith)
            (subst (RestEach IsOther) e (seek-RestEach further now IsOther a others queue k.1))
            (subst RestQueued e (seek-RestQueued further now a others queue k.0 k.1 q.1)))
