-- ===== src/Tests/Queues.antt =====
-- Three players who wait at one time control: the second is near the first, the third near nobody.
use farzin.Prelude.{ℕ, ◌+◌, ◌-◌, Bool, List, [], ◌∷◌, ltb, ◌||◌, ◌≡◌, refl, arith}
use farzin.Play.Matchmaking.{
  Waiting, Queue, sweep_waiting, pair_script, too_far, current_delta, in_queue,
}
use farzin.Play.Matchmaking.Loops.{EachPair, IsTooFar}
use farzin.Play.Matchmaking.Fair.{sweep_waiting-IsTooFar}
use farzin.Play.Matchmaking.Once.{sweep_waiting-once, seats, one_if}

abbrev further : ℕ → ℕ → ℕ → Bool
further a b w = ltb w (a - b) || ltb w (b - a)

abbrev waits : ℕ → ℕ → ℕ → Waiting ℕ
waits p r t = record {
  player_id = p;
  rating = r;
  meta = record { user_id = p + 10; joined_at = t };
}

abbrev waiting : List (Waiting ℕ)
waiting = waits 1 1500 100 ∷ waits 3 2400 200 ∷ waits 2 1720 300 ∷ []

abbrev ids : List ℕ
ids = 1 ∷ 2 ∷ 3 ∷ []

abbrev queue : Queue
queue = record { members = ids; described = ids; marked = ids }

-- The first has waited for ten seconds, so the window is 250.
matches :
    (sweep_waiting further 10100 3 waiting queue).matches
    ≡ record {
      white = record { player_id = 1; user_id = 11 };
      black = record { player_id = 2; user_id = 12 };
    }
      ∷ []
unfolding too_far current_delta pair_script
matches = refl

too_early : (sweep_waiting further 300 3 waiting queue).matches ≡ []
unfolding too_far current_delta pair_script
too_early = refl

sweep_waiting-IsTooFar_example :
    EachPair (IsTooFar further 300) (sweep_waiting further 300 3 waiting queue).rest
sweep_waiting-IsTooFar_example =
    sweep_waiting-IsTooFar further 300 3 waiting queue (omega arith)
      ((omega arith, (omega arith, tt)), ((omega arith, tt), (tt, tt))) (refl, (refl, (refl, tt)))

sweep_waiting-once_example :
    seats 2 (sweep_waiting further 10100 3 waiting queue).matches
      + one_if (in_queue 2 (sweep_waiting further 10100 3 waiting queue).queue.members)
    ≡ one_if (in_queue 2 queue.members)
sweep_waiting-once_example =
    sweep_waiting-once further 10100 3 waiting queue
      ((omega arith, (omega arith, tt)), ((omega arith, tt), (tt, tt))) 2
