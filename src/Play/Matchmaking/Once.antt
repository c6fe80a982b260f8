-- ===== src/Play/Matchmaking/Once.antt =====
-- Who is matched by the loops of `sweepBucket`, src/modules/play/matchmaking.service.ts.
use farzin.Prelude.{
  ℕ, zero, suc, ◌+◌, Bool, not, ◌&&◌, some, List, [], ◌∷◌, ◌==◌, if◌then◌else◌, ◌≡◌, ◌≢◌, refl,
  arith, All,
}
use mathlib.Core.Path.{subst}
use farzin.Play.Matchmaking.{
  Waiting, Queue, Sought, Match, unpaired, paired, seek, keep, pair_script, match_of, in_queue,
  remove, sweep_waiting,
}
use farzin.Play.Matchmaking.Loops.{
  EachPair, IsOther, RestEach, seek-step, seek-RestEach, sweep-step,
}

abbrev pub one_if : Bool → ℕ
one_if b = if b then 1 else 0

-- How often the player sits at a board of the matches.
abbrev pub seats : ℕ → List Match → ℕ
seats p [] = 0
seats p (m ∷ ms) = one_if (m.white.player_id == p) + one_if (m.black.player_id == p) + seats p ms

in_queue-remove_eq :
    (p a : ℕ) (queue : List ℕ) → in_queue p (remove a queue) ≡ in_queue p queue && not (a == p)
in_queue-remove_eq p a [] = refl
in_queue-remove_eq p a (x ∷ xs) = ground (arith, in_queue-remove_eq p a xs)

pair_script_takes :
    (a b p : ℕ) (queue : Queue) {after : Queue}
    → a ≢ b
    → pair_script a b queue ≡ some after
    → one_if (a == p) + one_if (b == p) + one_if (in_queue p after.members)
      ≡ one_if (in_queue p queue.members)
unfolding pair_script
pair_script_takes a b p queue h e =
    ground
      (arith, in_queue-remove_eq p b (remove a queue.members), in_queue-remove_eq p a queue.members)

module _ {Rating : Type 0} where
  match_of_seats :
      (p : ℕ) (a b : Waiting Rating)
      → one_if ((match_of a b).white.player_id == p) + one_if ((match_of a b).black.player_id == p)
        ≡ one_if (a.player_id == p) + one_if (b.player_id == p)
  match_of_seats p a b = ground arith

  abbrev Tallied : ℕ → Queue → Sought Rating → Type 0
  Tallied p queue unpaired = Unit
  Tallied p queue (paired m rest after) =
      one_if (m.white.player_id == p)
        + one_if (m.black.player_id == p)
        + one_if (in_queue p after.members)
      ≡ one_if (in_queue p queue.members)

module _ {Rating : Type 0} (further : Rating → Rating → ℕ → Bool) (now : ℕ) where
  keep-Tallied :
      (p : ℕ) (b : Waiting Rating) (queue : Queue) (s : Sought Rating)
      → Tallied p queue s
      → Tallied p queue (keep further now b s)
  keep-Tallied p b queue unpaired h = tt
  keep-Tallied p b queue (paired m rest after) h = h

  seek-Tallied :
      (p : ℕ) (a : Waiting Rating) (others : List (Waiting Rating)) (queue : Queue)
      → All (IsOther a) others
      → Tallied p queue (seek further now a others queue)
  seek-Tallied p a [] queue h = tt
  seek-Tallied p a (b ∷ others) queue h =
      let kept =
        keep-Tallied p b queue (seek further now a others queue)
          (seek-Tallied p a others queue h.1) in
      seek-step further now (Tallied p queue) a b others queue (λ e. kept) (λ e. kept)
        (λ after e.
          omega
            (arith, match_of_seats p a b, pair_script_takes a.player_id b.player_id p queue h.0 e))

  -- One sweep puts nobody in two games: if the players who wait are different, then for every player the
  -- number of seats in the matches, together with one if the player is still in the queue, is one if
  -- the player was in the queue before and zero otherwise.
  pub sweep_waiting-once :
      (n : ℕ) (ws : List (Waiting Rating)) (queue : Queue)
      → EachPair IsOther ws
      → (p : ℕ)
      → seats p (sweep_waiting further now n ws queue).matches
          + one_if (in_queue p (sweep_waiting further now n ws queue).queue.members)
        ≡ one_if (in_queue p queue.members)
  sweep_waiting-once zero ws queue h p = omega arith
  sweep_waiting-once (suc n) [] queue h p = omega arith
  sweep_waiting-once (suc n) (a ∷ others) queue h p =
      sweep-step further now
        (λ s.
          seats p s.matches + one_if (in_queue p s.queue.members)
          ≡ one_if (in_queue p queue.members))
        n a others queue (λ e. sweep_waiting-once n others queue h.1 p)
        (λ m rest after e.
          let tallied = subst (Tallied p queue) e (seek-Tallied p a others queue h.0) in
          let others_apart =
            subst (RestEach IsOther) e (seek-RestEach further now IsOther a others queue h.1) in
          let later = sweep_waiting-once n rest after others_apart p in omega arith)
