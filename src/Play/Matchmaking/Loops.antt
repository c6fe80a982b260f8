-- ===== src/Play/Matchmaking/Loops.antt =====
-- What the loops of `sweepBucket` keep of the lists they go through, src/modules/play/matchmaking.service.ts.
use farzin.Prelude.{
  ℕ, zero, suc, Bool, true, Option, none, some, List, [], ◌∷◌, ◌≤◌, ◌≡◌, ◌≢◌, refl, sym, ◌⊎◌, inl,
  inr, arith, length, Bool-cases,
}
use mathlib.Core.Path.{subst}
use farzin.Prelude.{All}
use farzin.Play.Matchmaking.{
  Waiting, Queue, Sought, Swept, Match, unpaired, paired, seek, keep, pair_with, pair_script,
  too_far, match_of, in_queue, remove, sweep_waiting, left_alone, matched,
}

-- Of every two in the list, the earlier one is in the relation to the later one.
abbrev pub EachPair : {A : Type 0} → (A → A → Type 0) → List A → Type 0
EachPair R [] = Unit
EachPair R (x ∷ xs) = All (R x) xs × EachPair R xs

abbrev pub IsOther : {Rating : Type 0} → Waiting Rating → Waiting Rating → Type 0
IsOther a b = a.player_id ≢ b.player_id

abbrev pub IsQueued : {Rating : Type 0} → Queue → Waiting Rating → Type 0
IsQueued queue w = in_queue w.player_id queue.members ≡ true

in_queue-remove :
    (p a : ℕ) (queue : List ℕ)
    → p ≢ a
    → in_queue p queue ≡ true
    → in_queue p (remove a queue) ≡ true
in_queue-remove p a [] h k = k
in_queue-remove p a (x ∷ xs) h k = ground (arith, in_queue-remove p a xs h)

pair_script_keeps :
    (a b p : ℕ) (queue : Queue) {after : Queue}
    → pair_script a b queue ≡ some after
    → p ≢ a
    → p ≢ b
    → in_queue p queue.members ≡ true
    → in_queue p after.members ≡ true
unfolding pair_script
pair_script_keeps a b p queue e h k i =
    ground (
      arith,
      in_queue-remove p b (remove a queue.members) k (in_queue-remove p a queue.members h i),
    )

pair_script_finds :
    (a b : ℕ) (queue : Queue)
    → in_queue a queue.members ≡ true
    → in_queue b queue.members ≡ true
    → pair_script a b queue ≢ none
unfolding pair_script
pair_script_finds a b queue h k e = ground arith

Sought-cases :
    {Rating : Type 0} (s : Sought Rating)
    → (s ≡ unpaired)
      ⊎ ((m : Match) × (rest : List (Waiting Rating)) × (after : Queue) × (s ≡ paired m rest after))
Sought-cases unpaired = inl refl
Sought-cases (paired m rest after) = inr (m, rest, after, refl)

module _ {Rating : Type 0} where
  abbrev pub RestAll : (Waiting Rating → Type 0) → Sought Rating → Type 0
  RestAll P unpaired = Unit
  RestAll P (paired m rest after) = All P rest

  abbrev pub RestEach : (Waiting Rating → Waiting Rating → Type 0) → Sought Rating → Type 0
  RestEach R unpaired = Unit
  RestEach R (paired m rest after) = EachPair R rest

  abbrev pub RestLength : ℕ → Sought Rating → Type 0
  RestLength n unpaired = Unit
  RestLength n (paired m rest after) = length rest ≤ n

  -- Whoever is neither the player nor one of the others is still in the queue.
  abbrev StaysQueued : ℕ → List (Waiting Rating) → Queue → Sought Rating → Type 0
  StaysQueued a others queue unpaired = Unit
  StaysQueued a others queue (paired m rest after) =
      (p : ℕ)
      → p ≢ a
      → All (λ w. p ≢ w.player_id) others
      → in_queue p queue.members ≡ true
      → in_queue p after.members ≡ true

  abbrev pub RestQueued : Sought Rating → Type 0
  RestQueued unpaired = Unit
  RestQueued (paired m rest after) = All (IsQueued after) rest

module _ {Rating : Type 0} (further : Rating → Rating → ℕ → Bool) (now : ℕ) where
  -- The players are further from each other than the wider of their windows.
  abbrev pub IsTooFar : Waiting Rating → Waiting Rating → Type 0
  IsTooFar a b = too_far further now a b ≡ true

  abbrev pub Unmet : Waiting Rating → List (Waiting Rating) → Sought Rating → Type 0
  Unmet a others unpaired = All (IsTooFar a) others
  Unmet a others (paired m rest after) = Unit

  met_step :
      (M : Sought Rating → Type 0) (a b : Waiting Rating) (others : List (Waiting Rating))
      (queue : Queue) (later : Sought Rating) (o : Option (Queue))
      → (o ≡ none → M (keep further now b later))
      → ((after : Queue) → o ≡ some after → M (paired (match_of a b) others after))
      → M (pair_with further now a b others later o)
  met_step M a b others queue later none kept met = kept refl
  met_step M a b others queue later (some after) kept met = met after refl

  -- What holds of both ways of one step holds after it.
  pub seek-step :
      (M : Sought Rating → Type 0) (a b : Waiting Rating) (others : List (Waiting Rating))
      (queue : Queue)
      → (too_far further now a b ≡ true → M (keep further now b (seek further now a others queue)))
      → (pair_script a.player_id b.player_id queue ≡ none
          → M (keep further now b (seek further now a others queue)))
      → ((after : Queue)
          → pair_script a.player_id b.player_id queue ≡ some after
          → M (paired (match_of a b) others after))
      → M (seek further now a (b ∷ others) queue)
  seek-step M a b others queue far refused met = elim (Bool-cases (too_far further now a b)) [
    | inl e ↦ rw e (far e)
    | inr e ↦ rw e (
        met_step M a b others queue (seek further now a others queue)
          (pair_script a.player_id b.player_id queue) refused met)
  ]

  keep-RestAll :
      (P : Waiting Rating → Type 0) (b : Waiting Rating) (s : Sought Rating)
      → P b
      → RestAll P s
      → RestAll P (keep further now b s)
  keep-RestAll P b unpaired h k = tt
  keep-RestAll P b (paired m rest after) h k = (h, k)

  seek-RestAll :
      (P : Waiting Rating → Type 0) (a : Waiting Rating) (others : List (Waiting Rating))
      (queue : Queue)
      → All P others
      → RestAll P (seek further now a others queue)
  seek-RestAll P a [] queue h = tt
  seek-RestAll P a (b ∷ others) queue h =
      let kept =
        keep-RestAll P b (seek further now a others queue) h.0
          (seek-RestAll P a others queue h.1) in
      seek-step (RestAll P) a b others queue (λ e. kept) (λ e. kept) (λ after e. h.1)

  keep-RestEach :
      (R : Waiting Rating → Waiting Rating → Type 0) (b : Waiting Rating) (s : Sought Rating)
      → RestAll (R b) s
      → RestEach R s
      → RestEach R (keep further now b s)
  keep-RestEach R b unpaired h k = tt
  keep-RestEach R b (paired m rest after) h k = (h, k)

  pub seek-RestEach :
      (R : Waiting Rating → Waiting Rating → Type 0) (a : Waiting Rating)
      (others : List (Waiting Rating)) (queue : Queue)
      → EachPair R others
      → RestEach R (seek further now a others queue)
  seek-RestEach R a [] queue h = tt
  seek-RestEach R a (b ∷ others) queue h =
      let kept =
        keep-RestEach R b (seek further now a others queue) (seek-RestAll (R b) a others queue h.0)
          (seek-RestEach R a others queue h.1) in
      seek-step (RestEach R) a b others queue (λ e. kept) (λ e. kept) (λ after e. h.1)

  keep-RestLength :
      (n : ℕ) (b : Waiting Rating) (s : Sought Rating)
      → RestLength n s
      → RestLength (suc n) (keep further now b s)
  keep-RestLength n b unpaired h = tt
  keep-RestLength n b (paired m rest after) h = omega arith

  pub seek-RestLength :
      (a : Waiting Rating) (others : List (Waiting Rating)) (queue : Queue)
      → RestLength (length others) (seek further now a others queue)
  seek-RestLength a [] queue = tt
  seek-RestLength a (b ∷ others) queue =
      let kept =
        keep-RestLength (length others) b (seek further now a others queue)
          (seek-RestLength a others queue) in
      seek-step (RestLength (suc (length others))) a b others queue (λ e. kept) (λ e. kept)
        (λ after e. omega arith)

  keep-Unmet :
      (a b : Waiting Rating) (others : List (Waiting Rating)) (s : Sought Rating)
      → IsTooFar a b
      → Unmet a others s
      → Unmet a (b ∷ others) (keep further now b s)
  keep-Unmet a b others unpaired h k = (h, k)
  keep-Unmet a b others (paired m rest after) h k = tt

  pub seek-Unmet :
      (a : Waiting Rating) (others : List (Waiting Rating)) (queue : Queue)
      → IsQueued queue a
      → All (IsQueued queue) others
      → Unmet a others (seek further now a others queue)
  seek-Unmet a [] queue h k = tt
  seek-Unmet a (b ∷ others) queue h k =
      seek-step (Unmet a (b ∷ others)) a b others queue
        (λ e.
          keep-Unmet a b others (seek further now a others queue) e
            (seek-Unmet a others queue h k.1))
        (λ e. absurd (pair_script_finds a.player_id b.player_id queue h k.0 e)) (λ after e. tt)

  keep-StaysQueued :
      (a : ℕ) (b : Waiting Rating) (others : List (Waiting Rating)) (queue : Queue)
      (s : Sought Rating)
      → StaysQueued a others queue s
      → StaysQueued a (b ∷ others) queue (keep further now b s)
  keep-StaysQueued a b others queue unpaired h = tt
  keep-StaysQueued a b others queue (paired m rest after) h = λ p x y z. h p x y.1 z

  seek-StaysQueued :
      (a : Waiting Rating) (others : List (Waiting Rating)) (queue : Queue)
      → StaysQueued a.player_id others queue (seek further now a others queue)
  seek-StaysQueued a [] queue = tt
  seek-StaysQueued a (b ∷ others) queue =
      let kept =
        keep-StaysQueued a.player_id b others queue (seek further now a others queue)
          (seek-StaysQueued a others queue) in
      seek-step (StaysQueued a.player_id (b ∷ others) queue) a b others queue (λ e. kept)
        (λ e. kept) (λ after e p x y z. pair_script_keeps a.player_id b.player_id p queue e x y.0 z)

  keep-RestQueued :
      (a : Waiting Rating) (b : Waiting Rating) (others : List (Waiting Rating)) (queue : Queue)
      (s : Sought Rating)
      → IsOther a b
      → All (IsOther b) others
      → IsQueued queue b
      → StaysQueued a.player_id others queue s
      → RestQueued s
      → RestQueued (keep further now b s)
  keep-RestQueued a b others queue unpaired h k q stays r = tt
  keep-RestQueued a b others queue (paired m rest after) h k q stays r =
      (stays b.player_id (λ e. h (sym e)) k q, r)

  IsQueued-pair_script :
      (a b : Waiting Rating) (others : List (Waiting Rating)) (queue after : Queue)
      → pair_script a.player_id b.player_id queue ≡ some after
      → All (IsOther a) others
      → All (IsOther b) others
      → All (IsQueued queue) others
      → All (IsQueued after) others
  IsQueued-pair_script a b [] queue after e h k q = tt
  IsQueued-pair_script a b (w ∷ ws) queue after e h k q = (
    pair_script_keeps a.player_id b.player_id w.player_id queue e (λ x. h.0 (sym x))
        (λ x. k.0 (sym x)) q.0,
    IsQueued-pair_script a b ws queue after e h.1 k.1 q.1,
  )

  pub seek-RestQueued :
      (a : Waiting Rating) (others : List (Waiting Rating)) (queue : Queue)
      → All (IsOther a) others
      → EachPair IsOther others
      → All (IsQueued queue) others
      → RestQueued (seek further now a others queue)
  seek-RestQueued a [] queue h k q = tt
  seek-RestQueued a (b ∷ others) queue h k q =
      let kept =
        keep-RestQueued a b others queue (seek further now a others queue) h.0 k.0 q.0
          (seek-StaysQueued a others queue) (seek-RestQueued a others queue h.1 k.1 q.1) in
      seek-step RestQueued a b others queue (λ e. kept) (λ e. kept)
        (λ after e. IsQueued-pair_script a b others queue after e h.1 k.0 q.1)

  -- What holds of both ways of one turn of the outer loop holds after it.
  pub sweep-step :
      (M : Swept Rating → Type 0) (n : ℕ) (a : Waiting Rating) (others : List (Waiting Rating))
      (queue : Queue)
      → (seek further now a others queue ≡ unpaired
          → M (left_alone further now a (sweep_waiting further now n others queue)))
      → ((m : Match) (rest : List (Waiting Rating)) (after : Queue)
          → seek further now a others queue ≡ paired m rest after
          → M (matched further now m (sweep_waiting further now n rest after)))
      → M (sweep_waiting further now (suc n) (a ∷ others) queue)
  sweep-step M n a others queue alone met = elim (Sought-cases (seek further now a others queue)) [
    | inl e ↦ rw (sweep_waiting, e) (alone e)
    | inr (m, rest, after, e) ↦ rw (sweep_waiting, e) (met m rest after e)
  ]

  pub sweep-All :
      (P : Waiting Rating → Type 0) (n : ℕ) (ws : List (Waiting Rating)) (queue : Queue)
      → All P ws
      → All P (sweep_waiting further now n ws queue).rest
  sweep-All P zero ws queue h = h
  sweep-All P (suc n) [] queue h = tt
  sweep-All P (suc n) (a ∷ others) queue h =
      sweep-step (λ s. All P s.rest) n a others queue (λ e. (h.0, sweep-All P n others queue h.1))
        (λ m rest after e.
          sweep-All P n rest after (subst (RestAll P) e (seek-RestAll P a others queue h.1)))
