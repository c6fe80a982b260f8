-- ===== src/Play/Matchmaking.antt =====
-- Matchmaking, src/modules/play/matchmaking.service.ts: the window of a player who waits, the script
-- that takes two players out of a bucket at once, and the double loop of `sweepBucket` over the players
-- who wait. The ratings are floating-point numbers: `further a b w` is the test
-- `Math.abs(a - b) > w` on them, a parameter. The loop begins with the players that it has read and
-- sorted, and the games that it creates are the matches that it returns. A time that lies in the future counts as no time, as in
-- `Math.max(0, waitedMs)`.
use farzin.Prelude.{
  ℕ, zero, suc, ◌+◌, ◌-◌, ◌*◌, ◌/◌, Bool, true, false, not, ◌&&◌, ◌||◌, Option, none, some, List,
  [], ◌∷◌, ◌==◌, ltb, leb, if◌then◌else◌,
}
pub mod Loops
pub mod Fair
pub mod Once

pub record MatchmakingConfig : Type 0 where
  pub initial_delta : ℕ
  pub delta_step : ℕ
  pub step_interval_ms : ℕ
  pub max_delta : ℕ

abbrev pub default_matchmaking_config : MatchmakingConfig
default_matchmaking_config = record {
  initial_delta = 200;
  delta_step = 50;
  step_interval_ms = 10000;
  max_delta = 500;
}

unfoldable pub current_delta : MatchmakingConfig → ℕ → ℕ
current_delta cfg waited_ms =
    let steps = waited_ms / cfg.step_interval_ms in
    let delta = cfg.initial_delta + steps * cfg.delta_step in
    if ltb delta cfg.max_delta then delta else cfg.max_delta

-- The rating that is stored with it is not read by the loop, which takes the one of the sorted set.
pub record QueueMeta : Type 0 where
  pub user_id : ℕ
  pub joined_at : ℕ

pub record Waiting (Rating : Type 0) : Type 0 where
  pub player_id : ℕ
  pub rating : Rating
  pub meta : QueueMeta

-- A player and the account that plays.
pub record Seat : Type 0 where
  pub player_id : ℕ
  pub user_id : ℕ

-- What `pairAndCreate` creates the game from.
pub record Match : Type 0 where
  pub white : Seat
  pub black : Seat

-- The keys of one bucket, the players of its sorted set and of its metadata, and the players that have
-- the marker of a queue.
pub record Queue : Type 0 where
  pub members : List ℕ
  pub described : List ℕ
  pub marked : List ℕ

abbrev pub in_queue : ℕ → List ℕ → Bool
in_queue p [] = false
in_queue p (x ∷ xs) = (x == p) || in_queue p xs

-- `ZREM` and `HDEL` of one player, and `DEL` of the player's marker.
abbrev pub remove : ℕ → List ℕ → List ℕ
remove p [] = []
remove p (x ∷ xs) = let rest = remove p xs in if x == p then rest else x ∷ rest

abbrev pub taken : ℕ → ℕ → List ℕ → List ℕ
taken a b xs = remove b (remove a xs)

unfoldable pub pair_script : ℕ → ℕ → Queue → Option Queue
pair_script a b queue =
    if in_queue a queue.members
    then (if in_queue b queue.members
        then some record {
          members = taken a b queue.members;
          described = taken a b queue.described;
          marked = taken a b queue.marked;
        }
        else none)
    else none

module _ {Rating : Type 0} where
  abbrev pub seat_of : Waiting Rating → Seat
  seat_of w = record { player_id = w.player_id; user_id = w.meta.user_id }

  -- Who has waited longer plays white.
  abbrev pub match_of : Waiting Rating → Waiting Rating → Match
  match_of a b =
      if leb a.meta.joined_at b.meta.joined_at
      then record { white = seat_of a; black = seat_of b }
      else record { white = seat_of b; black = seat_of a }

-- What looking for an opponent of one player ends with: none, or a match, the others who wait, and the
-- queue without the two.
pub data Sought (Rating : Type 0) : Type 0 where
  unpaired : Sought Rating
  paired : Match → List (Waiting Rating) → Queue → Sought Rating

pub record Swept (Rating : Type 0) : Type 0 where
  pub matches : List Match
  pub rest : List (Waiting Rating)
  pub queue : Queue

module _ {Rating : Type 0} (further : Rating → Rating → ℕ → Bool) (now : ℕ) where
  abbrev pub delta_at : Waiting Rating → ℕ
  delta_at w = current_delta default_matchmaking_config (now - w.meta.joined_at)

  -- The ratings of the two lie outside the wider of their windows.
  unfoldable pub too_far : Waiting Rating → Waiting Rating → Bool
  too_far a b =
      let window = if ltb (delta_at a) (delta_at b) then delta_at b else delta_at a in
      further a.rating b.rating window

  -- One who is passed over stays in the list.
  abbrev pub keep : Waiting Rating → Sought Rating → Sought Rating
  keep b unpaired = unpaired
  keep b (paired m rest queue) = paired m (b ∷ rest) queue

  abbrev pub pair_with :
      Waiting Rating
      → Waiting Rating
      → List (Waiting Rating)
      → Sought Rating
      → Option (Queue)
      → Sought Rating
  pair_with a b others later none = keep b later
  pair_with a b others later (some queue) = paired (match_of a b) others queue

  -- The inner loop.
  abbrev pub seek : Waiting Rating → List (Waiting Rating) → Queue → Sought Rating
  seek a [] queue = unpaired
  seek a (b ∷ others) queue =
      let later = seek a others queue in
      if too_far a b
      then keep b later
      else pair_with a b others later (pair_script a.player_id b.player_id queue)

  abbrev pub left_alone : Waiting Rating → Swept Rating → Swept Rating
  left_alone a s = record { matches = s.matches; rest = a ∷ s.rest; queue = s.queue }

  abbrev pub matched : Match → Swept Rating → Swept Rating
  matched m s = record { matches = m ∷ s.matches; rest = s.rest; queue = s.queue }

  -- The outer loop, on fuel: the number of players who wait is enough.
  abbrev pub sweep_waiting : ℕ → List (Waiting Rating) → Queue → Swept Rating
  sweep_waiting zero ws queue = record { matches = []; rest = ws; queue = queue }
  sweep_waiting (suc n) [] queue = record { matches = []; rest = []; queue = queue }
  sweep_waiting (suc n) (a ∷ others) queue = elim (seek a others queue) [
    | unpaired ↦ left_alone a (sweep_waiting n others queue)
    | paired m rest after ↦ matched m (sweep_waiting n rest after)
  ]
