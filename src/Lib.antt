-- ===== src/Lib.antt =====
-- Farzin, a platform for chess tournaments and online play: a model of its core logic, with proofs.
--
-- The program is a server in TypeScript. Its folder src/core holds pure functions, which the modules
-- of src/modules call with rows of the database. The model follows the pure functions, and the rules
-- of some modules, clause by clause.
--
-- Parts and files (paths are from the root of the repository):
-- - Clock: src/core/clock/chess-clock.ts. `createClock`, `remaining`, `isFlagged` and `applyMove` on
--   a clock's state. Clock/Agreement relates the functions, Clock/Accounting adds up whole games.
-- - Pairing: src/core/pairing/pairing.types.ts, what the engines take and return.
--   Pairing/RoundRobin: round-robin.engine.ts, `bergerRound` and `compute`; its children prove how the
--   seats wrap around, the rounds of a leg, and what becomes of the players.
--   Pairing/Swiss: swiss/colors.ts (Colors), swiss/swiss-types.ts (Players), swiss/verify.ts (Verify),
--   swiss/bracket-weights.ts (Weights), swiss/score-brackets.ts (Brackets) and swiss-dutch.engine.ts
--   (Dutch). The Swiss engine prepares players, pairs those that `canMeet` bracket by bracket, gives
--   colours by `allocateColors` and has the round checked by `verifyAbsoluteCriteria`. A bracket asks
--   `maximumWeightMatching` of swiss/blossom.ts for a matching of its edges: that function is the
--   parameter `matching`, of which
--   nothing is assumed. Brackets/Settled is about the loop that merges brackets, Dutch/Complete about
--   the rounds that are returned.
-- - Money: src/core/money/money.ts, amounts in the smallest unit as signed integers.
-- - Ledger: src/core/billing/ledger.ts, balanced transactions and their reversal.
-- - Tiebreak: src/core/tiebreak, the calculator's context and its formulas for one player.
-- - Scores: src/modules/arbiter/result-mapping.ts, from the results of the pairings to the points,
--   statistics and games of each player, which the tie-breaks take.
-- - Payment, Tournament: payment-status.machine.ts of src/modules/billing and
--   tournament-status.machine.ts of src/modules/tournament, the moves between states.
-- - Friendship: src/modules/friend, the rules of friendship.rules.ts, and the operations of
--   friend.service.ts on the row of one pair, with the writes of friend.repository.ts. `accept`, `end` and
--   `unblock` take the row that they have read and the row that stands there when they write.
-- - Roles: src/modules/identity/admin/role-grant.rules.ts, who may grant and revoke what.
-- - TimeCategory: src/core/clock/time-category.ts, the rating pool of an online time control.
-- - Chess: src/core/chess/rules.ts, over the package chess.js and the readings of the texts of positions
--   (FEN), which are the parameter `ChessJs`; `TakesTurns` says that moves take turns.
-- - Play: src/modules/play. Play/Rows, Play/Store, Play/Service, Play/Moves and Play/Actions are the life of
--   one game: the rows of play.types.ts, the tables of play.repository.ts and the keys of clock.store.ts,
--   and the operations of play.service.ts. A request reads and writes later: `make_move` is `plan_move`
--   and then `commit_move`, and the ends of a game take the row that was read. Play/History is what may
--   happen to a game while requests, timers and sweepers interleave. Its `Change` is the grain of the
--   code: one transaction of the database, or anything that happens to the keys in Redis and to the
--   events, which the code writes after the transaction, each with its own await, and which may come
--   late, fail or be lost. Its `Step` is coarser: the writes of a request run whole, as in
--   `commit_move` and `end_game`; Play/History/Grain shows that a step is made of changes. Play/Claims and
--   Play/Ends are about what the ends of a game tell.
--   Play/Timers: game-timers.ts, the timers of the games over the handles that
--   run in the event loop, and the delay of the flag's timer.
--   Play/Matchmaking: the pairing script and the sweep of matchmaking.service.ts over the players who
--   wait in one bucket, on fuel: their number.
-- - Prelude: names, tests on numbers, lists, results of calls that may throw, and signed integers,
--   maps, that all of these share. Tests: the theorems on concrete inputs.
--
-- An error that the code throws is a value here, without its text. The numbers of the code are whole
-- in every part that is modelled: milliseconds, seat numbers, half-points or tenths of points,
-- and bigints, so they are natural numbers or integers and nothing is rounded or wraps around. A
-- `Set` or a `Map` is a list. Ids are numbers, which the code only compares. Loops are
-- recursion on the list that they run over, or on the number of rounds left. Only the loop of
-- `pairAllBrackets` has no such number in the code: it is given one round more than there are groups
-- of one score, and it is proved that more rounds make no difference.
--
-- Not modelled: the matching algorithm (swiss/blossom.ts) and the diagnostics of the Swiss engine,
-- ARO, direct encounter and the ranking of the tie-breaks, ratings (floating point), the writers of
-- files, the services over the database but those of friendships and of one game, and the web client.
pub mod Prelude
pub mod Clock
pub mod Chess
pub mod Pairing
pub mod Money
pub mod Ledger
pub mod Friendship
pub mod Roles
pub mod TimeCategory
pub mod Tiebreak
pub mod Scores
pub mod Payment
pub mod Play
pub mod Tournament
pub mod Tests
