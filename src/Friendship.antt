-- ===== src/Friendship.antt =====
-- Friendships: the rules of src/modules/friend/friendship.rules.ts, and the operations of
-- friend.service.ts, with the writes of friend.repository.ts, on the row of one pair of players.
-- Players are given by their ids; `none` is a pair without a row.
pub mod Blocks
use farzin.Prelude.{
  ℕ, Bool, true, false, not, ◌&&◌, ◌||◌, Option, none, some, Result, ok, err, ◌>>=◌, ◌>>◌, throw_if,
  ◌==◌, if◌then◌else◌,
}

pub data FriendshipStatus : Type 0 where
  pending accepted blocked : FriendshipStatus

pub record FriendshipView : Type 0 where
  pub requester_id : ℕ
  pub addressee_id : ℕ
  pub status : FriendshipStatus
  pub blocked_by_id : Option ℕ

pub data Denial : Type 0 where
  self_friendship already_friends request_pending incoming_request_pending denied_blocked : Denial
  not_addressee not_pending not_member not_blocked not_blocker : Denial

pub data Decision : Type 0 where
  allow : Decision
  deny : Denial → Decision

unfoldable pub is_member : ℕ → FriendshipView → Bool
is_member player_id row = row.requester_id == player_id || row.addressee_id == player_id

-- The last tests of `canRequest`, for a row that there is.
abbrev pub can_request_again : ℕ → FriendshipView → FriendshipStatus → Decision
can_request_again actor row blocked = deny denied_blocked
can_request_again actor row accepted = deny already_friends
can_request_again actor row pending =
    if row.requester_id == actor then deny request_pending else deny incoming_request_pending

abbrev pub can_request_row : ℕ → Option FriendshipView → Decision
can_request_row actor none = allow
can_request_row actor (some row) = can_request_again actor row row.status

unfoldable pub can_request : ℕ → ℕ → Option FriendshipView → Decision
can_request actor target existing =
    if actor == target then deny self_friendship else can_request_row actor existing

abbrev pub is_pending : FriendshipStatus → Bool
is_pending pending = true
is_pending _ = false

abbrev pub is_blocked : FriendshipStatus → Bool
is_blocked blocked = true
is_blocked _ = false

unfoldable pub can_accept : ℕ → FriendshipView → Decision
can_accept actor row =
    if not (is_pending row.status)
    then deny not_pending
    else if not (row.addressee_id == actor)
    then deny not_addressee
    else allow

unfoldable pub can_decline : ℕ → FriendshipView → Decision
can_decline actor row =
    if not (is_pending row.status)
    then deny not_pending
    else if is_member actor row
    then allow
    else deny not_member

unfoldable pub can_remove : ℕ → FriendshipView → Decision
can_remove actor row =
    if not (is_member actor row)
    then deny not_member
    else if is_blocked row.status
    then deny denied_blocked
    else allow

unfoldable pub can_block : ℕ → ℕ → Decision
can_block actor target = if actor == target then deny self_friendship else allow

-- `row.blockedById === actorPlayerId`.
abbrev pub is_blocker : ℕ → Option ℕ → Bool
is_blocker actor none = false
is_blocker actor (some b) = b == actor

unfoldable pub can_unblock : ℕ → FriendshipView → Decision
can_unblock actor row =
    if not (is_blocked row.status)
    then deny not_blocked
    else if is_blocker actor row.blocked_by_id
    then allow
    else deny not_blocker

unfoldable pub other_side : ℕ → FriendshipView → ℕ
other_side actor row = if row.requester_id == actor then row.addressee_id else row.requester_id

-- The errors of the service: `NotFoundError`, for a player or a row, and `BusinessRuleError`; and those
-- of the database, for a row that is gone and for one that a constraint of the table refuses.
pub data FriendError : Type 0 where
  not_found row_gone row_refused : FriendError
  refused : Denial → FriendError

-- `assertAllowed`.
abbrev pub assert_allowed : Decision → Result FriendError (Unit {0})
assert_allowed allow = ok tt
assert_allowed (deny reason) = err (refused reason)

-- `load`: a stranger's row is as good as none.
unfoldable pub load : ℕ → Option FriendshipView → Result FriendError FriendshipView
load me none = err not_found
load me (some row) =
    throw_if (not (row.requester_id == me) && not (row.addressee_id == me)) not_found >> ok row

-- `request`. `known` says whether there is such a player as `target`; `existing` is the pair's row.
unfoldable pub request :
    ℕ → ℕ → Bool → Option FriendshipView → Result FriendError (Option FriendshipView)
request me target known existing =
    throw_if (not known) not_found
    >> assert_allowed (can_request me target existing)
    >> ok (
        some (record {
          requester_id = me;
          addressee_id = target;
          status = pending;
          blocked_by_id = none;
        }))

-- `accept`, `end` and `unblock` check the row that `load` has read, `seen`, and then write by its id:
-- `current` is the row that stands there at the write, which another call may have changed. A write
-- by id throws where the row is gone.

-- `repo.accept`. The table refuses an accepted row that names a blocker.
abbrev pub write_accepted : Option FriendshipView → Result FriendError (Option FriendshipView)
write_accepted none = err row_gone
write_accepted (some row) = elim row.blocked_by_id [
  | none ↦ ok (some (record row { status = accepted }))
  | some b ↦ err row_refused
]

-- `repo.remove` and `repo.unblock`: whatever the row says by then.
abbrev pub delete_row : Option FriendshipView → Result FriendError (Option FriendshipView)
delete_row none = err row_gone
delete_row (some row) = ok none

unfoldable pub accept :
    ℕ → Option FriendshipView → Option FriendshipView → Result FriendError (Option FriendshipView)
accept me seen current = do
  row ← load me seen
  assert_allowed (can_accept me row)
  write_accepted current

-- `end`: to decline a request, to withdraw it, or to stop being friends.
unfoldable pub end_friendship :
    ℕ → Option FriendshipView → Option FriendshipView → Result FriendError (Option FriendshipView)
end_friendship me seen current = do
  row ← load me seen
  assert_allowed (if is_pending row.status then can_decline me row else can_remove me row)
  delete_row current

-- The write of `block`: a new row, or the pair's row overwritten.
abbrev pub block_row : ℕ → ℕ → Option FriendshipView → FriendshipView
block_row me target none = record {
  requester_id = me;
  addressee_id = target;
  status = blocked;
  blocked_by_id = some me;
}
block_row me target (some row) = record row { status = blocked; blocked_by_id = some me }

unfoldable pub block :
    ℕ → ℕ → Bool → Option FriendshipView → Result FriendError (Option FriendshipView)
block me target known existing =
    assert_allowed (can_block me target)
    >> throw_if (not known) not_found
    >> ok (some (block_row me target existing))

unfoldable pub unblock :
    ℕ → Option FriendshipView → Option FriendshipView → Result FriendError (Option FriendshipView)
unblock me seen current = do
  row ← load me seen
  assert_allowed (can_unblock me row)
  delete_row current
