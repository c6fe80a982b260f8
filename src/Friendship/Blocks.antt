-- ===== src/Friendship/Blocks.antt =====
-- Friendships: who can change the row of a pair, along any sequence of requests.
use farzin.Prelude.{ℕ, true, Option, none, some, ok, ◌≡◌, ◌≢◌, refl, ◌⊎◌, inl, inr, arith}
use farzin.Friendship.{
  FriendshipView, FriendshipStatus, pending, accepted, blocked, request, accept, end_friendship,
  block, unblock, block_row, load, can_request, can_request_again, allow, can_accept, can_decline,
  can_remove, can_block, can_unblock, is_member,
}

-- The row is one of the two players `x` and `y`.
abbrev pub IsRowOf : ℕ → ℕ → FriendshipView → Type 0
IsRowOf x y row =
    ((row.requester_id ≡ x) × (row.addressee_id ≡ y))
    ⊎ ((row.requester_id ≡ y) × (row.addressee_id ≡ x))

-- A call that succeeds, with the player who makes it, on the row of `x` and `y`, when calls are served one
-- at a time: the row that it writes is the one that it has read.
pub data Call (x y : ℕ) : ℕ → Option FriendshipView → Option FriendshipView → Type 0 where
  requests :
      {before after : Option FriendshipView}
      → request x y true before ≡ ok after
      → Call x y x before after
  requests_back :
      {before after : Option FriendshipView}
      → request y x true before ≡ ok after
      → Call x y y before after
  accepts :
      {p : ℕ} {before after : Option FriendshipView}
      → accept p before before ≡ ok after
      → Call x y p before after
  ends :
      {p : ℕ} {before after : Option FriendshipView}
      → end_friendship p before before ≡ ok after
      → Call x y p before after
  blocks :
      {before after : Option FriendshipView}
      → block x y true before ≡ ok after
      → Call x y x before after
  blocks_back :
      {before after : Option FriendshipView}
      → block y x true before ≡ ok after
      → Call x y y before after
  unblocks :
      {p : ℕ} {before after : Option FriendshipView}
      → unblock p before before ≡ ok after
      → Call x y p before after

-- The row is fit for the table: it is of the two players, and it names a blocker, one of the two, just
-- when it is blocked.
pub record IsFit (x y : ℕ) (row : FriendshipView) : Type 0 where
  pub row_of : IsRowOf x y row
  pub blocker :
      ((row.status ≡ blocked) × ((row.blocked_by_id ≡ some x) ⊎ (row.blocked_by_id ≡ some y)))
      ⊎ ((row.status ≢ blocked) × (row.blocked_by_id ≡ none))

abbrev pub AllFit : ℕ → ℕ → Option FriendshipView → Type 0
AllFit x y none = Unit
AllFit x y (some row) = IsFit x y row

can_request_again_lem :
    (x : ℕ) (row : FriendshipView) (status : FriendshipStatus)
    → can_request_again x row status ≢ allow
can_request_again_lem x row pending h = ground arith
can_request_again_lem x row accepted h = cc
can_request_again_lem x row blocked h = cc

refused_again :
    (x y : ℕ) (row : FriendshipView) {after : Option FriendshipView}
    → request x y true (some row) ≢ ok after
unfolding request can_request
refused_again x y row h = can_request_again_lem x row row.status (ground arith)

request_lem :
    (x y : ℕ) {before after : Option FriendshipView}
    → request x y true before ≡ ok after
    → (before ≡ none)
      × (after
          ≡ some (record {
            requester_id = x;
            addressee_id = y;
            status = pending;
            blocked_by_id = none;
          }))
      × (x ≢ y)
unfolding request can_request
request_lem x y {before = none} h = (refl, ground arith, ground arith)
request_lem x y {before = some r} h = absurd (refused_again x y r h)

accept_lem :
    (p : ℕ) {before after : Option FriendshipView}
    → accept p before before ≡ ok after
    → (row : FriendshipView) × (before ≡ some row)
      × (after ≡ some (record row { status = accepted }))
      × (row.status ≡ pending)
      × (row.addressee_id ≡ p)
unfolding accept can_accept load
accept_lem p {before = none} h = absurd (ground arith)
accept_lem p {before = some r} h = (r, refl, ground arith, ground arith, ground arith)

end_lem :
    (p : ℕ) {before after : Option FriendshipView}
    → end_friendship p before before ≡ ok after
    → (row : FriendshipView) × (before ≡ some row)
      × (after ≡ none)
      × (row.status ≢ blocked)
      × (is_member p row ≡ true)
unfolding end_friendship can_decline can_remove load is_member
end_lem p {before = none} h = absurd (ground arith)
end_lem p {before = some r} h = (r, refl, ground arith, ground arith, ground arith)

block_lem :
    (x y : ℕ) (before : Option FriendshipView) {after : Option FriendshipView}
    → block x y true before ≡ ok after
    → (after ≡ some (block_row x y before)) × (x ≢ y)
unfolding block can_block
block_lem x y before h = (ground arith, ground arith)

unblock_lem :
    (p : ℕ) {before after : Option FriendshipView}
    → unblock p before before ≡ ok after
    → (row : FriendshipView) × (before ≡ some row)
      × (after ≡ none)
      × (row.status ≡ blocked)
      × (row.blocked_by_id ≡ some p)
unfolding unblock can_unblock load
unblock_lem p {before = none} h = absurd (ground arith)
unblock_lem p {before = some r} h = (r, refl, ground arith, ground arith, ground arith)

swapped : {x y : ℕ} {row : FriendshipView} → IsFit x y row → IsFit y x row
swapped f = record {
  row_of = elim f.row_of [ inl a ↦ inr a | inr a ↦ inl a ];
  blocker = elim f.blocker [
    | inl (a, inl b) ↦ inl (a, inr b)
    | inl (a, inr b) ↦ inl (a, inl b)
    | inr a ↦ inr a
  ];
}

abbrev new_request : ℕ → ℕ → FriendshipView
new_request me target = record {
  requester_id = me;
  addressee_id = target;
  status = pending;
  blocked_by_id = none;
}

new_request-IsFit : (x y : ℕ) → IsFit x y (new_request x y)
new_request-IsFit x y = record { row_of = inl (refl, refl); blocker = inr ((λ h. cc), refl) }

block_row-IsFit :
    {x y : ℕ} (before : Option FriendshipView)
    → AllFit x y before
    → IsFit x y (block_row x y before)
block_row-IsFit none fit = record { row_of = inl (refl, refl); blocker = inl (refl, inl refl) }
block_row-IsFit (some row) fit = record { row_of = fit.row_of; blocker = inl (refl, inl refl) }

AllFit-swap : (x y : ℕ) (before : Option FriendshipView) → AllFit x y before → AllFit y x before
AllFit-swap x y none fit = tt
AllFit-swap x y (some row) fit = swapped fit

unblocked :
    {x y : ℕ} {row : FriendshipView}
    → IsFit x y row
    → row.status ≡ pending
    → row.blocked_by_id ≡ none
unblocked f h = elim f.blocker [ inl (e, _) ↦ absurd (ground arith) | inr (_, e) ↦ e ]

accepted-IsFit :
    {x y : ℕ} (row : FriendshipView)
    → IsFit x y row
    → row.status ≡ pending
    → IsFit x y (record row { status = accepted })
accepted-IsFit row f h = record { row_of = f.row_of; blocker = inr ((λ e. cc), unblocked f h) }

-- Every call that succeeds on the row of the players `x` and `y` keeps it fit for the table: it stays a
-- row of these two, and it names one of them as its blocker just when it is blocked.
Call-IsFit :
    {x y p : ℕ} {before after : Option FriendshipView}
    → Call x y p before after
    → AllFit x y before
    → AllFit x y after
Call-IsFit {x} {y} (requests h) fit =
    let (_, e, _) = request_lem x y h in rw e (new_request-IsFit x y)
Call-IsFit {x} {y} (requests_back h) fit =
    let (_, e, _) = request_lem y x h in rw e (swapped (new_request-IsFit y x))
Call-IsFit {x} {y} {p = p} (accepts h) fit =
    let (row, e, e', a, b) = accept_lem p h in
    let fit' : IsFit x y row = rw e at fit in rw e' (accepted-IsFit row fit' a)
Call-IsFit {p = p} (ends h) fit = let (row, e, e', a, b) = end_lem p h in rw e' tt
Call-IsFit {x} {y} {before = before} (blocks h) fit =
    let (e, _) = block_lem x y before h in rw e (block_row-IsFit before fit)
Call-IsFit {x} {y} {before = before} (blocks_back h) fit =
    let (e, _) = block_lem y x before h in
    rw e (swapped (block_row-IsFit before (AllFit-swap x y before fit)))
Call-IsFit {p = p} (unblocks h) fit = let (row, e, e', a, b) = unblock_lem p h in rw e' tt

abbrev pub IsBlockedBy : ℕ → Option FriendshipView → Type 0
IsBlockedBy b none = ⊥
IsBlockedBy b (some row) = (row.status ≡ blocked) × (row.blocked_by_id ≡ some b)

block_row-IsBlockedBy :
    (x y : ℕ) (before : Option FriendshipView) → IsBlockedBy x (some (block_row x y before))
block_row-IsBlockedBy x y none = (refl, refl)
block_row-IsBlockedBy x y (some row) = (refl, refl)

at_row : (b : ℕ) {o o' : Option FriendshipView} → o ≡ o' → IsBlockedBy b o → IsBlockedBy b o'
at_row b e h = rw e at h

no_row : (b : ℕ) {o : Option FriendshipView} → o ≡ none → IsBlockedBy b o → ⊥
no_row b e h = at_row b e h

pending_row :
    (b : ℕ) {o : Option FriendshipView} (row : FriendshipView)
    → o ≡ some row
    → row.status ≡ pending
    → IsBlockedBy b o
    → ⊥
pending_row b row e a h = let h' = at_row b e h in ground arith

-- Served one at a time, of the calls that succeed on a row that `b` has blocked, one can only remove the
-- row, if it is the blocker `b` that makes it, or block it anew, which makes its caller the blocker.
pub Call-IsBlockedBy :
    {x y p b : ℕ} {before after : Option FriendshipView}
    → Call x y p before after
    → IsBlockedBy b before
    → ((after ≡ none) × (p ≡ b)) ⊎ IsBlockedBy p after
Call-IsBlockedBy {x} {y} (requests h) hb =
    let (e, _, _) = request_lem x y h in absurd (no_row _ e hb)
Call-IsBlockedBy {x} {y} (requests_back h) hb =
    let (e, _, _) = request_lem y x h in absurd (no_row _ e hb)
Call-IsBlockedBy {p = p} (accepts h) hb =
    let (row, e, _, a, _) = accept_lem p h in absurd (pending_row _ row e a hb)
Call-IsBlockedBy {p = p} {b} (ends h) hb =
    let (row, e, _, a, _) = end_lem p h in absurd (a (at_row b e hb).0)
Call-IsBlockedBy {x} {y} {before = before} (blocks h) hb =
    let (e, _) = block_lem x y before h in inr (rw e (block_row-IsBlockedBy x y before))
Call-IsBlockedBy {x} {y} {before = before} (blocks_back h) hb =
    let (e, _) = block_lem y x before h in inr (rw e (block_row-IsBlockedBy y x before))
Call-IsBlockedBy {p = p} {b = b} (unblocks h) hb =
    let (row, e, e', _, o) = unblock_lem p h in
    let same = (at_row b e hb).1 in inl (e', ground arith)

blocked_row :
    {row made : FriendshipView} {A B : Type 0}
    → some row ≡ some made
    → made.status ≡ blocked
    → (row.status ≡ accepted → A) × (row.status ≡ pending → B)
blocked_row e h = ((λ a. absurd (ground arith)), (λ a. absurd (ground arith)))

-- Friendship needs both sides: a call that succeeds leaves an accepted row only where the addressee of a
-- pending row called, and it leaves a pending row only where its requester called, on no row.
pub Call-consent :
    {x y p : ℕ} {before : Option FriendshipView} {row : FriendshipView}
    → Call x y p before (some row)
    → (row.status ≡ accepted
        → (asked : FriendshipView) × (before ≡ some asked)
          × (asked.status ≡ pending)
          × (asked.requester_id ≡ row.requester_id)
          × (asked.addressee_id ≡ p)
          × (row.addressee_id ≡ p))
      × (row.status ≡ pending → (before ≡ none) × (row.requester_id ≡ p))
Call-consent {x} {y} (requests h) =
    let (e, e', _) = request_lem x y h in ((λ a. absurd (ground arith)), (λ a. (e, ground arith)))
Call-consent {x} {y} (requests_back h) =
    let (e, e', _) = request_lem y x h in ((λ a. absurd (ground arith)), (λ a. (e, ground arith)))
Call-consent {p = p} (accepts h) =
    let (asked, e, e', a, b) = accept_lem p h in
    ((λ _. (asked, e, a, ground arith, b, ground arith)), (λ c. absurd (ground arith)))
Call-consent {p = p} (ends h) = let (_, _, e, _, _) = end_lem p h in absurd (ground arith)
Call-consent {x} {y} {before = before} (blocks h) =
    let (e, _) = block_lem x y before h in blocked_row e (block_row-IsBlockedBy x y before).0
Call-consent {x} {y} {before = before} (blocks_back h) =
    let (e, _) = block_lem y x before h in blocked_row e (block_row-IsBlockedBy y x before).0
Call-consent {p = p} (unblocks h) = let (_, _, e, _, _) = unblock_lem p h in absurd (ground arith)

member : {x y : ℕ} (row : FriendshipView) → IsFit x y row → is_member y row ≡ true
unfolding is_member
member row fit = ground arith

lifted :
    (y : ℕ) (row : FriendshipView)
    → is_member y row ≡ true
    → row.status ≡ blocked
    → row.blocked_by_id ≡ some y
    → unblock y (some row) (some row) ≡ ok none
unfolding unblock can_unblock load is_member
lifted y row m h e = ground arith

-- The blocked player can lift the block: on a row that one player `x` has blocked, the other player `y`
-- succeeds to block `x`, and then to unblock, which leaves no row.
pub blocked_player_lifts_block :
    (x y : ℕ) (row : FriendshipView)
    → IsFit x y row
    → IsBlockedBy x (some row)
    → x ≢ y
    → (mid : Option FriendshipView) × Call x y y (some row) mid × Call x y y mid none
unfolding block can_block is_member
blocked_player_lifts_block x y row fit hb apart =
    let again = block_row y x (some row) in
    (some again, blocks_back (ground arith), unblocks (lifted y again (member row fit) refl refl))

end_allowed :
    (y : ℕ) (seen current : FriendshipView)
    → is_member y seen ≡ true
    → seen.status ≢ blocked
    → end_friendship y (some seen) (some current) ≡ ok none
unfolding end_friendship can_decline can_remove load is_member
end_allowed y seen current m h = ground arith

-- A removal that was checked before a block deletes the block: if the player `y` of a row that is not
-- blocked ends it, and the other player `x` blocks `y` after that call has read the row and before it
-- writes, then both calls succeed and no row is left.
pub end_friendship-stale :
    (x y : ℕ) (seen : FriendshipView)
    → IsFit x y seen
    → seen.status ≢ blocked
    → x ≢ y
    → (mid : Option FriendshipView) × (block x y true (some seen) ≡ ok mid)
      × IsBlockedBy x mid
      × (end_friendship y (some seen) mid ≡ ok none)
unfolding block can_block
end_friendship-stale x y seen fit live apart =
    let row = block_row x y (some seen) in
    (
      some row,
      ground arith,
      block_row-IsBlockedBy x y (some seen),
      end_allowed y seen row (member seen fit) live,
    )
