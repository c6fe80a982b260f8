-- ===== src/Tests/Access.antt =====
-- Friendships, roles and tie-breaks.
use farzin.Prelude.{
  Option, ℕ, none, some, List, [], ◌∷◌, ◌≡◌, ◌≤◌, ◌<◌, ◌+◌, ◌⊎◌, inl, inr, refl, true, false,
  length, arith, ok,
}
use farzin.Friendship.{
  FriendshipView, pending, accepted, blocked, block, end_friendship, can_block, accept, can_accept,
  load,
}
use farzin.Friendship.Blocks.{
  end_friendship-stale, blocked_player_lifts_block, Call, accepts, blocks_back, IsFit, IsBlockedBy,
  Call-IsBlockedBy, Call-consent,
}
use farzin.Roles.{
  federation_admin, club_admin, club, ScopeRef, RoleRow, super_admin, can_grant, can_delegate,
  can_revoke, StatusTarget,
}
use farzin.Roles.Delegation.{Assignment, Granted, nothing, grant, AllRanks, Granted-rank}
use farzin.Roles.Lockout.{Revoked, revoke, Revoked-super_admin, global_super_admins}
use farzin.Tiebreak.{PlayerTieBreakInput, TieBreakContext, win, white, halves}
use farzin.Tiebreak.Formulas.{buchholz_cut, opponent_points2, sum}
use farzin.Tiebreak.Formulas.Buchholz.{buchholz_cut-sum, least, greatest}

-- Player 1 asked player 2.
abbrev asked : FriendshipView
asked = record { requester_id = 1; addressee_id = 2; status = pending; blocked_by_id = none }

abbrev friends : FriendshipView
friends = record asked { status = accepted }

agreed : Call 1 2 2 (some asked) (some friends)
unfolding accept can_accept load
agreed = accepts refl

asked-IsFit : IsFit 1 2 asked
asked-IsFit = record { row_of = inl (refl, refl); blocker = inr ((λ h. cc), refl) }

-- Player 1 has blocked player 2.
abbrev shut : FriendshipView
shut = record asked { status = blocked; blocked_by_id = some 1 }

abbrev shut_back : FriendshipView
shut_back = record asked { status = blocked; blocked_by_id = some 2 }

blocked_back : Call 1 2 2 (some shut) (some shut_back)
unfolding block can_block
blocked_back = blocks_back refl

Call-IsBlockedBy_example :
    ((some shut_back ≡ none) × ◌≡◌ {A = ℕ} 2 1) ⊎ IsBlockedBy 2 (some shut_back)
Call-IsBlockedBy_example = Call-IsBlockedBy {b = 1} blocked_back (refl, refl)

Call-consent_example :
    (friends.status ≡ accepted
      → (row : FriendshipView) × (some asked ≡ some row)
        × (row.status ≡ pending)
        × (row.requester_id ≡ 1)
        × (row.addressee_id ≡ 2)
        × (friends.addressee_id ≡ 2))
    × (friends.status ≡ pending → (some asked ≡ none) × (friends.requester_id ≡ 2))
Call-consent_example = Call-consent agreed

shut-IsFit : IsFit 1 2 shut
shut-IsFit = record { row_of = inl (refl, refl); blocker = inl (refl, inl refl) }

-- Player 2 withdraws from the request while player 1 blocks.
end_friendship-stale_example :
    (mid : Option FriendshipView) × (block 1 2 true (some asked) ≡ ok mid)
    × IsBlockedBy 1 mid
    × (end_friendship 2 (some asked) mid ≡ ok none)
end_friendship-stale_example = end_friendship-stale 1 2 asked asked-IsFit (λ h. cc) (omega arith)

abbrev admin : List Assignment
admin = record { user = 1; role = federation_admin } ∷ []

abbrev in_club : ScopeRef
in_club = record { scope_type = some club; scope_id = some 9 }

abbrev new_admin : Assignment
new_admin = record { user = 2; role = club_admin }

granted : Granted admin (new_admin ∷ [])
unfolding can_grant can_delegate
granted = grant 1 in_club new_admin nothing refl

Granted-rank_example : AllRanks (λ m. m < 3) (new_admin ∷ [])
Granted-rank_example = Granted-rank 3 (omega arith) (omega arith, tt) granted

abbrev root_row : RoleRow
root_row = record { role = super_admin; scope = record { scope_type = none; scope_id = none } }

one-Revoked : Revoked (root_row ∷ root_row ∷ []) (root_row ∷ [])
unfolding can_revoke can_delegate
one-Revoked = revoke (super_admin ∷ []) [] (root_row ∷ []) root_row Revoked.nothing refl

Revoked-super_admin_example : 0 < global_super_admins (root_row ∷ [])
Revoked-super_admin_example = Revoked-super_admin (omega arith) one-Revoked

abbrev the_root : StatusTarget
the_root = record { user_id = 1; is_global_super_admin = true }

abbrev others : List ℕ
others = 1 ∷ 6 ∷ []

buchholz_cut-sum_example :
    ((1 ≤ 2) → buchholz_cut (4 ∷ 1 ∷ 6 ∷ []) 1 0 + least 4 (1 ∷ 6 ∷ []) ≡ sum (4 ∷ 1 ∷ 6 ∷ []))
    × ((2 ≤ 2)
        → buchholz_cut (4 ∷ 1 ∷ 6 ∷ []) 1 1 + least 4 (1 ∷ 6 ∷ []) + greatest 4 (1 ∷ 6 ∷ [])
          ≡ sum (4 ∷ 1 ∷ 6 ∷ []))
    × ((length others ≡ 0) → buchholz_cut (4 ∷ 1 ∷ 6 ∷ []) 1 0 ≡ 0)
    × ((2 ≤ 1) → buchholz_cut (4 ∷ 1 ∷ 6 ∷ []) 1 1 ≡ 0)
buchholz_cut-sum_example = buchholz_cut-sum 4 (1 ∷ 6 ∷ [])

-- A win over player 2, and a bye.
abbrev winner : PlayerTieBreakInput
winner = record {
  player_id = 1;
  points = halves 4;
  rating = none;
  games =
      record { opponent_id = some 2; color = some white; result = win; played_over_board = true }
      ∷ record { opponent_id = none; color = none; result = win; played_over_board = false }
      ∷ [];
}

abbrev two_players : TieBreakContext
two_players = record { players = winner ∷ []; points2 = (1, 4) ∷ (2, 3) ∷ []; total_rounds = 2 }

few_points : (id : ℕ) → opponent_points2 id two_players ≤ 4
few_points id = ground arith

blocked_player_lifts_block_example :
    (mid : Option FriendshipView) × Call 1 2 2 (some shut) mid × Call 1 2 2 mid none
blocked_player_lifts_block_example =
    blocked_player_lifts_block 1 2 shut shut-IsFit (refl, refl) (λ h. omega arith)
