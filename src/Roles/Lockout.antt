-- ===== src/Roles/Lockout.antt =====
-- role-grant.rules.ts: the rules never leave the system without a super admin.
use farzin.Prelude.{
  ℕ, suc, true, false, ◌&&◌, List, [], ◌∷◌, ◌++◌, if◌then◌else◌, ◌≡◌, ◌≢◌, ◌<◌, ◌≤◌, ◌+◌, ◌⊎◌, ◌↔◌,
  arith,
}
use farzin.Roles.{
  Role, super_admin, RoleRow, allow, can_revoke, role_eq, is_none, StatusTarget, UserStatus,
  is_active, can_change_status,
}

-- The number of rows that make a user a super admin everywhere.
abbrev pub global_super_admins : List RoleRow → ℕ
global_super_admins [] = 0
global_super_admins (r ∷ rs) =
    let rest = global_super_admins rs in
    if role_eq r.role super_admin && is_none r.scope.scope_type then suc rest else rest

count-append :
    (rs ss : List RoleRow)
    → global_super_admins (rs ++ ss) ≡ global_super_admins rs + global_super_admins ss
count-append [] ss = omega arith
count-append (r ∷ rs) ss = ground (arith, count-append rs ss)

revoked_count :
    (roles : List Role) (target : RoleRow) (x y : ℕ)
    → can_revoke roles target (
        if role_eq target.role super_admin && is_none target.scope.scope_type
        then suc (x + y)
        else x + y)
      ≡ allow
    → 0 < (
        if role_eq target.role super_admin && is_none target.scope.scope_type
        then suc (x + y)
        else x + y)
    → 0 < x + y
unfolding can_revoke
revoked_count roles target x y h k = ground arith

-- `Revoked rows left`: revocations, each allowed for the number of global super admins at the time, take
-- the rows to `left`.
pub data Revoked (rows : List RoleRow) : List RoleRow → Type 0 where
  nothing : Revoked rows rows
  revoke :
      (roles : List Role) (before after : List RoleRow) (target : RoleRow)
      → Revoked rows (before ++ target ∷ after)
      → can_revoke roles target (global_super_admins (before ++ target ∷ after)) ≡ allow
      → Revoked rows (before ++ after)

count_around :
    (before after : List RoleRow) (target : RoleRow)
    → let x = global_super_admins before in
      let y = global_super_admins after in
      global_super_admins (before ++ target ∷ after) ≡ (
        if role_eq target.role super_admin && is_none target.scope.scope_type
        then suc (x + y)
        else x + y)
count_around before after target = ground (arith, count-append before (target ∷ after))

revoke-keeps :
    (roles : List Role) (before after : List RoleRow) (target : RoleRow)
    → can_revoke roles target (global_super_admins (before ++ target ∷ after)) ≡ allow
    → 0 < global_super_admins (before ++ target ∷ after)
    → 0 < global_super_admins (before ++ after)
revoke-keeps roles before after target h k =
    let x = global_super_admins before in
    let y = global_super_admins after in
    let c = count_around before after target in
    rw (count-append before after) (revoked_count roles target x y (rw c at h) (rw c at k))

-- Where there is a global super admin, there still is one after any sequence of revocations that
-- `canRevoke` allows for the number of global super admins at the time.
pub Revoked-super_admin :
    {rows left : List RoleRow}
    → 0 < global_super_admins rows
    → Revoked rows left
    → 0 < global_super_admins left
Revoked-super_admin h nothing = h
Revoked-super_admin h (revoke roles before after target r allowed) =
    revoke-keeps roles before after target allowed (Revoked-super_admin h r)

-- `canChangeStatus` lets a user be suspended or banned just when the user is not the actor and, if a
-- global super admin, not the last one; it lets any user be made active.
can_change_status_iff :
    (actor : ℕ) (target : StatusTarget) (new_status : UserStatus) (count : ℕ)
    → (can_change_status actor target new_status count ≡ allow) ↔ (
        (is_active new_status ≡ true)
        ⊎ ((actor ≢ target.user_id) × ((target.is_global_super_admin ≡ false) ⊎ (2 ≤ count))))
unfolding can_change_status
can_change_status_iff actor target new_status count = ground arith
