-- ===== src/Roles/Delegation.antt =====
-- role-grant.rules.ts: what the rules let a chain of grants reach.
use farzin.Prelude.{
  ℕ, Bool, true, ◌||◌, Option, none, some, List, [], ◌∷◌, ◌++◌, ◌==◌, if◌then◌else◌, ◌≡◌, ◌<◌, ◌≤◌,
  ◌⊎◌, inl, inr, ◌↔◌, arith, Bool-cases,
}
use farzin.Roles.{
  Role, super_admin, federation_admin, region_admin, club_admin, ScopeRef, ScopeType, allow,
  can_delegate, can_grant, delegable, includes_role, includes_scope, allowed_scopes,
}

-- How far up a role stands.
abbrev pub rank : Role → ℕ
rank super_admin = 4
rank federation_admin = 3
rank region_admin = 2
rank club_admin = 1
rank _ = 0

-- A user and a role that the user holds.
pub record Assignment : Type 0 where
  pub user : ℕ
  pub role : Role

-- The roles that a user holds.
abbrev pub roles_of : ℕ → List Assignment → List Role
roles_of user [] = []
roles_of user (a ∷ rows) =
    let rest = roles_of user rows in if a.user == user then a.role ∷ rest else rest

abbrev pub AllRanks : (ℕ → Type 0) → List Assignment → Type 0
AllRanks P [] = Unit
AllRanks P (a ∷ rows) = P (rank a.role) × AllRanks P rows

-- `Granted start added`: grants that the rules allow, each made by a user with the roles that this user
-- holds at the time, add the assignments `added` to `start`.
pub data Granted (start : List Assignment) : List Assignment → Type 0 where
  nothing : Granted start []
  grant :
      {added : List Assignment} (actor : ℕ) (scope : ScopeRef) (new : Assignment)
      → Granted start added
      → can_grant (roles_of actor (added ++ start)) new.role scope ≡ allow
      → Granted start (new ∷ added)

delegable-rank :
    (own role : Role)
    → includes_role (delegable own) role ≡ true
    → rank own < 4
    → rank role < rank own
delegable-rank own role h l = ground arith

or_cases : (a b : Bool) → (a || b) ≡ true → (a ≡ true) ⊎ (b ≡ true)
or_cases a b h = ground arith

-- What can be delegated from roles of rank at most `n` is of a lower rank.
can_delegate-rank :
    (rows : List Assignment) (actor n : ℕ) (role : Role)
    → AllRanks (λ m. m ≤ n) rows
    → n < 4
    → can_delegate (roles_of actor rows) role ≡ true
    → rank role < n
unfolding can_delegate
can_delegate-rank [] actor n role all l h = cc
can_delegate-rank (a ∷ rows) actor n role all l h = elim (Bool-cases (a.user == actor)) [
  | inr other ↦ can_delegate-rank rows actor n role all.1 l (rw other at h)
  | inl own ↦
      let h' : (includes_role (delegable a.role) role || can_delegate (roles_of actor rows) role)
          ≡ true =
        rw own at h in
      elim (or_cases _ _ h') [
        | inl x ↦
            let y = delegable-rank a.role role x (omega (arith, all.0)) in omega (arith, all.0)
        | inr x ↦ can_delegate-rank rows actor n role all.1 l x
      ]
]

can_grant-delegates :
    (roles : List Role) (role : Role) (scope : ScopeRef)
    → can_grant roles role scope ≡ allow
    → can_delegate roles role ≡ true
unfolding can_grant
can_grant-delegates roles role scope h = ground arith

AllRanks-append :
    (n : ℕ) (rows bs : List Assignment)
    → AllRanks (λ m. m < n) rows
    → AllRanks (λ m. m ≤ n) bs
    → AllRanks (λ m. m ≤ n) (rows ++ bs)
AllRanks-append n [] bs h k = k
AllRanks-append n (a ∷ rows) bs h k = (omega (arith, h.0), AllRanks-append n rows bs h.1 k)

-- Nobody multiplies a rank. Where nobody is a super admin and nobody's role is above rank `n`, no chain of
-- grants that the rules allow, by whichever users, adds a role of rank `n` or above: every role
-- that is added is strictly below.
pub Granted-rank :
    {start added : List Assignment} (n : ℕ)
    → n < 4
    → AllRanks (λ m. m ≤ n) start
    → Granted start added
    → AllRanks (λ m. m < n) added
Granted-rank n l all nothing = tt
Granted-rank {start} n l all (grant {added} actor scope new before h) =
    let below = Granted-rank n l all before in
    let may = can_grant-delegates _ new.role scope h in
    (
      can_delegate-rank (added ++ start) actor n new.role (AllRanks-append n added start below all)
          l may,
      below,
    )

-- The scope has the shape that the role asks for: global, with no id, or a type, with an id.
pub data HasShape (role : Role) : ScopeRef → Type 0 where
  global :
      includes_scope (allowed_scopes role) none ≡ true
      → HasShape role (record { scope_type = none; scope_id = none })
  scoped :
      {t : ScopeType} {id : ℕ}
      → includes_scope (allowed_scopes role) (some t) ≡ true
      → HasShape role (record { scope_type = some t; scope_id = some id })

to_shape :
    (roles : List Role) (role : Role) (t : Option ScopeType) (id : Option ℕ)
    → can_grant roles role (record { scope_type = t; scope_id = id }) ≡ allow
    → HasShape role (record { scope_type = t; scope_id = id })
unfolding can_grant
to_shape roles role none none h = global (ground arith)
to_shape roles role none (some id) h = absurd (ground arith)
to_shape roles role (some t) none h = absurd (ground arith)
to_shape roles role (some t) (some id) h = scoped (ground arith)

from_shape :
    (roles : List Role) (role : Role) {scope : ScopeRef}
    → can_delegate roles role ≡ true
    → HasShape role scope
    → can_grant roles role scope ≡ allow
unfolding can_grant
from_shape roles role d (global h) = ground arith
from_shape roles role d (scoped h) = ground arith

-- `canGrant` allows a grant just when one of the actor's roles can delegate the role and the scope has
-- the shape that the role asks for: an allowed type with an id, or, for a role that may be global,
-- neither a type nor an id.
can_grant_iff :
    (roles : List Role) (role : Role) (scope : ScopeRef)
    → (can_grant roles role scope ≡ allow)
      ↔ ((can_delegate roles role ≡ true) × HasShape role scope)
can_grant_iff roles role scope = (
  (λ h. (
    can_grant-delegates roles role scope h,
    to_shape roles role scope.scope_type scope.scope_id h,
  )),
  (λ p. from_shape roles role p.0 p.1),
)
