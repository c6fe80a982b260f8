-- ===== src/Roles.antt =====
-- Who may grant and revoke which role, src/modules/identity/admin/role-grant.rules.ts.
pub mod Delegation
pub mod Lockout
use farzin.Prelude.{
  ℕ, Bool, true, false, not, ◌&&◌, ◌||◌, Option, none, some, List, [], ◌∷◌, ◌==◌, leb,
  if◌then◌else◌,
}

pub data Role : Type 0 where
  super_admin federation_admin region_admin club_admin school_teacher : Role
  arbiter coach player parent spectator : Role

pub data ScopeType : Type 0 where
  federation region club school tournament : ScopeType

pub record ScopeRef : Type 0 where
  pub scope_type : Option ScopeType
  pub scope_id : Option ℕ

pub data GrantDenial : Type 0 where
  role_not_delegable scope_required scope_not_allowed scope_id_required : GrantDenial
  scope_id_not_allowed last_super_admin self_lockout : GrantDenial

pub data Decision : Type 0 where
  allow : Decision
  deny : GrantDenial → Decision

abbrev pub role_eq : Role → Role → Bool
role_eq super_admin super_admin = true
role_eq federation_admin federation_admin = true
role_eq region_admin region_admin = true
role_eq club_admin club_admin = true
role_eq school_teacher school_teacher = true
role_eq arbiter arbiter = true
role_eq coach coach = true
role_eq player player = true
role_eq parent parent = true
role_eq spectator spectator = true
role_eq _ _ = false

abbrev pub scope_eq : Option ScopeType → Option ScopeType → Bool
scope_eq none none = true
scope_eq (some federation) (some federation) = true
scope_eq (some region) (some region) = true
scope_eq (some club) (some club) = true
scope_eq (some school) (some school) = true
scope_eq (some tournament) (some tournament) = true
scope_eq _ _ = false

-- `allowed.includes(…)`.
abbrev pub includes_scope : List (Option ScopeType) → Option ScopeType → Bool
includes_scope [] s = false
includes_scope (t ∷ ts) s = scope_eq t s || includes_scope ts s

abbrev pub includes_role : List Role → Role → Bool
includes_role [] r = false
includes_role (s ∷ rs) r = role_eq s r || includes_role rs r

-- `ALLOWED_SCOPES`; `none` is the global scope.
abbrev pub allowed_scopes : Role → List (Option ScopeType)
allowed_scopes super_admin = none ∷ []
allowed_scopes federation_admin = some federation ∷ []
allowed_scopes region_admin = some region ∷ []
allowed_scopes club_admin = some club ∷ []
allowed_scopes school_teacher = some school ∷ []
allowed_scopes arbiter = some tournament ∷ none ∷ []
allowed_scopes coach = some club ∷ some school ∷ none ∷ []
allowed_scopes player = none ∷ []
allowed_scopes parent = none ∷ []
allowed_scopes spectator = none ∷ []

-- `DELEGABLE`.
abbrev pub delegable : Role → List Role
delegable super_admin =
    super_admin ∷ federation_admin ∷ region_admin ∷ club_admin ∷ arbiter ∷ coach ∷ school_teacher
    ∷ player ∷ parent ∷ spectator ∷ []
delegable federation_admin =
    region_admin ∷ club_admin ∷ arbiter ∷ coach ∷ school_teacher ∷ player ∷ parent ∷ spectator ∷ []
delegable region_admin = club_admin ∷ arbiter ∷ coach ∷ player ∷ parent ∷ spectator ∷ []
delegable club_admin = coach ∷ player ∷ parent ∷ spectator ∷ []
delegable _ = []

unfoldable pub can_delegate : List Role → Role → Bool
can_delegate [] role = false
can_delegate (own ∷ owns) role = includes_role (delegable own) role || can_delegate owns role

abbrev pub is_none {ℓ} : {A : Type ℓ} → Option A → Bool
is_none none = true
is_none (some a) = false

unfoldable pub can_grant : List Role → Role → ScopeRef → Decision
can_grant actor_roles role scope =
    if not (can_delegate actor_roles role)
    then deny role_not_delegable
    else if not (includes_scope (allowed_scopes role) scope.scope_type)
    then if is_none scope.scope_type then deny scope_required else deny scope_not_allowed
    else if not (is_none scope.scope_type) && is_none scope.scope_id
    then deny scope_id_required
    else if is_none scope.scope_type && not (is_none scope.scope_id)
    then deny scope_id_not_allowed
    else allow

-- A row of the table of the users' roles: the parameter `target` of `canRevoke`.
pub record RoleRow : Type 0 where
  pub role : Role
  pub scope : ScopeRef

abbrev pub is_last_global_super_admin : RoleRow → ℕ → Bool
is_last_global_super_admin target count =
    role_eq target.role super_admin && is_none target.scope.scope_type && leb count 1

unfoldable pub can_revoke : List Role → RoleRow → ℕ → Decision
can_revoke actor_roles target count =
    if not (can_delegate actor_roles target.role)
    then deny role_not_delegable
    else if is_last_global_super_admin target count
    then deny last_super_admin
    else allow

pub data UserStatus : Type 0 where
  active suspended banned : UserStatus

-- The parameter `target` of `canChangeStatus`.
pub record StatusTarget : Type 0 where
  pub user_id : ℕ
  pub is_global_super_admin : Bool

abbrev pub is_active : UserStatus → Bool
is_active active = true
is_active _ = false

unfoldable pub can_change_status : ℕ → StatusTarget → UserStatus → ℕ → Decision
can_change_status actor target new_status count =
    if is_active new_status
    then allow
    else if actor == target.user_id
    then deny self_lockout
    else if target.is_global_super_admin && leb count 1
    then deny last_super_admin
    else allow
