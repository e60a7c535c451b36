-- ===== src/Access.antt =====
-- app/api/deps.py: who calls (`get_current_user`) and whether a role of the caller suffices
-- (`RequireRole`).
pub mod Roles
pub mod Identity
mod Tests
use Prim.Native.String.{String}
use text.Mathlib.Text.{◌==◌ as str_eq}
use multi_tenant_saas.Base.{
  ℕ, ◌&&◌, not, Option, none, some, ◌==◌, ltb, if◌then◌else◌, filter, head?,
}
use multi_tenant_saas.Models.{
  Uuid, Timestamp, User, OrganizationMember, OrgRole, owner, admin, manager, member, viewer,
}
use multi_tenant_saas.Session.{http_exception, Action, pure, raise, query, ◌>>=◌, ◌>>◌, raise_if}
use multi_tenant_saas.Repositories.{get}
use multi_tenant_saas.Repositories.Tables.{user_table}

-- The claims that the code reads from a decoded token. `sub` is none where the claim is no UUID,
-- and `exp` is in whole seconds, as in every JWT.
pub record Claims : Type 0 where
  pub sub : Option Uuid
  pub jti : ℕ
  pub token_type : String
  pub exp : ℕ

pub record TenantContext : Type 0 where
  pub user : User
  pub organization_id : Uuid
  pub role : OrgRole

-- `OrganizationMemberRepository.get_membership`
unfoldable pub get_membership : Uuid → Uuid → Action (Option OrganizationMember)
get_membership organization_id user_id = query (λ db.
    head?
      (filter (λ m. (m.organization_id == organization_id) && (m.user_id == user_id)) db.members))

-- `RequireRole.ROLE_HIERARCHY`
unfoldable pub role_level : OrgRole → ℕ
role_level viewer = 1
role_level member = 2
role_level manager = 3
role_level admin = 4
role_level owner = 5

-- `RequireRole(min_role).__call__`
unfoldable pub require_role : OrgRole → User → Uuid → Action TenantContext
unfolding get_membership
require_role min_role current_user organization_id = do
  membership ← get_membership organization_id current_user.id
  elim membership [
    | none ↦ raise (http_exception 403)
    | some m ↦ do
      raise_if (ltb (role_level m.role) (role_level min_role)) (http_exception 403)
      pure (record { user = current_user; organization_id = organization_id; role = m.role })
  ]

-- `if not user or not user.is_active`
abbrev active_user : Option User → Action User
active_user none = raise (http_exception 401)
active_user (some user) = raise_if (not user.is_active) (http_exception 401) >> pure user

-- `user_id = uuid.UUID(payload["sub"])` and the query for that user.
abbrev claimed_user : Option Uuid → Action User
claimed_user none = raise (http_exception 401)
claimed_user (some user_id) = do user ← get user_table user_id; active_user user

abbrev access_user : Option Claims → Action User
access_user none = raise (http_exception 401)
access_user (some claims) =
    if str_eq claims.token_type "access"
    then claimed_user claims.sub
    else raise (http_exception 401)

-- A token is decoded by a package outside the repository: none stands for any exception of it.
module _ {Token : Type 0} (decode_jwt_token : Token → Timestamp → Option Claims) where
  unfoldable pub get_current_user : Token → Action User
  unfolding get
  get_current_user token w = access_user (decode_jwt_token token w.now) w
