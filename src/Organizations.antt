-- ===== src/Organizations.antt =====
-- The handlers of app/api/v1/endpoints/organizations.py, with the payloads of
-- app/schemas/organization.py. Members with equal times are listed in the order of insertion, where
-- the database promises none.
pub mod Change
pub mod Invite
pub mod Listing
mod Tests
use multi_tenant_saas.Base.{
  ℕ, Bool, true, false, ◌&&◌, not, Option, none, some, List, [], ◌∷◌, ◌==◌, if◌then◌else◌, filter,
  head?, is_some,
}
use multi_tenant_saas.Text.{Text, text_eq, strip}
use multi_tenant_saas.Models.{Db, Uuid, Timestamp, User, Organization, OrganizationMember, OrgRole}
use multi_tenant_saas.Session.{
  entity_not_found, entity_conflict, attribute_error, Result, ok, err, Action, pure, raise, query,
  utc_now, ◌>>=◌, ◌>>◌, raise_if, commit, enqueue,
}
use multi_tenant_saas.Repositories.{get, create, flush_row}
use multi_tenant_saas.Repositories.Tables.{organization_table, member_table}
use multi_tenant_saas.Access.{TenantContext, get_membership}
use multi_tenant_saas.Auth.{get_by_email}
use multi_tenant_saas.Pages.{Position, later, order_by}

pub record OrganizationUpdate : Type 0 where
  pub name : Option Text
  pub logo_url : Option Text

pub record OrgMemberInviteRequest : Type 0 where
  pub email : Text
  pub role : OrgRole

pub record OrgMemberDetailResponse : Type 0 where
  pub id : Uuid
  pub user_id : Uuid
  pub email : Text
  pub full_name : Text
  pub avatar_url : Option Text
  pub role : OrgRole
  pub joined_at : Timestamp

unfoldable pub get_current_organization : TenantContext → Action Organization
unfolding get
get_current_organization ctx = do
  org ← get organization_table ctx.organization_id
  elim org [ none ↦ raise (entity_not_found "Organization") | some o ↦ pure o ]

abbrev pub renamed : Option Text → Organization → Organization
renamed none org = org
renamed (some name) org = record org { name = strip name }

abbrev pub with_logo : Option Text → Organization → Organization
with_logo none org = org
with_logo (some url) org = record org { logo_url = some url }

abbrev pub same_logo : Option Text → Option Text → Bool
same_logo none none = true
same_logo (some a) (some b) = text_eq a b
same_logo _ _ = false

-- The assignments, and `onupdate` of the row, which an unchanged object does not reach.
unfoldable pub apply_organization_update :
    OrganizationUpdate → Timestamp → Organization → Organization
apply_organization_update payload now org =
    let assigned = with_logo payload.logo_url (renamed payload.name org) in
    if text_eq assigned.name org.name && same_logo assigned.logo_url org.logo_url
    then org
    else (record assigned { updated_at = now })

unfoldable pub update_current_organization :
    OrganizationUpdate → TenantContext → Action Organization
unfolding get flush_row apply_organization_update
update_current_organization payload ctx = do
  found ← get organization_table ctx.organization_id
  elim found [
    | none ↦ raise (entity_not_found "Organization")
    | some loaded ↦ do
      now ← utc_now
      let org = apply_organization_update payload now loaded
      flush_row organization_table org
      commit
      pure org
  ]

-- The response for a member and the user of its foreign key.
abbrev pub member_detail : OrganizationMember → User → OrgMemberDetailResponse
member_detail m user = record {
  id = m.id;
  user_id = user.id;
  email = user.email;
  full_name = user.full_name;
  avatar_url = user.avatar_url;
  role = m.role;
  joined_at = m.created_at;
}

-- `order_by(OrganizationMember.created_at.asc())`
abbrev pub joined_position : OrganizationMember → Position
joined_position m = (m.created_at, 0)

-- The `joinedload` of a member's user.
abbrev pub user_of_member : Db → OrganizationMember → Option User
user_of_member db m = head? (filter (λ u. u.id == m.user_id) db.users)

abbrev pub detail_before :
    OrganizationMember
    → Option User
    → Result (List OrgMemberDetailResponse)
    → Result (List OrgMemberDetailResponse)
detail_before m none rest = err attribute_error
detail_before m (some user) (err e) = err e
detail_before m (some user) (ok details) = ok (member_detail m user ∷ details)

-- The list comprehension: a member without a user has no `email` to read.
abbrev pub member_details : Db → List OrganizationMember → Result (List OrgMemberDetailResponse)
member_details db [] = ok []
member_details db (m ∷ members) = detail_before m (user_of_member db m) (member_details db members)

unfoldable pub list_organization_members : TenantContext → Action (List OrgMemberDetailResponse)
unfolding order_by
list_organization_members ctx w = (
  member_details w.working (
      order_by joined_position later
        (filter (λ m. m.organization_id == ctx.organization_id) w.working.members)),
  w,
)

-- `org.name if org else "Workspace"`
abbrev pub organization_name : Option Organization → Text
organization_name none = b'W' ∷ b'o' ∷ b'r' ∷ b'k' ∷ b's' ∷ b'p' ∷ b'a' ∷ b'c' ∷ b'e' ∷ []
organization_name (some org) = org.name

unfoldable pub invite_member :
    OrgMemberInviteRequest → TenantContext → Action OrgMemberDetailResponse
unfolding get_by_email get_membership get create enqueue
invite_member payload ctx = do
  found ← get_by_email payload.email
  elim found [
    | none ↦ raise (entity_not_found "User")
    | some user ↦ do
      existing ← get_membership ctx.organization_id user.id
      raise_if (is_some existing) entity_conflict
      new_member ← create member_table (λ member_id now. record {
        id = member_id;
        organization_id = ctx.organization_id;
        user_id = user.id;
        role = payload.role;
        created_at = now;
        updated_at = now;
      })
      commit
      org ← get organization_table ctx.organization_id
      enqueue "send_invitation_email" (user.email ∷ organization_name org ∷ ctx.user.full_name ∷ [])
      pure (member_detail new_member user)
  ]
