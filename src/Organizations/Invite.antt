-- ===== src/Organizations/Invite.antt =====
-- What an invitation does, and what the invited user may do then.
use multi_tenant_saas.Base.{
  ◌+◌, ◌≡◌, refl, Bool, true, false, ◌&&◌, Option, none, some, [], ◌∷◌, ◌++◌, ◌==◌, ltb, arith, inl,
  inr, if◌then◌else◌, any, filter, head?, is_some, is_some-head?, Option-cases, any-key_of_head?,
  head?-filter-append,
}
use multi_tenant_saas.Text.{Text, text_eq, clean_email}
use multi_tenant_saas.Models.{Db, Uuid, User, Organization, OrganizationMember, OrgRole}
use multi_tenant_saas.Session.{
  entity_not_found, entity_conflict, database_error, http_exception, Result, ok, err, Job, World,
  enqueue,
}
use multi_tenant_saas.Repositories.Tables.{has_organization}
use multi_tenant_saas.Access.{TenantContext, role_level, require_role}
use multi_tenant_saas.Auth.Login.{user_of}
use multi_tenant_saas.Organizations.{
  OrgMemberInviteRequest, OrgMemberDetailResponse, organization_name, invite_member,
}
use multi_tenant_saas.Organizations.Change.{organization_of}

abbrev pub is_member : Uuid → Uuid → Db → Bool
is_member o user_id db = any (λ m. (m.organization_id == o) && (m.user_id == user_id)) db.members

abbrev pub invited : OrgMemberInviteRequest → Uuid → User → World → OrganizationMember
invited payload o user w = record {
  id = w.next_uuid;
  organization_id = o;
  user_id = user.id;
  role = payload.role;
  created_at = w.now;
  updated_at = w.now;
}

-- The name in the mail, and the answer for the new member.
abbrev pub name_in_mail : Option Organization → Text
name_in_mail (some org) = org.name
name_in_mail none = b'W' ∷ b'o' ∷ b'r' ∷ b'k' ∷ b's' ∷ b'p' ∷ b'a' ∷ b'c' ∷ b'e' ∷ []

abbrev pub invited_detail : OrgMemberInviteRequest → User → World → OrgMemberDetailResponse
invited_detail payload user w = record {
  id = w.next_uuid;
  user_id = user.id;
  email = user.email;
  full_name = user.full_name;
  avatar_url = user.avatar_url;
  role = payload.role;
  joined_at = w.now;
}

organization_name-name_in_mail :
    (org : Option Organization) → organization_name org ≡ name_in_mail org
organization_name-name_in_mail none = refl
organization_name-name_in_mail (some org) = refl

abbrev pub invitation_job : TenantContext → User → Db → Job
invitation_job ctx user db = record {
  function_name = "send_invitation_email";
  args =
      user.email ∷ name_in_mail (organization_of ctx.organization_id db) ∷ ctx.user.full_name ∷ [];
}

abbrev pub with_member : OrgMemberInviteRequest → TenantContext → User → World → World
with_member payload ctx user w =
    let db = record w.working {
      members = w.working.members ++ invited payload ctx.organization_id user w ∷ [];
    } in
    record w {
      working = db;
      committed = db;
      next_uuid = w.next_uuid + 1;
      enqueued =
          if w.queue_up then w.enqueued ++ invitation_job ctx user w.working ∷ [] else w.enqueued;
    }

-- What the invitation should do, in terms of the user with the address alone.
abbrev pub invitation :
    OrgMemberInviteRequest
    → TenantContext
    → World
    → Option User
    → Result OrgMemberDetailResponse × World
invitation payload ctx w none = (err (entity_not_found "User"), w)
invitation payload ctx w (some user) =
    if is_member ctx.organization_id user.id w.working
    then (err entity_conflict, w)
    else (if has_organization w.working ctx.organization_id
        then (ok (invited_detail payload user w), with_member payload ctx user w)
        else (err database_error, record w { next_uuid = w.next_uuid + 1 }))

module _ (payload : OrgMemberInviteRequest) (ctx : TenantContext) (w : World) where
  member_found :
      (user : User)
      → is_some (
          head? (
            filter
              (λ m. (m.organization_id == ctx.organization_id) && (m.user_id == user.id))
              w.working.members))
        ≡ is_member ctx.organization_id user.id w.working
  member_found user =
      is_some-head?
        (λ (m : OrganizationMember).
          (m.organization_id == ctx.organization_id) && (m.user_id == user.id))
        w.working.members

  pub invite_member_lem :
      invite_member payload ctx w ≡ invitation payload ctx w (user_of payload.email w.working)
  unfolding invite_member enqueue
  invite_member_lem = elim (Option-cases (user_of payload.email w.working)) [
    | inl nobody ↦ ground arith
    | inr (user, found) ↦
        let there =
          any-key_of_head? (λ (u : User). u.id) (λ u. text_eq u.email (clean_email payload.email))
            w.working.users user found in
        let named =
          organization_name-name_in_mail (organization_of ctx.organization_id w.working) in
        ground (arith, member_found user)
  ]

  -- After the invitation of a user who is no member yet, to an organization that exists, access of
  -- that user to that organization is decided by the role of the request, and by no other.
  pub require_role-invite_member :
      (min_role : OrgRole) (user : User)
      → user_of payload.email w.working ≡ some user
      → is_member ctx.organization_id user.id w.working ≡ false
      → has_organization w.working ctx.organization_id ≡ true
      → let w' = (invite_member payload ctx w).1 in
        require_role min_role user ctx.organization_id w' ≡ (
          if ltb (role_level payload.role) (role_level min_role)
          then (err (http_exception 403), w')
          else (
            ok (record { user = user; organization_id = ctx.organization_id; role = payload.role }),
            w',
          ))
  unfolding require_role
  require_role-invite_member min_role user found absent there =
      let member =
        head?-filter-append
          (λ (m : OrganizationMember).
            (m.organization_id == ctx.organization_id) && (m.user_id == user.id))
          w.working.members (invited payload ctx.organization_id user w) absent (ground arith) in
      rw (invite_member_lem, found, absent, there) (ground arith)
