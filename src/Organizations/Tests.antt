-- ===== src/Organizations/Tests.antt =====
-- The theorems on organizations at the sample database.
use multi_tenant_saas.Base.{◌≡◌, refl, [], ◌∷◌, ltb, if◌then◌else◌}
use multi_tenant_saas.Text.{strip, lower, to_lower, lstrip, rstrip, is_space, clean_email}
use multi_tenant_saas.Models.{admin, owner}
use multi_tenant_saas.Session.{err, ok, http_exception}
use multi_tenant_saas.Access.{TenantContext, role_level, require_role}
use multi_tenant_saas.Samples.{sample_world, ann, bob}
use multi_tenant_saas.Organizations.{OrgMemberInviteRequest, invite_member}
use multi_tenant_saas.Organizations.Invite.{require_role-invite_member}

abbrev ann_as_admin : TenantContext
ann_as_admin = record { user = ann; organization_id = 11; role = admin }

-- Ann, an admin, makes Bob an owner.
abbrev call_bob : OrgMemberInviteRequest
call_bob = record { email = b'B' ∷ []; role = owner }

require_role-invite_member_example :
    let w' = (invite_member call_bob ann_as_admin sample_world).1 in
    require_role admin bob 11 w' ≡ (
      if ltb (role_level owner) (role_level admin)
      then (err (http_exception 403), w')
      else (ok (record { user = bob; organization_id = 11; role = owner }), w'))
unfolding clean_email strip lower to_lower lstrip rstrip is_space
require_role-invite_member_example =
    require_role-invite_member call_bob ann_as_admin sample_world admin bob refl refl refl
