-- ===== src/Access/Tests.antt =====
-- The theorems on access at the sample database.
use multi_tenant_saas.Base.{ℕ, ◌≤◌, ◌≡◌, ◌↔◌, ◌⊎◌, some, none, Option, ltb, if◌then◌else◌}
use multi_tenant_saas.Models.{OrganizationMember, role_index, manager, member, User}
use multi_tenant_saas.Session.{http_exception, ok, err}
use multi_tenant_saas.Samples.{sample_world, ann}
use multi_tenant_saas.Access.{TenantContext, require_role, Claims, get_current_user}
use multi_tenant_saas.Access.Roles.{membership_of, require_role_iff}
use multi_tenant_saas.Access.Identity.{Bears, get_current_user_iff}

abbrev as_manager : TenantContext
as_manager = record { user = ann; organization_id = 11; role = manager }

require_role_iff_example :
    ((require_role member ann 11 sample_world).0 ≡ ok as_manager ↔ (
      (m : OrganizationMember) × (membership_of 11 1 sample_world ≡ some m)
      × (role_index m.role ≤ 3)
      × (as_manager ≡ record { user = ann; organization_id = 11; role = m.role })))
    × (((require_role member ann 11 sample_world).0 ≡ err (http_exception 403))
        ⊎ ((c : TenantContext) × ((require_role member ann 11 sample_world).0 ≡ ok c)))
    × ((require_role member ann 11 sample_world).1 ≡ sample_world)
require_role_iff_example = require_role_iff member ann 11 sample_world as_manager

-- Tokens that are their own claims, until they expire.
abbrev plain_token : Claims → ℕ → Option Claims
plain_token claims now = if ltb now claims.exp then some claims else none

abbrev ann_token : Claims
ann_token = record { sub = some 1; jti = 7; token_type = "access"; exp = 2000 }

get_current_user_iff_example :
    ((get_current_user plain_token ann_token sample_world).0 ≡ ok ann
      ↔ Bears sample_world ann (plain_token ann_token 1000))
    × (((get_current_user plain_token ann_token sample_world).0 ≡ err (http_exception 401))
        ⊎ ((u : User) × ((get_current_user plain_token ann_token sample_world).0 ≡ ok u)))
    × ((get_current_user plain_token ann_token sample_world).1 ≡ sample_world)
get_current_user_iff_example = get_current_user_iff plain_token ann_token sample_world ann
