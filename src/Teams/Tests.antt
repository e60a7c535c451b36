-- ===== src/Teams/Tests.antt =====
-- The theorems on teams at the sample database with a team.
use multi_tenant_saas.Base.{◌≡◌, refl, none, [], ◌∷◌}
use multi_tenant_saas.Models.{Team}
use multi_tenant_saas.Session.{World}
use multi_tenant_saas.Samples.{sample_world, sample_db}
use multi_tenant_saas.Teams.{add_member}
use multi_tenant_saas.Teams.Members.{own_team, addition, add_member_lem}

abbrev core_team : Team
core_team = record {
  id = 61;
  organization_id = 11;
  name = 67 ∷ [];
  slug = 99 ∷ [];
  description = none;
  created_at = 10;
  updated_at = 10;
}

abbrev staffed : World
staffed = record sample_world { working = record sample_db { teams = core_team ∷ [] } }

-- Bob, who is no member of the organization.
add_member_lem_example :
    add_member 11 61 2 staffed ≡ addition 11 61 2 staffed (own_team 11 61 (core_team ∷ []))
add_member_lem_example = add_member_lem 11 61 2 staffed refl
