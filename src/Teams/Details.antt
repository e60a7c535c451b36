-- ===== src/Teams/Details.antt =====
-- `get_team_detail` of app/services/team.py, its query in app/repositories/team.py, and the
-- handlers of app/api/v1/endpoints/teams.py. The members of a team are read in the order of
-- insertion, where the database promises none.
use multi_tenant_saas.Base.{false, ◌&&◌, Option, none, some, List, [], ◌∷◌, ◌==◌, filter, head?}
use multi_tenant_saas.Text.{Text}
use multi_tenant_saas.Models.{Db, Uuid, Timestamp, User, Team, TeamMember}
use multi_tenant_saas.Session.{
  entity_not_found, attribute_error, Result, ok, err, World, Action, ◌>>=◌,
}
use multi_tenant_saas.Repositories.{list_paginated}
use multi_tenant_saas.Repositories.Tables.{team_model}
use multi_tenant_saas.Access.{TenantContext}
use multi_tenant_saas.Teams.{TeamCreate, create_team, add_member}

pub record TeamMemberResponse : Type 0 where
  pub id : Uuid
  pub user_id : Uuid
  pub email : Text
  pub full_name : Text
  pub joined_at : Timestamp

pub record TeamResponse : Type 0 where
  pub id : Uuid
  pub organization_id : Uuid
  pub name : Text
  pub slug : Text
  pub description : Option Text
  pub created_at : Timestamp
  pub members : List TeamMemberResponse

abbrev pub member_response : TeamMember → User → TeamMemberResponse
member_response m user = record {
  id = m.id;
  user_id = m.user_id;
  email = user.email;
  full_name = user.full_name;
  joined_at = m.created_at;
}

abbrev pub response_before :
    TeamMember → Option User → Result (List TeamMemberResponse) → Result (List TeamMemberResponse)
response_before m none rest = err attribute_error
response_before m (some user) (err e) = err e
response_before m (some user) (ok responses) = ok (member_response m user ∷ responses)

-- The list comprehension, over the members with their users.
abbrev pub members_out : List User → List TeamMember → Result (List TeamMemberResponse)
members_out users [] = ok []
members_out users (m ∷ members) =
    response_before m (head? (filter (λ u. u.id == m.user_id) users)) (members_out users members)

abbrev pub team_response : Team → Result (List TeamMemberResponse) → Result TeamResponse
team_response team (err e) = err e
team_response team (ok members) = ok (record {
  id = team.id;
  organization_id = team.organization_id;
  name = team.name;
  slug = team.slug;
  description = team.description;
  created_at = team.created_at;
  members = members;
})

-- `TeamRepository.get_team_with_members`
abbrev pub team_with_members : Uuid → Uuid → Db → Option (Team × List TeamMember)
team_with_members organization_id team_id db =
    elim (head?
      (filter (λ t. (t.id == team_id) && (t.organization_id == organization_id)) db.teams)) [
        | none ↦ none
        | some team ↦ some (team, filter (λ m. m.team_id == team.id) db.team_members)
      ]

abbrev pub detail_of : List User → Option (Team × List TeamMember) → Result TeamResponse
detail_of users none = err (entity_not_found "Team")
detail_of users (some (team, members)) = team_response team (members_out users members)

-- `TeamService.get_team_detail`
unfoldable pub get_team_detail : Uuid → Uuid → Action TeamResponse
get_team_detail organization_id team_id w =
    (detail_of w.working.users (team_with_members organization_id team_id w.working), w)

-- The handler `create_team`.
unfoldable pub create_team_route : TeamCreate → TenantContext → Action TeamResponse
unfolding create_team get_team_detail
create_team_route payload ctx = do
  team ← create_team ctx.organization_id payload
  get_team_detail ctx.organization_id team.id

abbrev pub details_before :
    Result TeamResponse → Result (List TeamResponse) → Result (List TeamResponse)
details_before (err e) rest = err e
details_before (ok team) (err e) = err e
details_before (ok team) (ok teams) = ok (team ∷ teams)

-- `[await service.get_team_detail(t.id) for t in teams]`
abbrev pub team_details : Uuid → Db → List Team → Result (List TeamResponse)
team_details organization_id db [] = ok []
team_details organization_id db (t ∷ teams) =
    details_before (detail_of db.users (team_with_members organization_id t.id db))
      (team_details organization_id db teams)

abbrev pub all_details : Uuid → Result (List Team) × World → Result (List TeamResponse) × World
all_details organization_id (err e, w) = (err e, w)
all_details organization_id (ok teams, w) = (team_details organization_id w.working teams, w)

-- The handler `list_teams`.
unfoldable pub list_teams : TenantContext → Action (List TeamResponse)
unfolding list_paginated
list_teams ctx w =
    all_details ctx.organization_id (list_paginated team_model ctx.organization_id 0 100 false w)

-- The handler `get_team`.
unfoldable pub get_team : Uuid → TenantContext → Action TeamResponse
unfolding get_team_detail
get_team team_id ctx = get_team_detail ctx.organization_id team_id

-- The handler `add_team_member`.
unfoldable pub add_team_member : Uuid → Uuid → TenantContext → Action (Unit {0})
unfolding add_member
add_team_member team_id user_id ctx = add_member ctx.organization_id team_id user_id
