-- ===== src/Teams.antt =====
-- Teams: `create_team` and `add_member` of app/services/team.py.
pub mod Members
pub mod Details
mod Tests
use multi_tenant_saas.Base.{Bool, false, Option, none, some}
use multi_tenant_saas.Text.{Text, strip, lower}
use multi_tenant_saas.Models.{Uuid, Team, TeamMember}
use multi_tenant_saas.Session.{
  entity_not_found, Action, pure, raise, uuid4, utc_now, ◌>>=◌, ◌>>◌, transaction,
}
use multi_tenant_saas.Repositories.{get, get_by_id, create_scoped, add_row}
use multi_tenant_saas.Repositories.Tables.{team_model, team_member_table, user_table}

pub record TeamCreate : Type 0 where
  pub name : Text
  pub slug : Text
  pub description : Option Text

module _ (organization_id : Uuid) where
  -- `TeamService.create_team`
  unfoldable pub create_team : TeamCreate → Action Team
  unfolding create_scoped transaction
  create_team payload = transaction (
      create_scoped team_model organization_id (λ organization team_id now. record {
        id = team_id;
        organization_id = organization;
        name = strip payload.name;
        slug = strip (lower payload.slug);
        description = payload.description;
        created_at = now;
        updated_at = now;
      }))

  -- `TeamService.add_member`
  unfoldable pub add_member : Uuid → Uuid → Action (Unit {0})
  unfolding get get_by_id add_row transaction
  add_member team_id user_id = transaction (do
    team ← get_by_id team_model organization_id team_id false
    elim team [
      | none ↦ raise (entity_not_found "Team")
      | some _ ↦ do
        user ← get user_table user_id
        elim user [
          | none ↦ raise (entity_not_found "User")
          | some _ ↦ do
            member_id ← uuid4
            now ← utc_now
            add_row team_member_table (record {
              id = member_id;
              organization_id = organization_id;
              team_id = team_id;
              user_id = user_id;
              created_at = now;
              updated_at = now;
            })
        ]
    ])
