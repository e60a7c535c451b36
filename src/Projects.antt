-- ===== src/Projects.antt =====
-- Projects: app/services/project.py, with `get_by_key` of app/repositories/project.py and the
-- payloads of app/schemas/project.py.
pub mod Create
pub mod Change
pub mod Endpoints
pub mod Coherence
pub mod Transparent
pub mod Json
mod Tests
use Prim.Native.String.{String}
use multi_tenant_saas.Base.{
  ℕ, ◌+◌, Bool, true, false, ◌&&◌, not, Option, none, some, [], ◌∷◌, ◌==◌, if◌then◌else◌, filter,
  head?, is_some, or_else,
}
use multi_tenant_saas.Text.{Text, text_eq, strip, clean_key}
use multi_tenant_saas.Models.{Uuid, Timestamp, Project, JsonValue, JsonState, create, update}
use multi_tenant_saas.Session.{
  entity_not_found, entity_conflict, Action, pure, raise, query, utc_now, ◌>>=◌, ◌>>◌, raise_if,
  transaction,
}
use multi_tenant_saas.Repositories.{get_by_id, create_scoped, flush_row}
use multi_tenant_saas.Repositories.Tables.{project_model, project_table}
use multi_tenant_saas.Tasks.{add_audit}
use multi_tenant_saas.Tasks.Endpoints.{override, stripped}

pub record ProjectCreate : Type 0 where
  pub name : Text
  pub key : Text
  pub description : Option Text
  pub team_id : Option Uuid

pub record ProjectUpdate : Type 0 where
  pub name : Option Text
  pub description : Option Text
  pub team_id : Option Uuid
  pub is_archived : Option Bool
  pub expected_version : ℕ

-- `before_state` and the `after_state` of an update.
abbrev pub project_state : Project → JsonState
project_state project =
    ("name", JsonValue.text project.name)
    ∷ ("description", JsonValue.optional_text project.description)
    ∷ ("is_archived", JsonValue.flag project.is_archived)
    ∷ ("version_id", JsonValue.number project.version_id)
    ∷ []

-- The assignments of `update_project`, with `onupdate` of the row.
unfoldable pub apply_project_update : ProjectUpdate → Timestamp → Project → Project
apply_project_update payload now project = record project {
  name = stripped payload.name project.name;
  description = override payload.description project.description;
  team_id = override payload.team_id project.team_id;
  is_archived = or_else payload.is_archived project.is_archived;
  version_id = project.version_id + 1;
  updated_at = now;
}

module _ (organization_id : Uuid) where
  -- `ProjectRepository.get_by_key`
  unfoldable pub get_by_key : Text → Action (Option Project)
  get_by_key key = query (λ db. head? (
      filter (λ r. (r.organization_id == organization_id) && text_eq r.key (clean_key key))
        db.projects))

  -- `ProjectService.create_project`
  unfoldable pub create_project : ProjectCreate → Option Uuid → Action Project
  unfolding get_by_key create_scoped add_audit transaction
  create_project payload actor_id = transaction (do
    existing ← get_by_key (clean_key payload.key)
    raise_if (is_some existing) entity_conflict
    project ← create_scoped project_model organization_id (λ organization project_id now. record {
      id = project_id;
      organization_id = organization;
      team_id = payload.team_id;
      name = strip payload.name;
      key = clean_key payload.key;
      description = payload.description;
      is_archived = false;
      version_id = 1;
      created_at = now;
      updated_at = now;
    })
    add_audit organization_id actor_id "Project" project.id create none
        (some (("name", JsonValue.text project.name) ∷ ("key", JsonValue.text project.key) ∷ []))
    pure project)

  -- `ProjectService.update_project`
  unfoldable pub update_project : Uuid → ProjectUpdate → Option Uuid → Action Project
  unfolding get_by_id flush_row add_audit transaction apply_project_update
  update_project project_id payload actor_id = transaction (do
    found ← get_by_id project_model organization_id project_id false
    elim found [
      | none ↦ raise (entity_not_found "Project")
      | some loaded ↦ do
        raise_if (not (loaded.version_id == payload.expected_version)) entity_conflict
        now ← utc_now
        let project = apply_project_update payload now loaded
        flush_row project_table project
        add_audit organization_id actor_id "Project" project.id update (some (project_state loaded))
            (some (project_state project))
        pure project
    ])
