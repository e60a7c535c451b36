-- ===== src/Projects/Endpoints.antt =====
-- The handlers of app/api/v1/endpoints/projects.py. The cache of app/core/cache.py is a second
-- state beside the world.
use multi_tenant_saas.Base.{ℕ, Bool, false, Option, none, some, List}
use multi_tenant_saas.Text.{Text}
use multi_tenant_saas.Models.{Uuid, Timestamp, Project}
use multi_tenant_saas.Session.{entity_not_found, Result, ok, err, World, Action}
use multi_tenant_saas.Repositories.{get_by_id, list_paginated}
use multi_tenant_saas.Repositories.Tables.{project_model}
use multi_tenant_saas.Access.{TenantContext}
use multi_tenant_saas.Cache.{RedisStrings, JsonCodec, cache_get, cache_set, cache_delete}
use multi_tenant_saas.Cache.Keys.{UuidText, project_key}
use multi_tenant_saas.Projects.{ProjectCreate, ProjectUpdate, create_project, update_project}

pub record ProjectResponse : Type 0 where
  pub id : Uuid
  pub organization_id : Uuid
  pub team_id : Option Uuid
  pub name : Text
  pub key : Text
  pub description : Option Text
  pub is_archived : Bool
  pub version_id : ℕ
  pub created_at : Timestamp

-- `ProjectResponse.model_validate(project, from_attributes=True)`
abbrev pub project_response : Project → ProjectResponse
project_response project = record {
  id = project.id;
  organization_id = project.organization_id;
  team_id = project.team_id;
  name = project.name;
  key = project.key;
  description = project.description;
  is_archived = project.is_archived;
  version_id = project.version_id;
  created_at = project.created_at;
}

-- The handler `create_project`: no actor is passed to the service.
unfoldable pub create_project_route : ProjectCreate → TenantContext → Action Project
create_project_route payload ctx = create_project ctx.organization_id payload none

unfoldable pub list_projects : TenantContext → Action (List Project)
unfolding list_paginated
list_projects ctx = list_paginated project_model ctx.organization_id 0 100 false

module _ (redis : RedisStrings) (uuids : UuidText) (json : JsonCodec ProjectResponse) where
  open redis use {State}

  -- `if not project`, else the response is stored in the cache for 300 seconds.
  abbrev pub read_through :
      Text → Result (Option Project) × World → State → Result ProjectResponse × World × State
  read_through cache_key (err e, w) s = (err e, w, s)
  read_through cache_key (ok none, w) s = (err (entity_not_found "Project"), w, s)
  read_through cache_key (ok (some project), w) s = (
    ok (project_response project),
    w,
    cache_set redis json w.now cache_key (project_response project) 300 s,
  )

  abbrev pub cached_or_read :
      Uuid
      → TenantContext
      → Option ProjectResponse
      → World × State
      → Result ProjectResponse × World × State
  cached_or_read project_id ctx (some cached_project) (w, s) = (ok cached_project, w, s)
  cached_or_read project_id ctx none (w, s) =
      read_through (project_key uuids ctx.organization_id project_id)
        (get_by_id project_model ctx.organization_id project_id false w) s

  unfoldable pub get_project :
      Uuid → TenantContext → World × State → Result ProjectResponse × World × State
  unfolding get_by_id
  get_project project_id ctx (w, s) =
      cached_or_read project_id ctx
        (cache_get redis json w.now (project_key uuids ctx.organization_id project_id) s) (w, s)

  -- After a successful update the key is deleted; an exception of the service comes before that.
  abbrev pub invalidated :
      Text → Result Project × World → State → Result ProjectResponse × World × State
  invalidated cache_key (err e, w) s = (err e, w, s)
  invalidated cache_key (ok project, w) s =
      (ok (project_response project), w, cache_delete redis cache_key s)

  -- The handler `update_project`: no actor is passed to the service.
  unfoldable pub update_project_route :
      Uuid → ProjectUpdate → TenantContext → World × State → Result ProjectResponse × World × State
  update_project_route project_id payload ctx (w, s) =
      invalidated (project_key uuids ctx.organization_id project_id)
        (update_project ctx.organization_id project_id payload none w) s
