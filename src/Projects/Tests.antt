-- ===== src/Projects/Tests.antt =====
-- The theorems on projects at the sample database.
use multi_tenant_saas.Base.{List, ◌≡◌, refl, true, some, none, [], ◌∷◌}
use multi_tenant_saas.Samples.{ann, sample_world, sample_db}
use multi_tenant_saas.Models.{manager}
use multi_tenant_saas.Access.{TenantContext}
use multi_tenant_saas.Cache.Samples.{sample_redis, sample_uuids}
use multi_tenant_saas.Projects.Json.{sample_json}
use multi_tenant_saas.Projects.Coherence.{
  ProjectRequest, read, change, plain_answers, answers, IsCoherent,
}
use multi_tenant_saas.Projects.Transparent.{answers_refine}
use multi_tenant_saas.Projects.{ProjectUpdate, update_project}
use multi_tenant_saas.Projects.Change.{own_project, project_change, update_project_lem}

abbrev archive : ProjectUpdate
archive = record {
  name = none;
  description = none;
  team_id = none;
  is_archived = some true;
  expected_version = 1;
}

update_project_lem_example :
    update_project 11 31 archive none sample_world
    ≡ project_change 11 archive none sample_world (own_project 11 31 sample_db.projects)
update_project_lem_example = update_project_lem 11 31 archive none sample_world refl

abbrev member_context : TenantContext
member_context = record { organization_id = 11; user = ann; role = manager }

-- A read that fills the cache, a read from it, an update, a read of the new version, and another
-- tenant's read of the same id.
abbrev traffic : List ProjectRequest
traffic =
    read 1001 31 member_context
    ∷ read 1002 31 member_context
    ∷ change 1003 31 archive member_context
    ∷ read 1004 31 member_context
    ∷ read 1005 31 (record member_context { organization_id = 12 })
    ∷ []

empty_cache-IsCoherent : IsCoherent sample_redis sample_uuids sample_json sample_db.projects []
empty_cache-IsCoherent = record { stored = λ o p value r e v. cc; distinct = (refl, (refl, _)) }

answers_refine_example :
    answers sample_redis sample_uuids sample_json traffic (sample_world, [])
    ≡ plain_answers traffic sample_world
answers_refine_example =
    answers_refine sample_redis sample_uuids sample_json (λ k t. (_, refl)) traffic sample_world []
      empty_cache-IsCoherent
