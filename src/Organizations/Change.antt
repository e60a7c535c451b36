-- ===== src/Organizations/Change.antt =====
-- What `update_current_organization` does.
use multi_tenant_saas.Base.{
  ◌≡◌, Option, none, some, ◌==◌, arith, if◌then◌else◌, filter, map_where, head?,
}
use multi_tenant_saas.Models.{Db, Uuid, Organization}
use multi_tenant_saas.Session.{entity_not_found, database_error, Result, ok, err, World}
use multi_tenant_saas.Repositories.Tables.{organization_table}
use multi_tenant_saas.Access.{TenantContext}
use multi_tenant_saas.Organizations.{
  OrganizationUpdate, apply_organization_update, update_current_organization,
}

abbrev pub organization_of : Uuid → Db → Option Organization
organization_of o db = head? (filter (λ r. r.id == o) db.organizations)

abbrev pub with_organization : World → Organization → World
with_organization w org =
    let db = record w.working {
      organizations = map_where (λ r. r.id == org.id) (λ _. org) w.working.organizations;
    } in
    record w { working = db; committed = db }

-- What the update should do, in terms of the caller's organization alone.
abbrev pub organization_change :
    OrganizationUpdate → World → Option Organization → Result Organization × World
organization_change payload w none = (err (entity_not_found "Organization"), w)
organization_change payload w (some before) =
    let after = apply_organization_update payload w.now before in
    if organization_table.valid w.working after
    then (ok after, with_organization w after)
    else (err database_error, w)

-- Updating the current organization does exactly this: without the organization it is a 404, and a
-- name or a logo address that is too long for its column is an error, both without a change;
-- otherwise the row of the organization, with the given attributes, is committed.
pub update_current_organization_lem :
    (payload : OrganizationUpdate) (ctx : TenantContext) (w : World)
    → update_current_organization payload ctx w
      ≡ organization_change payload w (organization_of ctx.organization_id w.working)
unfolding update_current_organization
update_current_organization_lem payload ctx w = ground arith
