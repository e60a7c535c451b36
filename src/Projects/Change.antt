-- ===== src/Projects/Change.antt =====
-- What `update_project` of app/services/project.py does.
use multi_tenant_saas.Base.{
  ℕ, ◌+◌, ◌≡◌, refl, ap, ◌∙◌, fun_ext, true, false, ◌&&◌, Option, none, some, List, [], ◌∷◌, ◌++◌,
  ◌==◌, arith, if◌then◌else◌, filter, map_where, head?, inl, inr, Option-cases, head?-filter_passes,
}
use multi_tenant_saas.Models.{Uuid, Timestamp, Project, AuditLog, update, JsonValue, JsonState}
use multi_tenant_saas.Session.{
  entity_not_found, entity_conflict, database_error, Result, ok, err, World, roll_back,
}
use multi_tenant_saas.Repositories.{in_scope}
use multi_tenant_saas.Repositories.Tables.{project_model, project_table, has_user, nullable}
use multi_tenant_saas.Projects.{ProjectUpdate, apply_project_update, update_project}
use multi_tenant_saas.Tasks.Assigned.{
  kept_or, kept_or_null, new_title, kept_or-or_else, kept_or_null-override, new_title-stripped,
}

-- The row that the update should leave, and the state of a row in the audit trail.
abbrev pub updated_project : ProjectUpdate → Timestamp → Project → Project
updated_project payload now r = record {
  id = r.id;
  organization_id = r.organization_id;
  team_id = kept_or_null r.team_id payload.team_id;
  name = new_title r.name payload.name;
  key = r.key;
  description = kept_or_null r.description payload.description;
  is_archived = kept_or r.is_archived payload.is_archived;
  version_id = r.version_id + 1;
  created_at = r.created_at;
  updated_at = now;
}

abbrev pub audited_state : Project → JsonState
audited_state r =
    ("name", JsonValue.text r.name)
    ∷ ("description", JsonValue.optional_text r.description)
    ∷ ("is_archived", JsonValue.flag r.is_archived)
    ∷ ("version_id", JsonValue.number r.version_id)
    ∷ []

updated_project-apply_project_update :
    (payload : ProjectUpdate) (now : Timestamp) (r : Project)
    → apply_project_update payload now r ≡ updated_project payload now r
unfolding apply_project_update
updated_project-apply_project_update payload now r =
    rw
      (
        new_title-stripped r.name payload.name,
        kept_or_null-override r.description payload.description,
        kept_or_null-override r.team_id payload.team_id,
        kept_or-or_else r.is_archived payload.is_archived,
      )
      refl

-- The project of the tenant with a key.
abbrev pub own_project : Uuid → Uuid → List Project → Option Project
own_project o project_id projects =
    head? (filter (λ r. (r.id == project_id) && in_scope project_model o false r) projects)

abbrev pub change_audit : World → Uuid → Option Uuid → Project → Project → AuditLog
change_audit w o actor_id before after = record {
  id = w.next_uuid;
  organization_id = o;
  actor_id = actor_id;
  entity_type = "Project";
  entity_id = after.id;
  action = update;
  before_state = some (audited_state before);
  after_state = some (audited_state after);
  ip_address = none;
  user_agent = none;
  timestamp = w.now;
}

abbrev pub with_change : World → Uuid → Option Uuid → Project → Project → World
with_change w o actor_id before after =
    let db = record w.working {
      projects = map_where (λ r. r.id == after.id) (λ _. after) w.working.projects;
      audit_logs = w.working.audit_logs ++ change_audit w o actor_id before after ∷ [];
    } in
    record w { working = db; committed = db; next_uuid = w.next_uuid + 1 }

-- What the update should do, in terms of the tenant's project and of the row that it becomes.
abbrev pub project_change_to :
    (Project → Project) → Uuid → ℕ → Option Uuid → World → Option Project → Result Project × World
project_change_to next o expected actor_id w none = (err (entity_not_found "Project"), roll_back w)
project_change_to next o expected actor_id w (some before) =
    let after = next before in
    if before.version_id == expected
    then (if project_table.valid w.working after
        then (ok after, with_change w o actor_id before after)
        else (err database_error, roll_back w))
    else (err entity_conflict, roll_back w)

-- What the update should do, in terms of the tenant's project alone.
abbrev pub project_change :
    Uuid → ProjectUpdate → Option Uuid → World → Option Project → Result Project × World
project_change o payload actor_id w =
    project_change_to (updated_project payload w.now) o payload.expected_version actor_id w

module _ (o project_id : Uuid) (payload : ProjectUpdate) (actor_id : Option Uuid) (w : World) where
  project_change_to_lem :
      nullable (has_user w.working) actor_id ≡ true
      → update_project o project_id payload actor_id w
        ≡ project_change_to
            (apply_project_update payload w.now)
            o
            payload.expected_version
            actor_id
            w
            (own_project o project_id w.working.projects)
  unfolding update_project apply_project_update
  project_change_to_lem h = elim (Option-cases (own_project o project_id w.working.projects)) [
    | inl missing ↦ ground arith
    | inr (before, found) ↦
        let mine =
          head?-filter_passes
            (λ (r : Project). (r.id == project_id) && in_scope project_model o false r)
            w.working.projects before found in
        let same : before.organization_id ≡ o = ground arith in ground arith
  ]

  -- If the acting user exists, where one is given, updating a project does exactly this: no project
  -- of the tenant, another version than the expected one and a row that the database refuses are
  -- errors without a change of what is committed; otherwise the given attributes are assigned, the
  -- name without outer spaces, the version is one higher, and the project's row and an audit record
  -- with the states before and after (name, description, archived or not, version) are committed
  -- together.
  pub update_project_lem :
      nullable (has_user w.working) actor_id ≡ true
      → update_project o project_id payload actor_id w
        ≡ project_change o payload actor_id w (own_project o project_id w.working.projects)
  update_project_lem h =
      project_change_to_lem h
      ∙ ap
          (λ next.
            project_change_to next o payload.expected_version actor_id w
              (own_project o project_id w.working.projects))
          (fun_ext (updated_project-apply_project_update payload w.now))
