-- ===== src/Projects/Create.antt =====
-- What `create_project` of app/services/project.py does.
use multi_tenant_saas.Base.{
  ◌+◌, ◌≡◌, Bool, true, false, ◌&&◌, Option, none, some, [], ◌∷◌, ◌++◌, ◌==◌, arith, if◌then◌else◌,
  any, is_some-head?, is_some, head?, filter,
}
use multi_tenant_saas.Text.{Text, text_eq, strip, clean_key}
use multi_tenant_saas.Text.Laws.{clean_key_idem}
use multi_tenant_saas.Models.{Db, Uuid, Project, AuditLog, JsonValue, create}
use multi_tenant_saas.Session.{entity_conflict, database_error, Result, ok, err, World, roll_back}
use multi_tenant_saas.Repositories.Tables.{project_table, has_user, nullable}
use multi_tenant_saas.Projects.{ProjectCreate, create_project}

-- A project of the tenant has the key.
abbrev pub key_taken : Uuid → Text → Db → Bool
key_taken o key db = any (λ r. (r.organization_id == o) && text_eq r.key key) db.projects

abbrev pub new_project : Uuid → ProjectCreate → World → Project
new_project o payload w = record {
  id = w.next_uuid;
  organization_id = o;
  team_id = payload.team_id;
  name = strip payload.name;
  key = clean_key payload.key;
  description = payload.description;
  is_archived = false;
  version_id = 1;
  created_at = w.now;
  updated_at = w.now;
}

abbrev pub project_audit : World → Option Uuid → Project → AuditLog
project_audit w actor_id project = record {
  id = w.next_uuid + 1;
  organization_id = project.organization_id;
  actor_id = actor_id;
  entity_type = "Project";
  entity_id = project.id;
  action = create;
  before_state = none;
  after_state =
      some (("name", JsonValue.text project.name) ∷ ("key", JsonValue.text project.key) ∷ []);
  ip_address = none;
  user_agent = none;
  timestamp = w.now;
}

abbrev pub with_project : World → Option Uuid → Project → World
with_project w actor_id project =
    let db = record w.working {
      projects = w.working.projects ++ project ∷ [];
      audit_logs = w.working.audit_logs ++ project_audit w actor_id project ∷ [];
    } in
    record w { working = db; committed = db; next_uuid = w.next_uuid + 1 + 1 }

-- What the creation should do.
abbrev pub project_creation : Uuid → ProjectCreate → Option Uuid → World → Result Project × World
project_creation o payload actor_id w =
    let project = new_project o payload w in
    if key_taken o (clean_key payload.key) w.working
    then (err entity_conflict, roll_back w)
    else (if project_table.valid w.working project
        then (ok project, with_project w actor_id project)
        else (err database_error, roll_back (record w { next_uuid = w.next_uuid + 1 })))

module _ (o : Uuid) (payload : ProjectCreate) (actor_id : Option Uuid) (w : World) where
  found_is_taken :
      (key : Text)
      → is_some
          (head? (filter (λ r. (r.organization_id == o) && text_eq r.key key) w.working.projects))
        ≡ key_taken o key w.working
  found_is_taken key =
      is_some-head? (λ (r : Project). (r.organization_id == o) && text_eq r.key key)
        w.working.projects

  -- If the acting user exists, where one is given, creating a project does exactly this: a key that
  -- a project of the tenant has in its upper-case, stripped form is a conflict, a row that the
  -- database refuses is an error, both without a change of what is committed; otherwise the
  -- project, with version 1 and that form of the key, and its audit record are committed together.
  pub create_project_lem :
      nullable (has_user w.working) actor_id ≡ true
      → create_project o payload actor_id w ≡ project_creation o payload actor_id w
  unfolding create_project
  create_project_lem h =
      ground (arith, found_is_taken (clean_key payload.key), clean_key_idem payload.key)
