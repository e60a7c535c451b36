-- ===== src/Tasks/Create.antt =====
-- What `POST /tasks` does, on every branch.
use multi_tenant_saas.Base.{
  ◌+◌, ◌≡◌, ◌≢◌, refl, sym, true, false, none, some, [], ◌∷◌, ◌++◌, ◌==◌, ◌≤◌, length, filter,
  head?, ==_iff, head?-filter_passes, any_of_head?, arith, if◌then◌else◌,
}
use multi_tenant_saas.Models.{Db, Task, Project, AuditLog, backlog, create, JsonValue}
use multi_tenant_saas.Session.{database_error, ok, err, Event, World, roll_back, broadcast_to_room}
use multi_tenant_saas.Repositories.Tables.{task_table, has_organization, has_user}
use multi_tenant_saas.Access.{TenantContext}
use multi_tenant_saas.Tasks.{create_task_service}
use multi_tenant_saas.Tasks.Endpoints.{TaskCreate, create_task}

-- The row that the request asks for.
abbrev pub requested_task : TaskCreate → TenantContext → World → Task
requested_task payload ctx w = record {
  id = w.next_uuid;
  organization_id = ctx.organization_id;
  project_id = payload.project_id;
  parent_id = none;
  reporter_id = ctx.user.id;
  assignee_id = payload.assignee_id;
  title = payload.title;
  description = payload.description;
  status = backlog;
  priority = payload.priority;
  due_date = none;
  version_id = 1;
  created_at = w.now;
  updated_at = w.now;
  is_deleted = false;
  deleted_at = none;
}

abbrev pub creation_audit : World → Task → AuditLog
creation_audit w task = record {
  id = w.next_uuid + 1;
  organization_id = task.organization_id;
  actor_id = some task.reporter_id;
  entity_type = "Task";
  entity_id = task.id;
  action = create;
  before_state = none;
  after_state = some (
      ("title", JsonValue.text task.title)
      ∷ ("status", JsonValue.status task.status)
      ∷ ("priority", JsonValue.priority task.priority)
      ∷ []);
  ip_address = none;
  user_agent = none;
  timestamp = w.now;
}

abbrev pub creation_event : Task → Event
creation_event task = record {
  room = task.project_id;
  event_type = "TASK_CREATED";
  payload =
      ("task_id", JsonValue.uuid task.id)
      ∷ ("title", JsonValue.text task.title)
      ∷ ("priority", JsonValue.priority task.priority)
      ∷ ("status", JsonValue.status task.status)
      ∷ [];
}

abbrev pub created_db : World → Task → Db
created_db w task = record w.working {
  tasks = w.working.tasks ++ task ∷ [];
  audit_logs = w.working.audit_logs ++ creation_audit w task ∷ [];
}

abbrev pub created : World → Task → World
created w task = record w {
  working = created_db w task;
  committed = created_db w task;
  next_uuid = w.next_uuid + 1 + 1;
  published = if w.pubsub_up then w.published ++ creation_event task ∷ [] else w.published;
}

module _ (payload : TaskCreate) (ctx : TenantContext) (w : World) where
  -- Creating a task succeeds exactly when the columns fit and the foreign keys are met: the
  -- organization, the project (of any organization), the reporter and the assignee exist. Then the
  -- row, without the payload's parent and due date, and its audit record are committed together,
  -- and the event goes to the project's room if the broker answers. Otherwise the database refuses
  -- the row, and the session is rolled back.
  pub create_task_lem : create_task payload ctx w ≡ (
      if task_table.valid w.working (requested_task payload ctx w)
      then (ok (requested_task payload ctx w), created w (requested_task payload ctx w))
      else (err database_error, roll_back (record w { next_uuid = w.next_uuid + 1 })))
  unfolding create_task create_task_service broadcast_to_room
  create_task_lem = ground arith

-- A project of another tenant is accepted. If the project exists and belongs to another
-- organization, the caller and the organization exist, nobody is assigned, the title fits and the
-- broker answers, then the task is created with an organization that differs from its project's,
-- and the event about it goes to the room of the other tenant's project.
pub create_task_foreign_project :
    (payload : TaskCreate) (ctx : TenantContext) (w : World) (project : Project)
    → head? (filter (λ r. r.id == payload.project_id) w.working.projects) ≡ some project
    → project.organization_id ≢ ctx.organization_id
    → has_organization w.working ctx.organization_id ≡ true
    → has_user w.working ctx.user.id ≡ true
    → payload.assignee_id ≡ none
    → length payload.title ≤ 255
    → w.pubsub_up ≡ true
    → let (r, w') = create_task payload ctx w in
      (task : Task) × (r ≡ ok task)
      × (w'.committed.tasks ≡ w.working.tasks ++ task ∷ [])
      × (task.project_id ≡ project.id)
      × (task.organization_id ≢ project.organization_id)
      × (w'.published ≡ w.published ++ creation_event task ∷ [])
      × ((creation_event task).room ≡ project.id)
create_task_foreign_project payload ctx w project found foreign ho hu ha fit up =
    let named = (==_iff project.id payload.project_id).0 (
      head?-filter_passes (λ (r : Project). r.id == payload.project_id) w.working.projects project
        found) in
    let known =
      any_of_head? (λ (r : Project). r.id == payload.project_id) w.working.projects project found in
    let valid : task_table.valid w.working (requested_task payload ctx w) ≡ true = ground arith in
    rw (create_task_lem payload ctx w, valid, up)
      (requested_task payload ctx w, refl, refl, sym named, λ e. foreign (sym e), refl, sym named)
